-- ===== src/Lib.antt =====
-- Verification of the Model C library (dse/modelc), the runtime of the Dynamic Simulation
-- Environment.
--
-- Five parts are modelled. In the PDU network, signals of a model are calculated, packed into the
-- payloads of PDUs and sent, and received PDUs are unpacked. The SimBus joins the models, the
-- adapter of a model talks to it, and the controller steps the models. The model library has a
-- gateway and an interface to foreign models. Base holds the shared names and the lemmas on
-- lists, Word the arithmetic of machine words and their bits, and the FNV-1a loop. Double is an
-- interface for C's double, of which only the laws of == are assumed. Pdu holds the data of
-- dse/modelc/pdunet.h. Pdu.Pack and Pdu.Matrix model dse/modelc/model/pdunet/matrix.c: one signal
-- packed and unpacked, the range functions over the rows of the signal matrix, and the linear
-- transform of one row; Pdu.Matrix.Transform builds the matrix. Pdu.Ranges runs these over the
-- ranges of a network. Pdu.Schedule models pdunet_schedule() of
-- dse/modelc/model/pdunet/network.c. Pdu.Tx models pdunet_checksum() and the visitors of
-- dse/modelc/model/pdunet.c, which decide whether a PDU is sent. Pdu.Container models the two
-- container visitors of network.c. Pdu.Parse models how a network's PDUs are read and Pdu.Cycle
-- its set-up, pdunet_tx() and pdunet_rx() (network.c and pdunet.c). Pdu.Script is the interface
-- to the Lua scripts of a network. SimBus models the bus that the models of a simulation share:
-- its data (dse/modelc/adapter/adapter.h), SimBus.Index the lookup of signals
-- (dse/modelc/adapter/index.c), SimBus.States the sets of connected and ready models
-- (dse/modelc/adapter/simbus/states.c), SimBus.Handler the messages
-- (dse/modelc/adapter/simbus/handler.c), and SimBus.Run its set-up and run loop
-- (dse/modelc/adapter/simbus/adapter.c). Adapter models the side of the models
-- (dse/modelc/adapter): Adapter.Notify the messages that a model sends and handles
-- (adapter_msg.c), Adapter.Message the stream of messages (message.c), Adapter.Session how a
-- model joins, waits for a step and leaves, Adapter.Loopback the adapter that joins models of one
-- process (adapter_loopb.c), and Adapter.Sync the bus and a model as one shared memory.
-- Controller models how signals move between an adapter and a model's vectors
-- (dse/modelc/controller/transform.c and controller.c), the merge of a sequential co-simulation
-- and the step of the models (step.c), the cycle of the simulation, and, in Controller.Run and
-- Controller.Calls, the run of a simulation and its calls of the adapter (adapter.c). Model
-- models the gateway (dse/modelc/model/gateway.c), the model compatibility library (mcl.c), the
-- expansion of variables (model.c), and, in Model.Signals, the binary signals (signal.c) and
-- their streams (ncodec.c), in Model.Schema the search for schema objects (schema.c), in
-- Model.Index the lookup of signals (model.c), and in Model.Channel how a model configures a
-- channel (model.c and adapter.c). Tests applies the theorems to small inputs.
--
-- State is passed explicitly. A pointer to a PDU object is its index, a NULL payload is `none`,
-- and an access outside a buffer or an assertion that fails gives `none` or `fault`. Words are
-- native numbers with the wrap-around written out.
--
-- Bounds: packing and unpacking take fuel of one round more than the signal has bits, which is
-- enough, since every round but the last takes eight bits. The loop over a received container
-- takes a number of rounds that is a parameter; `running` is what is left when they are used up.
-- The loops of the gateway and of a foreign model's step take a number of rounds as well, and
-- `none` is what is left. The stream of messages takes as many rounds as the buffer has bytes,
-- which is enough, since each message takes more than four. The expansion of variables takes one
-- round more than the source has characters, which is enough, since each round but the last takes
-- the start and the end of a variable.
--
-- Not modelled: YAML parsing, log output, the NCodec library, the Lua interpreter, the Redis
-- transport, and the set-up and loading of models. Reading and writing flatbuffers, and what the
-- endpoint receives, are parameters.
pub mod Base
pub mod Word
pub mod Double
pub mod Pdu
pub mod SimBus
pub mod Adapter
pub mod Controller
pub mod Model
pub mod Tests
