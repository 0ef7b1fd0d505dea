-- ===== src/Adapter/Message.antt =====
-- The messages that reach an adapter: dse/modelc/adapter/message.c. A buffer of the endpoint holds
-- messages, each with its size before it; the reading of the size and of the message belongs to
-- flatbuffers and is given (Wire), and so is what the adapter does with a message. The trace of
-- the messages is left out.
pub mod Frames
use dse_modelc.Base.{
  ℕ, zero, suc, ◌+◌, ◌-◌, Bool, true, false, ◌&&◌, ◌||◌, Option, none, some, List, [], ◌∷◌, length,
  take, drop, ltb, not, ◌==◌, ◌>>=◌, if◌then◌else◌,
}
use dse_modelc.Adapter.{Notice}

-- The size in front of a message, and the message; `none` is a message without the identifier
-- SBNO.
pub record Wire (D : Type 0) : Type 0 where
  pub read_size_prefix : List ℕ → ℕ
  pub as_root : List ℕ → Option (Notice D)

-- The adapter as the messages see it: `handle` is v->handle_notify_message, `has_model` tells
-- whether a model uid is in adapter->models.
pub record Handler (D A : Type 0) : Type 0 where
  pub bus_mode : Bool
  pub has_model : A → ℕ → Bool
  pub handle : A → Notice D → Option A

-- What endpoint->recv_fbs() gives: a buffer, or nothing, because of a timeout or otherwise.
pub data Arrival : Type 0 where
  stream : List ℕ → Arrival
  timeout : Arrival
  nothing : Arrival

-- The return codes of wait_message().
abbrev pub etime : ℕ
etime = 62

abbrev pub enomsg : ℕ
enomsg = 42

-- A code with the rest of the arrivals.
pub record Waited (A : Type 0) : Type 0 where
  pub rc : ℕ
  pub found : Bool
  pub adapter : A
  pub arrivals : List Arrival

module _ {D A : Type 0} (h : Handler D A) where
  -- The message is handled, and found.
  abbrev pub handled : A → Notice D → Option (Bool × A)
  handled a n = h.handle a n >>= (λ a'. some (true, a'))

  -- Whether the message is what the caller waits for, and the adapter after it.
  unfoldable pub process_sbno_message : ℕ → A → Notice D → Option (Bool × A)
  process_sbno_message token a (Notice.model_register notify_token uid) =
      if h.bus_mode
      then handled a (Notice.model_register notify_token uid)
      else some (not (token == 0) && h.has_model a uid && notify_token == token, a)
  process_sbno_message token a (Notice.signal_index channel uid notify_token indexes) =
      if h.bus_mode || (not (token == 0) && h.has_model a uid && notify_token == token)
      then handled a (Notice.signal_index channel uid notify_token indexes)
      else some (false, a)
  process_sbno_message token a Notice.model_exit =
      if h.bus_mode then handled a Notice.model_exit else some (false, a)
  process_sbno_message token a (Notice.notify vs model_time schedule_time) =
      if token == 0 then handled a (Notice.notify vs model_time schedule_time) else some (false, a)

module _ {D A : Type 0} (wire : Wire D) (h : Handler D A) (token : ℕ) where
  -- The messages of a buffer. `rounds` bounds the loop; each message takes more than four bytes.
  unfoldable pub process_stream : ℕ → List ℕ → Bool → A → Option (Bool × A)
  process_stream zero buffer found a = some (found, a)
  process_stream (suc rounds) buffer found a =
      let msg_len = wire.read_size_prefix buffer in
      let rest = drop 4 buffer in
      if ltb (length buffer) 4 || msg_len == 0 || ltb (length rest) msg_len
      then some (found, a)
      else elim (wire.as_root (take msg_len rest)) [
        | none ↦ some (found, a)
        | some n ↦
            process_sbno_message h token a n
            >>= (λ r. process_stream rounds (drop msg_len rest) (found || r.0) r.1)
      ]

  abbrev pub process_message_stream : List ℕ → A → Option (Bool × A)
  process_message_stream buffer a = process_stream (length buffer) buffer false a

  -- Buffers are received until the message is found. On a timeout a model gives up with ETIME. When
  -- no arrival is left the caller waits on, which is `none`, like a fault.
  unfoldable pub wait_message : List Arrival → A → Option (Waited A)
  wait_message [] a = none
  wait_message (Arrival.timeout ∷ es) a =
      some
        (record { rc = if h.bus_mode then 0 else etime; found = false; adapter = a; arrivals = es })
  wait_message (Arrival.nothing ∷ es) a =
      some (record { rc = 0; found = false; adapter = a; arrivals = es })
  wait_message (Arrival.stream buffer ∷ es) a = process_message_stream buffer a >>= (λ r.
      if r.0 || h.bus_mode
      then some (record { rc = 0; found = r.0; adapter = r.1; arrivals = es })
      else wait_message es r.1)

  -- After a message is sent: the wait for its acknowledgement. In bus mode a found message fails
  -- an assertion.
  unfoldable pub wait_ack : List Arrival → A → Option (Waited A)
  wait_ack es a =
      if token == 0
      then some (record { rc = 0; found = false; adapter = a; arrivals = es })
      else (wait_message es a >>= (λ w.
          if w.found
          then (if h.bus_mode then none else some w)
          else some (record w { rc = if w.rc == etime then etime else enomsg })))
