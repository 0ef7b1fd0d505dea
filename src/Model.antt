-- ===== src/Model.antt =====
-- The interfaces of the model library in dse/modelc/model: gateway.c, mcl.c, the binary signals of
-- signal.c and ncodec.c, the search of schema.c, and of model.c the expansion of variables and the
-- lookup of signals.
pub mod Gateway
pub mod Mcl
pub mod Expand
pub mod Signals
pub mod Schema
pub mod Index
pub mod Channel
