-- ===== src/Tests.antt =====
-- The theorems at concrete inputs.
mod Common
mod Pack
mod Container
mod Matrix
mod Tx
mod SimBus
mod Adapter
mod Controller
mod Loopback
mod Model
mod Signals
mod Schema
mod Channel
mod Live
