-- ===== src/System.antt =====
-- realhf/system: the master worker, the model workers, and the streams between them.
pub mod Dict
pub mod Payload
pub mod Client
pub mod Worker
pub mod Requests
pub mod Dispatch
pub mod Throttle
mod Examples
mod Runs
