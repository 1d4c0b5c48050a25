-- ===== src/Buffer.antt =====
-- realhf/system/buffer.py: the buffer of sequences between the model function calls.
pub mod Errors
pub mod Sample
pub mod Intervals
pub mod Slots
pub mod State
pub mod Storage
pub mod Put
pub mod Amend
pub mod Get
pub mod Reach
mod Examples
