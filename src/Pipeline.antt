-- ===== src/Pipeline.antt =====
-- realhf/impl/model/parallelism/pipeline_parallel: the instructions and the static schedules.
pub mod Instruction
pub mod Schedule
pub mod Channels
pub mod Train
pub mod Inference
pub mod Generate
pub mod DataParallel
mod Examples
