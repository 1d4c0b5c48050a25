-- ===== src/Packing.antt =====
-- realhf/base/datapack.py: packing sequences into batches.
pub mod Partition
mod Examples
