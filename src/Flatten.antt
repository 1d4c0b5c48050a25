-- ===== src/Flatten.antt =====
-- realhf/impl/model/nn/flatten_param.py, how the parameters of a model lie in one flat array.
pub mod Intervals
pub mod Keys
pub mod Shapes
pub mod Spec
pub mod Layout
pub mod Params
pub mod Stored
pub mod Total
mod Examples
pub mod SetSlice
