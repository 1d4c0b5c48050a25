-- ===== src/Topology.antt =====
-- realhf/base/topology.py: the mapping of ranks to coordinates in a grid of processes.
pub mod Grid
pub mod Factors
