-- ===== src/Tests.antt =====
-- Theorems at concrete inputs, and runs of the definitions.
pub mod Mod3
mod Graphs
mod Parts
mod Matrices
mod Programs
mod Decisions
mod Tapes
mod Stages
