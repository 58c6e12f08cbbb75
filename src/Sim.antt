-- ===== src/Sim.antt =====
-- The simulator around the circuit: core/csrc.
pub mod Memory
pub mod Circuit
pub mod Exec
pub mod Ftrace
pub mod Commands
pub mod Evaluate
