-- ===== src/Tests.antt =====
-- Runs of the modelled code on concrete inputs.
mod Strings
mod Debugger
mod Console
mod Lockstep
mod Expressions
mod Programs
mod Kernels
mod Letters
mod Simulator
mod Session
