-- ===== src/Kernels.antt =====
-- The small kernels of am-kernels/kernels that switch between threads.
pub mod ThreadOs
pub mod Cte
pub mod YieldOs
pub mod Snake
pub mod Typing
