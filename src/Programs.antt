-- ===== src/Programs.antt =====
-- Programs that run on the processor: of am-kernels/tests/cpu-tests/tests and
-- am-kernels/kernels/demo.
pub mod Array
pub mod Bubble
pub mod Select
pub mod Crc
pub mod Hanoi
pub mod Life
