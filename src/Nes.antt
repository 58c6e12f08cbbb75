-- ===== src/Nes.antt =====
-- The NES emulator of am-kernels/kernels/litenes/src: a 6502 processor, its memory map, the registers
-- of the picture unit and the joystick.
pub mod State
pub mod Ppu
pub mod Memory
pub mod Addressing
pub mod Flags
pub mod Alu
pub mod Ops
pub mod Table
pub mod Run
pub mod Stack
pub mod Carry
pub mod Borrow
pub mod Mirror
pub mod Registers
