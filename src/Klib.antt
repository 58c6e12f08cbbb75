-- ===== src/Klib.antt =====
-- The C library subset of abstract-machine/klib/src: string.c in Str, stdlib.c in Stdlib,
-- stdio.c in Stdio. Memory.antt is the byte store that string.c works on.
pub mod Memory
pub mod Str
pub mod Stdlib
pub mod Stdio
