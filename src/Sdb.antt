-- ===== src/Sdb.antt =====
-- The simple debugger of core/csrc/monitor/sdb: watchpoint.c in Watchpoint, expr.c in Expr.
pub mod Outcome
pub mod Watchpoint
pub mod Expr
