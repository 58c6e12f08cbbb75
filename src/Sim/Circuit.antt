-- ===== src/Sim/Circuit.antt =====
-- The simulator's state, and one clock cycle of the circuit: core/csrc/cpu/riscv_api.cpp, the
-- cycles of core/csrc/cpu/cpu-exec.cpp, and core/csrc/utils/state.cpp. The circuit itself is
-- generated from Verilog: it is a parameter, and a cycle of it is the sequence of the calls that it
-- makes.
use ic_competition.Base.{
  ℕ, zero, suc, ◌+◌, ◌%◌, ◌^◌, ◌==◌, if◌then◌else◌, Bool, true, false, Option, none, some, List,
}
use ic_competition.Difftest.{Test}
use ic_competition.Sdb.Watchpoint.{Pool}
use ic_competition.Sim.Memory.{Bus, pmem_read, pmem_write}

-- NPC_RUNNING, NPC_QUIT, NPC_STOP, NPC_ABORT, NPC_END
pub data Npc : Type 0 where
  running quit stop abort end_ : Npc

pub record NpcState : Type 0 where
  pub state : Npc
  pub halt_pc : ℕ
  pub halt_ret : ℕ

abbrev pub is_running : Npc → Bool
is_running running = true
is_running _ = false

abbrev pub is_end : Npc → Bool
is_end end_ = true
is_end _ = false

abbrev pub has_ended : Npc → Bool
has_ended end_ = true
has_ended quit = true
has_ended _ = false

-- Whether the exit status is bad: is_exit_status_bad().
unfoldable pub is_exit_status_bad : NpcState → Bool
is_exit_status_bad n = elim n.state [
  | end_ ↦ if n.halt_ret == 0 then false else true
  | quit ↦ false
  | _ ↦ true
]

-- The calls that the circuit makes in a cycle: pmem_read(), pmem_write(), npctrap() with the register
-- a0 as it is then, and unknow_inst().
pub data Cycle (c : Type 0) : Type 0 where
  settled : c → Cycle c
  read : ℕ → (ℕ → Cycle c) → Cycle c
  write : ℕ → ℕ → ℕ → Cycle c → Cycle c
  npctrap : ℕ → ℕ → Cycle c → Cycle c
  unknow_inst : ℕ → Cycle c → Cycle c

-- `clk` low and high, and the exported functions read_pc(), read_reg() and read_state().
pub record Circuit (c : Type 0) : Type 0 where
  pub cycle : c → Cycle c
  pub read_pc : c → ℕ
  pub read_reg : c → ℕ → ℕ
  pub read_state : c → ℕ

-- The ring buffer of the last instructions.
pub record Iring : Type 0 where
  pub buf : ℕ → List ℕ
  pub ptr : ℕ

pub record State (c r : Type 0) : Type 0 where
  pub circuit : c
  pub bus : Bus
  pub test : Test r
  pub npc : NpcState
  pub pool : Pool
  pub iring : Iring
  pub nr_guest_inst : ℕ
  pub nr_clk_tick : ℕ

module _ {c r : Type 0} where
  abbrev pub set_npc : Npc → State c r → State c r
  set_npc n s = record s { npc = record s.npc { state = n } }

  -- The switch at the end of cpu_exec(): a state that is still running is stopped.
  abbrev pub settle : State c r → State c r
  settle s = if is_running s.npc.state then set_npc stop s else s

  -- The calls of one cycle; `us` is what get_time() returns in it, and `none` a panic.
  unfoldable pub run_cycle : Bool → ℕ → Cycle c → State c r → Option (State c r)
  run_cycle device us (settled x) s = some (record s { circuit = x })
  run_cycle device us (read a k) s = elim (pmem_read device us a s.bus) [
    | none ↦ none
    | some (v, b) ↦ run_cycle device us (k v) (record s { bus = b })
  ]
  run_cycle device us (write a v m k) s = elim (pmem_write device a v m s.bus) [
    | none ↦ none
    | some b ↦ run_cycle device us k (record s { bus = b })
  ]
  run_cycle device us (npctrap pc a0 k) s =
      run_cycle device us k
        (record s { npc = record { state = end_; halt_pc = pc; halt_ret = a0 } })
  run_cycle device us (unknow_inst pc k) s =
      let rest = run_cycle device us k s in if is_running s.npc.state then none else rest

-- What the simulator is built with: CONFIG_DEVICE, CONFIG_DIFFTEST and CONFIG_WATCHPOINT, the
-- circuit, the clock of the host by the number of the cycle, and the text that stands in `logbuf`
-- for an instruction and its address.
pub record Config (c : Type 0) : Type 0 where
  pub device : Bool
  pub difftest : Bool
  pub watchpoint : Bool
  pub circuit : Circuit c
  pub get_time : ℕ → ℕ
  pub logbuf : ℕ → ℕ → List ℕ

module _ {c r : Type 0} (cfg : Config c) where
  unfoldable pub single_cycle : State c r → Option (State c r)
  unfolding run_cycle
  single_cycle s =
      let ticks = (s.nr_clk_tick + 1) % 2 ^ 64 in
      run_cycle cfg.device (cfg.get_time ticks) (cfg.circuit.cycle s.circuit)
        (record s { nr_clk_tick = ticks })

  -- `for (int i = 0; i < 40; i++)`, with the rounds left first; the panic behind it is `none`.
  unfoldable pub cycles : ℕ → State c r → Option (State c r)
  cycles zero s = none
  cycles (suc n) s = elim (single_cycle s) [
    | none ↦ none
    | some t ↦ elim (cfg.circuit.read_state t.circuit == 1) [ true ↦ some t | false ↦ cycles n t ]
  ]

  abbrev pub exec_one_inst : State c r → Option (State c r)
  exec_one_inst s = cycles 40 s
