-- ===== src/Tests/Kernels.antt =====
-- Interrupts of two CPUs that share the five tasks of thread-os.c, traps of yield-os.c,
-- and a round of snake.c.
use ic_competition.Base.{false, ◌==◌, if◌then◌else◌, ℕ, ◌+◌, ◌*◌, refl, List, [], ◌∷◌, none, arith}
use ic_competition.Kernels.Snake.{Dim, Game, play, right}
use ic_competition.Kernels.Snake.Play.{Played, play-Played}
use ic_competition.Kernels.Cte.{Context}
use ic_competition.Kernels.YieldOs.{System, pcb_boot, main_threads, traps}
use ic_competition.Kernels.YieldOs.Alternate.{AreYields, turn, IsResumed, traps-IsResumed}
use ic_competition.Kernels.ThreadOs.{Task}
use ic_competition.Kernels.ThreadOs.Fair.{Interrupt, interrupts, turns, AreOnline, IsReached}
use ic_competition.Kernels.ThreadOs.Main.{
  started, IsExclusive, interrupts-IsExclusive, started-IsReached,
}

-- The names "A" to "E", with the address 0x1000 for `func`.
abbrev tasks : ℕ → Task
tasks i = record { name = (b'A' + i) ∷ []; next = none; entry = 0x1000; context = 0 }

abbrev kcontext : ℕ → ℕ
kcontext i = 0x80000000 + 12288 * (i + 1)

abbrev sequence : List Interrupt
sequence = (0, 16) ∷ (1, 32) ∷ (1, 48) ∷ (0, 64) ∷ (1, 80) ∷ (1, 96) ∷ (0, 112) ∷ (1, 128) ∷ []

sequence-AreOnline : AreOnline 2 sequence
unfolding AreOnline
sequence-AreOnline = (
  omega arith,
  (
    omega arith,
    (omega arith, (omega arith, (omega arith, (omega arith, (omega arith, (omega arith, tt)))))),
  ),
)

interrupts-IsExclusive_example : IsExclusive (interrupts 5 2 sequence (started 5 kcontext tasks))
interrupts-IsExclusive_example =
    interrupts-IsExclusive 5 2 sequence kcontext tasks (omega arith) sequence-AreOnline

started-IsReached_example : IsReached 5 2 1 3 sequence (started 5 kcontext tasks)
started-IsReached_example =
    started-IsReached 5 2 1 3 sequence kcontext tasks (omega arith) (omega arith) refl
      sequence-AreOnline (unfold turns in omega arith)

-- A trap that yield() makes at the address `pc`, with the stack pointer `sp`.
abbrev registers : ℕ → ℕ → Context
registers sp pc = record {
  gpr = λ i. if i == 2 then sp else i;
  mcause = 0xb;
  mstatus = 0x1800;
  mepc = pc;
}

abbrev memory : System
memory = (λ a. registers 0 0, record { cp_0 = 0; cp_1 = 0; cp_boot = 0; current = pcb_boot })

-- main traps, then the first thread, then the second.
traps-IsResumed_example : IsResumed (turn 1 pcb_boot) (registers 0x80005000 0x100) (
    traps
      ((registers 0x80009000 0x40)
        ∷ (registers 0x80005000 0x100)
        ∷ (registers 0x80007000 0x100)
        ∷ [])
      (record {
        registers = registers 0 0;
        system = main_threads 0x80006000 0x80008000 0x100 memory;
      }))
traps-IsResumed_example =
    traps-IsResumed 0x80006000 0x80008000 0x100 memory (registers 0x80009000 0x40) (registers 0 0)
      [] (registers 0x80005000 0x100) (registers 0x80007000 0x100) (λ e. absurd (omega arith))
      (λ e. absurd (omega arith)) (unfold AreYields in (λ e. absurd (omega arith), refl, tt))
      (unfold AreYields in (λ e. absurd (omega arith), refl, (λ e. absurd (omega arith), refl, tt)))
      (omega arith) (λ e. absurd (omega arith))

abbrev board : Dim
board = record { width = 48; height = 36 }

-- The game as main begins it.
abbrev beginning : Game
beginning = record {
  snake = record {
    body = λ i.
        if i == 0
        then record { x = 24; y = 18 }
        else if i == 1
        then record { x = 24; y = 19 }
        else record { x = 0; y = 0 };
    length = 2;
    index = 1;
    dead = false;
  };
  dir = right;
  food = record { x = 25; y = 19 };
}

-- LEFT is ignored, and the snake eats.
play-Played_example :
    Played board
      (record { x = 3; y = 4 })
      beginning
      (play board 75 (record { x = 3; y = 4 }) beginning)
play-Played_example =
    play-Played board 75 (record { x = 3; y = 4 }) beginning (λ e. cc) (omega arith) (omega arith)
      (omega arith)
