-- ===== src/Nes/Table.antt =====
-- The instruction table that cpu_init() of cpu.c fills: the handler, the addressing mode and the
-- cycles of every op code that it names. The names and the column for the base set are never read.
pub mod Kinds
pub mod BaseSet
pub mod Extended
use ic_competition.Base.{ℕ, Option, none, some, List, [], ◌∷◌, ◌++◌, ◌==◌, if◌then◌else◌}
use ic_competition.Nes.Table.Kinds.{Row, row}
use ic_competition.Nes.Table.BaseSet.{low_rows, high_rows}
use ic_competition.Nes.Table.Extended.{extended_rows, future_rows}

abbrev pub op_table : List Row
op_table = low_rows ++ high_rows ++ extended_rows ++ future_rows

-- `none` is a NULL addressing mode.
unfoldable pub find_row : ℕ → List Row → Option Row
find_row code [] = none
find_row code (row c n o m ∷ rows) =
    let rest = find_row code rows in if c == code then some (row c n o m) else rest
