-- ===== src/Tests/Programs.antt =====
-- Runs of the sorting programs on a concrete array, and of the checksum on concrete texts.
use ic_competition.Base.{
  ℕ, ◌≡◌, refl, false, arith, List, [], ◌∷◌, pos, negsuc, ◌==◌, ◌&&◌, ltb, if◌then◌else◌,
}
use ic_competition.Programs.Hanoi.{Towers, init_tower, add_disk, add_disks, add_to, set_tower}
use ic_competition.Programs.Hanoi as Hanoi
use ic_competition.Programs.Hanoi.Solved.{Solved, move-Solved}
use ic_competition.Programs.Life.{Board, evolve}
use ic_competition.Programs.Life.Rule.{conway, evolve-conway}
use ic_competition.Programs.Crc.{Statics, table_entry, make_table, crc_loop, rc_crc32}
use ic_competition.Programs.Crc.Table.{AreBytes, IsChecksum, rc_crc32-IsChecksum}
use ic_competition.Programs.Array.{Array, IsSortedFrom}
use ic_competition.Programs.Bubble.{bubble_sort, bubble_sort-IsSortedFrom}
use ic_competition.Programs.Select.{select_sort, select_sort-IsSortedFrom}

abbrev values : Array
values i =
    if i == 0
    then pos 2
    else if i == 1
    then negsuc 4
    else if i == 2
    then pos 9
    else if i == 3
    then pos 2
    else pos 0

bubble_sort-IsSortedFrom_example : IsSortedFrom values (bubble_sort 5 values) 5
bubble_sort-IsSortedFrom_example = bubble_sort-IsSortedFrom 5 values

select_sort-IsSortedFrom_example : IsSortedFrom values (select_sort 5 values) 5
select_sort-IsSortedFrom_example = select_sort-IsSortedFrom 5 values

abbrev statics : Statics
statics = record { table = λ i. 0; have_table = false }

abbrev fox : List ℕ
fox =
    b'T' ∷ b'h' ∷ b'e' ∷ b' ' ∷ b'q' ∷ b'u' ∷ b'i' ∷ b'c' ∷ b'k' ∷ b' ' ∷ b'b' ∷ b'r' ∷ b'o' ∷ b'w'
    ∷ b'n' ∷ b' ' ∷ b'f' ∷ b'o' ∷ b'x' ∷ b' ' ∷ b'j' ∷ b'u' ∷ b'm' ∷ b'p' ∷ b's' ∷ b' ' ∷ b'o'
    ∷ b'v' ∷ b'e' ∷ b'r' ∷ b' ' ∷ b't' ∷ b'h' ∷ b'e' ∷ b' ' ∷ b'l' ∷ b'a' ∷ b'z' ∷ b'y' ∷ b' '
    ∷ b'd' ∷ b'o' ∷ b'g' ∷ []

-- The check of main.
fox_checksum : (rc_crc32 statics 0 fox).0 ≡ 0x414FA339
unfolding make_table table_entry crc_loop
fox_checksum = refl

rc_crc32-IsChecksum_example :
    IsChecksum 0 (b'a' ∷ b'b' ∷ []) (rc_crc32 statics 0 (b'a' ∷ b'b' ∷ []))
rc_crc32-IsChecksum_example =
    rc_crc32-IsChecksum statics 0 (b'a' ∷ b'b' ∷ []) (λ h. absurd (ground arith))
      (unfold AreBytes in (omega arith, (omega arith, tt)))

-- Two disks on the first tower.
abbrev pair : Towers
pair = set_tower (λ i. init_tower) 0 (add_to (add_to init_tower 2) 1)

move-Solved_example : Solved 2 0 2 1 (1 ∷ 2 ∷ []) [] pair (Hanoi.move 2 0 2 1 pair)
move-Solved_example =
    move-Solved 2 0 2 1 (1 ∷ 2 ∷ []) [] pair (omega arith) (omega arith) (omega arith) refl refl
      (omega arith) (omega arith) (omega arith) (omega arith)

-- Three cells in a row.
abbrev blinker : Board
blinker y x = if y == 2 && (ltb 0 x && ltb x 4) then 1 else 0

evolve-conway_example :
    (evolve 5 5 blinker blinker).0 1 2
    ≡ (if ltb 1 5 && ltb 2 5 then conway 5 5 blinker 1 2 else blinker 1 2)
evolve-conway_example = evolve-conway 5 5 blinker blinker 1 2
