-- ===== src/Klib/Stdlib/Malloc.antt =====
-- Blocks handed out by malloc, and what a size near 2 ^ 32 does.
use native.Mathlib.Decide.{dec_lt}
use ic_competition.Base.{
  ℕ, ◌+◌, ◌%◌, ◌^◌, ◌≤◌, ◌≡◌, ◌⊎◌, inl, inr, none, some, List, [], ◌∷◌, arith,
}
use ic_competition.Klib.Stdlib.{malloc, round_up}

-- The pointers and sizes that a series of requests gets, in order; a refused request gets none.
unfoldable pub allocate : ℕ → ℕ → List ℕ → List (ℕ × ℕ)
allocate stop addr [] = []
allocate stop addr (size ∷ sizes) =
    let (addr', p) = malloc stop addr size in
    let rest = allocate stop addr' sizes in elim p [ none ↦ rest | some q ↦ (q, size) ∷ rest ]

-- Blocks in ascending order, aligned, from `low` on and below `stop`; so they are disjoint.
abbrev pub Blocks : ℕ → ℕ → List (ℕ × ℕ) → Type 0
Blocks low stop [] = Unit {0}
Blocks low stop ((p, size) ∷ bs) =
    (low ≤ p) × (p % 8 ≡ 0) × (p + size ≤ stop) × Blocks (p + size) stop bs

-- Sizes whose rounded end stays below 2 ^ 32 from any address of the heap.
abbrev pub Small : ℕ → List ℕ → Type 0
Small stop [] = Unit {0}
Small stop (size ∷ sizes) = (stop + size + 8 ≤ 2 ^ 32) × Small stop sizes

Blocks-weaken :
    (low low' stop : ℕ) (bs : List (ℕ × ℕ)) → low ≤ low' → Blocks low' stop bs → Blocks low stop bs
Blocks-weaken low low' stop [] h b = b
Blocks-weaken low low' stop ((p, size) ∷ bs) h b = (omega arith, b.1, b.2, b.3)

-- One request either is refused and changes nothing, or gets an aligned block behind the old `addr`.
malloc-cases :
    (stop addr size : ℕ)
    → addr ≤ stop
    → addr % 8 ≡ 0
    → stop + size + 8 ≤ 2 ^ 32
    → (malloc stop addr size ≡ (addr, none))
      ⊎ ((next : ℕ) × (malloc stop addr size ≡ (next, some addr))
          × (next % 8 ≡ 0)
          × (addr + size ≤ next)
          × (next ≤ stop))
unfolding malloc
malloc-cases stop addr size le al fits = elim (dec_lt stop (addr + round_up size)) [
  | yes full ↦ inl (ground arith)
  | no room ↦ inr (addr + round_up size, ground arith, omega arith, omega arith, omega arith)
]

module _ (stop addr size : ℕ) (sizes : List ℕ) where
  allocate_refused :
      malloc stop addr size ≡ (addr, none)
      → allocate stop addr (size ∷ sizes) ≡ allocate stop addr sizes
  unfolding allocate
  allocate_refused e = rw (e, allocate) (rw e)

  allocate_granted :
      {next : ℕ}
      → malloc stop addr size ≡ (next, some addr)
      → allocate stop addr (size ∷ sizes) ≡ (addr, size) ∷ allocate stop next sizes
  unfolding allocate
  allocate_granted e = rw (e, allocate) (rw e)

-- Whatever the series of requests, as long as no sum wraps: the blocks that `malloc` hands out are
-- aligned to 8, lie between the first `addr` and `heap.end`, and no two of them overlap.
pub allocate-Blocks :
    (stop addr : ℕ) (sizes : List ℕ)
    → addr ≤ stop
    → addr % 8 ≡ 0
    → Small stop sizes
    → Blocks addr stop (allocate stop addr sizes)
allocate-Blocks stop addr [] le al small = unfold allocate in tt
allocate-Blocks stop addr (size ∷ sizes) le al small =
    elim (malloc-cases stop addr size le al small.0) [
      | inl refused ↦
          rw (allocate_refused stop addr size sizes refused)
            (allocate-Blocks stop addr sizes le al small.1)
      | inr (next, got, al', behind, below) ↦ rw (allocate_granted stop addr size sizes got) (
        omega arith,
        al,
        omega arith,
        Blocks-weaken (addr + size) next stop _ behind
            (allocate-Blocks stop next sizes below al' small.1),
      )
    ]
