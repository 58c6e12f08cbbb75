-- ===== src/Sim/Memory/Words.antt =====
-- What a read returns after a write.
use ic_competition.Base.{
  ℕ, zero, suc, ◌+◌, ◌*◌, ◌/◌, ◌%◌, ◌^◌, ◌<◌, ◌≡◌, ◌≢◌, refl, ap, ◌∙◌, ◌⊎◌, inl, inr, ◌==◌,
  if◌then◌else◌, Bool, true, false, arith, Bool-cases,
}
use ic_competition.Klib.Memory.{Mem}
use ic_competition.Sim.Memory.{
  in_mem, word_place, in_mask, byte_of, write_byte, write_word, mem_base,
}

write_byte-elsewhere :
    (p wdata wmask k a : ℕ) (m : Mem) → a ≢ p + k → write_byte p wdata wmask k m a ≡ m a
write_byte-elsewhere p wdata wmask k a m ne =
    let other : (p + k == a) ≡ false = ground arith in
    elim (Bool-cases (in_mask wmask k)) [ inl e ↦ rw (e, other) | inr e ↦ rw e ]

-- The bits of the mask, and the bytes of the data, lowest first.
abbrev pub selected : ℕ → ℕ → Bool
selected wmask zero = wmask % 2 == 1
selected wmask (suc zero) = wmask / 2 % 2 == 1
selected wmask (suc (suc zero)) = wmask / 4 % 2 == 1
selected wmask (suc (suc (suc k))) = wmask / 8 % 2 == 1

abbrev pub data_byte : ℕ → ℕ → ℕ
data_byte wdata zero = wdata % 256
data_byte wdata (suc zero) = wdata / 256 % 256
data_byte wdata (suc (suc zero)) = wdata / 65536 % 256
data_byte wdata (suc (suc (suc k))) = wdata / 16777216 % 256

-- The byte `k` where bit `k` of the mask is 1, the old one where it is 0.
abbrev pub masked : ℕ → ℕ → ℕ → ℕ → ℕ
masked wdata wmask k old = if selected wmask k then data_byte wdata k else old

in_mask-selected : (wmask k : ℕ) → k < 4 → in_mask wmask k ≡ selected wmask k
in_mask-selected wmask zero lt = ground arith
in_mask-selected wmask (suc zero) lt = ground arith
in_mask-selected wmask (suc (suc zero)) lt = ground arith
in_mask-selected wmask (suc (suc (suc zero))) lt = ground arith
in_mask-selected wmask (suc (suc (suc (suc k)))) lt = absurd (omega arith)

byte_of-data_byte : (wdata k : ℕ) → k < 4 → byte_of wdata k ≡ data_byte wdata k
byte_of-data_byte wdata zero lt = omega arith
byte_of-data_byte wdata (suc zero) lt = omega arith
byte_of-data_byte wdata (suc (suc zero)) lt = omega arith
byte_of-data_byte wdata (suc (suc (suc zero))) lt = omega arith
byte_of-data_byte wdata (suc (suc (suc (suc k)))) lt = absurd (omega arith)

write_byte-here :
    (p wdata wmask k : ℕ) (m : Mem)
    → k < 4
    → write_byte p wdata wmask k m (p + k) ≡ masked wdata wmask k (m (p + k))
write_byte-here p wdata wmask k m lt =
    let same : (p + k == p + k) ≡ true = ground arith in
    let bit = in_mask-selected wmask k lt in
    let byte = byte_of-data_byte wdata k lt in
    elim (Bool-cases (selected wmask k)) [
      | inl e ↦ rw (bit, e, same) byte
      | inr e ↦ rw (bit, e) refl
    ]

module _ (p wdata wmask : ℕ) (m : Mem) where
  after_0 : Mem
  after_0 = write_byte p wdata wmask 0 m

  after_1 : Mem
  after_1 = write_byte p wdata wmask 1 after_0

  after_2 : Mem
  after_2 = write_byte p wdata wmask 2 after_1

  write_word-at :
      (k : ℕ) → k < 4 → write_word p wdata wmask m (p + k) ≡ masked wdata wmask k (m (p + k))
  unfolding after_0 after_1 after_2
  write_word-at zero lt =
      write_byte-elsewhere p wdata wmask 3 (p + 0) after_2 (λ e. absurd (omega arith))
      ∙ write_byte-elsewhere p wdata wmask 2 (p + 0) after_1 (λ e. absurd (omega arith))
      ∙ write_byte-elsewhere p wdata wmask 1 (p + 0) after_0 (λ e. absurd (omega arith))
      ∙ write_byte-here p wdata wmask 0 m lt
  write_word-at (suc zero) lt =
      write_byte-elsewhere p wdata wmask 3 (p + 1) after_2 (λ e. absurd (omega arith))
      ∙ write_byte-elsewhere p wdata wmask 2 (p + 1) after_1 (λ e. absurd (omega arith))
      ∙ write_byte-here p wdata wmask 1 after_0 lt
      ∙ ap (masked wdata wmask 1)
          (write_byte-elsewhere p wdata wmask 0 (p + 1) m (λ e. absurd (omega arith)))
  write_word-at (suc (suc zero)) lt =
      write_byte-elsewhere p wdata wmask 3 (p + 2) after_2 (λ e. absurd (omega arith))
      ∙ write_byte-here p wdata wmask 2 after_1 lt
      ∙ ap (masked wdata wmask 2) (
          write_byte-elsewhere p wdata wmask 1 (p + 2) after_0 (λ e. absurd (omega arith))
          ∙ write_byte-elsewhere p wdata wmask 0 (p + 2) m (λ e. absurd (omega arith)))
  write_word-at (suc (suc (suc zero))) lt =
      write_byte-here p wdata wmask 3 after_2 lt
      ∙ ap (masked wdata wmask 3) (
          write_byte-elsewhere p wdata wmask 2 (p + 3) after_1 (λ e. absurd (omega arith))
          ∙ write_byte-elsewhere p wdata wmask 1 (p + 3) after_0 (λ e. absurd (omega arith))
          ∙ write_byte-elsewhere p wdata wmask 0 (p + 3) m (λ e. absurd (omega arith)))
  write_word-at (suc (suc (suc (suc k)))) lt = absurd (omega arith)

  write_word-elsewhere : (a : ℕ) → (a < p) ⊎ (p + 3 < a) → write_word p wdata wmask m a ≡ m a
  unfolding after_0 after_1 after_2
  write_word-elsewhere a out =
      write_byte-elsewhere p wdata wmask 3 a after_2 (λ e. absurd (ground arith))
      ∙ write_byte-elsewhere p wdata wmask 2 a after_1 (λ e. absurd (ground arith))
      ∙ write_byte-elsewhere p wdata wmask 1 a after_0 (λ e. absurd (ground arith))
      ∙ write_byte-elsewhere p wdata wmask 0 a m (λ e. absurd (ground arith))

-- The byte `k` of the word of `raddr`, after a write of `wdata` with `wmask` to `waddr`.
abbrev pub stored : ℕ → ℕ → ℕ → ℕ → Mem → ℕ → ℕ
stored raddr waddr wdata wmask m k =
    if raddr / 4 == waddr / 4
    then masked wdata wmask k (m (word_place raddr + k))
    else m (word_place raddr + k)

-- An address in the memory, rounded down to a word.
in_mem_bounds : (a : ℕ) → a < 2 ^ 32 → in_mem a ≡ true → word_place a + mem_base ≡ a / 4 * 4
in_mem_bounds a lt h = ground arith

pub write_word-stored :
    (raddr waddr wdata wmask k : ℕ) (m : Mem)
    → raddr < 2 ^ 32
    → waddr < 2 ^ 32
    → in_mem raddr ≡ true
    → in_mem waddr ≡ true
    → k < 4
    → write_word (word_place waddr) wdata wmask m (word_place raddr + k)
      ≡ stored raddr waddr wdata wmask m k
write_word-stored raddr waddr wdata wmask k m rlt wlt rin win lt =
    let rp = in_mem_bounds raddr rlt rin in
    let wp = in_mem_bounds waddr wlt win in
    elim (Bool-cases (raddr / 4 == waddr / 4)) [
      | inl e ↦
          let words : raddr / 4 ≡ waddr / 4 = ground arith in
          let same : word_place waddr ≡ word_place raddr = omega arith in
          rw (e, same) (write_word-at (word_place raddr) wdata wmask m k lt)
      | inr ne ↦
          let words : (raddr / 4 < waddr / 4) ⊎ (waddr / 4 < raddr / 4) = ground arith in
          rw ne (
            write_word-elsewhere (word_place waddr) wdata wmask m (word_place raddr + k)
              (elim words [ inl a ↦ inl (omega arith) | inr a ↦ inr (omega arith) ]))
    ]

-- The word made of four bytes.
abbrev pub word_of : (ℕ → ℕ) → ℕ
word_of c = c 0 + c 1 * 2 ^ 8 + c 2 * 2 ^ 16 + c 3 * 2 ^ 24
