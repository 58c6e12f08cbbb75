-- ===== src/Programs/Crc/Shift.antt =====
-- The checksum bit by bit, as the shift register that the table stands for.
use ic_competition.Base.{
  ℕ, zero, suc, ◌+◌, ◌*◌, ◌/◌, ◌%◌, ◌<◌, ◌≡◌, refl, sym, ap, ◌∙◌, true, false, List, [], ◌∷◌, ◌==◌,
  if◌then◌else◌, arith, inl, inr, Bool-cases, bit_and, bit_xor,
}
use ic_competition.Base.Bits.{
  xor_lowest, xor_half, xor_digit, xor_zero, xor_comm, xor_assoc, and_one, and_byte,
}
use ic_competition.Programs.Crc.{shift_rem, table_entry}

-- The register takes in one bit: it moves down, and the polynomial is added when the bit that leaves
-- it is not the one taken in.
abbrev pub take_bit : ℕ → ℕ → ℕ
take_bit crc bit = if crc % 2 == bit then crc / 2 else bit_xor (crc / 2) 0xedb88320

-- It takes in the `k` low bits of a number, the lowest first.
unfoldable pub take_bits : ℕ → ℕ → ℕ → ℕ
take_bits zero crc w = crc
take_bits (suc k) crc w = take_bits k (take_bit crc (w % 2)) (w / 2)

-- The bytes of a message, one after the other.
unfoldable pub take_bytes : ℕ → List ℕ → ℕ
take_bytes crc [] = crc
take_bytes crc (octet ∷ buf) = take_bytes (take_bits 8 crc octet) buf

shift_rem-xor : (x y : ℕ) → shift_rem (bit_xor x y) ≡ bit_xor (take_bit x (y % 2)) (y / 2)
shift_rem-xor x y =
    let low = and_one (bit_xor x y) ∙ xor_digit x y in
    let half = xor_half x y in
    elim (Bool-cases (x % 2 == y % 2)) [
      | inl e ↦ let even : (bit_and (bit_xor x y) 1 == 0) ≡ true = ground arith in rw (even, e) half
      | inr ne ↦
          let odd : (bit_and (bit_xor x y) 1 == 0) ≡ false = ground arith in
          rw (odd, ne)
            (ap (λ v. bit_xor v 0xedb88320) half
              ∙ xor_assoc (x / 2) (y / 2) 0xedb88320
              ∙ ap (λ v. bit_xor (x / 2) v) (xor_comm (y / 2) 0xedb88320)
              ∙ sym (xor_assoc (x / 2) 0xedb88320 (y / 2)))
    ]

-- A number without its `k` low bits, those bits alone, and a number moved up by `k` bits.
halved : ℕ → ℕ → ℕ
halved zero y = y
halved (suc k) y = halved k (y / 2)

low_bits : ℕ → ℕ → ℕ
low_bits zero y = 0
low_bits (suc k) y = low_bits k (y / 2) * 2 + y % 2

doubled : ℕ → ℕ → ℕ
doubled zero y = y
doubled (suc k) y = doubled k y * 2

table_entry-xor : (k x y : ℕ) → table_entry k (bit_xor x y) ≡ bit_xor (take_bits k x y) (halved k y)
unfolding table_entry take_bits halved
table_entry-xor zero x y = refl
table_entry-xor (suc k) x y =
    ap (table_entry k) (shift_rem-xor x y) ∙ table_entry-xor k (take_bit x (y % 2)) (y / 2)

take_bits-zeros : (k x h : ℕ) → take_bits k x (doubled k h) ≡ table_entry k x
unfolding take_bits table_entry doubled
take_bits-zeros zero x h = refl
take_bits-zeros (suc k) x h =
    let half : doubled k h * 2 / 2 ≡ doubled k h = omega arith in
    let bit : doubled k h * 2 % 2 ≡ 0 = omega arith in
    let same : take_bit x 0 ≡ shift_rem x = ground (arith, and_one x) in
    rw (half, bit, same) (take_bits-zeros k (shift_rem x) h)

halved-doubled : (k h : ℕ) → halved k (doubled k h) ≡ h
unfolding halved doubled
halved-doubled zero h = refl
halved-doubled (suc k) h =
    let half : doubled k h * 2 / 2 ≡ doubled k h = omega arith in rw half (halved-doubled k h)

halved-xor : (k a b : ℕ) → halved k (bit_xor a b) ≡ bit_xor (halved k a) (halved k b)
unfolding halved
halved-xor zero a b = refl
halved-xor (suc k) a b = ap (halved k) (xor_half a b) ∙ halved-xor k (a / 2) (b / 2)

-- A number is its low bits and the rest.
low_bits-xor : (k x : ℕ) → bit_xor (low_bits k x) (doubled k (halved k x)) ≡ x
unfolding low_bits doubled halved
low_bits-xor zero x = xor_zero x
low_bits-xor (suc k) x =
    let half : (low_bits k (x / 2) * 2 + x % 2) / 2 ≡ low_bits k (x / 2) = omega arith in
    let half1 : doubled k (halved k (x / 2)) * 2 / 2 ≡ doubled k (halved k (x / 2)) = omega arith in
    omega (
      arith,
      xor_lowest (low_bits k (x / 2) * 2 + x % 2) (doubled k (halved k (x / 2)) * 2),
      ap (λ v. bit_xor v (doubled k (halved k (x / 2)) * 2 / 2)) half,
      ap (λ v. bit_xor (low_bits k (x / 2)) v) half1,
      low_bits-xor k (x / 2),
    )

halved_byte : (x : ℕ) → halved 8 x ≡ x / 256
unfolding halved
halved_byte x = omega arith

low_byte : (x : ℕ) → low_bits 8 x ≡ x % 256
unfolding low_bits
low_byte x = omega arith

xor-zero : (a : ℕ) → bit_xor a 0 ≡ a
xor-zero a = xor_comm a 0 ∙ xor_zero a

-- The place in the table, a byte.
abbrev pub place : ℕ → ℕ → ℕ
place crc octet = bit_xor (bit_and crc 0xff) octet

pub place-bound : (crc octet : ℕ) → octet < 256 → place crc octet < 256
place-bound crc octet lt =
    let low : halved 8 (bit_and crc 0xff) ≡ 0 =
      omega (arith, halved_byte (bit_and crc 0xff), and_byte crc) in
    let byte : halved 8 octet ≡ 0 = omega (arith, halved_byte octet) in
    let both : bit_xor (halved 8 (bit_and crc 0xff)) (halved 8 octet) ≡ 0 =
      ap (λ v. bit_xor v (halved 8 octet)) low ∙ xor_zero (halved 8 octet) ∙ byte in
    omega (arith, halved_byte (place crc octet), halved-xor 8 (bit_and crc 0xff) octet, both)

place-xor :
    (crc octet : ℕ) → bit_xor (place crc octet) (doubled 8 (halved 8 crc)) ≡ bit_xor crc octet
place-xor crc octet =
    let high = doubled 8 (halved 8 crc) in
    let low = bit_and crc 0xff in
    let crc_bits : bit_xor low high ≡ crc =
      ap (λ v. bit_xor v high) (and_byte crc ∙ sym (low_byte crc)) ∙ low_bits-xor 8 crc in
    xor_assoc low octet high
    ∙ ap (λ v. bit_xor low v) (xor_comm octet high)
    ∙ sym (xor_assoc low high octet)
    ∙ ap (λ v. bit_xor v octet) crc_bits

-- One step by the table is eight steps of the register.
pub take_bits-table_entry :
    (crc octet : ℕ)
    → octet < 256
    → bit_xor (crc / 256) (table_entry 8 (place crc octet)) ≡ take_bits 8 crc octet
take_bits-table_entry crc octet lt =
    let h = halved 8 crc in
    let entry = table_entry 8 (place crc octet) in
    let by_bits : table_entry 8 (bit_xor crc octet) ≡ take_bits 8 crc octet =
      table_entry-xor 8 crc octet
      ∙ ap (λ v. bit_xor (take_bits 8 crc octet) v) (halved_byte octet ∙ omega arith)
      ∙ xor-zero (take_bits 8 crc octet) in
    let by_table : table_entry 8 (bit_xor (place crc octet) (doubled 8 h)) ≡ bit_xor entry h =
      table_entry-xor 8 (place crc octet) (doubled 8 h)
      ∙ ap (λ v. bit_xor v (halved 8 (doubled 8 h))) (take_bits-zeros 8 (place crc octet) h)
      ∙ ap (λ v. bit_xor entry v) (halved-doubled 8 h) in
    xor_comm (crc / 256) entry
    ∙ ap (λ v. bit_xor entry v) (sym (halved_byte crc))
    ∙ sym by_table
    ∙ ap (table_entry 8) (place-xor crc octet)
    ∙ by_bits
