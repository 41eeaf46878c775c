-- ===== src/Alp/Operand.antt =====
-- `alp_parse_length_operand` against the encoding of lengths. The bytes after the first are copied
-- into a little-endian word in the order of the wire, so the parsed value is the length with these
-- bytes reversed.
use riot_oss7_modem.Common.{
  ℕ, ◌+◌, ◌*◌, ◌/◌, ◌%◌, ◌^◌, ◌≤◌, ◌<◌, ◌≡◌, ◌≢◌, ◌↔◌, ◌⊎◌, inl, inr, ap, ◌∙◌, List, [], ◌∷◌, ◌++◌,
  tabulate, length, ltb, ◌==◌, if◌then◌else◌, true, false, arith, dec_lt, u32,
}
use riot_oss7_modem.Common.Memory.{Bytes}
use riot_oss7_modem.Fifo.{Fifo}
use riot_oss7_modem.Alp.{word_bytes, word_of}
use riot_oss7_modem.Alp.Parse.{parse_length_operand, length_after}
use riot_oss7_modem.Alp.Encoding.{encode_length}
use riot_oss7_modem.Alp.Front.{Holds, pop_front, pop_byte_front}

-- What the parser makes of an encoded length.
abbrev pub received : ℕ → ℕ
received n =
    if ltb n (2 ^ 14)
    then n
    else if ltb n (2 ^ 22)
    then n / 2 ^ 16 * 2 ^ 16 + n % 2 ^ 8 * 2 ^ 8 + n / 2 ^ 8 % 2 ^ 8
    else n / 2 ^ 24 * 2 ^ 24 + n % 2 ^ 8 * 2 ^ 16 + n / 2 ^ 8 % 2 ^ 8 * 2 ^ 8 + n / 2 ^ 16 % 2 ^ 8

short_operand :
    (f : Fifo) (n : ℕ) (rest : List ℕ)
    → n < 64
    → Holds f (n ∷ rest)
    → (g : Fifo) × (parse_length_operand f ≡ (n, g)) × Holds g rest
unfolding parse_length_operand length_after
short_operand f n rest l h =
    let (g, ran, holds) = pop_byte_front f 0 n rest h in
    let e : (n / 2 ^ 6 == 0) ≡ true = ground arith in
    (g, ap (λ r. length_after r.0 r.1) ran ∙ rw e, holds)

-- The word that a longer operand is read into: the low six bits of the first byte, above the bytes
-- that follow.
abbrev base : ℕ → ℕ → ℕ
base top following = u32 (top * 2 ^ (8 * following))

-- A longer operand, read: `out` is the word in memory.
record Long (f : Fifo) (top : ℕ) (xs rest : List ℕ) : Type 0 where
  out : Bytes
  after : Fifo
  ran : parse_length_operand f ≡ (word_of out, after)
  read : tabulate (length xs) out ≡ xs
  kept : (i : ℕ) → length xs ≤ i → out i ≡ word_bytes (base top (length xs)) i
  holds : Holds after rest

operand_of_several :
    (f : Fifo) (first top : ℕ) (xs rest : List ℕ)
    → first / 2 ^ 6 ≡ length xs
    → first % 2 ^ 6 ≡ top
    → length xs ≢ 0
    → Holds f (first ∷ xs ++ rest)
    → Long f top xs rest
unfolding parse_length_operand length_after
operand_of_several f first top xs rest n t ne h =
    let (g, ran, holds) = pop_byte_front f 0 first (xs ++ rest) h in
    let e : (length xs == 0) ≡ false = ground arith in
    let p = pop_front g (word_bytes (base top (length xs))) xs rest holds in
    record {
      out = p.filled;
      after = p.fifo;
      ran = ap (λ r. length_after r.0 r.1) ran ∙ rw (n, t, e) (ap (λ r. (word_of r.1, r.2)) p.ran);
      read = p.read;
      kept = p.kept;
      holds = p.holds;
    }

-- The value, byte by byte.
word_of_two :
    {f : Fifo} (top x : ℕ) {rest : List ℕ} (l : Long f top (x ∷ []) rest)
    → top < 2 ^ 6
    → word_of l.out ≡ top * 2 ^ 8 + x
word_of_two top x l h =
    ground (arith, l.read, l.kept 1 (omega arith), l.kept 2 (omega arith), l.kept 3 (omega arith))

word_of_three :
    {f : Fifo} (top x y : ℕ) {rest : List ℕ} (l : Long f top (x ∷ y ∷ []) rest)
    → top < 2 ^ 6
    → word_of l.out ≡ top * 2 ^ 16 + y * 2 ^ 8 + x
word_of_three top x y l h = ground (arith, l.read, l.kept 2 (omega arith), l.kept 3 (omega arith))

word_of_four :
    {f : Fifo} (top x y z : ℕ) {rest : List ℕ} (l : Long f top (x ∷ y ∷ z ∷ []) rest)
    → top < 2 ^ 6
    → word_of l.out ≡ top * 2 ^ 24 + z * 2 ^ 16 + y * 2 ^ 8 + x
word_of_four top x y z l h = ground (arith, l.read, l.kept 3 (omega arith))

-- What the operand parser does on the encoding of `n`.
abbrev pub Parses : Fifo → ℕ → List ℕ → Type 0
Parses f n rest = (g : Fifo) × (parse_length_operand f ≡ (received n, g)) × Holds g rest

module _ (f : Fifo) (n : ℕ) (rest : List ℕ) (h : Holds f (encode_length n ++ rest)) where
  one_byte_read : n < 2 ^ 6 → Parses f n rest
  one_byte_read small =
      let e : encode_length n ≡ n ∷ [] = ground arith in
      let (g, ran, holds) = short_operand f n rest small (rw e at h) in
      (g, ran ∙ ap (λ v. (v, g)) (ground arith), holds)

  two_bytes_read : 2 ^ 6 ≤ n → n < 2 ^ 14 → Parses f n rest
  two_bytes_read low high =
      let e : encode_length n ≡ (0x40 + n / 2 ^ 8) ∷ n % 2 ^ 8 ∷ [] = ground arith in
      let l =
        operand_of_several f (0x40 + n / 2 ^ 8) (n / 2 ^ 8) (n % 2 ^ 8 ∷ []) rest (omega arith)
          (omega arith) (omega arith) (rw e at h) in
      (
        l.after,
        l.ran
            ∙ ap (λ v. (v, l.after))
                (word_of_two (n / 2 ^ 8) (n % 2 ^ 8) l (omega arith) ∙ ground arith),
        l.holds,
      )

  three_bytes_read : 2 ^ 14 ≤ n → n < 2 ^ 22 → Parses f n rest
  three_bytes_read low high =
      let e : encode_length n ≡ (0x80 + n / 2 ^ 16) ∷ n / 2 ^ 8 % 2 ^ 8 ∷ n % 2 ^ 8 ∷ [] =
        ground arith in
      let l =
        operand_of_several f (0x80 + n / 2 ^ 16) (n / 2 ^ 16) (n / 2 ^ 8 % 2 ^ 8 ∷ n % 2 ^ 8 ∷ [])
          rest (omega arith) (omega arith) (omega arith) (rw e at h) in
      (
        l.after,
        l.ran
            ∙ ap (λ v. (v, l.after))
                (word_of_three (n / 2 ^ 16) (n / 2 ^ 8 % 2 ^ 8) (n % 2 ^ 8) l (omega arith)
                  ∙ ground arith),
        l.holds,
      )

  four_bytes_read : 2 ^ 22 ≤ n → n < 2 ^ 30 → Parses f n rest
  four_bytes_read low high =
      let e : encode_length n
          ≡ (0xc0 + n / 2 ^ 24) ∷ n / 2 ^ 16 % 2 ^ 8 ∷ n / 2 ^ 8 % 2 ^ 8 ∷ n % 2 ^ 8 ∷ [] =
        ground arith in
      let l =
        operand_of_several f (0xc0 + n / 2 ^ 24) (n / 2 ^ 24)
          (n / 2 ^ 16 % 2 ^ 8 ∷ n / 2 ^ 8 % 2 ^ 8 ∷ n % 2 ^ 8 ∷ []) rest (omega arith) (omega arith)
          (omega arith) (rw e at h) in
      (
        l.after,
        l.ran
            ∙ ap (λ v. (v, l.after))
                (word_of_four (n / 2 ^ 24) (n / 2 ^ 16 % 2 ^ 8) (n / 2 ^ 8 % 2 ^ 8) (n % 2 ^ 8) l
                    (omega arith)
                  ∙ ground arith),
        l.holds,
      )

-- On an encoded length below 2 ^ 30, `alp_parse_length_operand` takes exactly the encoding off the
-- fifo, and returns the length with the bytes after the first reversed: the length itself below
-- 2 ^ 14.
pub parse_length_operand_lem :
    (f : Fifo) (n : ℕ) (rest : List ℕ)
    → n < 2 ^ 30
    → Holds f (encode_length n ++ rest)
    → Parses f n rest
parse_length_operand_lem f n rest k h = elim (dec_lt n (2 ^ 6)) [
  | yes a ↦ one_byte_read f n rest h a
  | no a ↦ elim (dec_lt n (2 ^ 14)) [
    | yes b ↦ two_bytes_read f n rest h (omega arith) b
    | no b ↦ elim (dec_lt n (2 ^ 22)) [
      | yes c ↦ three_bytes_read f n rest h (omega arith) c
      | no c ↦ four_bytes_read f n rest h (omega arith) k
    ]
  ]
]

-- A length survives being appended and parsed below 2 ^ 14, and above it only if the bytes after the
-- first read the same in both directions.
pub received_iff :
    (n : ℕ)
    → n < 2 ^ 30
    → (received n ≡ n) ↔ (
        (n < 2 ^ 14)
        ⊎ ((n < 2 ^ 22) × (n % 2 ^ 8 ≡ n / 2 ^ 8 % 2 ^ 8))
        ⊎ ((2 ^ 22 ≤ n) × (n % 2 ^ 8 ≡ n / 2 ^ 16 % 2 ^ 8)))
received_iff n k = (forth, λ e. ground arith)
  where
    forth :
        received n ≡ n
        → (n < 2 ^ 14)
          ⊎ ((n < 2 ^ 22) × (n % 2 ^ 8 ≡ n / 2 ^ 8 % 2 ^ 8))
          ⊎ ((2 ^ 22 ≤ n) × (n % 2 ^ 8 ≡ n / 2 ^ 16 % 2 ^ 8))
    forth e = elim (dec_lt n (2 ^ 14)) [
      | yes a ↦ inl a
      | no a ↦ elim (dec_lt n (2 ^ 22)) [
        | yes b ↦ inr (inl (b, ground arith))
        | no b ↦ inr (inr (omega arith, ground arith))
      ]
    ]
