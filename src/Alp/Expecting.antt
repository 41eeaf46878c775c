-- ===== src/Alp/Expecting.antt =====
-- What `alp_get_expected_response_length` adds up, and how far it skips.
use riot_oss7_modem.Common.{
  ℕ, zero, suc, ◌+◌, ◌%◌, ◌^◌, ◌≤◌, ◌<◌, ◌≡◌, refl, ap, ◌∙◌, true, false, List, [], ◌∷◌, ◌++◌,
  append-nil, drop, tabulate, length, length-append, length-tabulate, inl, inr, Bool-cases, leb,
  ltb, ◌==◌, if◌then◌else◌, u8, u16, Outcome, done, some, arith, dec_lt,
}
use riot_oss7_modem.Common.Memory.{Bytes}
use riot_oss7_modem.Fifo
use riot_oss7_modem.Fifo.{Fifo}
use riot_oss7_modem.Fifo.Valid.{size, length-contents, get_size_lem}
use riot_oss7_modem.Fifo.Take.{skip_lem, too_short}
use riot_oss7_modem.Fifo.View.{init_filled_lem}
use riot_oss7_modem.Alp.{
  addressee_id_length, IdType, nbid, noid, uid, vid, id_type, D7apSessionConfig,
}
use riot_oss7_modem.Alp.Parse.{pop_byte, parse_length_operand}
use riot_oss7_modem.Alp.Encoding.{
  control, encode_length, encode_file_offset, encode_file_data, encode_d7asp,
}
use riot_oss7_modem.Alp.Front.{Holds, pop_byte_front}
use riot_oss7_modem.Alp.Operand.{received, parse_length_operand_lem}
use riot_oss7_modem.Alp.Expect.{
  length_operand_coded_length, skip, expect_read, expect_forward, expect_action, expect_round,
  expect_rounds, get_expected_response_length,
}

skip_drop :
    (f : Fifo) (n : ℕ) (xs : List ℕ)
    → Holds f xs
    → n ≤ length xs
    → n < 2 ^ 16
    → Holds (skip n f) (drop n xs)
unfolding skip
skip_drop f n xs h k l =
    let e : u16 n ≡ n = omega arith in
    let fits : n ≤ size f = omega (arith, k, ap length h.1, length-contents f) in
    let (_, c, v, _) = skip_lem h.0 n fits in rw (e, skip) (v, c ∙ ap (drop n) h.1)

skip_front : (f : Fifo) (x : ℕ) (rest : List ℕ) → Holds f (x ∷ rest) → Holds (skip 1 f) rest
skip_front f x rest h = skip_drop f 1 (x ∷ rest) h (omega arith) (omega arith)

rounds_step :
    (fuel stale expected : ℕ) (f : Fifo) (x : ℕ) (rest : List ℕ) (expected' : ℕ) (g : Fifo)
    → Holds f (x ∷ rest)
    → expect_round stale expected f ≡ done (expected', g)
    → expect_rounds (suc fuel) stale expected f ≡ expect_rounds fuel stale expected' g
unfolding expect_rounds
rounds_step fuel stale expected f x rest expected' g h e =
    let more : ltb 0 (Fifo.get_size f) ≡ true =
      ground (arith, get_size_lem h.0, ap length h.1, length-contents f) in
    rw (more, e, expect_rounds) refl

rounds_stop :
    (fuel stale expected : ℕ) (f : Fifo)
    → Holds f []
    → expect_rounds (suc fuel) stale expected f ≡ some (done expected)
unfolding expect_rounds
rounds_stop fuel stale expected f h =
    let none_left : ltb 0 (Fifo.get_size f) ≡ false =
      ground (arith, get_size_lem h.0, ap length h.1, length-contents f) in
    rw (none_left, expect_rounds) refl

-- What `expect_read` adds up, from a zero.
read_length : ℕ → ℕ × Fifo → Outcome (ℕ × Fifo)
unfolding length_operand_coded_length
read_length offset (n, g) =
    let coded = u8 (u8 (0 + n) + length_operand_coded_length (u8 (0 + n))) in
    done (u8 (u8 (coded + (length_operand_coded_length offset + 1)) + 1), g)

read_length_lem :
    (offset n : ℕ) (g : Fifo)
    → offset < 2 ^ 14
    → n < 240
    → read_length offset (n, g)
      ≡ done (2 + length (encode_length offset) + length (encode_length n) + n, g)
unfolding read_length length_operand_coded_length
read_length_lem offset n g h k = elim (dec_lt n (2 ^ 6)) [
  | yes a ↦ elim (dec_lt offset (2 ^ 6)) [ yes b ↦ ground arith | no b ↦ ground arith ]
  | no a ↦ elim (dec_lt offset (2 ^ 6)) [ yes b ↦ ground arith | no b ↦ ground arith ]
]

read_action :
    (stale : ℕ) (g : Fifo)
    → expect_action stale (control 1 true false % 2 ^ 6) 0 g
      ≡ read_length
          (parse_length_operand (skip 1 g)).0
          (parse_length_operand (parse_length_operand (skip 1 g)).1)
unfolding expect_action expect_read read_length
read_action stale g = refl

read_round :
    (stale : ℕ) (f : Fifo) (file_id offset n : ℕ)
    → offset < 2 ^ 14
    → n < 240
    → Holds f (control 1 true false ∷ encode_file_offset file_id offset ++ encode_length n)
    → (g : Fifo) × (expect_round stale 0 f
        ≡ done (2 + length (encode_length offset) + length (encode_length n) + n, g))
      × Holds g []
unfolding expect_round
read_round stale f file_id offset n k l h =
    let (a, ran_a, holds_a) = pop_byte_front f stale (control 1 true false) _ h in
    let holds_b = skip_front a file_id (encode_length offset ++ encode_length n) holds_a in
    let (c, ran_c, holds_c) =
      parse_length_operand_lem (skip 1 a) offset (encode_length n) (omega arith) holds_b in
    let (d, ran_d, holds_d) =
      parse_length_operand_lem c n [] (omega arith) (rw append-nil holds_c) in
    let o : received offset ≡ offset = ground arith in
    let r : received n ≡ n = ground arith in
    (
      d,
      ap (λ r. expect_action stale (r.0 % 2 ^ 6) 0 r.1) ran_a
          ∙ read_action stale a
          ∙ ap (λ r. read_length r.0 (parse_length_operand r.1)) ran_c
          ∙ ap (λ r. read_length (received offset) r) ran_d
          ∙ rw (o, r) (read_length_lem offset n d k l),
      holds_d,
    )

round_front :
    (stale expected : ℕ) (f : Fifo) (x : ℕ) (rest : List ℕ)
    → Holds f (x ∷ rest)
    → (g : Fifo) × (expect_round stale expected f ≡ expect_action stale (x % 2 ^ 6) expected g)
      × Holds g rest
unfolding expect_round
round_front stale expected f x rest h =
    let (g, ran, holds) = pop_byte_front f stale x rest h in
    (g, ap (λ r. expect_action stale (r.0 % 2 ^ 6) expected r.1) ran, holds)

tag_round :
    (stale : ℕ) (f : Fifo) (tag_id : ℕ) (rest : List ℕ)
    → Holds f (control 52 false true ∷ tag_id ∷ rest)
    → (g : Fifo) × (expect_round stale 0 f ≡ done (0, g)) × Holds g rest
unfolding expect_action
tag_round stale f tag_id rest h =
    let (a, ran, holds) = round_front stale 0 f (control 52 false true) (tag_id ∷ rest) h in
    (skip 1 a, ran, skip_front a tag_id rest holds)

read_rounds :
    (fuel stale : ℕ) (f : Fifo) (tag_id file_id offset n : ℕ)
    → offset < 2 ^ 14
    → n < 240
    → Holds f (
        control 52 false true ∷ tag_id ∷ control 1 true false ∷ encode_file_offset file_id offset
        ++ encode_length n)
    → expect_rounds (suc (suc (suc fuel))) stale 0 f
      ≡ some (done (2 + length (encode_length offset) + length (encode_length n) + n))
read_rounds fuel stale f tag_id file_id offset n k l h =
    let (a, ran_a, holds_a) = tag_round stale f tag_id _ h in
    let (b, ran_b, holds_b) = read_round stale a file_id offset n k l holds_a in
    rounds_step (suc (suc fuel)) stale 0 f _ _ 0 a h ran_a
    ∙ (rounds_step (suc fuel) stale 0 a _ _ _ b holds_a ran_b ∙ rounds_stop fuel stale _ b holds_b)

-- For a tag request and a command to read `n` bytes at `offset`, `alp_get_expected_response_length`
-- is the length of the action that returns these bytes, for n < 240 and offset < 2 ^ 14: the tag
-- response is not counted.
pub expected_of_read :
    (stale : ℕ) (alp_command : Bytes) (tag_id file_id offset n len : ℕ) (bytes : Bytes)
    → offset < 2 ^ 14
    → n < 240
    → len < 2 ^ 15
    → tabulate len alp_command
      ≡ control 52 false true ∷ tag_id ∷ control 1 true false ∷ encode_file_offset file_id offset
        ++ encode_length n
    → get_expected_response_length stale alp_command len
      ≡ some (done (length (control 32 false false ∷ encode_file_data file_id offset n bytes)))
unfolding get_expected_response_length
expected_of_read stale alp_command tag_id file_id offset n zero bytes k l m e =
    absurd (omega (arith, ap length e))
expected_of_read stale alp_command tag_id file_id offset n (suc zero) bytes k l m e =
    absurd (omega (arith, ap length e))
expected_of_read stale alp_command tag_id file_id offset n (suc (suc len)) bytes k l m e =
    let f = Fifo.init_filled alp_command (suc (suc len)) (suc (suc len) + 1) in
    let (w, held, _) =
      init_filled_lem alp_command (suc (suc len)) (suc (suc len) + 1) (omega arith)
        (omega (arith, m)) (omega arith) in
    read_rounds len stale f tag_id file_id offset n k l (w.valid, held ∙ e)
    ∙ ap (λ t. some (done t))
        (sizes (length-append (encode_length offset) (encode_length n ++ tabulate n bytes))
          (length-append (encode_length n) (tabulate n bytes)))
  where
    sizes :
        length (encode_length offset ++ (encode_length n ++ tabulate n bytes))
          ≡ length (encode_length offset) + length (encode_length n ++ tabulate n bytes)
        → length (encode_length n ++ tabulate n bytes)
          ≡ length (encode_length n) + length (tabulate n bytes)
        → 2 + length (encode_length offset) + length (encode_length n) + n
          ≡ length (control 32 false false ∷ encode_file_data file_id offset n bytes)
    sizes x y = omega (arith, x, y, length-tabulate n bytes)

-- `expect_forward` after the interface is read.
forward_after : ℕ → ℕ × Fifo → Fifo
forward_after stale (itf_id, f) =
    let (ctrl, g) = pop_byte (skip 1 f) stale in
    if itf_id == 0xd7 then skip (2 + addressee_id_length (id_type ctrl)) g else f

id_length-le : (t : IdType) → addressee_id_length t ≤ 8
unfolding addressee_id_length
id_length-le nbid = omega arith
id_length-le noid = omega arith
id_length-le uid = omega arith
id_length-le vid = omega arith

-- A skip by hand: what `fifo_skip` does if the bytes are there, and nothing if they are not.
abbrev pub skipped : ℕ → List ℕ → List ℕ
skipped n xs = if leb n (length xs) then drop n xs else xs

skip-skipped :
    (f : Fifo) (n : ℕ) (xs : List ℕ) → Holds f xs → n < 2 ^ 16 → Holds (skip n f) (skipped n xs)
unfolding skip
skip-skipped f n xs h l = elim (Bool-cases (leb n (length xs))) [
  | inl fits ↦ rw fits (skip_drop f n xs h (ground (arith, fits)) l)
  | inr over ↦
      let e : u16 n ≡ n = omega arith in
      let short : size f < n = ground (arith, over, ap length h.1, length-contents f) in
      let unchanged : skip n f ≡ f =
        ap (λ k. (Fifo.skip f k).1) e ∙ ap (λ r. r.1) (too_short h.0 n (λ _. 0) 0 short).2 in
      rw (over, unchanged) h
]

-- On any command forwarded over DASH7, after the QoS `alp_get_expected_response_length` takes one byte, the dormant
-- timeout, and reads the addressee's type in it; then it skips two bytes and an id of the length of that type, if so
-- many bytes are left, and nothing if not. What it goes on with starts in the addressee's control byte, its access
-- class, its id, or behind.
pub expect_forward_skips :
    (stale : ℕ) (f : Fifo) (config : D7apSessionConfig) (rest : List ℕ)
    → Holds f (0xd7 ∷ encode_d7asp config ++ rest)
    → Holds (expect_forward stale f) (
        skipped (2 + addressee_id_length (id_type config.dormant_timeout)) (
          config.addressee_ctrl
            ∷ config.access_class
            ∷ tabulate (addressee_id_length (id_type config.addressee_ctrl)) config.id
          ++ rest))
unfolding expect_forward forward_after
expect_forward_skips stale f config rest h =
    let (a, ran_a, holds_a) = pop_byte_front f stale 0xd7 _ h in
    let holds_b = skip_front a config.qos _ holds_a in
    let (c, ran_c, holds_c) = pop_byte_front (skip 1 a) stale config.dormant_timeout _ holds_b in
    let n = addressee_id_length (id_type config.dormant_timeout) in
    let small = id_length-le (id_type config.dormant_timeout) in
    let ran : expect_forward stale f ≡ skip (2 + n) c =
      ap (forward_after stale) ran_a
      ∙ ap (λ r. skip (2 + addressee_id_length (id_type r.0)) r.1) ran_c in
    rw ran (skip-skipped c (2 + n) _ holds_c (omega (arith, small)))
