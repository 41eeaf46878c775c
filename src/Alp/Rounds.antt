-- ===== src/Alp/Rounds.antt =====
-- The loop of `alp_get_expected_response_length` ends.
use riot_oss7_modem.Common.{
  ℕ, zero, suc, ◌+◌, ◌%◌, ◌^◌, ◌<◌, ◌≡◌, inl, inr, refl, ap, Bool-cases, length, length-tabulate,
  ltb, ◌==◌, u16, Outcome, done, fault, some, arith, dec_le,
}
use riot_oss7_modem.Common.Memory.{Bytes}
use riot_oss7_modem.Fifo
use riot_oss7_modem.Fifo.{Fifo}
use riot_oss7_modem.Fifo.Valid.{IsValid, size, length-contents, get_size_lem}
use riot_oss7_modem.Fifo.Take.{pop_lem, skip_lem, too_short}
use riot_oss7_modem.Fifo.View.{init_filled_lem}
use riot_oss7_modem.Alp.Parse.{pop_byte}
use riot_oss7_modem.Alp.Shrinks.{
  Shrinks, Shrinks-trans, pop-Shrinks, parse_length_operand-Shrinks, Took, Took-if, TookSome,
  TookSome-trans,
}
use riot_oss7_modem.Alp.Expect.{
  skip, expect_read, expect_file_data, expect_forward, expect_action, expect_round, expect_rounds,
  get_expected_response_length,
}

skip-Shrinks : {f : Fifo} (len : ℕ) → IsValid f → Shrinks f (skip len f)
unfolding skip
skip-Shrinks {f} len v = elim (dec_le (u16 len) (size f)) [
  | yes h ↦
      let (_, _, v', n) = skip_lem v (u16 len) h in
      record { valid = v'; shorter = omega (arith, n) }
  | no h ↦
      let e = (too_short v (u16 len) (λ _. 0) 0 (omega arith)).2 in
      rw (e, skip) (record { valid = v; shorter = omega arith })
]

expect_read-Shrinks : {f : Fifo} (expected : ℕ) → IsValid f → Shrinks f (expect_read expected f).1
unfolding expect_read
expect_read-Shrinks expected v =
    let a = skip-Shrinks 1 v in
    let b = Shrinks-trans a (parse_length_operand-Shrinks a.valid) in
    Shrinks-trans b (parse_length_operand-Shrinks b.valid)

expect_file_data-Shrinks : {f : Fifo} → IsValid f → Shrinks f (expect_file_data f)
unfolding expect_file_data
expect_file_data-Shrinks v =
    let a = skip-Shrinks 1 v in
    let b = Shrinks-trans a (parse_length_operand-Shrinks a.valid) in
    let c = Shrinks-trans b (parse_length_operand-Shrinks b.valid) in
    Shrinks-trans c (skip-Shrinks _ c.valid)

expect_forward-Shrinks : {f : Fifo} (stale : ℕ) → IsValid f → Shrinks f (expect_forward stale f)
unfolding expect_forward
expect_forward-Shrinks {f} stale v =
    let a = pop-Shrinks (λ _. stale) 1 v in
    let b = Shrinks-trans a (skip-Shrinks 1 a.valid) in
    let c = Shrinks-trans b (pop-Shrinks (λ _. stale) 1 b.valid) in
    elim (Bool-cases ((pop_byte f stale).0 == 0xd7)) [
      | inl e ↦ rw e (Shrinks-trans c (skip-Shrinks _ c.valid))
      | inr e ↦ rw e a
    ]

expect_action-Took :
    {f : Fifo} (stale op expected : ℕ) → IsValid f → Took f (expect_action stale op expected f)
unfolding expect_action
expect_action-Took {f} stale op expected v =
    Took-if f (op == 1) _ _ (expect_read-Shrinks expected v) (
      Took-if f (op == 52) _ _ (skip-Shrinks 1 v) (
        Took-if f (op == 32) _ _ (expect_file_data-Shrinks v) (
          Took-if f (op == 4) _ _ (expect_file_data-Shrinks v) (
            Took-if f (op == 50) _ _ (expect_forward-Shrinks stale v)
              (Took-if f (op == 6) _ _ (skip-Shrinks 13 v) tt)))))

expect_round-TookSome :
    {f : Fifo} (stale expected : ℕ)
    → IsValid f
    → 0 < size f
    → TookSome f (expect_round stale expected f)
unfolding expect_round
expect_round-TookSome {f} stale expected v h =
    let (_, _, v', n, _) = pop_lem v 1 h (λ _. stale) in
    TookSome-trans f (Fifo.pop f (λ _. stale) 1).2 _ (omega (arith, n, h))
      (expect_action-Took stale ((pop_byte f stale).0 % 2 ^ 6) expected v')

-- The rest of the loop, after a round.
after :
    (fuel stale : ℕ) (f : Fifo) (round : Outcome (ℕ × Fifo))
    → TookSome f round
    → ((expected' : ℕ) (g : Fifo)
        → IsValid g
        → size g < size f
        → (r : Outcome ℕ) × (expect_rounds fuel stale expected' g ≡ some r))
    → (r : Outcome ℕ) × (elim round [
      | fault e ↦ some (fault e)
      | done (expected', fifo') ↦ expect_rounds fuel stale expected' fifo'
    ]
        ≡ some r)
after fuel stale f (done (expected', g)) t loop = loop expected' g t.0 t.1
after fuel stale f (fault e) t loop = (fault e, refl)

expect_rounds_end :
    (fuel stale expected : ℕ) (f : Fifo)
    → IsValid f
    → size f < fuel
    → (r : Outcome ℕ) × (expect_rounds fuel stale expected f ≡ some r)
unfolding expect_rounds
expect_rounds_end zero stale expected f v h = absurd (omega (arith, h))
expect_rounds_end (suc fuel) stale expected f v h = elim (Bool-cases (ltb 0 (Fifo.get_size f))) [
  | inr e ↦ (done expected, rw (e, expect_rounds) refl)
  | inl e ↦
      let t = expect_round-TookSome stale expected v (ground (arith, e, get_size_lem v)) in
      let (r, ran) = after fuel stale f (expect_round stale expected f) t (λ expected' g v' less.
        expect_rounds_end fuel stale expected' g v' (omega (arith, less, h))) in
      (r, rw (e, expect_rounds) ran)
]

-- `alp_get_expected_response_length` ends, whatever the bytes of the command are, and whatever the
-- uninitialised locals hold: a command of `n` bytes, 0 < n < 2 ^ 15, takes at most `n` rounds.
pub get_expected_response_length_ends :
    (stale : ℕ) (alp_command : Bytes) (n : ℕ)
    → 0 < n
    → n < 2 ^ 15
    → (r : Outcome ℕ) × (get_expected_response_length stale alp_command n ≡ some r)
unfolding get_expected_response_length
get_expected_response_length_ends stale alp_command n h k =
    let (w, held, _) =
      init_filled_lem alp_command n (n + 1) (omega arith) (omega arith) (omega arith) in
    expect_rounds_end (suc n) stale 0 (Fifo.init_filled alp_command n (n + 1)) w.valid (
      omega (
        arith,
        ap length held,
        length-contents (Fifo.init_filled alp_command n (n + 1)),
        length-tabulate n alp_command,
      ))
