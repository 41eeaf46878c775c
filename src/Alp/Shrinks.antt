-- ===== src/Alp/Shrinks.antt =====
-- Every parser takes bytes off the front of a fifo and keeps it valid, whatever the bytes are.
use riot_oss7_modem.Common.{
  ℕ, ◌/◌, ◌%◌, ◌^◌, ◌≤◌, ◌<◌, ◌≡◌, inl, inr, refl, Bool, true, false, not, ◌&&◌, Bool-cases, leb,
  ◌==◌, if◌then◌else◌, u16, Outcome, done, fault, ◌>>=◌, ◌>>◌, arith, dec_le,
}
use native.Mathlib.Nat.{le_trans}
use riot_oss7_modem.Common.Memory.{Bytes, advance}
use riot_oss7_modem.Fifo
use riot_oss7_modem.Fifo.{Fifo, ErrorCode, success, einval, esize}
use riot_oss7_modem.Fifo.Valid.{IsValid, size}
use riot_oss7_modem.Fifo.Take.{pop_lem, too_short}
use riot_oss7_modem.Alp.{Action, FileData, file_data_capacity}
use riot_oss7_modem.Alp.Parse.{
  assert, checked_byte, assert_pop_byte, parse_length_operand, length_after,
  parse_file_offset_operand, parse_operand_file_data, pop_file_data, parse_op_return_tag,
  drop_field, drop_fields, checked_id, parse_interface_status, parse_op_return_status,
  parse_operation, parse_action,
}

-- A call that takes nothing but bytes off the front.
pub record Shrinks (f g : Fifo) : Type 0 where
  pub valid : IsValid g
  pub shorter : size g ≤ size f

pub Shrinks-trans : {f g h : Fifo} → Shrinks f g → Shrinks g h → Shrinks f h
Shrinks-trans a b = record { valid = b.valid; shorter = le_trans b.shorter a.shorter }

pub pop-Shrinks : {f : Fifo} (out : Bytes) (len : ℕ) → IsValid f → Shrinks f (Fifo.pop f out len).2
pop-Shrinks {f} out len v = elim (dec_le len (size f)) [
  | yes h ↦
      let (_, _, v', n, _) = pop_lem v len h out in
      record { valid = v'; shorter = omega (arith, n) }
  | no h ↦
      let e = (too_short v len out 0 (omega arith)).1 in
      rw e (record { valid = v; shorter = omega arith })
]

length_after-Shrinks : {f : Fifo} (len : ℕ) → IsValid f → Shrinks f (length_after len f).1
unfolding length_after
length_after-Shrinks {f} len v = elim (Bool-cases (len / 2 ^ 6 == 0)) [
  | inl e ↦ rw e (record { valid = v; shorter = omega arith })
  | inr e ↦ rw e (pop-Shrinks _ (len / 2 ^ 6) v)
]

pub parse_length_operand-Shrinks : {f : Fifo} → IsValid f → Shrinks f (parse_length_operand f).1
unfolding parse_length_operand
parse_length_operand-Shrinks {f} v =
    let a = pop-Shrinks (λ _. 0) 1 v in Shrinks-trans a (length_after-Shrinks _ a.valid)

-- If the code gets through, it has taken bytes off the front.
abbrev pub Took : {A : Type 0} → Fifo → Outcome (A × Fifo) → Type 0
Took f (done (a, g)) = Shrinks f g
Took f (fault e) = Unit

-- The same, and at least one byte.
abbrev pub TookSome : {A : Type 0} → Fifo → Outcome (A × Fifo) → Type 0
TookSome f (done (a, g)) = IsValid g × (size g < size f)
TookSome f (fault e) = Unit

Took-trans : {A : Type 0} {f g : Fifo} (r : Outcome (A × Fifo)) → Shrinks f g → Took g r → Took f r
Took-trans (done (a, h)) s t = Shrinks-trans s t
Took-trans (fault e) s t = tt

pub TookSome-trans :
    {A : Type 0} (f g : Fifo) (r : Outcome (A × Fifo)) → size g < size f → Took g r → TookSome f r
TookSome-trans f g (done (a, h)) s t = (t.valid, omega (arith, t.shorter))
TookSome-trans f g (fault e) s t = tt

Took->>= :
    {A B : Type 0} (f : Fifo) (m : Outcome (A × Fifo)) (k : A × Fifo → Outcome (B × Fifo))
    → Took f m
    → ((a : A) (g : Fifo) → IsValid g → Took g (k (a, g)))
    → Took f (m >>= k)
Took->>= f (done (a, g)) k s h = Took-trans (k (a, g)) s (h a g s.valid)
Took->>= f (fault e) k s h = tt

TookSome->>= :
    {A B : Type 0} (f : Fifo) (m : Outcome (A × Fifo)) (k : A × Fifo → Outcome (B × Fifo))
    → TookSome f m
    → ((a : A) (g : Fifo) → IsValid g → Took g (k (a, g)))
    → TookSome f (m >>= k)
TookSome->>= f (done (a, g)) k s h = TookSome-trans f g (k (a, g)) s.1 (h a g s.0)
TookSome->>= f (fault e) k s h = tt

Took-assert :
    {A : Type 0} (f : Fifo) (b : Bool) (m : Outcome (A × Fifo)) → Took f m → Took f (assert b >> m)
Took-assert f true m t = t
Took-assert f false m t = tt

checked_byte-success :
    (r : ErrorCode × Bytes × Fifo) → r.0 ≡ success → checked_byte r ≡ done (r.1 0, r.2)
unfolding checked_byte
checked_byte-success (success, out, f) h = refl
checked_byte-success (einval, out, f) h = cc
checked_byte-success (esize, out, f) h = cc

assert_pop_byte-TookSome : {f : Fifo} → IsValid f → TookSome f (assert_pop_byte f)
unfolding assert_pop_byte
assert_pop_byte-TookSome {f} v = elim (dec_le 1 (size f)) [
  | yes h ↦
      let (ok, _, v', n, _) = pop_lem v 1 h (λ _. 0) in
      rw (checked_byte-success (Fifo.pop f (λ _. 0) 1) ok) (v', omega (arith, n))
  | no h ↦ let e = (too_short v 1 (λ _. 0) 0 (omega arith)).1 in rw (e, checked_byte) tt
]

Took-weaken : {A : Type 0} (f : Fifo) (r : Outcome (A × Fifo)) → TookSome f r → Took f r
Took-weaken f (done (a, g)) t = record { valid = t.0; shorter = omega (arith, t.1) }
Took-weaken f (fault e) t = tt

assert_pop_byte-Took : {f : Fifo} → IsValid f → Took f (assert_pop_byte f)
assert_pop_byte-Took {f} v = Took-weaken f (assert_pop_byte f) (assert_pop_byte-TookSome v)

parse_file_offset_operand-Took : {f : Fifo} → IsValid f → Took f (parse_file_offset_operand f)
unfolding parse_file_offset_operand
parse_file_offset_operand-Took {f} v =
    Took->>= f (assert_pop_byte f) _ (assert_pop_byte-Took v)
      (λ file_id g v'. parse_length_operand-Shrinks v')

parse_operand_file_data-Took :
    {f : Fifo} (stale : Bytes) → IsValid f → Took f (parse_operand_file_data f stale)
unfolding parse_operand_file_data pop_file_data
parse_operand_file_data-Took {f} stale v =
    Took->>= f (parse_file_offset_operand f) _ (parse_file_offset_operand-Took v)
      (λ file_offset g v'.
        let s = parse_length_operand-Shrinks v' in
        Took-assert {A = FileData} g (leb (parse_length_operand g).0 file_data_capacity)
          (done
            (pop_file_data (parse_length_operand g).1 file_offset (parse_length_operand g).0 stale))
          (Shrinks-trans s
            (pop-Shrinks (advance stale 12) (u16 (parse_length_operand g).0) s.valid)))

drop_field-Shrinks : {f : Fifo} (len : ℕ) → IsValid f → Shrinks f (drop_field len f)
unfolding drop_field
drop_field-Shrinks len v = pop-Shrinks (λ _. 0) len v

drop_fields-Shrinks : {f : Fifo} → IsValid f → Shrinks f (drop_fields f)
unfolding drop_fields
drop_fields-Shrinks {f} v =
    let a = drop_field-Shrinks 1 v in
    let b = Shrinks-trans a (drop_field-Shrinks 2 a.valid) in
    let c = Shrinks-trans b (drop_field-Shrinks 1 b.valid) in
    let d = Shrinks-trans c (drop_field-Shrinks 1 c.valid) in
    let e = Shrinks-trans d (drop_field-Shrinks 1 d.valid) in
    let g = Shrinks-trans e (drop_field-Shrinks 1 e.valid) in
    let h = Shrinks-trans g (drop_field-Shrinks 1 g.valid) in
    let i = Shrinks-trans h (drop_field-Shrinks 1 h.valid) in
    Shrinks-trans i (drop_field-Shrinks 1 i.valid)

checked_id-Took :
    (f : Fifo) (r : ErrorCode × Bytes × Fifo) (a : Action)
    → Shrinks f r.2
    → Took f (checked_id r >>= λ g. done (a, g))
unfolding checked_id
checked_id-Took f (success, out, g) a s = s
checked_id-Took f (einval, out, g) a s = tt
checked_id-Took f (esize, out, g) a s = tt

parse_op_return_status-Took :
    {f : Fifo} (stale : Bytes) (b6 b7 : Bool)
    → IsValid f
    → Took f (parse_op_return_status f stale b6 b7)
unfolding parse_op_return_status parse_interface_status
parse_op_return_status-Took {f} stale b6 b7 v = Took-assert f (b6 && not b7) _ (
    Took->>= f (assert_pop_byte f) _ (assert_pop_byte-Took v) (λ itf_id g v'.
      Took-assert g (itf_id == 0xd7) _ (
        let a = drop_fields-Shrinks v' in
        let b = Shrinks-trans a (pop-Shrinks (λ _. stale 13) 1 a.valid) in
        let c = Shrinks-trans b (drop_field-Shrinks 1 b.valid) in
        checked_id-Took g _ _ (Shrinks-trans c (pop-Shrinks _ _ c.valid)))))

parse_op_return_tag-Took :
    {f : Fifo} (b6 b7 : Bool) → IsValid f → Took f (parse_op_return_tag f b6 b7)
unfolding parse_op_return_tag
parse_op_return_tag-Took {f} b6 b7 v =
    Took->>= f (assert_pop_byte f) _ (assert_pop_byte-Took v)
      (λ tag_id g v'. record { valid = v'; shorter = omega arith })

pub Took-if :
    {A : Type 0} (f : Fifo) (b : Bool) (m n : Outcome (A × Fifo))
    → Took f m
    → Took f n
    → Took f (if b then m else n)
Took-if f true m n s t = s
Took-if f false m n s t = t

operand-Took :
    {f : Fifo} (stale : Bytes) (action : FileData → Action)
    → IsValid f
    → Took f (parse_operand_file_data f stale >>= λ (operand, g). done (action operand, g))
operand-Took {f} stale action v =
    Took->>= f (parse_operand_file_data f stale) _ (parse_operand_file_data-Took stale v)
      (λ operand g v'. record { valid = v'; shorter = omega arith })

parse_operation-Took :
    {f : Fifo} (stale : Bytes) (op : ℕ) (b6 b7 : Bool)
    → IsValid f
    → Took f (parse_operation f stale op b6 b7)
unfolding parse_operation
parse_operation-Took {f} stale op b6 b7 v =
    Took-if f (op == 4) _ _ (operand-Took stale Action.write_file_data v) (
      Took-if f (op == 32) _ _ (operand-Took stale Action.return_file_data v) (
        Took-if f (op == 35) _ _ (parse_op_return_tag-Took b6 b7 v)
          (Took-if f (op == 34) _ _ (parse_op_return_status-Took stale b6 b7 v) tt)))

-- `alp_parse_action` either stops the program, or leaves a valid fifo with fewer bytes, whatever the
-- bytes are.
pub parse_action-TookSome :
    {f : Fifo} (stale : Bytes) → IsValid f → TookSome f (parse_action f stale)
unfolding parse_action
parse_action-TookSome {f} stale v =
    TookSome->>= f (assert_pop_byte f) _ (assert_pop_byte-TookSome v)
      (λ op g v'. parse_operation-Took stale (op % 2 ^ 6) _ _ v')
