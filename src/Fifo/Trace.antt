-- ===== src/Fifo/Trace.antt =====
-- Sequences of calls on one fifo: bytes come out in the order in which they went in.
use riot_oss7_modem.Common.{
  ℕ, ◌≡◌, ◌⊎◌, inl, inr, refl, sym, ap, ◌∙◌, List, [], ◌∷◌, ◌++◌, append-nil, append_assoc,
  tabulate, u16, dec_lt, dec_le, ℕ_discrete, arith, ◌+◌,
}
use riot_oss7_modem.Common.Memory.{Bytes}
use riot_oss7_modem.Fifo.{Fifo, ErrorCode, success, einval, esize, put, pop}
use riot_oss7_modem.Fifo.Valid.{size, contents}
use riot_oss7_modem.Fifo.Put.{IsWritable, HasRoom, put_appends, put_refuses}
use riot_oss7_modem.Fifo.Take.{pop_lem, too_short, is_subview-pop}

-- A call, with the lengths that reach the uint16_t parameter. `pop` fills `out`.
pub data Call : Type 0 where
  put_call : Bytes → ℕ → Call
  pop_call : Bytes → ℕ → Call

-- The fifo after a call, the bytes that the call took in, and those that it gave out.
pub record Effect : Type 0 where
  pub fifo : Fifo
  pub entered : List ℕ
  pub left : List ℕ

after_put : ErrorCode × Fifo → Bytes → ℕ → Effect
after_put (success, f) bytes len = record { fifo = f; entered = tabulate len bytes; left = [] }
after_put (_, f) bytes len = record { fifo = f; entered = []; left = [] }

after_pop : ErrorCode × Bytes × Fifo → ℕ → Effect
after_pop (success, out, f) len = record { fifo = f; entered = []; left = tabulate len out }
after_pop (_, out, f) len = record { fifo = f; entered = []; left = [] }

pub call : Fifo → Call → Effect
unfolding after_put after_pop
call f (put_call bytes len) = after_put (put f bytes (u16 len)) bytes (u16 len)
call f (pop_call out len) = after_pop (pop f out (u16 len)) (u16 len)

-- The calls in order, refused ones included.
pub run : Fifo → List Call → Effect
run f [] = record { fifo = f; entered = []; left = [] }
run f (c ∷ cs) =
    let e = call f c in
    let r = run e.fifo cs in
    record { fifo = r.fifo; entered = e.entered ++ r.entered; left = e.left ++ r.left }

HasRoom-dec : (f : Fifo) (len : ℕ) → HasRoom f len ⊎ (¬ HasRoom f len)
HasRoom-dec f len = elim (dec_lt (size f + len) f.max_size) [
  | yes p ↦ inl (inl p)
  | no p ↦ elim (ℕ_discrete f.head_idx 0) [
    | yes q ↦ elim (dec_le (size f + len) f.max_size) [
      | yes r ↦ inl (inr (q, r))
      | no r ↦ inr (λ h. omega arith)
    ]
    | no q ↦ inr (λ h. omega arith)
  ]
]

after_put-success :
    (r : ErrorCode × Fifo) (bytes : Bytes) (len : ℕ)
    → r.0 ≡ success
    → after_put r bytes len ≡ record { fifo = r.1; entered = tabulate len bytes; left = [] }
unfolding after_put
after_put-success (success, f) bytes len h = refl
after_put-success (einval, f) bytes len h = cc
after_put-success (esize, f) bytes len h = cc

after_pop-success :
    (r : ErrorCode × Bytes × Fifo) (len : ℕ)
    → r.0 ≡ success
    → after_pop r len ≡ record { fifo = r.2; entered = []; left = tabulate len r.1 }
unfolding after_pop
after_pop-success (success, out, f) len h = refl
after_pop-success (einval, out, f) len h = cc
after_pop-success (esize, out, f) len h = cc

-- One call keeps the fifo writable, and conserves the bytes in their order.
call_conserves :
    {f : Fifo} (c : Call)
    → IsWritable f
    → (contents f ++ (call f c).entered ≡ (call f c).left ++ contents (call f c).fifo)
      × IsWritable (call f c).fifo
unfolding call
call_conserves {f} (put_call bytes len) w = elim (HasRoom-dec f (u16 len)) [
  | inl room ↦
      let (ok, appended, w', _) = put_appends bytes (u16 len) w room in
      rw (after_put-success (put f bytes (u16 len)) bytes (u16 len) ok) (sym appended, w')
  | inr full ↦
      rw (put_refuses bytes (u16 len) w (omega arith) full, after_put) (append-nil (contents f), w)
]
call_conserves {f} (pop_call out len) w = elim (dec_le (u16 len) (size f)) [
  | yes h ↦
      let (ok, moved, v', _, _) = pop_lem w.valid (u16 len) h out in
      rw (after_pop-success (pop f out (u16 len)) (u16 len) ok) (
        append-nil (contents f) ∙ moved,
        record { valid = v'; own = is_subview-pop f out (u16 len) ∙ w.own },
      )
  | no h ↦
      rw ((too_short w.valid (u16 len) out 0 (omega arith)).1, after_pop)
        (append-nil (contents f), w)
]

-- Whatever the sequence of puts and pops on a writable fifo, refused ones included: what it held,
-- followed by what was put, is what was popped, followed by what it holds; and it stays writable.
pub run_conserves :
    (cs : List Call) {f : Fifo}
    → IsWritable f
    → (contents f ++ (run f cs).entered ≡ (run f cs).left ++ contents (run f cs).fifo)
      × IsWritable (run f cs).fifo
unfolding run
run_conserves [] {f} w = (append-nil (contents f), w)
run_conserves (c ∷ cs) {f} w =
    let (here, w') = call_conserves c w in
    let (later, w'') = run_conserves cs w' in
    let e = call f c in
    let r = run e.fifo cs in
    (
      sym (append_assoc (contents f) e.entered r.entered)
          ∙ ap (λ l. l ++ r.entered) here
          ∙ append_assoc e.left (contents e.fifo) r.entered
          ∙ ap (λ l. e.left ++ l) later
          ∙ sym (append_assoc e.left r.left (contents r.fifo)),
      w'',
    )
