-- ===== src/Fifo/Interrupt.antt =====
-- An interrupt that puts into a fifo in the middle of a function of fifo.c that takes from it.
use riot_oss7_modem.Common.{ℕ, ◌+◌, ◌≤◌, ◌≡◌, refl, sym, ◌∙◌, leb, arith, if◌then◌else◌, sub16}
use mathlib.Core.Path.{fun_ext}
use riot_oss7_modem.Common.Memory.{Bytes, advance, memcpy}
use riot_oss7_modem.Fifo.{
  Fifo, success, put, progress_head, peek_copy, check_len, ErrorCode, skip, peek, pop,
}
use riot_oss7_modem.Fifo.Valid.{size, get_size_lem}
use riot_oss7_modem.Fifo.Take.{mod-eq-round, skip_enough, peek_enough, pop_enough}
use riot_oss7_modem.Fifo.Put.{IsWritable, HasRoom, put-eq-success, put_appends}

-- `fifo_skip` and `fifo_pop`, with an interrupt that puts `n` bytes between the test of the size, or the
-- copy, and the move of the head.
unfoldable pub skip_interrupted : Fifo → ℕ → Bytes → ℕ → ErrorCode × Fifo
skip_interrupted f len bytes n = elim (check_len f len) [
  | success ↦ (success, progress_head (put f bytes n).1 len)
  | err ↦ (err, (put f bytes n).1)
]

unfoldable pub pop_interrupted : Fifo → Bytes → ℕ → Bytes → ℕ → ErrorCode × Bytes × Fifo
pop_interrupted f out len bytes n =
    let (err, out') = peek f out 0 len in
    elim err [
      | success ↦ (success, out', progress_head (put f bytes n).1 len)
      | err' ↦ (err', out', (put f bytes n).1)
    ]

ext :
    {f g : Fifo}
    → f.head_idx ≡ g.head_idx
    → f.tail_idx ≡ g.tail_idx
    → f.max_size ≡ g.max_size
    → f.buffer ≡ g.buffer
    → f.is_subview ≡ g.is_subview
    → f ≡ g
ext a b c d e = cc

-- The byte at `k` after a put that is accepted; the head does not come into it.
written : Fifo → Bytes → ℕ → ℕ → ℕ
written f bytes n k =
    let before = sub16 f.max_size f.tail_idx in
    if leb (f.tail_idx + n) f.max_size
    then memcpy f.buffer f.tail_idx bytes n k
    else memcpy (memcpy f.buffer f.tail_idx bytes before) 0 (advance bytes before) (sub16 n before)
        k

written_lem :
    (f : Fifo) (bytes : Bytes) (n k : ℕ)
    → f.head_idx ≤ f.max_size
    → (put f bytes n).0 ≡ success
    → (put f bytes n).1.buffer k ≡ written f bytes n k
unfolding put written
written_lem f bytes n k h ok = ground (arith, h, ok)

max_size-put : (f : Fifo) (bytes : Bytes) (n : ℕ) → (put f bytes n).1.max_size ≡ f.max_size
unfolding put
max_size-put f bytes n = ground arith

is_subview-put : (f : Fifo) (bytes : Bytes) (n : ℕ) → (put f bytes n).1.is_subview ≡ f.is_subview
unfolding put
is_subview-put f bytes n = ground arith

module _ {f : Fifo} (bytes : Bytes) (n len : ℕ) (w : IsWritable f) (room : HasRoom f n)
    (h : len ≤ size f) where
  tail_commutes : (put (progress_head f len) bytes n).1.tail_idx ≡ (put f bytes n).1.tail_idx
  unfolding put progress_head
  tail_commutes =
      ground (arith, w.valid, w.own, h, room, mod-eq-round (f.head_idx + len) f.max_size)

  head_commutes :
      (put (progress_head f len) bytes n).1.head_idx
      ≡ (progress_head (put f bytes n).1 len).head_idx
  unfolding put progress_head
  head_commutes =
      ground (arith, w.valid, w.own, h, room, mod-eq-round (f.head_idx + len) f.max_size)

  accepted : (put (progress_head f len) bytes n).0 ≡ success
  unfolding put progress_head
  accepted = ground (arith, w.valid, w.own, h, room, mod-eq-round (f.head_idx + len) f.max_size)

  head_in : (progress_head f len).head_idx ≤ f.max_size
  unfolding progress_head
  head_in = ground (arith, w.valid, h, mod-eq-round (f.head_idx + len) f.max_size)

  buffer_commutes :
      (k : ℕ) → (put (progress_head f len) bytes n).1.buffer k ≡ (put f bytes n).1.buffer k
  unfolding progress_head written
  buffer_commutes k =
      written_lem (progress_head f len) bytes n k head_in accepted
      ∙ sym (written_lem f bytes n k w.valid.head_in (put_appends bytes n w room).0)

  moved : (put (progress_head f len) bytes n).1 ≡ progress_head (put f bytes n).1 len
  unfolding progress_head
  moved =
      ext head_commutes tail_commutes
        (max_size-put (progress_head f len) bytes n ∙ sym (max_size-put f bytes n))
        (fun_ext buffer_commutes)
        (is_subview-put (progress_head f len) bytes n ∙ sym (is_subview-put f bytes n))

  skipped : skip_interrupted f len bytes n ≡ (success, progress_head (put f bytes n).1 len)
  unfolding skip_interrupted check_len
  skipped = ground (arith, get_size_lem w.valid, h)

  popped :
      (out : Bytes)
      → pop_interrupted f out len bytes n
        ≡ (success, peek_copy f out 0 len, progress_head (put f bytes n).1 len)
  unfolding pop_interrupted
  popped out = ground (arith, peek_enough w.valid len out 0 h)

  later : len ≤ size (put f bytes n).1
  later = omega (arith, h, (put-eq-success bytes n w room).3)

  -- An interrupt that puts `n` bytes between the test of `fifo_skip`, or the copy of `fifo_pop`, and the
  -- move of the head is not seen: if the fifo holds `len` bytes and has room for `n` more,
  -- `fifo_skip` leaves the state, up to the last byte, that it leaves when the put follows it, which is also the one
  -- when the put comes first, and `fifo_pop` copies out what it copies out when the put follows it, and leaves that
  -- state.
  pub interrupt_commutes :
      (out : Bytes)
      → (skip_interrupted f len bytes n ≡ (success, (put (skip f len).1 bytes n).1))
        × (skip_interrupted f len bytes n ≡ skip (put f bytes n).1 len)
        × (pop_interrupted f out len bytes n
            ≡ ((pop f out len).0, (pop f out len).1, (put (pop f out len).2 bytes n).1))
  interrupt_commutes out =
      rw
        (
          skipped,
          popped out,
          pop_enough w.valid len out h,
          skip_enough w.valid len h,
          skip_enough (put-eq-success bytes n w room).1.valid len later,
          moved,
        )
        (refl, refl, refl)
