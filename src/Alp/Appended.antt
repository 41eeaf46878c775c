-- ===== src/Alp/Appended.antt =====
-- What it is for a function to append given bytes to a fifo, and how such functions compose.
use riot_oss7_modem.Common.{
  ℕ, ◌+◌, ◌≡◌, inl, inr, refl, sym, ap, ◌∙◌, List, [], ◌∷◌, ◌++◌, append_assoc, append-nil,
  tabulate, length, length-append, Outcome, done, ◌>>=◌, arith,
}
use riot_oss7_modem.Common.Memory.{Bytes}
use riot_oss7_modem.Fifo
use riot_oss7_modem.Fifo.{Fifo, ErrorCode, success, einval, esize}
use riot_oss7_modem.Fifo.Valid.{size, contents, length-contents}
use riot_oss7_modem.Fifo.Put.{IsWritable, HasRoom, put_appends, head_idx-put}
use riot_oss7_modem.Alp.Append.{checked, assert_put, assert_put_byte}

-- `g` is `f` with `xs` behind what it held.
pub record Appended (f : Fifo) (xs : List ℕ) (g : Fifo) : Type 0 where
  pub writable : IsWritable g
  pub held : contents g ≡ contents f ++ xs
  pub same_max : g.max_size ≡ f.max_size
  pub same_head : g.head_idx ≡ f.head_idx

-- The code does not stop, and appends `xs`.
abbrev pub Appends : Fifo → List ℕ → Outcome Fifo → Type 0
Appends f xs r = (g : Fifo) × (r ≡ done g) × Appended f xs g

size-Appended : {f g : Fifo} (xs : List ℕ) → Appended f xs g → size g ≡ size f + length xs
size-Appended {f} {g} xs a =
    sym (length-contents g)
    ∙ ap length a.held
    ∙ length-append (contents f) xs
    ∙ ap (λ n. n + length xs) (length-contents f)

-- Room for all is room for the rest.
HasRoom-rest :
    {f g : Fifo} (xs : List ℕ) (n : ℕ) → Appended f xs g → HasRoom f (length xs + n) → HasRoom g n
HasRoom-rest xs n a (inl h) = inl (omega (arith, size-Appended xs a, a.same_max))
HasRoom-rest xs n a (inr h) = inr (a.same_head ∙ h.0, omega (arith, size-Appended xs a, a.same_max))

-- Two appending calls in sequence.
pub Appends->>= :
    (f : Fifo) (xs ys : List ℕ) (m : Outcome Fifo) (k : Fifo → Outcome Fifo)
    → IsWritable f
    → HasRoom f (length (xs ++ ys))
    → (HasRoom f (length xs) → Appends f xs m)
    → ((g : Fifo) → IsWritable g → HasRoom g (length ys) → Appends g ys (k g))
    → Appends f (xs ++ ys) (m >>= k)
Appends->>= f xs ys m k w room first second =
    let (g, ran, a) = first (HasRoom-part room) in
    let (h, ran', b) = second g a.writable (HasRoom-rest xs (length ys) a all) in
    (
      h,
      rw ran ran',
      record {
        writable = b.writable;
        held = b.held ∙ ap (λ l. l ++ ys) a.held ∙ append_assoc (contents f) xs ys;
        same_max = b.same_max ∙ a.same_max;
        same_head = b.same_head ∙ a.same_head;
      },
    )
  where
    all : HasRoom f (length xs + length ys)
    all = rw length-append at room

    HasRoom-part : HasRoom f (length (xs ++ ys)) → HasRoom f (length xs)
    HasRoom-part (inl h) = inl (omega (arith, length-append xs ys))
    HasRoom-part (inr h) = inr (h.0, omega (arith, length-append xs ys))

checked-success : (r : ErrorCode × Fifo) → r.0 ≡ success → checked r ≡ done r.1
unfolding checked
checked-success (success, f) h = refl
checked-success (einval, f) h = cc
checked-success (esize, f) h = cc

module _ (f : Fifo) (w : IsWritable f) where
  pub assert_put-Appends :
      (bytes : Bytes) (len : ℕ)
      → HasRoom f len
      → Appends f (tabulate len bytes) (assert_put f bytes len)
  unfolding assert_put
  assert_put-Appends bytes len room =
      let (ok, held, w', same) = put_appends bytes len w room in
      (
        (Fifo.put f bytes len).1,
        checked-success (Fifo.put f bytes len) ok,
        record {
          writable = w';
          held = held;
          same_max = same;
          same_head = head_idx-put f bytes len;
        },
      )

  pub assert_put_byte-Appends :
      (byte : ℕ) → HasRoom f 1 → Appends f (byte ∷ []) (assert_put_byte f byte)
  unfolding assert_put_byte assert_put Fifo.put_byte
  assert_put_byte-Appends byte room = assert_put-Appends (λ _. byte) 1 room

pub Appended-nil : (f : Fifo) → IsWritable f → Appended f [] f
Appended-nil f w = record {
  writable = w;
  held = sym (append-nil (contents f));
  same_max = refl;
  same_head = refl;
}
