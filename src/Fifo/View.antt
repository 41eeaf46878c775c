-- ===== src/Fifo/View.antt =====
-- `fifo_init`, `fifo_init_filled`, `fifo_init_subview`, `fifo_clear` and `fifo_is_full`.
use riot_oss7_modem.Common.{
  ℕ, ◌+◌, ◌-◌, ◌^◌, ◌≤◌, ◌<◌, ◌≡◌, ◌≢◌, ◌↔◌, refl, [], tabulate, ltb, if◌then◌else◌, true, false,
  arith, ap, ◌∙◌, sym, tabulate_ext, take, drop, done, fault, assertion,
}
use riot_oss7_modem.Common.Memory.{Bytes}
use riot_oss7_modem.Fifo.{Fifo, esize, init_filled, init_subview, put, put_byte, clear, is_full}
use riot_oss7_modem.Fifo.Valid.{IsValid, size, index, contents, get_size_lem}
use riot_oss7_modem.Fifo.Put.{IsWritable, HasRoom, put_old, put_refuses, index-put}
use riot_oss7_modem.Fifo.Take.{slice_contents}

contents-init_filled :
    (buffer : Bytes) (filled n : ℕ)
    → 2 ≤ n
    → n ≤ 2 ^ 15
    → filled < n
    → contents (init_filled buffer filled n) ≡ tabulate filled buffer
unfolding init_filled
contents-init_filled buffer filled n h k l =
    ap (λ m. tabulate m (λ i. buffer (index (init_filled buffer filled n) i)))
      (let e : size (init_filled buffer filled n) ≡ filled = ground arith in e)
    ∙ tabulate_ext filled _ _ (λ i p. ap buffer (ground arith))

-- A fifo over a pre-filled array of `n` bytes holds the filled part, and can be appended to.
-- Its `max_size` is `n - 1`.
pub init_filled_lem :
    (buffer : Bytes) (filled n : ℕ)
    → 2 ≤ n
    → n ≤ 2 ^ 15
    → filled < n
    → IsWritable (init_filled buffer filled n)
      × (contents (init_filled buffer filled n) ≡ tabulate filled buffer)
      × ((init_filled buffer filled n).max_size + 1 ≡ n)
unfolding init_filled
init_filled_lem buffer filled n h k l =
    (ground arith, contents-init_filled buffer filled n h k l, ground arith)

pub clear_lem : {f : Fifo} → IsWritable f → IsWritable (clear f) × (contents (clear f) ≡ [])
unfolding clear
clear_lem w = (ground arith, refl)

module _ {f : Fifo} (v : IsValid f) (offset n : ℕ) where
  abbrev pub subview : Fifo
  subview = record {
    head_idx = f.head_idx + offset;
    tail_idx =
        if ltb f.max_size (f.head_idx + offset + n)
        then f.head_idx + offset + n - f.max_size
        else f.head_idx + offset + n;
    max_size = f.max_size;
    buffer = f.buffer;
    is_subview = true;
  }

  pub init_subview-eq : offset + n ≤ size f → init_subview f offset n ≡ done subview
  unfolding init_subview
  init_subview-eq h = ground (arith, get_size_lem v)

  module _ (h : offset + n ≤ size f) (k : f.head_idx + offset ≤ f.max_size) where
    pub subview-IsValid : IsValid subview
    subview-IsValid = ground arith

    pub size-subview : size subview ≡ n
    size-subview = ground arith

    index-subview : (i : ℕ) → i < n → index subview i ≡ index f (offset + i)
    index-subview i p = ground arith

    pub contents-subview : contents subview ≡ take n (drop offset (contents f))
    contents-subview =
        ap (λ m. tabulate m (λ i. f.buffer (index subview i))) size-subview
        ∙ tabulate_ext n _ _ (λ i p. ap f.buffer (index-subview i p))
        ∙ slice_contents f offset n h

    -- A subview that starts before the end of the array is a valid fifo that holds the `n` bytes
    -- from `offset` on, and cannot be appended to.
    pub init_subview_lem :
        (g : Fifo) × (init_subview f offset n ≡ done g)
        × (contents g ≡ take n (drop offset (contents f)))
        × IsValid g
        × (g.is_subview ≡ true)
    init_subview_lem = (subview, init_subview-eq h, contents-subview, subview-IsValid, refl)

    -- While a subview is read, appending to the original, as the UART interrupt does, leaves the
    -- bytes of the subview in the shared array as they are: on a valid original that is no subview and has room, for a subview of
    -- bytes that it holds, which starts before the end of the array.
    pub subview_survives_put :
        (bytes : Bytes) (len : ℕ)
        → f.is_subview ≡ false
        → HasRoom f len
        → contents (record subview { buffer = (put f bytes len).1.buffer }) ≡ contents subview
    subview_survives_put bytes len own room =
        ap (λ m. tabulate m (λ i. (put f bytes len).1.buffer (index subview i))) size-subview
        ∙ tabulate_ext n _ _ (λ i p.
          ap (put f bytes len).1.buffer (index-subview i p ∙ sym (stays i p))
          ∙ put_old bytes len (record { valid = v; own = own }) room (offset + i) (omega arith)
          ∙ ap f.buffer (sym (index-subview i p)))
        ∙ ap (λ m. tabulate m (λ i. f.buffer (index subview i))) (sym size-subview)
      where
        stays : (i : ℕ) → i < n → index (put f bytes len).1 (offset + i) ≡ index f (offset + i)
        stays i p = index-put f bytes len (offset + i)

-- The asserts of `fifo_init_subview`: a subview larger than what the fifo holds stops the program.
pub init_subview_too_large :
    {f : Fifo} (offset n : ℕ) → IsValid f → size f < n → init_subview f offset n ≡ fault assertion
unfolding init_subview
init_subview_too_large offset n v h = ground (arith, get_size_lem v)

-- `fifo_is_full` holds exactly if all of the array is in use, which takes a head at the start.
pub is_full_iff :
    {f : Fifo} → IsValid f → (is_full f ≡ true) ↔ ((f.head_idx ≡ 0) × (f.tail_idx ≡ f.max_size))
unfolding is_full
is_full_iff v = (λ e. ground (arith, get_size_lem v), λ e. ground (arith, get_size_lem v))

-- Once the head has moved, a fifo with `max_size - 1` bytes takes no further byte, and
-- `fifo_is_full` says that it is not full.
pub is_full_misses :
    {f : Fifo} (byte : ℕ)
    → IsWritable f
    → f.head_idx ≢ 0
    → size f + 1 ≡ f.max_size
    → (put_byte f byte ≡ (esize, f)) × (is_full f ≡ false)
unfolding put_byte is_full
is_full_misses {f} byte w h e =
    (put_refuses (λ _. byte) 1 w (omega arith) (ground arith), ground (arith, get_size_lem w.valid))
