-- ===== src/Alp/Appending.antt =====
-- Every function that appends to a command appends exactly the encoding of its arguments, if the fifo
-- has room for it.
use riot_oss7_modem.Common.{
  ℕ, zero, suc, ◌+◌, ◌*◌, ◌^◌, ◌≤◌, ◌<◌, ◌≡◌, refl, true, false, List, [], ◌∷◌, ◌++◌, tabulate,
  length, length-tabulate, ltb, Outcome, ◌>>=◌, u8, arith, dec_lt,
}
use riot_oss7_modem.Common.Memory.{Bytes, advance}
use riot_oss7_modem.Fifo.{Fifo}
use riot_oss7_modem.Fifo.Put.{IsWritable, HasRoom}
use riot_oss7_modem.Alp.{word_bytes}
use riot_oss7_modem.Alp.Append.{
  assert_put, assert_put_byte, following_bytes, append_downto_zero, append_length_operand,
}
use riot_oss7_modem.Alp.Encoding.{encode_length}
use riot_oss7_modem.Alp.Appended.{
  Appended-nil, Appends, Appends->>=, assert_put-Appends, assert_put_byte-Appends,
}

-- A byte, then the rest.
pub byte-then :
    (f : Fifo) (byte : ℕ) (ys : List ℕ) (k : Fifo → Outcome Fifo)
    → IsWritable f
    → HasRoom f (length (byte ∷ ys))
    → ((g : Fifo) → IsWritable g → HasRoom g (length ys) → Appends g ys (k g))
    → Appends f (byte ∷ ys) (assert_put_byte f byte >>= k)
byte-then f byte ys k w room then_rest =
    Appends->>= f (byte ∷ []) ys (assert_put_byte f byte) k w room
      (assert_put_byte-Appends f w byte) then_rest

-- `len` bytes, then the rest.
pub bytes-then :
    (f : Fifo) (bytes : Bytes) (len : ℕ) (ys : List ℕ) (k : Fifo → Outcome Fifo)
    → IsWritable f
    → HasRoom f (length (tabulate len bytes ++ ys))
    → ((g : Fifo) → IsWritable g → HasRoom g (length ys) → Appends g ys (k g))
    → Appends f (tabulate len bytes ++ ys) (assert_put f bytes len >>= k)
bytes-then f bytes len ys k w room then_rest =
    Appends->>= f (tabulate len bytes) ys (assert_put f bytes len) k w room
      (λ r. assert_put-Appends f w bytes len (rw length-tabulate at r)) then_rest

-- The last `n` bytes of a word, most significant first.
abbrev downto_zero : ℕ → Bytes → List ℕ
downto_zero zero bytes = []
downto_zero (suc n) bytes = bytes (n + 0) ∷ downto_zero n bytes

append_downto_zero-Appends :
    (n : ℕ) (f : Fifo) (bytes : Bytes)
    → IsWritable f
    → HasRoom f (length (downto_zero n bytes))
    → Appends f (downto_zero n bytes) (append_downto_zero f bytes n)
unfolding append_downto_zero
append_downto_zero-Appends zero f bytes w room = (f, refl, Appended-nil f w)
append_downto_zero-Appends (suc n) f bytes w room =
    Appends->>= f (advance bytes n 0 ∷ []) (downto_zero n bytes) (assert_put f (advance bytes n) 1)
      _ w room (assert_put-Appends f w (advance bytes n) 1)
      (λ g w' room'. append_downto_zero-Appends n g bytes w' room')

-- The first byte of a longer length, and those after it.
long_length : ℕ → List ℕ
long_length n =
    let size = following_bytes n in
    u8 (u8 (size * 2 ^ 6) + word_bytes n size) ∷ downto_zero size (word_bytes n)

long_length-eq-encode_length : (n : ℕ) → 64 ≤ n → n < 2 ^ 30 → long_length n ≡ encode_length n
unfolding long_length
long_length-eq-encode_length n h k = ground arith

short_length-eq-encode_length : (n : ℕ) → n < 64 → word_bytes n 0 ∷ [] ≡ encode_length n
short_length-eq-encode_length n h = ground arith

append_long-Appends :
    (f : Fifo) (n : ℕ)
    → IsWritable f
    → 64 ≤ n
    → HasRoom f (length (long_length n))
    → Appends f (long_length n) (append_length_operand f n)
unfolding append_length_operand long_length
append_long-Appends f n w h room =
    let e : ltb n 64 ≡ false = ground arith in
    rw e (
      byte-then f _ (downto_zero (following_bytes n) (word_bytes n)) _ w room
        (λ g w' room'. append_downto_zero-Appends (following_bytes n) g (word_bytes n) w' room'))

append_short-Appends :
    (f : Fifo) (n : ℕ)
    → IsWritable f
    → n < 64
    → HasRoom f 1
    → Appends f (word_bytes n 0 ∷ []) (append_length_operand f n)
unfolding append_length_operand
append_short-Appends f n w h room =
    let e : ltb n 64 ≡ true = ground arith in rw e (assert_put-Appends f w (word_bytes n) 1 room)

-- `alp_append_length_operand` appends the encoding of a length below 2 ^ 30, in one to four bytes.
pub append_length_operand-Appends :
    (f : Fifo) (n : ℕ)
    → IsWritable f
    → n < 2 ^ 30
    → HasRoom f (length (encode_length n))
    → Appends f (encode_length n) (append_length_operand f n)
append_length_operand-Appends f n w h room = elim (dec_lt n 64) [
  | yes short ↦
      let e = short_length-eq-encode_length n short in
      rw (← e) (append_short-Appends f n w short (rw (← e) at room))
  | no long ↦
      let e = long_length-eq-encode_length n (omega arith) h in
      rw (← e) (append_long-Appends f n w (omega arith) (rw (← e) at room))
]
