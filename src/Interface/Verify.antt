-- ===== src/Interface/Verify.antt =====
-- `verify_payload`: the checksum decides, and the counter follows the sender's.
use riot_oss7_modem.Common.{
  ℕ, zero, suc, ◌+◌, ◌/◌, ◌%◌, ◌^◌, ◌<◌, ◌≡◌, ◌↔◌, inl, inr, refl, ap, ◌∙◌, true, Bool-cases, List,
  [], ◌∷◌, tabulate, take, take-tabulate, length, length-tabulate, ◌==◌, u8, arith,
}
use riot_oss7_modem.Common.Memory.{Bytes}
use riot_oss7_modem.Fifo
use riot_oss7_modem.Fifo.{Fifo}
use riot_oss7_modem.Fifo.Valid.{IsValid, size, contents, length-contents}
use riot_oss7_modem.Fifo.Take.{peek_lem}
use riot_oss7_modem.Crc.{crc_calculate}
use riot_oss7_modem.Crc.Reference.{ccitt}
use riot_oss7_modem.Crc.Agree.{crc_calculate-eq-ccitt}
use riot_oss7_modem.Interface.{Interface}
use riot_oss7_modem.Interface.Receive.{count_down, crc_matches, verify_payload}

-- The bytes that a list is read off are those that it holds.
tabulate_injective :
    (n : ℕ) (f g : Bytes) → tabulate n f ≡ tabulate n g → (k : ℕ) → k < n → f k ≡ g k
tabulate_injective zero f g e k h = absurd (omega (arith, h))
tabulate_injective (suc n) f g e zero h = cc
tabulate_injective (suc n) f g e (suc k) h =
    let t : tabulate n (λ k. f (suc k)) ≡ tabulate n (λ k. g (suc k)) = cc in
    tabulate_injective n (λ k. f (suc k)) (λ k. g (suc k)) t k (omega (arith, h))

take_all : (xs : List ℕ) → take (length xs) xs ≡ xs
take_all [] = refl
take_all (x ∷ xs) = ap (λ l. x ∷ l) (take_all xs)

count_down_lem : (counter received : ℕ) → count_down counter received ≡ received
unfolding count_down
count_down_lem counter received = elim (Bool-cases (received == u8 (counter + 1))) [
  | inl e ↦ rw e (ground (arith, e))
  | inr e ↦ rw e refl
]

crc_matches_iff :
    (header : Bytes) (crc : ℕ)
    → (crc_matches header crc ≡ true)
      ↔ ((header 5 ≡ crc / 2 ^ 8 % 2 ^ 8) × (header 6 ≡ crc % 2 ^ 8))
unfolding crc_matches
crc_matches_iff header crc = (λ e. ground (arith, e), λ e. ground (arith, e.0, e.1))

module _ (i : Interface) (g : Fifo) (n : ℕ) (bytes : Bytes) (valid : IsValid g)
    (held : contents g ≡ tabulate n bytes) (octets : (k : ℕ) → k < n → bytes k < 2 ^ 8)
    (announced : i.header 4 ≡ n) where
  crc_of_peeked : crc_calculate (Fifo.peek g (λ _. 0) 0 n).1 n ≡ ccitt 0xffff (tabulate n bytes)
  crc_of_peeked =
      let sized : size g ≡ n =
        omega (arith, ap length held, length-contents g, length-tabulate n bytes) in
      let (_, copied, _) = peek_lem (λ _. 0) 0 n valid (omega (arith, sized)) in
      let all : take n (contents g) ≡ tabulate n bytes =
        ap (take n) held ∙ take-tabulate n n bytes (omega arith) in
      let same = copied ∙ all in
      crc_calculate-eq-ccitt (Fifo.peek g (λ _. 0) 0 n).1 n
        (λ k h. rw (tabulate_injective n (Fifo.peek g (λ _. 0) 0 n).1 bytes same k h) (octets k h))
      ∙ ap (ccitt 0xffff) same

  -- `verify_payload` of a fifo with `n` bytes, the number that the header announces, says yes exactly
  -- if the last two bytes of the header are the CRC of the payload, and it takes over the counter of
  -- the header in either case.
  pub verify_payload_iff :
      (((verify_payload i g).0 ≡ true) ↔ (
        (i.header 5 ≡ ccitt 0xffff (tabulate n bytes) / 2 ^ 8 % 2 ^ 8)
        × (i.header 6 ≡ ccitt 0xffff (tabulate n bytes) % 2 ^ 8)))
      × ((verify_payload i g).1 ≡ record i { packet_down_counter = i.header 2 })
  unfolding verify_payload
  verify_payload_iff = (
    rw (announced, crc_of_peeked) (crc_matches_iff i.header (ccitt 0xffff (tabulate n bytes))),
    ap (λ c. record i { packet_down_counter = c })
        (count_down_lem i.packet_down_counter (i.header 2)),
  )
