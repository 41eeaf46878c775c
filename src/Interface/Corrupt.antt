-- ===== src/Interface/Corrupt.antt =====
-- A frame that was damaged on the line.
use riot_oss7_modem.Common.{
  ℕ, ◌/◌, ◌%◌, ◌^◌, ◌<◌, ◌≡◌, ◌≢◌, ◌⊎◌, inl, inr, refl, sym, ap, ◌∙◌, false, List, [], ◌∷◌, ◌++◌,
  length, length-append, get_or, Outcome, done, ◌>>=◌, arith,
}
use riot_oss7_modem.Common.Memory.{Bytes}
use riot_oss7_modem.Common.Octets.{AreOctets, append-AreOctets, tabulate-get_or, get_or-octet}
use riot_oss7_modem.Fifo.{Fifo}
use riot_oss7_modem.Fifo.Valid.{IsValid, contents}
use riot_oss7_modem.Crc.Reference.{ccitt}
use riot_oss7_modem.Crc.Burst.{ccitt-lt, burst_detected}
use riot_oss7_modem.Interface.{Interface}
use riot_oss7_modem.Interface.Frame.{encode_header}
use riot_oss7_modem.Interface.Receive.{returns, take_header, finish, process_rx_fifo}
use riot_oss7_modem.Interface.Deliver.{
  peeked, parse_header_lem, counted, parse_payload_rejects, process_header, process_payload,
}

-- The two bytes of the header tell two registers apart.
header_tells :
    (c d : ℕ)
    → c < 2 ^ 16
    → d < 2 ^ 16
    → c / 2 ^ 8 % 2 ^ 8 ≡ d / 2 ^ 8 % 2 ^ 8
    → c % 2 ^ 8 ≡ d % 2 ^ 8
    → c ≡ d
header_tells c d h k high low = omega (arith, high, low, h, k)

module _ (front tail : List ℕ) (x y x' y' : ℕ) where
  abbrev pub sent : List ℕ
  sent = front ++ (x ∷ y ∷ tail)

  abbrev pub got : List ℕ
  got = front ++ (x' ∷ y' ∷ tail)

  same_length : length got ≡ length sent
  same_length =
      omega (arith, length-append front (x ∷ y ∷ tail), length-append front (x' ∷ y' ∷ tail))

  checksums_differ :
      AreOctets front
      → AreOctets tail
      → AreOctets (x ∷ y ∷ x' ∷ y' ∷ [])
      → ((x ≢ x') ⊎ (y ≢ y'))
      → ¬ (
          (ccitt 0xffff sent / 2 ^ 8 % 2 ^ 8 ≡ ccitt 0xffff got / 2 ^ 8 % 2 ^ 8)
          × (ccitt 0xffff sent % 2 ^ 8 ≡ ccitt 0xffff got % 2 ^ 8))
  checksums_differ a b c differ e =
      let below : (x y : ℕ)
          → x < 2 ^ 8
          → y < 2 ^ 8
          → ccitt 0xffff (front ++ (x ∷ y ∷ tail)) < 2 ^ 16 =
        λ x y k l.
          ccitt-lt 0xffff (front ++ (x ∷ y ∷ tail)) (omega arith)
            (append-AreOctets front (x ∷ y ∷ tail) a (k, (l, b))) in
      let same =
        header_tells (ccitt 0xffff sent) (ccitt 0xffff got) (below x y c.0 c.1.0)
          (below x' y' c.1.1.0 c.1.1.1.0) e.0 e.1 in
      let (p, q) = burst_detected 0xffff front tail x y x' y' (omega arith) a b c same in
      elim differ [ inl n ↦ n p | inr n ↦ n q ]

  -- A frame of which up to two neighbouring bytes of the payload changed on the line is not handed to
  -- any handler: its header is taken, then the payload is rejected, and its bytes stay in the fifo.
  pub damaged_frame_rejected :
      {W : Type 0} (call : ℕ → Fifo → Interface × W → Outcome (Fifo × Interface × W))
      (i : Interface) (w : W) (counter type_ : ℕ) (rest : List ℕ)
      → AreOctets front
      → AreOctets tail
      → AreOctets (x ∷ y ∷ x' ∷ y' ∷ [])
      → ((x ≢ x') ⊎ (y ≢ y'))
      → IsValid i.rx_fifo
      → i.parsed_header ≡ false
      → contents i.rx_fifo ≡ encode_header counter type_ sent ++ (got ++ rest)
      → (j : Interface) × (process_rx_fifo call (i, w) ≡ done (returns, j, w))
        × (j.locked ≡ false)
        × (process_rx_fifo call (j, w) ≡ done (returns, finish (counted j), w))
        × (contents (finish (counted j)).rx_fifo ≡ got ++ rest)
  unfolding take_header finish
  damaged_frame_rejected call i w counter type_ rest a b c differ valid idle held =
      let enough : 0 < length (got ++ rest) =
        omega (arith, length-append got rest, length-append front (x' ∷ y' ∷ tail)) in
      let (ran, header, len, v, left) =
        parse_header_lem i counter type_ sent (got ++ rest) valid held enough in
      let j = take_header (peeked i counter type_ sent (got ++ rest) valid held enough) in
      let read : Bytes = λ k. get_or got k 0 in
      let all = tabulate-get_or got in
      let announced : j.header 4 ≡ length got = header.announced ∙ sym same_length in
      let octets = append-AreOctets front (x' ∷ y' ∷ tail) a (c.1.1.0, (c.1.1.1.0, b)) in
      let rejects =
        parse_payload_rejects call j w (length got) read rest v
          (left ∙ ap (λ l. l ++ rest) (sym all)) (get_or-octet got octets) announced announced
          (λ e. checksums_differ a b c differ (
            sym header.crc_high ∙ e.0 ∙ ap (λ l. ccitt 0xffff l / 2 ^ 8 % 2 ^ 8) all,
            sym header.crc_low ∙ e.1 ∙ ap (λ l. ccitt 0xffff l % 2 ^ 8) all,
          )) in
      (
        j,
        process_header call i w idle ∙ ap (λ r. done (r.0, r.1, w)) ran,
        refl,
        process_payload call j w refl ∙ ap (λ m. m >>= λ (i', w'). done (returns, i', w')) rejects,
        left,
      )
