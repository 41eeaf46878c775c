-- ===== src/Interface/Send.antt =====
-- `modem_interface_transfer_bytes`: what goes to the UART.
use riot_oss7_modem.Common.{
  ℕ, ◌+◌, ◌^◌, ◌≤◌, ◌<◌, ◌≡◌, inl, refl, sym, ap, ◌∙◌, true, [], ◌++◌, append-nil, tabulate, length,
  length-tabulate, u8, arith,
}
use riot_oss7_modem.Common.Memory.{Bytes}
use riot_oss7_modem.Fifo
use riot_oss7_modem.Fifo.{Fifo}
use riot_oss7_modem.Fifo.Valid.{size, index, contents, length-contents, get_size_lem}
use riot_oss7_modem.Fifo.Put.{IsWritable, put_appends, put_refuses}
use riot_oss7_modem.Fifo.Take.{pop_lem, is_subview-pop, max_size-pop}
use riot_oss7_modem.Crc.{crc_calculate}
use riot_oss7_modem.Crc.Agree.{crc_calculate-eq-ccitt}
use riot_oss7_modem.Interface.{Interface, flush, frame_header, transfer_bytes, header_size}
use riot_oss7_modem.Interface.Frame.{encode_header, encode_frame}

-- The transmitting fifo between two frames.
pub record IsFlushed (f : Fifo) : Type 0 where
  pub writable : IsWritable f
  pub empty : size f ≡ 0
  pub capacity : f.max_size ≡ 254

no_contents : (f : Fifo) → size f ≡ 0 → contents f ≡ []
no_contents f e = ap (λ n. tabulate n (λ k. f.buffer (index f k))) e

flush_lem :
    (i : Interface)
    → IsWritable i.tx_fifo
    → i.tx_fifo.max_size ≡ 254
    → ((flush i).uart_out ≡ i.uart_out ++ contents i.tx_fifo) × IsFlushed (flush i).tx_fifo
unfolding flush
flush_lem i w m =
    let n = size i.tx_fifo in
    let e : u8 (Fifo.get_size i.tx_fifo) ≡ n = ground (arith, get_size_lem w.valid) in
    let p = pop_lem w.valid n (omega arith) (λ _. 0) in
    let rest = (Fifo.pop i.tx_fifo (λ _. 0) n).2 in
    let none_left = no_contents rest (omega (arith, p.3)) in
    rw e (
      ap (λ l. i.uart_out ++ l)
          (sym (
            p.1
            ∙ ap (λ l. tabulate n (Fifo.pop i.tx_fifo (λ _. 0) n).1 ++ l) none_left
            ∙ append-nil _)),
      record {
        writable = record { valid = p.2; own = is_subview-pop i.tx_fifo (λ _. 0) n ∙ w.own };
        empty = omega (arith, p.3);
        capacity = max_size-pop i.tx_fifo (λ _. 0) n ∙ m;
      },
    )

-- The header is encoded as the format says.
header_bytes :
    (counter type_ len : ℕ) (bytes : Bytes)
    → ((k : ℕ) → k < len → bytes k < 2 ^ 8)
    → tabulate header_size (frame_header counter type_ len (crc_calculate bytes len))
      ≡ encode_header counter type_ (tabulate len bytes)
unfolding frame_header
header_bytes counter type_ len bytes h =
    rw (crc_calculate-eq-ccitt bytes len h, length-tabulate) refl

module _ (i : Interface) (bytes : Bytes) (len type_ : ℕ) (idle : IsFlushed i.tx_fifo)
    (octets : (k : ℕ) → k < len → bytes k < 2 ^ 8) where
  abbrev counter : ℕ
  counter = u8 (i.packet_up_counter + 1)

  abbrev header : Bytes
  header = frame_header counter type_ len (crc_calculate bytes len)

  abbrev with_header : Fifo
  with_header = (Fifo.put i.tx_fifo header header_size).1

  with_header_lem :
      (contents with_header ≡ encode_header counter type_ (tabulate len bytes))
      × IsWritable with_header
      × (with_header.max_size ≡ 254)
  with_header_lem =
      let w = idle.writable in
      let p = put_appends header header_size w (inl (omega (arith, idle.empty, idle.capacity))) in
      (
        p.1
            ∙ ap (λ l. l ++ tabulate header_size header) (no_contents i.tx_fifo idle.empty)
            ∙ header_bytes counter type_ len bytes octets,
        p.2,
        p.3 ∙ idle.capacity,
      )

  size-with_header : size with_header ≡ 7
  size-with_header = omega (arith, ap length with_header_lem.0, length-contents with_header)

  -- With an empty transmitting fifo, `modem_interface_transfer_bytes` sends a payload of up to 246
  -- bytes as one whole frame with the next counter, and the fifo is empty again. Nothing of the
  -- receiving side changes.
  pub transfer_sends :
      len ≤ 246
      → ((transfer_bytes i bytes len type_).uart_out
          ≡ i.uart_out ++ encode_frame (u8 (i.packet_up_counter + 1)) type_ (tabulate len bytes))
        × IsFlushed (transfer_bytes i bytes len type_).tx_fifo
        × ((transfer_bytes i bytes len type_).packet_up_counter ≡ u8 (i.packet_up_counter + 1))
        × ((transfer_bytes i bytes len type_).rx_fifo ≡ i.rx_fifo)
  unfolding transfer_bytes
  transfer_sends h =
      let (c, w, m) = with_header_lem in
      let p = put_appends bytes len w (inl (omega (arith, size-with_header, m, h))) in
      let (sent, flushed) =
        flush_lem
          (record i {
            packet_up_counter = counter;
            request_pending = true;
            tx_fifo = (Fifo.put with_header bytes len).1;
          })
          p.2 (p.3 ∙ m) in
      (
        sent ∙ ap (λ l. i.uart_out ++ l) (p.1 ∙ ap (λ l. l ++ tabulate len bytes) c),
        flushed,
        refl,
        refl,
      )

  -- A payload of 248 bytes or more is dropped: only the header is sent, which announces it.
  pub transfer_drops :
      248 ≤ len
      → len < 256
      → (transfer_bytes i bytes len type_).uart_out
        ≡ i.uart_out ++ encode_header (u8 (i.packet_up_counter + 1)) type_ (tabulate len bytes)
  unfolding transfer_bytes
  transfer_drops h k =
      let (c, w, m) = with_header_lem in
      let full =
        put_refuses bytes len w (omega (arith, k))
          (λ room. ground (arith, size-with_header, m, h, room)) in
      let (sent, _) =
        flush_lem
          (record i { packet_up_counter = counter; request_pending = true; tx_fifo = with_header })
          w m in
      ap
        (λ r.
          (flush (record i {
            packet_up_counter = counter;
            request_pending = true;
            tx_fifo = r.1;
          })).uart_out)
        full
      ∙ sent
      ∙ ap (λ l. i.uart_out ++ l) c
