-- ===== src/Interface/Stream/Arrival.antt =====
-- Interrupts in a row, for which the fifo has room.
use riot_oss7_modem.Common.{
  ℕ, ◌+◌, ◌<◌, inl, ap, false, List, [], ◌∷◌, length, length-append, Outcome, arith,
}
use riot_oss7_modem.Fifo
use riot_oss7_modem.Fifo.{Fifo}
use riot_oss7_modem.Fifo.Valid.{size, contents, length-contents}
use riot_oss7_modem.Fifo.Put.{IsWritable, put_appends}
use riot_oss7_modem.Interface.{Interface}
use riot_oss7_modem.Interface.Receive.{uart_rx_cb, received_byte}
use riot_oss7_modem.Interface.Thread.{Place, receive}
use riot_oss7_modem.Interface.Stream.{Steps, stop, step}

module _ {W : Type 0} (call : ℕ → Fifo → Interface × W → Outcome (Fifo × Interface × W))
    (place : Place) (w : W) where
  pub arrives :
      (bytes : List ℕ) (i : Interface)
      → IsWritable i.rx_fifo
      → size i.rx_fifo + length bytes < i.rx_fifo.max_size
      → (j : Interface) × Steps call (place, i, w) bytes (place, j, w)
  unfolding uart_rx_cb received_byte
  arrives [] i wr fits = (i, stop (place, i, w))
  arrives (b ∷ bytes) i wr fits =
      let rx = (Fifo.put i.rx_fifo (λ _. b) 1).1 in
      let (ok, appended, wr', same) = put_appends (λ _. b) 1 wr (inl (omega (arith, fits))) in
      let next : Interface = record i { rx_fifo = rx; locked = false } in
      let (j, rest) = arrives bytes next wr' (
        omega (
          arith,
          fits,
          same,
          ap length appended,
          length-append (contents i.rx_fifo) (b ∷ []),
          length-contents i.rx_fifo,
          length-contents rx,
        )) in
      (j, step (receive place i next w b (ap (λ e. received_byte i (e, rx)) ok)) rest)
