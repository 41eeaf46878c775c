-- ===== src/Interface/Tests.antt =====
-- The interface at concrete frames, with two bytes of payload.
use riot_oss7_modem.Common.{
  ℕ, ◌+◌, ◌≡◌, inl, inr, refl, true, false, List, [], ◌∷◌, ◌++◌, tabulate, length, get_or, none,
  some, Outcome, done, fault, assertion, arith,
}
use riot_oss7_modem.Common.Memory.{Bytes}
use riot_oss7_modem.Fifo.{Fifo}
use riot_oss7_modem.Fifo.Valid.{contents}
use riot_oss7_modem.Fifo.Put.{IsWritable, HasRoom}
use riot_oss7_modem.Crc.Reference.{ccitt}
use riot_oss7_modem.Interface.{Interface, idle, transfer_bytes}
use riot_oss7_modem.Interface.Frame.{encode_header, encode_frame}
use riot_oss7_modem.Interface.Send.{IsFlushed, transfer_sends, transfer_drops}
use riot_oss7_modem.Interface.Deliver.{counted}
use riot_oss7_modem.Interface.Corrupt.{damaged_frame_rejected}
use riot_oss7_modem.Interface.Safe.{uart_rx_cb_lem}
use riot_oss7_modem.Interface.Thread.{Place, at_loop, at_resync, Step, noise_blocks}
use riot_oss7_modem.Interface.Receive.{returns, finish, process_rx_fifo, uart_rx_cb}

-- The first `n` bytes of an array.
abbrev filled : List ℕ → ℕ → Fifo
filled bytes max_size = record {
  head_idx = 0;
  tail_idx = length bytes;
  max_size = max_size;
  buffer = λ i. get_or bytes i 0;
  is_subview = false;
}

abbrev empty_at : ℕ → ℕ → Fifo
empty_at i max_size = record {
  head_idx = i;
  tail_idx = i;
  max_size = max_size;
  buffer = λ _. 0;
  is_subview = false;
}

abbrev interface : Fifo → Interface
interface rx_fifo = record {
  rx_fifo = rx_fifo;
  tx_fifo = empty_at 100 254;
  request_pending = false;
  header = λ k. get_or (0xc0 ∷ 0 ∷ 8 ∷ 1 ∷ 2 ∷ 0 ∷ 0 ∷ []) k 0;
  payload_len = 2;
  packet_up_counter = 255;
  packet_down_counter = 7;
  uart_state_pin = 0;
  target_uart_state_pin = 0;
  listen_uart_inited = true;
  parsed_header = false;
  alp_handler = some 1;
  ping_response_handler = none;
  logging_handler = none;
  locked = false;
  state = idle;
  uart_out = [];
}

-- A handler that takes nothing.
abbrev looks : ℕ → Fifo → Interface × Unit {0} → Outcome (Fifo × Interface × Unit {0})
looks p g s = done (g, s.0, s.1)

abbrev pair : Bytes
pair k = k + 5

flushed : IsFlushed (empty_at 100 254)
flushed = record {
  writable = record { valid = omega arith; own = refl };
  empty = refl;
  capacity = refl;
}

transfer_sends_example :
    ((transfer_bytes (interface (empty_at 0 255)) pair 2 1).uart_out
      ≡ encode_frame 0 1 (5 ∷ 6 ∷ []))
    × IsFlushed (transfer_bytes (interface (empty_at 0 255)) pair 2 1).tx_fifo
    × ((transfer_bytes (interface (empty_at 0 255)) pair 2 1).packet_up_counter ≡ 0)
    × ((transfer_bytes (interface (empty_at 0 255)) pair 2 1).rx_fifo ≡ empty_at 0 255)
transfer_sends_example =
    transfer_sends (interface (empty_at 0 255)) pair 2 1 flushed (λ k h. omega (arith, h))
      (omega arith)

transfer_drops_example :
    (transfer_bytes (interface (empty_at 0 255)) pair 250 1).uart_out
    ≡ encode_header 0 1 (tabulate 250 pair)
transfer_drops_example =
    transfer_drops (interface (empty_at 0 255)) pair 250 1 flushed (λ k h. omega (arith, h))
      (omega arith) (omega arith)

-- A frame with the next one behind it.
abbrev receiving : Interface
receiving = interface (filled (encode_frame 8 1 (5 ∷ 6 ∷ []) ++ (0xc0 ∷ [])) 255)

crc_of_pair : ccitt 0xffff (5 ∷ 6 ∷ []) ≡ 0x823c
unfolding ccitt
crc_of_pair = refl

uart_rx_cb_lem_example :
    (HasRoom (empty_at 9 255) 1
      → (j : Interface) × (uart_rx_cb (interface (empty_at 9 255)) 0xc0 ≡ done j)
        × (contents j.rx_fifo ≡ 0xc0 ∷ [])
        × IsWritable j.rx_fifo
        × (j.locked ≡ false))
    × (¬ HasRoom (empty_at 9 255) 1
        → uart_rx_cb (interface (empty_at 9 255)) 0xc0 ≡ fault assertion)
uart_rx_cb_lem_example =
    uart_rx_cb_lem (interface (empty_at 9 255)) 0xc0 (record { valid = omega arith; own = refl })

-- One byte of noise in front of a frame.
abbrev noisy : Interface
noisy = interface (filled (0xff ∷ encode_frame 8 1 (5 ∷ 6 ∷ [])) 255)

noise_blocks_example :
    (j : Interface) × Step looks (at_loop, noisy, tt) (at_resync, j, tt)
    × (contents j.rx_fifo ≡ encode_frame 8 1 (5 ∷ 6 ∷ []))
    × ((t : Place × Interface × Unit {0})
        → Step looks (at_resync, j, tt) t
        → (byte : ℕ) × (uart_rx_cb j byte ≡ done t.1) × (t.0 ≡ at_resync))
noise_blocks_example =
    noise_blocks looks noisy tt 0xff 0xc0 _ (omega arith) refl refl refl (inl (omega arith))
      (omega arith)

-- The second byte of the payload was 6 when it was sent.
abbrev damaged : Interface
damaged = interface (filled (encode_header 8 1 (5 ∷ 6 ∷ []) ++ (5 ∷ 7 ∷ 0xc0 ∷ [])) 255)

damaged_frame_rejected_example :
    (j : Interface) × (process_rx_fifo looks (damaged, tt) ≡ done (returns, j, tt))
    × (j.locked ≡ false)
    × (process_rx_fifo looks (j, tt) ≡ done (returns, finish (counted j), tt))
    × (contents (finish (counted j)).rx_fifo ≡ 5 ∷ 7 ∷ 0xc0 ∷ [])
damaged_frame_rejected_example =
    damaged_frame_rejected [] [] 5 6 5 7 looks damaged tt 8 1 (0xc0 ∷ []) tt tt
      (omega arith, (omega arith, (omega arith, (omega arith, tt)))) (inr (omega arith))
      (omega arith) refl refl
