-- ===== src/Modem/Stops.antt =====
-- The receiving thread with the driver's handler: where it can stop the program.
use riot_oss7_modem.Common.{
  ℕ, ap, ◌≤◌, ◌≡◌, ◌⊎◌, inl, inr, refl, sym, ◌∙◌, true, take, Option, none, some, Outcome, done,
  fault, Fault,
}
use riot_oss7_modem.Common.Memory.{Bytes}
use riot_oss7_modem.Fifo.{Fifo}
use riot_oss7_modem.Fifo.Valid.{size, contents}
use riot_oss7_modem.Fifo.Put.{IsWritable}
use riot_oss7_modem.Interface.{Interface}
use riot_oss7_modem.Interface.Receive.{Next, process_rx_fifo, verify_payload}
use riot_oss7_modem.Interface.Safe.{HandlersKeepFifo, IsFor, Stopped, process_rx_fifo_returns}
use riot_oss7_modem.Modem.{Modem}
use riot_oss7_modem.Modem.Serial.{process_serial_frame}
use riot_oss7_modem.Modem.Ending.{process_serial_frame_ends}
use riot_oss7_modem.Modem.Service.{ended, call_handler}
use riot_oss7_modem.Modem.Answered.Frame.{frame_effect}

returned :
    {g h : Fifo} {i j : Interface} {m n : Modem}
    → ◌≡◌ {A = Outcome (Fifo × Interface × Modem)} (done (g, i, m)) (done (h, j, n))
    → i ≡ j
returned e = cc

call_handler-HandlersKeepFifo : (stale : ℕ → Bytes) → HandlersKeepFifo (call_handler stale)
unfolding call_handler ended
call_handler-HandlersKeepFifo stale p g g' i i' m m' ran k =
    every (process_serial_frame stale g (record m { interface = i })) refl ran
  where
    every :
        (r : Option (Outcome (Fifo × Modem)))
        → process_serial_frame stale g (record m { interface = i }) ≡ r
        → ended r ≡ done (g', i', m')
        → IsWritable i'.rx_fifo
    every none e ran = absurd cc
    every (some (fault x)) e ran = absurd cc
    every (some (done (h, n))) e ran =
        let (_, interface, _) = frame_effect stale g (record m { interface = i }) h n e in
        let same : i' ≡ i = sym (returned ran) ∙ interface in rw same k

-- `process_serial_frame` stopped the program, on a whole payload of the type that its pointer is registered for, whose checksum is right.
pub record StoppedBy (stale : ℕ → Bytes) (i : Interface) (m : Modem) (e : Fault) : Type 0 where
  pub pointer : ℕ
  pub payload : Fifo
  pub announced : i.parsed_header ≡ true
  pub whole : i.payload_len ≤ size i.rx_fifo
  pub held : contents payload ≡ take i.payload_len (contents i.rx_fifo)
  pub checked : (verify_payload i payload).0 ≡ true
  pub selected : IsFor pointer i
  pub stops :
      process_serial_frame stale payload (record m { interface = (verify_payload i payload).1 })
      ≡ some (fault e)

handler_stops :
    (stale : ℕ → Bytes) (i : Interface) (m : Modem) (e : Fault)
    → Stopped (call_handler stale) i m e
    → StoppedBy stale i m e
unfolding call_handler ended
handler_stops stale i m e s =
    let n : Modem = record m { interface = (verify_payload i s.payload).1 } in
    let (r, ran) = process_serial_frame_ends stale s.payload n s.valid in
    record {
      pointer = s.pointer;
      payload = s.payload;
      announced = s.announced;
      whole = s.whole;
      held = s.held;
      checked = s.checked;
      selected = s.selected;
      stops = ran ∙ every r (sym (ap ended ran) ∙ s.stops);
    }
  where
    every : (r : Outcome (Fifo × Modem)) → ended (some r) ≡ fault e → some r ≡ some (fault e)
    every (fault x) p = cc
    every (done (g, n)) p = absurd cc

-- Whatever bytes came in and whatever the headers announce, `process_rx_fifo` with the driver's own handler, under whichever
-- pointers it is registered, either returns and leaves a fifo that can be received into, or stops the
-- program because `process_serial_frame` does: on a payload that is there as a whole, whose checksum is right, and whose type
-- is one that the handler is registered for.
pub process_rx_fifo_stops :
    (stale : ℕ → Bytes) (i : Interface) (m : Modem)
    → IsWritable i.rx_fifo
    → ((next : Next) × (j : Interface) × (m' : Modem) × (process_rx_fifo (call_handler stale) (i, m)
          ≡ done (next, j, m'))
        × IsWritable j.rx_fifo)
      ⊎ ((e : Fault) × (process_rx_fifo (call_handler stale) (i, m) ≡ fault e)
          × StoppedBy stale i m e)
process_rx_fifo_stops stale i m k =
    elim (process_rx_fifo_returns (call_handler stale) (call_handler-HandlersKeepFifo stale) i m
      k) [ inl a ↦ inl a | inr (e, ran, stopped) ↦ inr (e, ran, handler_stops stale i m e stopped) ]
