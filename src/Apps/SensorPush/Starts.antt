-- ===== src/Apps/SensorPush/Starts.antt =====
-- `main` from its start: the UID, then the counters.
use riot_oss7_modem.Common.{
  ℕ, ◌+◌, ◌^◌, ◌<◌, ◌≡◌, refl, ap, ◌∙◌, Bool, true, false, List, [], ◌∷◌, ◌++◌, append_assoc,
  length, u8, Outcome, done, ◌>>=◌, tabulate, arith,
}
use riot_oss7_modem.Common.Memory.{Bytes}
use riot_oss7_modem.Fifo
use riot_oss7_modem.Fifo.View.{init_filled_lem}
use riot_oss7_modem.Alp.Encoding.{control}
use riot_oss7_modem.Interface
use riot_oss7_modem.Interface.Frame.{encode_frame}
use riot_oss7_modem.Interface.Send.{IsFlushed}
use riot_oss7_modem.Modem
use riot_oss7_modem.Modem.{Modem, read_file, block_until_cmd_completed}
use riot_oss7_modem.Modem.Blocking.{read_file_sends}
use riot_oss7_modem.Apps.{welcome, modem_uid, uid_after, read_uid}
use riot_oss7_modem.Apps.SensorPush.{Push, Times, set_up, boot, rounds}
use riot_oss7_modem.Apps.SensorPush.Sends.{
  pushed_frames, IsReady, Answers, SleepsQuietly, waited, rounds_send,
}

-- The initialisation empties the transmitting fifo, and keeps what it does not mention.
set_up_lem :
    (m : Modem)
    → IsFlushed (set_up m).interface.tx_fifo
      × ((set_up m).interface.uart_out ≡ m.interface.uart_out)
      × ((set_up m).interface.packet_up_counter ≡ m.interface.packet_up_counter)
      × ((set_up m).command.is_active ≡ m.command.is_active)
      × ((set_up m).next_tag_id ≡ m.next_tag_id)
unfolding set_up Modem.cb_init Modem.init Interface.register_handler Interface.init Fifo.init
    Fifo.init_filled
set_up_lem m =
    let (w, held, n) =
      init_filled_lem m.interface.tx_fifo.buffer 0 255 (omega arith) (omega arith) (omega arith) in
    (record { writable = w; empty = refl; capacity = refl }, refl, refl, refl, refl)

-- The read of the UID, with the tag.
abbrev pub uid_request : ℕ → List ℕ
uid_request tag = control 52 false true ∷ tag ∷ control 1 true false ∷ 0 ∷ 0 ∷ 8 ∷ []

module _ (wait : Modem → Outcome (Bool × Modem)) (sleep : Modem → Outcome Modem)
    (answers : Answers wait sleep) (quiet : SleepsQuietly wait sleep) where
  boot_sends :
      (m : Modem) (uid : Bytes)
      → m.command.is_active ≡ false
      → m.next_tag_id < 2 ^ 8
      → (b : Push) × (boot wait sleep m uid ≡ done b)
        × IsReady b
        × (b.modem.interface.uart_out
            ≡ m.interface.uart_out
              ++ encode_frame
                  (u8 (m.interface.packet_up_counter + 1))
                  1
                  (uid_request m.next_tag_id))
        × (b.modem.next_tag_id ≡ u8 (m.next_tag_id + 1))
        × (b.modem.interface.packet_up_counter ≡ u8 (m.interface.packet_up_counter + 1))
        × (b.counter ≡ 0)
  unfolding boot read_uid
  boot_sends m uid free octet =
      let (flushed, out, packet, active, tag) = set_up_lem m in
      let n = set_up m in
      let (g, ran, s, _, _, _) =
        read_file_sends wait n (active ∙ free) flushed 0 0 8 (omega arith) uid 8 (omega arith)
          (
            omega arith,
            (
              omega (arith, tag, octet),
              (omega arith, (omega arith, (omega arith, (omega arith, tt)))),
            ),
          )
          (omega arith) in
      let (status, g', ran', k, free') = waited wait sleep answers quiet g s.flushed in
      (
        record {
          modem = g';
          counter = 0;
          lines = welcome ∷ modem_uid (tabulate 8 (uid_after status uid g')) ∷ [];
        },
        rw (ran, ran') refl,
        record {
          free = free';
          flushed = k.flushed;
          tag_octet = omega (arith, k.same_tag, s.next_tag);
          counter_octet = omega arith;
        },
        k.same_out ∙ s.frame_sent ∙ rw (out, packet, tag) refl,
        k.same_tag ∙ s.next_tag ∙ ap (λ x. u8 (x + 1)) tag,
        k.same_counter ∙ s.counted ∙ ap (λ x. u8 (x + 1)) packet,
        refl,
      )

  -- The whole program, from the first instruction and with any number of rounds, while the modem answers
  -- every command and no command is active: it sends the read of the UID, and then one frame for each
  -- round, with the counters 0, 1, 2, … modulo 256 as data, and tags and packet counters that follow
  -- each other; it does not stop.
  pub main_sends :
      (m : Modem) (uid : Bytes) (ts : List Times)
      → m.command.is_active ≡ false
      → m.next_tag_id < 2 ^ 8
      → (b : Push) × ((boot wait sleep m uid >>= rounds wait sleep ts) ≡ done b)
        × (b.modem.interface.uart_out
            ≡ m.interface.uart_out
              ++ (encode_frame
                    (u8 (m.interface.packet_up_counter + 1))
                    1
                    (uid_request m.next_tag_id)
                  ++ pushed_frames
                      (length ts)
                      (u8 (m.next_tag_id + 1))
                      (u8 (m.interface.packet_up_counter + 1))
                      0))
        × (b.counter ≡ u8 (length ts))
  main_sends m uid ts free octet =
      let (a, ran, r, out, tag, packet, counter) = boot_sends m uid free octet in
      let (b, ran', _, out', counter') = rounds_send wait sleep answers quiet ts a r in
      let rest : ℕ → ℕ → ℕ → List ℕ = pushed_frames (length ts) in
      (
        b,
        rw ran ran',
        out'
            ∙ ap (λ l. l ++ rest a.modem.next_tag_id a.modem.interface.packet_up_counter a.counter)
                out
            ∙ append_assoc m.interface.uart_out _ _
            ∙ rw (tag, packet, counter) refl,
        omega (arith, counter', counter),
      )
