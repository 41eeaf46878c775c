-- ===== src/Apps/SensorPush/Sends.antt =====
-- What the program sends while the modem answers every command.
use riot_oss7_modem.Common.{
  ℕ, zero, suc, ◌+◌, ◌^◌, ◌<◌, ◌≡◌, refl, sym, ap, ◌∙◌, Bool, true, false, List, [], ◌∷◌, ◌++◌,
  append-nil, append_assoc, length, u8, Outcome, done, arith,
}
use riot_oss7_modem.Common.Octets.{AreOctets}
use riot_oss7_modem.Alp.{id_type, addressee_id_length}
use riot_oss7_modem.Alp.Encoding.{control}
use riot_oss7_modem.Interface.Frame.{encode_frame}
use riot_oss7_modem.Interface.Send.{IsFlushed}
use riot_oss7_modem.Modem.{
  Modem, Status, lock_first, after_wait, block_until_cmd_completed, send_unsolicited_response,
}
use riot_oss7_modem.Modem.Starting.{Started}
use riot_oss7_modem.Modem.Blocking.{unsolicited_response_sends}
use riot_oss7_modem.Apps.SensorPush.{session_config, Push, Times, round_lines, round, rounds}

-- Nothing is sent, and the tags and the counters of the frames stay.
pub record SendsNothing (m m' : Modem) : Type 0 where
  pub same_out : m'.interface.uart_out ≡ m.interface.uart_out
  pub flushed : IsFlushed m'.interface.tx_fifo
  pub same_counter : m'.interface.packet_up_counter ≡ m.interface.packet_up_counter
  pub same_tag : m'.next_tag_id ≡ m.next_tag_id

-- The payload of a round: the request of a tag, the forward action with the session, and the byte.
abbrev pub pushed : ℕ → ℕ → List ℕ
pushed tag counter =
    control 52 false true ∷ tag ∷ 50 ∷ 0xd7 ∷ 6 ∷ 0 ∷ 0x10 ∷ 0x01 ∷ 32 ∷ 0x40 ∷ 0 ∷ 1 ∷ counter ∷ []

-- The frames of `n` rounds.
abbrev pub pushed_frames : (n tag packet counter : ℕ) → List ℕ
pushed_frames zero tag packet counter = []
pushed_frames (suc n) tag packet counter =
    encode_frame (u8 (packet + 1)) 1 (pushed tag counter)
    ++ pushed_frames n (u8 (tag + 1)) (u8 (packet + 1)) (u8 (counter + 1))

-- Between two commands.
pub record IsReady (a : Push) : Type 0 where
  pub free : a.modem.command.is_active ≡ false
  pub flushed : IsFlushed a.modem.interface.tx_fifo
  pub tag_octet : a.modem.next_tag_id < 2 ^ 8
  pub counter_octet : a.counter < 2 ^ 8

module _ (wait : Modem → Outcome (Bool × Modem)) (sleep : Modem → Outcome Modem) where
  octets : (a : Push) → IsReady a → AreOctets (pushed a.modem.next_tag_id a.counter)
  octets a r = (
    omega arith,
    (
      r.tag_octet,
      (
        omega arith,
        (
          omega arith,
          (
            omega arith,
            (
              omega arith,
              (
                omega arith,
                (
                  omega arith,
                  (omega arith, (omega arith, (omega arith, (omega arith, (r.counter_octet, tt))))),
                ),
              ),
            ),
          ),
        ),
      ),
    ),
  )

  pub command_sent :
      (a : Push)
      → IsReady a
      → (m : Modem) × (send_unsolicited_response wait a.modem 0x40 0 1
            (λ _. a.counter)
            session_config
          ≡ block_until_cmd_completed wait m)
        × Started a.modem m (pushed a.modem.next_tag_id a.counter)
  unfolding id_type addressee_id_length
  command_sent a r =
      let (m, ran, s, _) =
        unsolicited_response_sends wait a.modem r.free r.flushed 0x40 0 1 (omega arith)
          (λ _. a.counter) session_config (omega arith) (octets a r) (omega arith) in
      (m, ran, s)

  -- The modem answers before the time is over.
  abbrev pub Answers : Type 0
  Answers =
      (m : Modem)
      → IsFlushed m.interface.tx_fifo
      → (m' : Modem) × (wait m ≡ done (false, m')) × SendsNothing m m'

  -- The other threads end, and start no command, while the program sleeps.
  abbrev pub SleepsQuietly : Type 0
  SleepsQuietly =
      (m : Modem)
      → IsFlushed m.interface.tx_fifo
      → m.command.is_active ≡ false
      → (m' : Modem) × (sleep m ≡ done m') × SendsNothing m m' × (m'.command.is_active ≡ false)

  module _ (answers : Answers) (quiet : SleepsQuietly) where
    pub waited :
        (m : Modem)
        → IsFlushed m.interface.tx_fifo
        → (status : Status) × (m' : Modem) × (block_until_cmd_completed wait m ≡ done (status, m'))
          × SendsNothing m m'
          × (m'.command.is_active ≡ false)
    unfolding block_until_cmd_completed lock_first after_wait
    waited m flushed =
        let (m', ran, s) = answers (lock_first m) flushed in
        (
          (after_wait false m').0,
          (after_wait false m').1,
          rw ran refl,
          record {
            same_out = s.same_out;
            flushed = s.flushed;
            same_counter = s.same_counter;
            same_tag = s.same_tag;
          },
          refl,
        )

    -- One round sends one frame, with the tag and the counters that are next.
    pub round_sends :
        (t : Times) (a : Push)
        → IsReady a
        → (b : Push) × (round wait sleep t a ≡ done b)
          × IsReady b
          × (b.modem.interface.uart_out
              ≡ a.modem.interface.uart_out
                ++ encode_frame
                    (u8 (a.modem.interface.packet_up_counter + 1))
                    1
                    (pushed a.modem.next_tag_id a.counter))
          × (b.modem.next_tag_id ≡ u8 (a.modem.next_tag_id + 1))
          × (b.modem.interface.packet_up_counter ≡ u8 (a.modem.interface.packet_up_counter + 1))
          × (b.counter ≡ u8 (a.counter + 1))
    unfolding round
    round_sends t a r =
        let (m, ran, s) = command_sent a r in
        let (status, m', ran', k, free) = waited m s.flushed in
        let (m'', slept, q, free') = quiet m' k.flushed free in
        (
          record {
            modem = m'';
            counter = u8 (a.counter + 1);
            lines = a.lines ++ round_lines t a.counter status;
          },
          rw (ran, ran', slept) refl,
          record {
            free = free';
            flushed = q.flushed;
            tag_octet = omega (arith, q.same_tag, k.same_tag, s.next_tag);
            counter_octet = omega arith;
          },
          q.same_out ∙ k.same_out ∙ s.frame_sent,
          q.same_tag ∙ k.same_tag ∙ s.next_tag,
          q.same_counter ∙ k.same_counter ∙ s.counted,
          refl,
        )

    -- While the modem answers every command, the loop of the program sends one frame in each round, with
    -- the counter as data: the counter, the tags and the counters of the frames each go up by one from round
    -- to round, modulo 256, and nothing else is sent.
    pub rounds_send :
        (ts : List Times) (a : Push)
        → IsReady a
        → (b : Push) × (rounds wait sleep ts a ≡ done b)
          × IsReady b
          × (b.modem.interface.uart_out
              ≡ a.modem.interface.uart_out
                ++ pushed_frames
                    (length ts)
                    a.modem.next_tag_id
                    a.modem.interface.packet_up_counter
                    a.counter)
          × (b.counter ≡ u8 (a.counter + length ts))
    unfolding rounds
    rounds_send [] a r =
        (a, refl, r, sym (append-nil a.modem.interface.uart_out), omega (arith, r.counter_octet))
    rounds_send (t ∷ ts) a r =
        let (b, ran, r', out, tag, packet, counter) = round_sends t a r in
        let (c, ran', r'', out', counter') = rounds_send ts b r' in
        let rest : ℕ → ℕ → ℕ → List ℕ = pushed_frames (length ts) in
        (
          c,
          rw ran ran',
          r'',
          out'
              ∙ ap
                  (λ l. l ++ rest b.modem.next_tag_id b.modem.interface.packet_up_counter b.counter)
                  out
              ∙ append_assoc a.modem.interface.uart_out _ _
              ∙ rw (tag, packet, counter) refl,
          omega (arith, counter', counter),
        )
