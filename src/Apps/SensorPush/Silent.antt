-- ===== src/Apps/SensorPush/Silent.antt =====
-- What the program does after a reply was lost.
use riot_oss7_modem.Common.{
  ℕ, ◌+◌, ◌-◌, ◌/◌, ◌^◌, ◌≡◌, refl, ap, ◌∙◌, Bool, true, List, [], ◌∷◌, ◌++◌, append-nil,
  append_assoc, sym, u8, u32, Outcome, done,
}
use riot_oss7_modem.Interface.Frame.{encode_frame}
use riot_oss7_modem.Modem.{
  Modem, busy, command_timeout, lock_first, after_wait, block_until_cmd_completed,
}
use riot_oss7_modem.Modem.Blocked.{send_refused}
use riot_oss7_modem.Apps.{Line, sending, command_completed_in, slept_until}
use riot_oss7_modem.Apps.SensorPush.{
  session_config, Push, Times, report, round_lines, round, rounds,
}
use riot_oss7_modem.Apps.SensorPush.Sends.{pushed, IsReady, command_sent}

-- The lines of rounds that report no result.
abbrev pub unreported : ℕ → List Times → List Line
unreported counter [] = []
unreported counter (t ∷ ts) =
    sending counter
    ∷ command_completed_in (u32 (t.finished + 2 ^ 32 - t.start) / 1000)
    ∷ slept_until t.woken
    ∷ unreported (u8 (counter + 1)) ts

module _ (wait : Modem → Outcome (Bool × Modem)) (sleep : Modem → Outcome Modem) where
  -- No reply comes, not in time and not later.
  abbrev pub StaysActive : Modem → Modem → Type 0
  StaysActive m m' = (m'.interface.uart_out ≡ m.interface.uart_out) × (m'.command.is_active ≡ true)

  abbrev pub TimesOut : Type 0
  TimesOut =
      (m : Modem)
      → m.command.is_active ≡ true
      → (m' : Modem) × (wait m ≡ done (true, m')) × StaysActive m m'

  abbrev pub SleepsActive : Type 0
  SleepsActive =
      (m : Modem)
      → m.command.is_active ≡ true
      → (m' : Modem) × (sleep m ≡ done m') × StaysActive m m'

  module _ (sleeps : SleepsActive) where
    refused :
        (t : Times) (a : Push)
        → a.modem.command.is_active ≡ true
        → (b : Push) × (round wait sleep t a ≡ done b)
          × StaysActive a.modem b.modem
          × (b.lines ≡ a.lines ++ round_lines t a.counter busy)
          × (b.counter ≡ u8 (a.counter + 1))
    unfolding round
    refused t a active =
        let (m, slept, kept) = sleeps a.modem active in
        let refuses = send_refused wait a.modem 0x40 0 1 (λ _. a.counter) session_config active in
        (
          record {
            modem = m;
            counter = u8 (a.counter + 1);
            lines = a.lines ++ round_lines t a.counter busy;
          },
          rw (refuses, slept) refl,
          kept,
          refl,
          refl,
        )

    -- While a command is active, rounds send nothing and report nothing.
    silent :
        (ts : List Times) (a : Push)
        → a.modem.command.is_active ≡ true
        → (b : Push) × (rounds wait sleep ts a ≡ done b)
          × StaysActive a.modem b.modem
          × (b.lines ≡ a.lines ++ unreported a.counter ts)
    unfolding rounds round_lines report
    silent [] a active = (a, refl, (refl, active), sym (append-nil a.lines))
    silent (t ∷ ts) a active =
        let (b, ran, kept, printed, next) = refused t a active in
        let (c, ran', kept', printed') = silent ts b kept.1 in
        (
          c,
          rw ran ran',
          (kept'.0 ∙ kept.0, kept'.1),
          printed'
              ∙ ap (λ l. l ++ unreported b.counter ts) printed
              ∙ append_assoc a.lines (round_lines t a.counter busy) (unreported b.counter ts)
              ∙ ap (λ n. a.lines ++ (round_lines t a.counter busy ++ unreported n ts)) next,
        )

    timed_out_round :
        (t : Times) (a : Push)
        → TimesOut
        → IsReady a
        → (b : Push) × (round wait sleep t a ≡ done b)
          × (b.modem.interface.uart_out
              ≡ a.modem.interface.uart_out
                ++ encode_frame
                    (u8 (a.modem.interface.packet_up_counter + 1))
                    1
                    (pushed a.modem.next_tag_id a.counter))
          × (b.modem.command.is_active ≡ true)
          × (b.lines ≡ a.lines ++ round_lines t a.counter command_timeout)
          × (b.counter ≡ u8 (a.counter + 1))
    unfolding round block_until_cmd_completed lock_first after_wait
    timed_out_round t a times_out r =
        let (m, ran, s) = command_sent wait sleep a r in
        let (m', over, kept) = times_out (lock_first m) s.active in
        let back = (after_wait true m').1 in
        let (m'', slept, kept') = sleeps back kept.1 in
        (
          record {
            modem = m'';
            counter = u8 (a.counter + 1);
            lines = a.lines ++ round_lines t a.counter command_timeout;
          },
          rw (ran, over, slept) refl,
          kept'.0 ∙ kept.0 ∙ s.frame_sent,
          kept'.1,
          refl,
          refl,
        )

    -- Once one reply was lost, and does not come late either, the program never sends anything again:
    -- the round of the lost reply reports the timeout, and all rounds after it print that they send, but
    -- send nothing and report neither success nor an error.
    pub timeout_silences :
        (t : Times) (ts : List Times) (a : Push)
        → TimesOut
        → IsReady a
        → (b : Push) × (rounds wait sleep (t ∷ ts) a ≡ done b)
          × (b.modem.interface.uart_out
              ≡ a.modem.interface.uart_out
                ++ encode_frame
                    (u8 (a.modem.interface.packet_up_counter + 1))
                    1
                    (pushed a.modem.next_tag_id a.counter))
          × (b.lines
              ≡ (a.lines ++ round_lines t a.counter command_timeout)
                ++ unreported (u8 (a.counter + 1)) ts)
    unfolding rounds
    timeout_silences t ts a times_out r =
        let (b, ran, out, active, printed, next) = timed_out_round t a times_out r in
        let (c, ran', kept, printed') = silent ts b active in
        (c, rw ran ran', kept.0 ∙ out, printed' ∙ rw (printed, next) refl)
