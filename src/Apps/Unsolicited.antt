-- ===== src/Apps/Unsolicited.antt =====
-- Data that the modem writes on its own, with and without registered callbacks.
use riot_oss7_modem.Common.{
  ℕ, suc, ◌^◌, ◌<◌, ◌≡◌, refl, ◌∙◌, Bool, false, [], ◌∷◌, ◌++◌, length, none, some, done, fault,
  null_pointer,
}
use riot_oss7_modem.Common.Memory.{Bytes}
use riot_oss7_modem.Fifo.{Fifo}
use riot_oss7_modem.Alp.{write_file_data}
use riot_oss7_modem.Alp.Encoding.{control, encode_file_data}
use riot_oss7_modem.Alp.Operand.{received}
use riot_oss7_modem.Alp.Front.{Holds}
use riot_oss7_modem.Alp.Parsing.{parse_write_file_data}
use riot_oss7_modem.Modem.{Modem, Event}
use riot_oss7_modem.Modem.Serial.{
  with_callbacks, log_event, file_data_event, handle_action, complete, process_serial_frame,
}
use riot_oss7_modem.Modem.Rounds.{frame_lem, loop_step, loop_stop, round_fault, round_lem}
use riot_oss7_modem.Apps.{modem_callbacks, on_write_file_data, on_event, modem_write_file_data}

module _ (stale : ℕ → Bytes) (f : Fifo) (m : Modem) (b6 b7 : Bool) (file_id offset n : ℕ)
    (bytes : Bytes) (offset_small : offset < 2 ^ 30) (n_small : n < 256)
    (holds : Holds f (control 4 b6 b7 ∷ encode_file_data file_id offset n bytes ++ [])) where
  abbrev count : ℕ
  count = length (encode_file_data file_id offset n bytes ++ [])

  -- Without registered callbacks, data that the modem writes stop the program with the use of a
  -- NULL pointer.
  pub write_stops : m.callbacks ≡ none → process_serial_frame stale f m ≡ some (fault null_pointer)
  unfolding handle_action with_callbacks
  write_stops unregistered =
      let (operand, g, ran, _, _) =
        parse_write_file_data f (stale (suc count)) b6 b7 file_id offset n bytes [] offset_small
          n_small holds in
      let round =
        round_fault (stale (suc count)) false f m (write_file_data operand) g null_pointer ran
          (rw unregistered refl) in
      frame_lem stale f m _ (fault null_pointer) holds
        (loop_step (suc count) stale false f m _ _ (fault null_pointer) holds round)

  -- With the callbacks of the programs, the frame prints one line with the file, the offset as the
  -- operand parser receives it, and the length, and changes nothing else.
  pub write_printed :
      m.callbacks ≡ some modem_callbacks
      → (g : Fifo) × (event : Event) × (process_serial_frame stale f m
          ≡ some (done (g, record m { events = m.events ++ (event ∷ []) })))
        × (on_event event ≡ modem_write_file_data file_id (received offset) n ∷ [])
        × Holds g []
  unfolding handle_action with_callbacks log_event complete on_event
  write_printed registered =
      let (operand, g, ran, read, holds') =
        parse_write_file_data f (stale (suc count)) b6 b7 file_id offset n bytes [] offset_small
          n_small holds in
      let event = file_data_event operand on_write_file_data in
      let m' = record m { events = m.events ++ (event ∷ []) } in
      let round =
        round_lem (stale (suc count)) false f m (write_file_data operand) g false m' ran
          (rw registered refl) in
      (
        g,
        event,
        frame_lem stale f m _ (done (false, g, m')) holds (
            loop_step (suc count) stale false f m _ _ (done (false, g, m')) holds round
            ∙ loop_stop count stale false g m' holds'),
        rw (read.same_file, read.same_offset, read.same_length) refl,
        holds',
      )
