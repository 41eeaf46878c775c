-- ===== src/Modem/Asynchronous.antt =====
-- modem.c, an asynchronous read from the request to the callbacks.
use riot_oss7_modem.Common.{
  ℕ, suc, ◌^◌, ◌<◌, ◌≡◌, refl, ap, ◌∙◌, Bool, true, false, List, [], ◌∷◌, ◌++◌, append_assoc,
  tabulate, length, length-append, Option, some, done, ◌>>=◌, arith,
}
use riot_oss7_modem.Common.Memory.{Bytes}
use riot_oss7_modem.Fifo.{Fifo}
use riot_oss7_modem.Alp.{FileData, return_file_data}
use riot_oss7_modem.Alp.Encoding.{control, encode_file_data}
use riot_oss7_modem.Alp.RoundTrip.{received_small}
use riot_oss7_modem.Alp.Front.{Holds}
use riot_oss7_modem.Alp.Parsing.{FileDataRead, parse_tag_response, parse_return_file_data}
use riot_oss7_modem.Interface.Send.{IsFlushed}
use riot_oss7_modem.Modem.{
  Modem, Callbacks, Event, completed_call, file_data_call, processing, read_file_async,
}
use riot_oss7_modem.Modem.Serial.{
  with_callbacks, log_event, file_data_event, handle_return, handle_action, notify, complete,
  process_actions, process_serial_frame,
}
use riot_oss7_modem.Modem.Rounds.{answered, frame_lem, loop_step, loop_stop, round_lem, tag_handled}
use riot_oss7_modem.Modem.Starting.{Started}
use riot_oss7_modem.Modem.Sending.{read_command, read_file_async_sends}

-- The callbacks of the program for the end of a command and for returned data.
abbrev pub calls : (completed returned : ℕ) → Option ℕ → Callbacks
calls completed returned written = record {
  command_completed_callback = some completed;
  return_file_data_callback = some returned;
  write_file_data_callback = written;
}

abbrev called : Modem → Event → Modem
called m event = record m { events = m.events ++ (event ∷ []) }

-- The state in which data and a tag response leave the modem.
abbrev told : Modem → ℕ → Bool → Event → Modem
told m completed error event =
    let waiting = answered (called m event) error in
    record waiting {
      events = waiting.events ++ (completed_call completed error ∷ []);
      command = record waiting.command { is_active = false };
    }

-- Data and a tag response, after a command that nobody waits for.
module _ (stale : ℕ → Bytes) (f : Fifo) (m : Modem) (b6 b7 error : Bool)
    (file_id offset n tag_id : ℕ) (bytes : Bytes) (completed returned : ℕ) (written : Option ℕ)
    (offset_small : offset < 2 ^ 30) (n_small : n < 256)
    (asynchronous : m.command.execute_synchronuous ≡ false)
    (registered : m.callbacks ≡ some (calls completed returned written))
    (holds : Holds f (
      control 32 b6 b7 ∷ encode_file_data file_id offset n bytes
      ++ (control 35 error true ∷ tag_id ∷ []))) where
  abbrev reply : List ℕ
  reply =
      control 32 b6 b7 ∷ encode_file_data file_id offset n bytes
      ++ (control 35 error true ∷ tag_id ∷ [])

  abbrev rounds : ℕ
  rounds = length (encode_file_data file_id offset n bytes)

  length-reply : length reply ≡ suc (suc (suc rounds))
  length-reply = omega (
    arith,
    length-append (encode_file_data file_id offset n bytes) (control 35 error true ∷ tag_id ∷ []),
  )

  with_registered :
      (m' : Modem) (k : Callbacks → Modem)
      → m'.callbacks ≡ m.callbacks
      → with_callbacks m' k ≡ done (k (calls completed returned written))
  unfolding with_callbacks
  with_registered m' k same = let e = same ∙ registered in rw e refl

  return_logged :
      (operand : FileData)
      → handle_return operand m
        ≡ with_callbacks m
            (λ callbacks. log_event m callbacks.return_file_data_callback (file_data_event operand))
  unfolding handle_return
  return_logged operand = rw asynchronous refl

  return_called :
      (operand : FileData)
      → handle_action (return_file_data operand) false m
        ≡ done (false, called m (file_data_event operand returned))
  unfolding handle_action log_event
  return_called operand =
      ap (λ r. r >>= λ m'. done (false, m')) (return_logged operand ∙ with_registered m _ refl)

  end_logged :
      (event : Event)
      → notify (answered (called m event) error)
        ≡ with_callbacks (answered (called m event) error) (λ callbacks.
          log_event
            (answered (called m event) error)
            callbacks.command_completed_callback
            (λ callback. completed_call callback error))
  unfolding notify
  end_logged event = rw asynchronous refl

  completion_called :
      (event : Event)
      → complete true (answered (called m event) error) ≡ done (told m completed error event)
  unfolding complete log_event
  completion_called event =
      ap
        (λ r. r >>= λ (m' : Modem).
          let free : Modem = record m' { command = record m'.command { is_active = false } } in
          done free)
        (end_logged event ∙ with_registered (answered (called m event) error) _ refl)

  pub reply_called :
      m.command.tag_id ≡ tag_id
      → (g : Fifo) × (operand : FileData) × (process_serial_frame stale f m
          ≡ some (done (g, told m completed error (file_data_event operand returned))))
        × FileDataRead operand file_id offset n bytes
        × Holds g []
  reply_called same =
      let stale1 = stale (suc (suc (suc rounds))) in
      let stale2 = stale (suc (suc rounds)) in
      let tag = control 35 error true ∷ tag_id ∷ [] in
      let (operand, g, ran, read, holds') =
        parse_return_file_data f stale1 b6 b7 file_id offset n bytes tag offset_small n_small
          holds in
      let event = file_data_event operand returned in
      let round =
        round_lem stale1 false f m _ g false (called m event) ran (return_called operand) in
      let (h, ran', holds'') = parse_tag_response g stale2 error true tag_id [] holds' in
      let waiting = answered (called m event) error in
      let round' =
        round_lem stale2 false g (called m event) _ h true waiting ran'
          (tag_handled (called m event) false error true tag_id same) in
      let ends : process_actions (suc (length reply)) stale false f m
          ≡ some (done (true, h, waiting)) =
        ap (λ k. process_actions (suc k) stale false f m) length-reply
        ∙ loop_step (suc (suc (suc rounds))) stale false f m _ _ (done (false, g, called m event))
            holds round
        ∙ loop_step (suc (suc rounds)) stale false g (called m event) _ _ (done (true, h, waiting))
            holds' round'
        ∙ loop_stop (suc rounds) stale true h waiting holds'' in
      (
        h,
        operand,
        frame_lem stale f m reply (done (true, h, waiting)) holds ends
            ∙ ap (λ r. some (r >>= λ m''. done (h, m''))) (completion_called event),
        read,
        holds'',
      )

-- An asynchronous read, from the request to the callbacks. On a free modem whose transmitting fifo is
-- empty, for an offset below 2 ^ 14 and up to 255 bytes, `modem_read_file_async` returns
-- MODEM_STATUS_COMMAND_PROCESSING and sends one frame with a tag request and the read action. When the modem's
-- reply with that tag, the data of that place of the file and a tag response that says completed, comes
-- to `process_serial_frame`, the callback for returned data is called once with the file, the offset, the
-- length and the bytes of the data, and after it the one for the end of a command, once, with the
-- reply's error flag; then the modem is free again, and nothing of the reply is left.
pub read_file_async_completes :
    (stale : ℕ → Bytes) (f : Fifo) (m : Modem) (b6 b7 error : Bool) (file_id offset n : ℕ)
    (bytes : Bytes) (completed returned : ℕ) (written : Option ℕ)
    (free : m.command.is_active ≡ false) (idle : IsFlushed m.interface.tx_fifo)
    (tag_octet : m.next_tag_id < 2 ^ 8) (file_octet : file_id < 2 ^ 8)
    (offset_small : offset < 2 ^ 14)
    → n < 256
    → m.callbacks ≡ some (calls completed returned written)
    → Holds f (
        control 32 b6 b7 ∷ encode_file_data file_id offset n bytes
        ++ (control 35 error true ∷ m.next_tag_id ∷ []))
    → (m' : Modem) × (m'' : Modem) × (g : Fifo) × (copied : Bytes) × (read_file_async m file_id
          offset n
        ≡ done (processing, m'))
      × Started m m' (read_command m free idle tag_octet file_id offset n file_octet (omega arith))
      × (process_serial_frame stale f m' ≡ some (done (g, m'')))
      × (m''.events
          ≡ m.events
            ++ (file_data_call returned file_id offset n copied
                ∷ completed_call completed error
                ∷ []))
      × (tabulate n copied ≡ tabulate n bytes)
      × (m''.command.is_active ≡ false)
      × (m''.interface ≡ m'.interface)
      × Holds g []
read_file_async_completes stale f m b6 b7 error file_id offset n bytes completed returned written
      free idle tag_octet file_octet offset_small n_small registered holds =
    let (m', ran, started, same_events, asynchronous) =
      read_file_async_sends m free idle tag_octet file_id offset n file_octet (omega arith)
        (omega arith) in
    let (g, operand, ran', read, empty) =
      reply_called stale f m' b6 b7 error file_id offset n m.next_tag_id bytes completed returned
        written (omega arith) n_small asynchronous (started.callbacks_kept ∙ registered) holds
        started.tagged in
    (
      m',
      told m' completed error (file_data_event operand returned),
      g,
      operand.bytes,
      ran,
      started,
      ran',
      ap
            (λ l.
              (l
                ++ (file_data_call returned operand.file_offset.file_id operand.file_offset.offset
                      operand.provided_data_length operand.bytes
                    ∷ []))
              ++ (completed_call completed error ∷ []))
            same_events
          ∙ append_assoc m.events _ _
          ∙ rw
              (
                read.same_file,
                read.same_offset,
                read.same_length,
                received_small offset offset_small,
              )
              refl,
      read.same_bytes,
      refl,
      refl,
      empty,
    )
