-- ===== src/Modem/Serial.antt =====
-- `process_serial_frame` of modem.c, the handler of ALP frames.
use riot_oss7_modem.Common.{
  ℕ, zero, suc, Bool, true, false, [], ◌∷◌, ◌++◌, leb, ◌==◌, if◌then◌else◌, Option, none, some,
  Outcome, done, fault, out_of_bounds, null_pointer, ◌>>=◌,
}
use riot_oss7_modem.Common.Memory.{Bytes, memcpy}
use riot_oss7_modem.Fifo
use riot_oss7_modem.Fifo.{Fifo}
use riot_oss7_modem.Alp.{
  Action, FileData, TagResponse, write_file_data, return_file_data, return_tag, return_status,
}
use riot_oss7_modem.Alp.Parse.{parse_action}
use riot_oss7_modem.Modem.{Modem, Callbacks, Event, completed_call, file_data_call}

-- A callback is called if it is not NULL.
unfoldable pub log_event : Modem → Option ℕ → (ℕ → Event) → Modem
log_event m none event = m
log_event m (some callback) event = record m { events = m.events ++ (event callback ∷ []) }

-- `callbacks->…`, which is NULL before `modem_cb_init`.
unfoldable pub with_callbacks : Modem → (Callbacks → Modem) → Outcome Modem
with_callbacks m k = elim m.callbacks [
  | none ↦ fault null_pointer
  | some callbacks ↦ done (k callbacks)
]

abbrev pub file_data_event : FileData → ℕ → Event
file_data_event operand callback =
    file_data_call callback operand.file_offset.file_id operand.file_offset.offset
      operand.provided_data_length operand.bytes

-- The case of a tag response.
unfoldable pub handle_tag : TagResponse → Bool → Modem → Bool × Modem
handle_tag response command_completed m =
    if response.tag_id == m.command.tag_id
    then (
      response.completed,
      record m { command = record m.command { completed_with_error = response.error } },
    )
    else (command_completed, m)

-- The case of returned data. The `memcpy` does not ask how much room there is.
unfoldable pub handle_return : FileData → Modem → Outcome Modem
unfolding log_event with_callbacks
handle_return operand m =
    if m.command.execute_synchronuous
    then (if leb operand.provided_data_length m.command.response_size
        then done (record m {
          command = record m.command {
            response_buffer =
                memcpy m.command.response_buffer 0 operand.bytes operand.provided_data_length;
          };
        })
        else fault out_of_bounds)
    else with_callbacks m
        (λ callbacks. log_event m callbacks.return_file_data_callback (file_data_event operand))

-- The `switch`. The length of the addressee in a status is computed and dropped.
unfoldable pub handle_action : Action → Bool → Modem → Outcome (Bool × Modem)
unfolding handle_tag handle_return
handle_action (return_tag response) command_completed m =
    done (handle_tag response command_completed m)
handle_action (write_file_data operand) command_completed m =
    with_callbacks m
      (λ callbacks. log_event m callbacks.write_file_data_callback (file_data_event operand))
    >>= λ m'. done (command_completed, m')
handle_action (return_file_data operand) command_completed m =
    handle_return operand m >>= λ m'. done (command_completed, m')
handle_action (return_status status) command_completed m = done (command_completed, m)

-- One round of the loop. `stale` is what the local `action` holds.
unfoldable pub process_action : Bytes → Bool → Fifo → Modem → Outcome (Bool × Fifo × Modem)
unfolding handle_action
process_action stale command_completed fifo m = parse_action fifo stale >>= λ (action, fifo').
    handle_action action command_completed m >>= λ (command_completed', m').
    done (command_completed', fifo', m')

-- The `while` loop; `none` means that the rounds ran out. `stale` has a value for each round.
unfoldable pub process_actions :
    ℕ → (ℕ → Bytes) → Bool → Fifo → Modem → Option (Outcome (Bool × Fifo × Modem))
process_actions zero stale command_completed fifo m = none
process_actions (suc fuel) stale command_completed fifo m = elim (Fifo.get_size fifo == 0) [
  | true ↦ some (done (command_completed, fifo, m))
  | false ↦ elim (process_action (stale fuel) command_completed fifo m) [
    | fault e ↦ some (fault e)
    | done (command_completed', fifo', m') ↦ process_actions fuel stale command_completed' fifo' m'
  ]
]

-- `mutex_unlock` for a caller that waits, or the callback.
unfoldable pub notify : Modem → Outcome Modem
unfolding log_event with_callbacks
notify m =
    if m.command.execute_synchronuous
    then done (record m { locked = false })
    else with_callbacks m (λ callbacks.
      log_event m callbacks.command_completed_callback
        (λ callback. completed_call callback m.command.completed_with_error))

-- The part after the loop.
unfoldable pub complete : Bool → Modem → Outcome Modem
unfolding notify
complete command_completed m =
    if command_completed
    then (notify m >>= λ m'. done (record m' { command = record m'.command { is_active = false } }))
    else done m

-- `process_serial_frame`. A fifo with `n` bytes takes at most `n` rounds.
unfoldable pub process_serial_frame : (ℕ → Bytes) → Fifo → Modem → Option (Outcome (Fifo × Modem))
unfolding process_actions complete
process_serial_frame stale fifo m =
    elim (process_actions (suc (Fifo.get_size fifo)) stale false fifo m) [
      | none ↦ none
      | some ran ↦ some (
          ran >>= λ (command_completed, fifo', m').
          complete command_completed m' >>= λ m''. done (fifo', m''))
    ]
