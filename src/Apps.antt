-- ===== src/Apps.antt =====
-- apps/sensor_push/main.c and apps/test/main.c: the programs that use the modem. This file has what both
-- of them do: the callbacks that print, and the read of the modem's UID.
pub mod SensorPush
pub mod Shell
pub mod Unsolicited
pub mod Printed
mod Tests
use riot_oss7_modem.Common.{
  ℕ, Bool, not, List, [], ◌∷◌, tabulate, ◌==◌, if◌then◌else◌, some, Outcome, done, ◌>>=◌,
}
use riot_oss7_modem.Common.Memory.{Bytes}
use riot_oss7_modem.Modem
use riot_oss7_modem.Modem.{
  Modem, Callbacks, Event, completed_call, file_data_call, Status, busy, read_file,
}

-- `D7A_FILE_UID_FILE_ID` and `D7A_FILE_UID_SIZE` of d7ap.h; apps/test has the numbers.
abbrev pub uid_file_id : ℕ
uid_file_id = 0

abbrev pub uid_size : ℕ
uid_size = 8

-- What is printed, one constructor for each format; the pointers that are printed are left out.
pub data Line : Type 0 where
  welcome : Line
  modem_uid : List ℕ → Line
  sending : (counter : ℕ) → Line
  command_completed_in : (milliseconds : ℕ) → Line
  completed_successfully completed_with_error timed_out : Line
  slept_until : (microseconds : ℕ) → Line
  modem_command_completed : (success : Bool) → Line
  modem_return_file_data modem_write_file_data : (file_id offset size : ℕ) → Line

-- The addresses of the three functions `on_modem_…_callback`.
abbrev pub on_command_completed : ℕ
on_command_completed = 2

abbrev pub on_return_file_data : ℕ
on_return_file_data = 3

abbrev pub on_write_file_data : ℕ
on_write_file_data = 4

-- `modem_callbacks` of `main`.
abbrev pub modem_callbacks : Callbacks
modem_callbacks = record {
  command_completed_callback = some on_command_completed;
  return_file_data_callback = some on_return_file_data;
  write_file_data_callback = some on_write_file_data;
}

-- What the function at an address prints when it is called.
unfoldable pub on_event : Event → List Line
on_event (completed_call callback with_error) =
    if callback == on_command_completed then modem_command_completed (not with_error) ∷ [] else []
on_event (file_data_call callback file_id offset size bytes) =
    if callback == on_return_file_data
    then modem_return_file_data file_id offset size ∷ []
    else if callback == on_write_file_data
    then modem_write_file_data file_id offset size ∷ []
    else []

-- The array `uid` after the read: without a command nobody writes to it.
unfoldable pub uid_after : Status → Bytes → Modem → Bytes
uid_after busy uid m = uid
uid_after _ uid m = m.command.response_buffer

-- `modem_read_file` of the UID, and the line with it. `wait` is `xtimer_mutex_lock_timeout`, and `uid` is
-- what the array holds before.
unfoldable pub read_uid :
    (Modem → Outcome (Bool × Modem)) → Modem → Bytes → Outcome (List Line × Modem)
unfolding uid_after
read_uid wait m uid = read_file wait m uid_file_id 0 uid_size uid uid_size >>= λ (status, m').
    done (modem_uid (tabulate uid_size (uid_after status uid m')) ∷ [], m')
