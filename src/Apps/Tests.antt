-- ===== src/Apps/Tests.antt =====
-- The programs, with a modem that answers at once, and with one that does not answer.
use riot_oss7_modem.Common.{
  ℕ, ◌≡◌, refl, Bool, true, false, List, [], ◌∷◌, ◌++◌, length, get_or, none, some, Outcome, done,
  fault, null_pointer, ◌>>=◌, arith,
}
use riot_oss7_modem.Common.Memory.{Bytes}
use riot_oss7_modem.Fifo.{Fifo}
use riot_oss7_modem.Alp.Encoding.{control, encode_file_data}
use riot_oss7_modem.Interface.{Interface, idle}
use riot_oss7_modem.Interface.Thread.{Place, at_loop}
use riot_oss7_modem.Interface.Stream.{Steps, encode_frames}
use riot_oss7_modem.Interface.Stream.Delivery.{IsEmpty}
use riot_oss7_modem.Interface.Stream.Arrival.{arrives}
use riot_oss7_modem.Modem.Service.{call_handler}
use riot_oss7_modem.Interface.Frame.{encode_frame}
use riot_oss7_modem.Modem.{Modem, command_timeout}
use riot_oss7_modem.Modem.Serial.{process_serial_frame}
use riot_oss7_modem.Apps.{
  Line, modem_callbacks, modem_write_file_data, sending, command_completed_in, slept_until,
}
use riot_oss7_modem.Apps.SensorPush.{Push, Times, boot, round_lines, rounds}
use riot_oss7_modem.Apps.SensorPush.Sends.{pushed}
use riot_oss7_modem.Apps.SensorPush.Starts.{uid_request, main_sends}
use riot_oss7_modem.Apps.SensorPush.Silent.{timeout_silences}
use riot_oss7_modem.Apps.Printed.{Write, frames_of, printed, writes_printed}
use riot_oss7_modem.Apps.Shell
use riot_oss7_modem.Apps.Shell.Unregistered.{shell_stops}

abbrev filled : List ℕ → ℕ → Fifo
filled bytes max_size = record {
  head_idx = 0;
  tail_idx = length bytes;
  max_size = max_size;
  buffer = λ i. get_or bytes i 0;
  is_subview = false;
}

-- The static variables before `main`, with a flushed transmitting fifo.
abbrev memory : Modem
memory = record {
  callbacks = none;
  locked = false;
  command = record {
    tag_id = 0;
    is_active = false;
    completed_with_error = false;
    fifo = filled [] 255;
    execute_synchronuous = false;
    response_buffer = λ _. 0;
    response_size = 0;
  };
  next_tag_id = 0;
  interface = record {
    rx_fifo = filled [] 255;
    tx_fifo = filled [] 254;
    request_pending = false;
    header = λ _. 0;
    payload_len = 0;
    packet_up_counter = 0;
    packet_down_counter = 0;
    uart_state_pin = 0;
    target_uart_state_pin = 0;
    listen_uart_inited = false;
    parsed_header = false;
    alp_handler = none;
    ping_response_handler = none;
    logging_handler = none;
    locked = true;
    state = idle;
    uart_out = [];
  };
  events = [];
}

abbrev answered : Modem → Outcome (Bool × Modem)
answered m = done (false, m)

abbrev lost : Modem → Outcome (Bool × Modem)
lost m = done (true, m)

abbrev asleep : Modem → Outcome Modem
asleep m = done m

abbrev times : Times
times = record { start = 1000; finished = 4000; woken = 20000000 }

main_sends_example :
    (b : Push) × ((boot answered asleep memory (λ _. 0)
        >>= rounds answered asleep (times ∷ times ∷ []))
      ≡ done b)
    × (b.modem.interface.uart_out
        ≡ encode_frame 1 1 (uid_request 0)
          ++ (encode_frame 2 1 (pushed 1 0) ++ (encode_frame 3 1 (pushed 2 1) ++ [])))
    × (b.counter ≡ 2)
main_sends_example =
    main_sends answered asleep
      (λ m flushed. (
        m,
        refl,
        record { same_out = refl; flushed = flushed; same_counter = refl; same_tag = refl },
      ))
      (λ m flushed free. (
        m,
        refl,
        record { same_out = refl; flushed = flushed; same_counter = refl; same_tag = refl },
        free,
      ))
      memory (λ _. 0) (times ∷ times ∷ []) refl (omega arith)

abbrev push : Push
push = record { modem = memory; counter = 7; lines = [] }

timeout_silences_example :
    (b : Push) × (rounds lost asleep (times ∷ times ∷ []) push ≡ done b)
    × (b.modem.interface.uart_out ≡ encode_frame 1 1 (pushed 0 7))
    × (b.lines
        ≡ round_lines times 7 command_timeout
          ++ (sending 8 ∷ command_completed_in 3 ∷ slept_until 20000000 ∷ []))
timeout_silences_example =
    timeout_silences lost asleep (λ m active. (m, refl, (refl, active))) times (times ∷ []) push
      (λ m active. (m, refl, (refl, active)))
      (record {
        free = refl;
        flushed = record {
          writable = record { valid = omega arith; own = refl };
          empty = refl;
          capacity = refl;
        };
        tag_octet = omega arith;
        counter_octet = omega arith;
      })

abbrev five : Bytes
five k = 5

-- One byte for file 64.
abbrev written : Fifo
written = filled (control 4 false false ∷ encode_file_data 64 0 1 five ++ []) 255

shell_stops_example :
    (lines : List Line) × (m' : Modem) × (Shell.boot lost memory (λ _. 0) ≡ done (lines, m'))
    × (process_serial_frame (λ _ _. 0) written m' ≡ some (fault null_pointer))
shell_stops_example =
    shell_stops lost memory (λ _. 0) (λ _ _. 0) written false false 64 0 1 five
      (λ m. (true, m, refl, refl)) refl refl (omega arith) (omega arith) (omega arith)
      (omega arith, refl)

-- A receiver with the handler of `modem_init`, and a modem with the callbacks of the programs.
abbrev receiver : Interface
receiver = record memory.interface { alp_handler = some 1 }

abbrev registered : Modem
registered = record memory { callbacks = some modem_callbacks }

receiver-IsEmpty : IsEmpty 1 receiver
receiver-IsEmpty = record {
  writable = record { valid = omega arith; own = refl };
  registered = record { alp = refl; no_ping = refl; no_logging = refl };
  idle = refl;
  empty = refl;
}

abbrev write : Write
write = record { counter = 1; file_id = 64; offset = 0; count = 1; bytes = five }

abbrev nothing_stale : ℕ → Bytes
nothing_stale n k = 0

arrived :
    (j : Interface) × Steps
      (call_handler nothing_stale)
      (at_loop, receiver, registered)
      (encode_frames (frames_of (write ∷ [])))
      (at_loop, j, registered)
arrived =
    arrives (call_handler nothing_stale) at_loop registered (encode_frames (frames_of (write ∷ [])))
      receiver receiver-IsEmpty.writable (omega arith)

writes_printed_example :
    (u : Place × Interface × Modem) × Steps
      (call_handler nothing_stale)
      (at_loop, arrived.0, registered)
      []
      u
    × (u.1.locked ≡ true)
    × (printed u.2.events ≡ modem_write_file_data 64 0 1 ∷ [])
    × IsEmpty 1 u.1
writes_printed_example =
    writes_printed nothing_stale 1 (write ∷ []) receiver registered (at_loop, arrived.0, registered)
      receiver-IsEmpty refl
      (
        record {
          octets = (omega arith, (omega arith, (omega arith, (omega arith, (omega arith, tt)))));
          short = omega arith;
          offset_small = omega arith;
          count_small = omega arith;
        },
        tt,
      )
      arrived.1
