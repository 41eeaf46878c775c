-- ===== src/Modem/Tests.antt =====
-- The modem at concrete commands and replies.
use riot_oss7_modem.Common.{
  ℕ, ◌+◌, ◌≤◌, ◌≡◌, ◌⊎◌, refl, Bool, true, false, List, [], ◌∷◌, ◌++◌, tabulate, length, get_or,
  none, some, Outcome, done, fault, Fault, out_of_bounds, arith,
}
use riot_oss7_modem.Common.Memory.{Bytes}
use riot_oss7_modem.Fifo.{Fifo}
use riot_oss7_modem.Fifo.Valid.{contents}
use riot_oss7_modem.Alp.{addressee_id_length, id_type, SessionConfig, dash7}
use riot_oss7_modem.Alp.Front.{Holds}
use riot_oss7_modem.Interface.{Interface, idle}
use riot_oss7_modem.Interface.Send.{IsFlushed}
use riot_oss7_modem.Modem.{
  block_until_cmd_completed, Modem, busy, command_timeout, completed_success, processing,
  lock_first, after_wait, read_file_async, write_file_async, read_file, alloc_command, unless_busy,
  send_unsolicited_response, file_data_call, completed_call,
}
use riot_oss7_modem.Common.Octets.{AreOctets}
use riot_oss7_modem.Interface.Frame.{encode_frame}
use riot_oss7_modem.Interface.Receive.{Next, returns, process_rx_fifo}
use riot_oss7_modem.Modem.Service.{call_handler, read_completes}
use riot_oss7_modem.Modem.Blocking.{read_file_sends, unsolicited_response_sends}
use riot_oss7_modem.Modem.Serial.{process_serial_frame}
use riot_oss7_modem.Modem.Ending.{process_serial_frame_ends}
use riot_oss7_modem.Modem.Replies.{read_reply, read_reply_overflows}
use riot_oss7_modem.Modem.Starting.{Started}
use riot_oss7_modem.Modem.Sending.{write_file_async_sends}
use riot_oss7_modem.Modem.Asynchronous.{calls, read_file_async_completes}
use riot_oss7_modem.Modem.Stops.{StoppedBy, process_rx_fifo_stops}
use riot_oss7_modem.Fifo.Put.{IsWritable}
use riot_oss7_modem.Modem.Blocked
use riot_oss7_modem.Modem.Blocked.{refused_until_answered}
use riot_oss7_modem.Modem.Returns.{Runs, stop, step, Answer, return_answered}
use riot_oss7_modem.Modem.Waiting.{
  frame, lock, acquire, Phase, sent, waiting, returned, Step, lost_wakeup,
}

abbrev filled : List ℕ → ℕ → Fifo
filled bytes max_size = record {
  head_idx = 0;
  tail_idx = length bytes;
  max_size = max_size;
  buffer = λ i. get_or bytes i 0;
  is_subview = false;
}

abbrev interface : Interface
interface = record {
  rx_fifo = filled [] 255;
  tx_fifo = filled [] 254;
  request_pending = false;
  header = λ _. 0;
  payload_len = 0;
  packet_up_counter = 41;
  packet_down_counter = 0;
  uart_state_pin = 0;
  target_uart_state_pin = 0;
  listen_uart_inited = true;
  parsed_header = false;
  alp_handler = some 1;
  ping_response_handler = none;
  logging_handler = none;
  locked = false;
  state = idle;
  uart_out = [];
}

-- Tag 9 is active, or the next.
abbrev modem : Bool → Bool → Modem
modem is_active locked = record {
  callbacks = none;
  locked = locked;
  command = record {
    tag_id = 9;
    is_active = is_active;
    completed_with_error = false;
    fifo = filled [] 255;
    execute_synchronuous = true;
    response_buffer = λ _. 0;
    response_size = 4;
  };
  next_tag_id = 9;
  interface = interface;
  events = [];
}

flushed : IsFlushed (filled [] 254)
flushed = record {
  writable = record { valid = omega arith; own = refl };
  empty = refl;
  capacity = refl;
}

abbrev stale : ℕ → Bytes
stale round i = 0

abbrev pair : Bytes
pair k = k + 5

write_file_async_sends_example :
    (m' : Modem) × (write_file_async (modem false false) 0x40 0 2 pair ≡ done (processing, m'))
    × Started (modem false false) m' (180 ∷ 9 ∷ 68 ∷ 0x40 ∷ 0 ∷ 2 ∷ 5 ∷ 6 ∷ [])
write_file_async_sends_example =
    write_file_async_sends (modem false false) refl flushed (omega arith) 0x40 0 2 (omega arith)
      (omega arith) pair (omega arith, (omega arith, tt)) (omega arith)

process_serial_frame_ends_example :
    (r : Outcome (Fifo × Modem)) × (process_serial_frame stale
        (filled (35 ∷ 9 ∷ 0 ∷ []) 255)
        (modem true true)
      ≡ some r)
process_serial_frame_ends_example =
    process_serial_frame_ends stale (filled (35 ∷ 9 ∷ 0 ∷ []) 255) (modem true true) (omega arith)

-- Two bytes of a file, and the tag response.
abbrev reply : Fifo
reply = filled (32 ∷ 0x40 ∷ 0 ∷ 2 ∷ 5 ∷ 6 ∷ 163 ∷ 9 ∷ []) 255

-- Two callbacks.
abbrev registered : Modem
registered = record (modem false false) { callbacks = some (calls 1 2 none) }

read_file_async_completes_example :
    (m' : Modem) × (m'' : Modem) × (g : Fifo) × (copied : Bytes) × (read_file_async registered 0x40
        0 2
      ≡ done (processing, m'))
    × Started registered m' (180 ∷ 9 ∷ 65 ∷ 0x40 ∷ 0 ∷ 2 ∷ [])
    × (process_serial_frame stale reply m' ≡ some (done (g, m'')))
    × (m''.events ≡ file_data_call 2 0x40 0 2 copied ∷ completed_call 1 false ∷ [])
    × (tabulate 2 copied ≡ 5 ∷ 6 ∷ [])
    × (m''.command.is_active ≡ false)
    × (m''.interface ≡ m'.interface)
    × Holds g []
read_file_async_completes_example =
    read_file_async_completes stale reply registered false false false 0x40 0 2 pair 1 2 none refl
      flushed (omega arith) (omega arith) (omega arith) (omega arith) refl (omega arith, refl)

-- Five bytes for a buffer of four.
abbrev long_reply : Fifo
long_reply = filled (32 ∷ 0x40 ∷ 0 ∷ 5 ∷ 5 ∷ 6 ∷ 7 ∷ 8 ∷ 9 ∷ 163 ∷ 9 ∷ []) 255

read_reply_overflows_example :
    process_serial_frame stale long_reply (modem true true) ≡ some (fault out_of_bounds)
read_reply_overflows_example =
    read_reply_overflows stale long_reply (modem true true) false false false 0x40 0 5 9 pair
      (omega arith) (omega arith) refl (omega arith, refl) (omega arith)

-- What that reply does to a modem whose mutex is as given.
abbrev answer :
    (locked : Bool)
    → (g : Fifo) × (m' : Modem) × (process_serial_frame stale reply (modem true locked)
        ≡ some (done (g, m')))
      × (tabulate 2 m'.command.response_buffer ≡ 5 ∷ 6 ∷ [])
      × ((i : ℕ) → 2 ≤ i → m'.command.response_buffer i ≡ 0)
      × (m'.locked ≡ false)
      × (m'.command.is_active ≡ false)
      × (m'.command.completed_with_error ≡ false)
      × (m'.interface ≡ interface)
      × Holds g []
answer locked =
    read_reply stale reply (modem true locked) false false false 0x40 0 2 9 pair (omega arith)
      (omega arith) refl (omega arith, refl) (omega arith) refl

-- The reply before the caller waits.
lost_wakeup_example :
    Step (sent, modem true false) (sent, (answer false).1)
    × Step (sent, (answer false).1) (waiting, lock_first (answer false).1)
    × ((lock_first (answer false).1).command.is_active ≡ false)
    × ((t : Phase × Modem)
        → Step (waiting, lock_first (answer false).1) t
        → (t.0 ≡ waiting) ⊎ (t.0 ≡ returned command_timeout))
lost_wakeup_example =
    lost_wakeup stale reply (answer false).0 (modem true false) (answer false).1 (answer false).2
      (answer false).5 (answer false).6

-- The caller waits, the reply comes, and the caller is back.
abbrev after_return : Modem
after_return = (after_wait false (lock_first (answer true).1)).1

returns_with : (after_wait false (lock_first (answer true).1)).0 ≡ completed_success
unfolding after_wait lock_first
returns_with = let e = (answer true).7 in rw e refl

there_and_back : Runs (sent, modem true false) (returned completed_success, after_return)
unfolding lock_first
there_and_back =
    let (g, m', ran, _, _, unlocked, _, _, _, _) = answer true in
    let back : Runs (waiting, m') (returned completed_success, after_return) =
      rw (← returns_with) (step (acquire m' unlocked) (stop _)) in
    step (lock (modem true false) refl)
      (step (frame waiting (modem true true) m' stale reply g ran) back)

return_answered_example : Answer (sent, modem true false) (returned completed_success, after_return)
return_answered_example =
    return_answered (modem true false) after_return completed_success there_and_back
      (λ e. absurd cc)

abbrev config : SessionConfig
config =
    dash7
      (record { qos = 0; dormant_timeout = 0; addressee_ctrl = 16; access_class = 1; id = pair })

abbrev times_out : Modem → Outcome (Bool × Modem)
times_out m = done (true, m)

-- The caller's time is over, two calls come, and then the reply.
late_reply : Blocked.Uses (modem true true) (busy ∷ busy ∷ []) (answer false).1
unfolding after_wait read_file read_file_async alloc_command unless_busy
late_reply = Blocked.expire (
    Blocked.call
      (Blocked.reads times_out (modem true false) (modem true false) 0x40 0 8 pair busy refl)
      (Blocked.call (Blocked.reads_async (modem true false) (modem true false) 0x40 0 8 busy refl) (
        Blocked.frame stale reply (answer false).0 (answer false).2
          (Blocked.stop (answer false).1))))

refused_until_answered_example :
    Blocked.IsBlocked (modem true true) (answer false).1 (busy ∷ busy ∷ [])
    ⊎ Blocked.Ended (modem true true) (answer false).1 (busy ∷ busy ∷ [])
refused_until_answered_example = refused_until_answered refl late_reply

-- That reply in a frame, with the first byte of the next one behind it.
abbrev receiving : Interface
receiving = record interface {
  rx_fifo = filled (encode_frame 3 1 (32 ∷ 0x40 ∷ 0 ∷ 2 ∷ 5 ∷ 6 ∷ 163 ∷ 9 ∷ []) ++ (0xc0 ∷ [])) 255;
}

read_completes_example :
    (j j' : Interface) × (m' : Modem) × (process_rx_fifo
        (call_handler stale)
        (receiving, modem true true)
      ≡ done (returns, j, modem true true))
    × (j.locked ≡ false)
    × (process_rx_fifo (call_handler stale) (j, modem true true) ≡ done (returns, j', m'))
    × (contents j'.rx_fifo ≡ 0xc0 ∷ [])
    × ((tabulate 2 m'.command.response_buffer ≡ 5 ∷ 6 ∷ [])
        × (m'.locked ≡ false)
        × (m'.command.is_active ≡ false)
        × (m'.command.completed_with_error ≡ false))
read_completes_example =
    read_completes stale receiving (modem true true) 1 3 0x40 0 2 9 false false false pair
      (0xc0 ∷ []) (omega arith) refl refl refl octets (omega arith) (omega arith) (omega arith) refl
      (omega arith) refl
  where
    octets : AreOctets (32 ∷ 0x40 ∷ 0 ∷ 2 ∷ 5 ∷ 6 ∷ 163 ∷ 9 ∷ [])
    octets = (
      omega arith,
      (
        omega arith,
        (
          omega arith,
          (omega arith, (omega arith, (omega arith, (omega arith, (omega arith, tt))))),
        ),
      ),
    )

read_octets : AreOctets (180 ∷ 9 ∷ 65 ∷ 0x40 ∷ 0 ∷ 8 ∷ [])
read_octets =
    (omega arith, (omega arith, (omega arith, (omega arith, (omega arith, (omega arith, tt))))))

read_file_sends_example :
    (m' : Modem) × (read_file times_out (modem false false) 0x40 0 8 pair 8
      ≡ block_until_cmd_completed times_out m')
    × Started (modem false false) m' (180 ∷ 9 ∷ 65 ∷ 0x40 ∷ 0 ∷ 8 ∷ [])
    × (m'.command.execute_synchronuous ≡ true)
    × (m'.command.response_buffer ≡ pair)
    × (m'.command.response_size ≡ 8)
read_file_sends_example =
    read_file_sends times_out (modem false false) refl flushed 0x40 0 8 (omega arith) pair 8
      (omega arith) read_octets (omega arith)

-- Two bytes of a file, to an addressee without an id.
abbrev pushed : List ℕ
pushed = 180 ∷ 9 ∷ 50 ∷ 0xd7 ∷ 0 ∷ 0 ∷ 16 ∷ 1 ∷ 32 ∷ 0x40 ∷ 0 ∷ 2 ∷ 5 ∷ 6 ∷ []

unsolicited_response_sends_example :
    (m' : Modem) × (send_unsolicited_response times_out (modem false false) 0x40 0 2 pair config
      ≡ block_until_cmd_completed times_out m')
    × Started (modem false false) m' pushed
    × (m'.command.execute_synchronuous ≡ true)
unfolding addressee_id_length id_type
unsolicited_response_sends_example =
    unsolicited_response_sends times_out (modem false false) refl flushed 0x40 0 2 (omega arith)
      pair config (omega arith) pushed_octets (omega arith)
  where
    pushed_octets : AreOctets pushed
    pushed_octets = (
      omega arith,
      (
        omega arith,
        (
          omega arith,
          (
            omega arith,
            (
              omega arith,
              (
                omega arith,
                (
                  omega arith,
                  (
                    omega arith,
                    (
                      omega arith,
                      (omega arith, (omega arith, (omega arith, (omega arith, (omega arith, tt))))),
                    ),
                  ),
                ),
              ),
            ),
          ),
        ),
      ),
    )

-- A payload of one byte that is no action of a reply, after its header.
abbrev odd : Interface
odd = record interface {
  rx_fifo = filled (0 ∷ []) 255;
  header = λ k. get_or (0xc0 ∷ 0 ∷ 1 ∷ 1 ∷ 1 ∷ 0xe1 ∷ 0xf0 ∷ []) k 0;
  payload_len = 1;
  parsed_header = true;
}

process_rx_fifo_stops_example :
    ((next : Next) × (j : Interface) × (m' : Modem) × (process_rx_fifo
          (call_handler stale)
          (odd, modem true true)
        ≡ done (next, j, m'))
      × IsWritable j.rx_fifo)
    ⊎ ((e : Fault) × (process_rx_fifo (call_handler stale) (odd, modem true true) ≡ fault e)
        × StoppedBy stale odd (modem true true) e)
process_rx_fifo_stops_example =
    process_rx_fifo_stops stale odd (modem true true) (record { valid = omega arith; own = refl })
