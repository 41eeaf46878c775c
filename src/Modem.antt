-- ===== src/Modem.antt =====
-- drivers/oss7_modem/modem.c and include/modem.h: commands to the modem, one at a time, and the
-- replies to them.
pub mod Serial
pub mod Rounds
pub mod Replies
pub mod Ending
pub mod Starting
pub mod Sending
pub mod Asynchronous
pub mod Blocking
pub mod Answered
pub mod Waiting
pub mod Returns
pub mod Blocked
pub mod Service
pub mod Stops
mod Tests
use riot_oss7_modem.Common.{
  ℕ, zero, suc, ◌+◌, ◌%◌, ◌^◌, Bool, true, false, not, List, [], ◌∷◌, ◌++◌, ltb, ◌==◌,
  if◌then◌else◌, u8, u32, Option, none, some, Outcome, done, fault, out_of_bounds, null_pointer,
  ◌>>=◌,
}
use riot_oss7_modem.Common.Memory.{Bytes, memcpy}
use riot_oss7_modem.Fifo
use riot_oss7_modem.Fifo.{Fifo}
use riot_oss7_modem.Interface
use riot_oss7_modem.Interface.{Interface, alp_data_type, ping_request_type}
use riot_oss7_modem.Alp.{
  SessionConfig, dash7, lorawan_otaa, lorawan_abp, d7asp_itf, lorawan_otaa_itf, lorawan_abp_itf,
}
use riot_oss7_modem.Alp.Append.{
  append_tag_request_action, append_read_file_data_action, append_write_file_data_action,
  append_return_file_data_action, append_forward_action, ForwardConfig,
}

-- `command_t`. The array `buffer` is the one behind `fifo`. `response_size` is the size of the array
-- that `response_buffer` points to, 0 for NULL: it is not in the code.
pub record Command : Type 0 where
  pub tag_id : ℕ
  pub is_active : Bool
  pub completed_with_error : Bool
  pub fifo : Fifo
  pub execute_synchronuous : Bool
  pub response_buffer : Bytes
  pub response_size : ℕ

-- `modem_callbacks_t`; a number stands for the address of a function, `none` for NULL.
pub record Callbacks : Type 0 where
  pub command_completed_callback : Option ℕ
  pub return_file_data_callback : Option ℕ
  pub write_file_data_callback : Option ℕ

-- A call of the program's callbacks, with the address and the arguments.
pub data Event : Type 0 where
  completed_call : (callback : ℕ) → (with_error : Bool) → Event
  file_data_call : (callback file_id offset size : ℕ) → Bytes → Event

-- The static variables, and the calls of callbacks so far. `locked` is `cmd_mutex`.
pub record Modem : Type 0 where
  pub callbacks : Option Callbacks
  pub locked : Bool
  pub command : Command
  pub next_tag_id : ℕ
  pub interface : Interface
  pub events : List Event

-- `modem_status_t`
pub data Status : Type 0 where
  busy command_timeout completed_success completed_error processing : Status

abbrev pub cmd_buffer_size : ℕ
cmd_buffer_size = 256

-- The address of `process_serial_frame`.
abbrev pub process_serial_frame_address : ℕ
process_serial_frame_address = 1

-- `modem_cb_init`
unfoldable pub cb_init : Modem → Option Callbacks → Modem
cb_init m cbs = record m { callbacks = cbs }

-- `modem_init`
unfoldable pub init : Modem → Modem
init m = record m {
  interface =
      Interface.register_handler (Interface.init m.interface 0 0)
        (some process_serial_frame_address) alp_data_type;
}

-- `modem_reinit`
unfoldable pub reinit : Modem → Modem
reinit m = record m { command = record m.command { is_active = false } }

-- `modem_send_ping`
unfoldable pub send_ping : Modem → Modem
send_ping m = record m {
  interface = Interface.transfer_bytes m.interface (λ _. 0x01) 1 ping_request_type;
}

-- `modem_execute_raw_alp`
unfoldable pub execute_raw_alp : Modem → Bytes → ℕ → Modem
execute_raw_alp m alp len = record m {
  interface = Interface.transfer_bytes m.interface alp len alp_data_type;
}

-- The new command of `alloc_command`.
unfoldable pub fresh_command : Modem → Command
fresh_command m = record m.command {
  is_active = true;
  execute_synchronuous = false;
  completed_with_error = false;
  fifo = Fifo.init m.command.fifo.buffer cmd_buffer_size;
  tag_id = m.next_tag_id;
}

unfoldable pub with_fifo : Modem → Fifo → Modem
with_fifo m fifo = record m { command = record m.command { fifo = fifo } }

-- `alloc_command`
unfoldable pub alloc_command : Modem → Outcome (Bool × Modem)
unfolding fresh_command with_fifo
alloc_command m =
    if m.command.is_active
    then done (false, m)
    else let m' = record m { command = fresh_command m; next_tag_id = u8 (m.next_tag_id + 1) } in
      (append_tag_request_action m'.command.fifo m'.command.tag_id true >>= λ fifo.
      done (true, with_fifo m' fifo))

-- The send that ends every command. `fifo_get_size` is cut to the uint8_t of the parameter.
unfoldable pub send_command : Modem → Modem
send_command m = record m {
  interface =
      Interface.transfer_bytes m.interface m.command.fifo.buffer (u8 (Fifo.get_size m.command.fifo))
        alp_data_type;
}

-- `send_read_file`
unfoldable pub send_read_file : Modem → ℕ → ℕ → ℕ → Outcome Modem
unfolding send_command
send_read_file m file_id offset size =
    append_read_file_data_action m.command.fifo file_id offset size true false >>= λ fifo.
    done (send_command (with_fifo m fifo))

-- What a function does once it has a command, or that it has none.
unfoldable pub unless_busy :
    {A : Type 0} → (Modem → A) → (Modem → Outcome A) → Bool × Modem → Outcome A
unless_busy refused k (true, m) = k m
unless_busy refused k (false, m) = done (refused m)

unfoldable pub set_synchronous : Modem → Modem
set_synchronous m = record m { command = record m.command { execute_synchronuous = true } }

unfoldable pub set_response : Modem → Bytes → ℕ → Modem
set_response m response_buffer response_size = record m {
  command = record m.command { response_buffer = response_buffer; response_size = response_size };
}

-- `modem_read_file_async`
unfoldable pub read_file_async : Modem → ℕ → ℕ → ℕ → Outcome (Status × Modem)
unfolding unless_busy alloc_command
read_file_async m file_id offset size =
    alloc_command m
    >>= unless_busy (λ m'. (busy, m'))
        (λ m'. send_read_file m' file_id offset size >>= λ m''. done (processing, m''))

-- `modem_write_file_async`
unfoldable pub write_file_async : Modem → ℕ → ℕ → ℕ → Bytes → Outcome (Status × Modem)
unfolding unless_busy alloc_command
write_file_async m file_id offset size bytes =
    alloc_command m
    >>= unless_busy (λ m'. (busy, m'))
        (λ m'.
          append_write_file_data_action m'.command.fifo file_id offset size bytes true false
          >>= λ fifo. done (processing, send_command (with_fifo m' fifo)))

-- `block_until_cmd_completed`, in three parts: the first `mutex_lock`; the second, which other threads
-- run through, says whether it timed out; and what follows.
unfoldable pub lock_first : Modem → Modem
lock_first m = record m { locked = true }

unfoldable pub after_wait : Bool → Modem → Status × Modem
after_wait true m = (command_timeout, record m { locked = false })
after_wait false m = (
  if m.command.completed_with_error then completed_error else completed_success,
  record m { locked = false; command = record m.command { is_active = false } },
)

-- The memory of a session's configuration. The cast of `alp_append_forward_action` reads the member of the union that
-- `interface_type` selects; the other readings do not matter, and are zeros here.
abbrev pub unread : ForwardConfig
unread = record {
  d7asp = record {
    qos = 0;
    dormant_timeout = 0;
    addressee_ctrl = 0;
    access_class = 0;
    id = λ _. 0;
  };
  abp = record {
    nwk_s_key = λ _. 0;
    app_s_key = λ _. 0;
    dev_addr = 0;
    network_id = 0;
    request_ack = false;
    application_port = 0;
  };
  otaa = record {
    dev_eui = λ _. 0;
    app_eui = λ _. 0;
    app_key = λ _. 0;
    request_ack = false;
    application_port = 0;
  };
  bytes = λ _. 0;
}

-- The forward action of `modem_send_unsolicited_response`, with the sizes of the structs.
unfoldable pub append_session : Fifo → SessionConfig → Outcome Fifo
append_session fifo (dash7 config) =
    append_forward_action fifo d7asp_itf (record unread { d7asp = config }) 12
append_session fifo (lorawan_otaa config) =
    append_forward_action fifo lorawan_otaa_itf (record unread { otaa = config }) 34
append_session fifo (lorawan_abp config) =
    append_forward_action fifo lorawan_abp_itf (record unread { abp = config }) 44

-- `xtimer_mutex_lock_timeout` is a parameter.
module _ (mutex_lock_timeout : Modem → Outcome (Bool × Modem)) where
  unfoldable pub block_until_cmd_completed : Modem → Outcome (Status × Modem)
  unfolding lock_first after_wait
  block_until_cmd_completed m =
      mutex_lock_timeout (lock_first m) >>= λ (timeout, m'). done (after_wait timeout m')

  -- `modem_read_file`
  unfoldable pub read_file : Modem → ℕ → ℕ → ℕ → Bytes → ℕ → Outcome (Status × Modem)
  unfolding unless_busy alloc_command
  read_file m file_id offset size response_buffer response_size =
      alloc_command m
      >>= unless_busy (λ m'. (busy, m'))
          (λ m'.
            send_read_file (set_response (set_synchronous m') response_buffer response_size) file_id
              offset size
            >>= block_until_cmd_completed)

  -- `modem_send_unsolicited_response`
  unfoldable pub send_unsolicited_response :
      Modem → ℕ → ℕ → ℕ → Bytes → SessionConfig → Outcome (Status × Modem)
  unfolding unless_busy alloc_command
  send_unsolicited_response m file_id offset length bytes session_config =
      alloc_command m
      >>= unless_busy (λ m'. (busy, m'))
          (λ m'.
            append_session m'.command.fifo session_config
            >>= (λ fifo. append_return_file_data_action fifo file_id offset length bytes)
            >>= λ fifo.
                block_until_cmd_completed (send_command (set_synchronous (with_fifo m' fifo))))
