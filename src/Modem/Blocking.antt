-- ===== src/Modem/Blocking.antt =====
-- The two functions that wait for the modem's answer: what they have sent when they start to wait.
use riot_oss7_modem.Common.{
  ℕ, ◌^◌, ◌≤◌, ◌<◌, ◌≡◌, refl, Bool, true, false, List, ◌∷◌, ◌++◌, length, length-append, Outcome,
  arith,
}
use riot_oss7_modem.Common.Memory.{Bytes}
use riot_oss7_modem.Fifo.{Fifo}
use riot_oss7_modem.Fifo.Put.{IsWritable, HasRoom}
use riot_oss7_modem.Alp.Appended.{Appends}
use riot_oss7_modem.Alp.{SessionConfig, dash7, lorawan_otaa, lorawan_abp}
use riot_oss7_modem.Alp.Encoding.{
  control, encode_length, encode_file_offset, encode_file_data, encode_session,
}
use riot_oss7_modem.Alp.Commands.{
  append_read_file_data_action-Appends, append_return_file_data_action-Appends,
}
use riot_oss7_modem.Alp.Forwarding.{append_forward_action-Appends}
use riot_oss7_modem.Common.Octets.{AreOctets}
use riot_oss7_modem.Interface.Send.{IsFlushed}
use riot_oss7_modem.Modem.{
  Modem, with_fifo, unless_busy, send_command, send_read_file, set_synchronous, set_response,
  append_session, unread, block_until_cmd_completed, read_file, send_unsolicited_response,
}
use riot_oss7_modem.Modem.Starting.{
  Allocated, IsFilled-Appended, has_room, alloc_command_lem, Started, sent-Started,
}

append_session-Appends :
    (f : Fifo) (w : IsWritable f) (config : SessionConfig)
    → HasRoom f (length (encode_session config))
    → Appends f (encode_session config) (append_session f config)
unfolding append_session
append_session-Appends f w (dash7 c) room =
    append_forward_action-Appends f w 0xd7 (record unread { d7asp = c }) 12 room
append_session-Appends f w (lorawan_otaa c) room =
    append_forward_action-Appends f w 0x03 (record unread { otaa = c }) 34 room
append_session-Appends f w (lorawan_abp c) room =
    append_forward_action-Appends f w 0x02 (record unread { abp = c }) 44 room

synchronous-Allocated : (m g : Modem) → Allocated m g → Allocated m (set_synchronous g)
unfolding set_synchronous
synchronous-Allocated m g a = record {
  active = a.active;
  tagged = a.tagged;
  next_tag = a.next_tag;
  request = a.request;
  same_interface = a.same_interface;
  same_callbacks = a.same_callbacks;
  same_events = a.same_events;
}

response-Allocated :
    (m g : Modem) (buffer : Bytes) (n : ℕ) → Allocated m g → Allocated m (set_response g buffer n)
unfolding set_response
response-Allocated m g buffer n a = record {
  active = a.active;
  tagged = a.tagged;
  next_tag = a.next_tag;
  request = a.request;
  same_interface = a.same_interface;
  same_callbacks = a.same_callbacks;
  same_events = a.same_events;
}

module _ (wait : Modem → Outcome (Bool × Modem)) (m : Modem) (free : m.command.is_active ≡ false)
    (idle : IsFlushed m.interface.tx_fifo) (file_id offset n : ℕ)
    (offset_small : offset < 2 ^ 30) where
  abbrev pub blocking_read : List ℕ
  blocking_read = control 1 true false ∷ encode_file_offset file_id offset ++ encode_length n

  -- `modem_read_file` on a free modem sends one frame with a tag request and the read action, and
  -- waits as a synchronous command with the caller's buffer, if the command consists of at most 246 bytes.
  pub read_file_sends :
      (response_buffer : Bytes) (response_size : ℕ)
      → n < 2 ^ 30
      → AreOctets (control 52 false true ∷ m.next_tag_id ∷ blocking_read)
      → length (control 52 false true ∷ m.next_tag_id ∷ blocking_read) ≤ 246
      → (m' : Modem) × (read_file wait m file_id offset n response_buffer response_size
          ≡ block_until_cmd_completed wait m')
        × Started m m' (control 52 false true ∷ m.next_tag_id ∷ blocking_read)
        × (m'.command.execute_synchronuous ≡ true)
        × (m'.command.response_buffer ≡ response_buffer)
        × (m'.command.response_size ≡ response_size)
  unfolding read_file unless_busy send_read_file set_response set_synchronous with_fifo send_command
  read_file_sends response_buffer response_size small octets short =
      let (g, ran, a, _) = alloc_command_lem m free in
      let b =
        response-Allocated m (set_synchronous g) response_buffer response_size
          (synchronous-Allocated m g a) in
      let (f, ran', c) =
        append_read_file_data_action-Appends g.command.fifo a.request.writable file_id offset n true
          false offset_small small (has_room blocking_read a.request (omega (arith, short))) in
      let filled = IsFilled-Appended blocking_read a.request c in
      (
        send_command (with_fifo (set_response (set_synchronous g) response_buffer response_size) f),
        rw (ran, ran') refl,
        sent-Started f (control 52 false true ∷ m.next_tag_id ∷ blocking_read) b filled octets short
            idle,
        refl,
        refl,
        refl,
      )

  abbrev pub unsolicited : Bytes → SessionConfig → List ℕ
  unsolicited bytes config = encode_session config ++ (32 ∷ encode_file_data file_id offset n bytes)

  -- `modem_send_unsolicited_response` on a free modem sends one frame with a tag request, the forward
  -- action for the interface of the session, and the data, and waits as a synchronous command, if the
  -- command consists of at most 246 bytes.
  pub unsolicited_response_sends :
      (bytes : Bytes) (config : SessionConfig)
      → n < 2 ^ 16
      → AreOctets (control 52 false true ∷ m.next_tag_id ∷ unsolicited bytes config)
      → length (control 52 false true ∷ m.next_tag_id ∷ unsolicited bytes config) ≤ 246
      → (m' : Modem) × (send_unsolicited_response wait m file_id offset n bytes config
          ≡ block_until_cmd_completed wait m')
        × Started m m' (control 52 false true ∷ m.next_tag_id ∷ unsolicited bytes config)
        × (m'.command.execute_synchronuous ≡ true)
  unfolding send_unsolicited_response unless_busy set_synchronous with_fifo send_command
  unsolicited_response_sends bytes config small octets short =
      let (g, ran, a, _) = alloc_command_lem m free in
      let forward = encode_session config in
      let returned = 32 ∷ encode_file_data file_id offset n bytes in
      let parts = length-append forward returned in
      let (f, ran', b) =
        append_session-Appends g.command.fifo a.request.writable config
          (has_room forward a.request (omega (arith, short, parts))) in
      let filled = IsFilled-Appended forward a.request b in
      let (f', ran'', c) =
        append_return_file_data_action-Appends f filled.writable file_id offset n bytes offset_small
          small (has_room returned filled (omega (arith, short, parts))) in
      (
        send_command (set_synchronous (with_fifo g f')),
        rw (ran, ran', ran'') refl,
        sent-Started f' _ (synchronous-Allocated m g a) (IsFilled-Appended returned filled c) octets
            short idle,
        refl,
      )
