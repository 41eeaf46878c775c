-- ===== src/Modem/Sending.antt =====
-- What the functions that start a command put on the serial line.
use riot_oss7_modem.Common.{
  ℕ, ◌^◌, ◌≤◌, ◌<◌, ◌≡◌, refl, true, false, List, ◌∷◌, ◌++◌, tabulate, length, length-append,
  length-tabulate, done, arith,
}
use riot_oss7_modem.Common.Memory.{Bytes}
use riot_oss7_modem.Alp.Encoding.{control, encode_length, encode_file_offset, encode_file_data}
use riot_oss7_modem.Alp.Commands.{
  append_read_file_data_action-Appends, append_write_file_data_action-Appends,
}
use riot_oss7_modem.Common.Octets.{AreOctets, append-AreOctets}
use riot_oss7_modem.Alp.Octets.{encode_length-AreOctets, length-encode_length-le}
use riot_oss7_modem.Interface.Send.{IsFlushed}
use riot_oss7_modem.Modem.{
  Modem, processing, with_fifo, unless_busy, send_command, send_read_file, read_file_async,
  write_file_async,
}
use riot_oss7_modem.Modem.Starting.{
  IsFilled-Appended, has_room, alloc_command_lem, Started, sent-Started,
}

module _ (m : Modem) (free : m.command.is_active ≡ false) (idle : IsFlushed m.interface.tx_fifo)
    (tag_octet : m.next_tag_id < 2 ^ 8) (file_id offset n : ℕ) (file_octet : file_id < 2 ^ 8)
    (offset_small : offset < 2 ^ 30) where
  abbrev pub read_command : List ℕ
  read_command =
      control 52 false true
        ∷ m.next_tag_id
        ∷ control 1 true false
        ∷ encode_file_offset file_id offset
      ++ encode_length n

  abbrev pub write_command : Bytes → List ℕ
  write_command bytes =
      control 52 false true
      ∷ m.next_tag_id
      ∷ control 4 true false
      ∷ encode_file_data file_id offset n bytes

  -- `modem_read_file_async` on a free modem sends one frame with a tag request and the read action,
  -- for offsets and sizes below 2 ^ 30.
  pub read_file_async_sends :
      n < 2 ^ 30
      → (m' : Modem) × (read_file_async m file_id offset n ≡ done (processing, m'))
        × Started m m' read_command
        × (m'.events ≡ m.events)
        × (m'.command.execute_synchronuous ≡ false)
  unfolding read_file_async unless_busy send_read_file with_fifo send_command
  read_file_async_sends small =
      let (g, ran, a, asynchronous) = alloc_command_lem m free in
      let sizes : length (encode_length offset ++ encode_length n) ≤ 8 = omega (
        arith,
        length-append (encode_length offset) (encode_length n),
        length-encode_length-le offset,
        length-encode_length-le n,
      ) in
      let action = control 1 true false ∷ encode_file_offset file_id offset ++ encode_length n in
      let (f, ran', b) =
        append_read_file_data_action-Appends g.command.fifo a.request.writable file_id offset n true
          false offset_small small (has_room action a.request (omega (arith, sizes))) in
      (
        send_command (with_fifo g f),
        rw (ran, ran') refl,
        sent-Started f read_command a (IsFilled-Appended action a.request b)
            (
              omega arith,
              (
                tag_octet,
                (
                  omega arith,
                  (
                    file_octet,
                    append-AreOctets (encode_length offset) (encode_length n)
                        (encode_length-AreOctets offset offset_small)
                        (encode_length-AreOctets n small),
                  ),
                ),
              ),
            )
            (omega (arith, sizes)) idle,
        a.same_events,
        asynchronous,
      )

  -- `modem_write_file_async` on a free modem sends one frame with a tag request and the write action,
  -- for a command of up to 246 bytes.
  pub write_file_async_sends :
      (bytes : Bytes)
      → AreOctets (tabulate n bytes)
      → length (write_command bytes) ≤ 246
      → (m' : Modem) × (write_file_async m file_id offset n bytes ≡ done (processing, m'))
        × Started m m' (write_command bytes)
  unfolding write_file_async unless_busy
  write_file_async_sends bytes octets short =
      let (g, ran, a, _) = alloc_command_lem m free in
      let parts = length-append (encode_length offset) (encode_length n ++ tabulate n bytes) in
      let sizes : n ≤ 246 = omega (
        arith,
        short,
        parts,
        length-append (encode_length n) (tabulate n bytes),
        length-tabulate n bytes,
      ) in
      let action = control 4 true false ∷ encode_file_data file_id offset n bytes in
      let (f, ran', b) =
        append_write_file_data_action-Appends g.command.fifo a.request.writable file_id offset n
          bytes true false offset_small (omega (arith, sizes))
          (has_room action a.request (omega (arith, short))) in
      (
        send_command (with_fifo g f),
        rw (ran, ran') refl,
        sent-Started f (write_command bytes) a (IsFilled-Appended action a.request b)
            (
              omega arith,
              (
                tag_octet,
                (
                  omega arith,
                  (
                    file_octet,
                    append-AreOctets (encode_length offset) (encode_length n ++ tabulate n bytes)
                        (encode_length-AreOctets offset offset_small)
                        (append-AreOctets (encode_length n) (tabulate n bytes)
                          (encode_length-AreOctets n (omega (arith, sizes))) octets),
                  ),
                ),
              ),
            )
            short idle,
      )
