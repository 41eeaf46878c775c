-- ===== src/Alp/RoundTrip.antt =====
-- alp.c against itself: actions that are appended and parsed again.
use riot_oss7_modem.Common.{
  ℕ, ◌^◌, ◌<◌, ◌≡◌, sym, ap, ◌∙◌, Bool, false, List, [], ◌∷◌, ◌++◌, append-nil, tabulate, length,
  done, arith,
}
use riot_oss7_modem.Common.Memory.{Bytes}
use riot_oss7_modem.Fifo.{Fifo}
use riot_oss7_modem.Fifo.Valid.{contents}
use riot_oss7_modem.Fifo.Put.{IsWritable, HasRoom}
use riot_oss7_modem.Alp.{FileData, write_file_data, return_file_data}
use riot_oss7_modem.Alp.Append.{append_return_file_data_action, append_write_file_data_action}
use riot_oss7_modem.Alp.Parse.{parse_action}
use riot_oss7_modem.Alp.Encoding.{control, encode_file_data}
use riot_oss7_modem.Alp.Front.{Holds}
use riot_oss7_modem.Alp.Operand.{received}
use riot_oss7_modem.Alp.Appended.{Appended}
use riot_oss7_modem.Alp.Commands.{
  append_return_file_data_action-Appends, append_write_file_data_action-Appends,
}
use riot_oss7_modem.Alp.Parsing.{FileDataRead, parse_return_file_data, parse_write_file_data}

pub received_small : (n : ℕ) → n < 2 ^ 14 → received n ≡ n
received_small n h = ground arith

-- What was put into an empty fifo is at its front.
at_front : {f g : Fifo} (xs : List ℕ) → contents f ≡ [] → Appended f xs g → Holds g (xs ++ [])
at_front xs empty a = (a.writable.valid, a.held ∙ ap (λ l. l ++ xs) empty ∙ sym (append-nil xs))

-- The parsed operand is the one that was appended.
pub record IsSame (operand : FileData) (file_id offset n : ℕ) (bytes : Bytes) : Type 0 where
  pub same_file : operand.file_offset.file_id ≡ file_id
  pub same_offset : operand.file_offset.offset ≡ offset
  pub same_length : operand.provided_data_length ≡ n
  pub same_bytes : tabulate n operand.bytes ≡ tabulate n bytes

read-IsSame :
    {operand : FileData} (file_id offset n : ℕ) (bytes : Bytes)
    → offset < 2 ^ 14
    → FileDataRead operand file_id offset n bytes
    → IsSame operand file_id offset n bytes
read-IsSame file_id offset n bytes h a = record {
  same_file = a.same_file;
  same_offset = a.same_offset ∙ received_small offset h;
  same_length = a.same_length;
  same_bytes = a.same_bytes;
}

module _ {f : Fifo} (stale : Bytes) (file_id offset n : ℕ) (bytes : Bytes) (w : IsWritable f)
    (empty : contents f ≡ []) (offset_small : offset < 2 ^ 14) (n_small : n < 256)
    (room : HasRoom f (length (0 ∷ encode_file_data file_id offset n bytes))) where
  -- The two actions with file data survive being appended to an empty fifo that has room and being parsed
  -- again, for an offset below 2 ^ 14 and up to 255 bytes: `alp_parse_action` on what
  -- `alp_append_return_file_data_action` or `alp_append_write_file_data_action` leaves gives back the operation, the file, the
  -- offset, the length and the bytes, and takes exactly the action.
  pub file_data_round_trip :
      (resp group : Bool)
      → ((h : Fifo) × (operand : FileData) × (g : Fifo) × (append_return_file_data_action f file_id
              offset n bytes
            ≡ done h)
          × (parse_action h stale ≡ done (return_file_data operand, g))
          × IsSame operand file_id offset n bytes
          × Holds g [])
        × ((h : Fifo) × (operand : FileData) × (g : Fifo) × (append_write_file_data_action f file_id
                offset n bytes resp group
              ≡ done h)
            × (parse_action h stale ≡ done (write_file_data operand, g))
            × IsSame operand file_id offset n bytes
            × Holds g [])
  file_data_round_trip resp group =
      let (h, ran, a) =
        append_return_file_data_action-Appends f w file_id offset n bytes (omega arith)
          (omega arith) room in
      let (operand, g, parsed, read, left) =
        parse_return_file_data h stale false false file_id offset n bytes [] (omega arith) n_small
          (at_front (32 ∷ encode_file_data file_id offset n bytes) empty a) in
      let (h', ran', a') =
        append_write_file_data_action-Appends f w file_id offset n bytes resp group (omega arith)
          (omega arith) room in
      let (operand', g', parsed', read', left') =
        parse_write_file_data h' stale resp group file_id offset n bytes [] (omega arith) n_small
          (at_front (control 4 resp group ∷ encode_file_data file_id offset n bytes) empty a') in
      (
        (h, operand, g, ran, parsed, read-IsSame file_id offset n bytes offset_small read, left),
        (
          h',
          operand',
          g',
          ran',
          parsed',
          read-IsSame file_id offset n bytes offset_small read',
          left',
        ),
      )
