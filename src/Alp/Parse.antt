-- ===== src/Alp/Parse.antt =====
-- The functions of alp.c that take operands and actions off a fifo. `stale` is what the union of the
-- `alp_action_t` holds before; it shows through wherever a pop fails and nobody asks.
use riot_oss7_modem.Common.{
  ℕ, ◌*◌, ◌/◌, ◌%◌, ◌^◌, Bool, true, false, not, ◌&&◌, leb, ◌==◌, if◌then◌else◌, u16, u32, Outcome,
  done, fault, assertion, ◌>>=◌, ◌>>◌,
}
use riot_oss7_modem.Common.Memory.{Bytes, advance}
use riot_oss7_modem.Fifo
use riot_oss7_modem.Fifo.{Fifo, ErrorCode, success}
use riot_oss7_modem.Alp.{
  write_file_data_op, return_file_data_op, return_status_op, return_tag_op, d7asp_itf, FileOffset,
  FileData, file_data_capacity, Action, write_file_data, return_file_data, return_tag,
  return_status, addressee_id_length, id_type, word_bytes, word_of,
}

abbrev pub assert : Bool → Outcome (Unit {0})
assert true = done tt
assert false = fault assertion

-- A local variable of one byte that a pop fills, and the fifo.
abbrev pub pop_byte : Fifo → ℕ → ℕ × Fifo
pop_byte fifo initial = let (err, out, fifo') = Fifo.pop fifo (λ _. initial) 1 in (out 0, fifo')

-- `assert(fifo_pop(fifo, &byte, 1) == SUCCESS)`
unfoldable pub checked_byte : ErrorCode × Bytes × Fifo → Outcome (ℕ × Fifo)
checked_byte (success, out, fifo) = done (out 0, fifo)
checked_byte (_, out, fifo) = fault assertion

unfoldable pub assert_pop_byte : Fifo → Outcome (ℕ × Fifo)
unfolding checked_byte
assert_pop_byte fifo = checked_byte (Fifo.pop fifo (λ _. 0) 1)

-- The bytes after the first are popped over the low end of `full_length`, in memory order.
unfoldable pub parse_long_length : Fifo → ℕ → ℕ → ℕ × Fifo
parse_long_length fifo len field_len =
    let full_length = u32 (len % 2 ^ 6 * 2 ^ (8 * field_len)) in
    let (err, out, fifo') = Fifo.pop fifo (word_bytes full_length) field_len in (word_of out, fifo')

-- The part after the first byte.
unfoldable pub length_after : ℕ → Fifo → ℕ × Fifo
unfolding parse_long_length
length_after len fifo =
    let field_len = len / 2 ^ 6 in
    if field_len == 0 then (len, fifo) else parse_long_length fifo len field_len

-- `alp_get_operation`
unfoldable pub get_operation : Bytes → ℕ
get_operation alp_command = alp_command 0 % 2 ^ 6

-- `alp_parse_length_operand`
unfoldable pub parse_length_operand : Fifo → ℕ × Fifo
parse_length_operand fifo = let (len, fifo') = pop_byte fifo 0 in length_after len fifo'

-- `alp_parse_file_offset_operand`
unfoldable pub parse_file_offset_operand : Fifo → Outcome (FileOffset × Fifo)
parse_file_offset_operand fifo = assert_pop_byte fifo >>= λ (file_id, fifo').
    let (offset, fifo'') = parse_length_operand fifo' in
    done (record { file_id = file_id; offset = offset }, fifo'')

-- The array `data` starts 12 bytes into the union.
unfoldable pub pop_file_data : Fifo → FileOffset → ℕ → Bytes → FileData × Fifo
pop_file_data fifo file_offset length stale =
    let (err, out, fifo') = Fifo.pop fifo (advance stale 12) (u16 length) in
    (record { file_offset = file_offset; provided_data_length = length; bytes = out }, fifo')

-- `parse_operand_file_data`
unfoldable pub parse_operand_file_data : Fifo → Bytes → Outcome (FileData × Fifo)
unfolding pop_file_data
parse_operand_file_data fifo stale = parse_file_offset_operand fifo >>= λ (file_offset, fifo').
    let (length, fifo'') = parse_length_operand fifo' in
    assert (leb length file_data_capacity) >> done (pop_file_data fifo'' file_offset length stale)

-- `parse_op_return_tag`
unfoldable pub parse_op_return_tag : Fifo → Bool → Bool → Outcome (Action × Fifo)
parse_op_return_tag fifo b6 b7 = assert_pop_byte fifo >>= λ (tag_id, fifo').
    done (return_tag (record { completed = b7; error = b6; tag_id = tag_id }), fifo')

-- `fifo_pop` into a field of the local `interface_status` that nothing reads.
unfoldable pub drop_field : ℕ → Fifo → Fifo
drop_field len fifo = (Fifo.pop fifo (λ _. 0) len).2

-- The fields of the status in front of the addressee: the channel, five levels and numbers, and
-- three more.
unfoldable pub drop_fields : Fifo → Fifo
unfolding drop_field
drop_fields fifo =
    let channel = drop_field 2 (drop_field 1 fifo) in
    let levels = drop_field 1 (drop_field 1 (drop_field 1 channel)) in
    drop_field 1 (drop_field 1 (drop_field 1 (drop_field 1 levels)))

unfoldable pub checked_id : ErrorCode × Bytes × Fifo → Outcome Fifo
checked_id (success, out, fifo) = done fifo
checked_id (_, out, fifo) = fault assertion

-- The interface status, read into a local that is then dropped. `addressee.ctrl` stands 13 bytes into
-- the `d7ap_session_result_t` that the local is copied from.
unfoldable pub parse_interface_status : Fifo → Bytes → Outcome Fifo
unfolding drop_fields checked_id
parse_interface_status fifo stale =
    let (ctrl, fifo') = pop_byte (drop_fields fifo) (stale 13) in
    let fifo'' = drop_field 1 fifo' in
    checked_id (Fifo.pop fifo'' (λ _. 0) (addressee_id_length (id_type ctrl)))

-- `parse_op_return_status`
unfoldable pub parse_op_return_status : Fifo → Bytes → Bool → Bool → Outcome (Action × Fifo)
unfolding parse_interface_status
parse_op_return_status fifo stale b6 b7 =
    assert (b6 && not b7)
    >> (assert_pop_byte fifo >>= λ (itf_id, fifo').
        assert (itf_id == d7asp_itf)
        >> (parse_interface_status fifo' stale >>= λ fifo''. done (return_status stale, fifo'')))

-- The `switch` of `alp_parse_action`.
unfoldable pub parse_operation : Fifo → Bytes → ℕ → Bool → Bool → Outcome (Action × Fifo)
parse_operation fifo stale op b6 b7 =
    if op == write_file_data_op
    then (parse_operand_file_data fifo stale >>= λ (operand, fifo').
        done (write_file_data operand, fifo'))
    else if op == return_file_data_op
    then (parse_operand_file_data fifo stale >>= λ (operand, fifo').
        done (return_file_data operand, fifo'))
    else if op == return_tag_op
    then parse_op_return_tag fifo b6 b7
    else if op == return_status_op
    then parse_op_return_status fifo stale b6 b7
    else fault assertion

-- `alp_parse_action`
unfoldable pub parse_action : Fifo → Bytes → Outcome (Action × Fifo)
unfolding parse_operation
parse_action fifo stale = assert_pop_byte fifo >>= λ (op, fifo').
    parse_operation fifo' stale (op % 2 ^ 6) (op / 2 ^ 6 % 2 == 1) (not (op / 2 ^ 7 == 0))
