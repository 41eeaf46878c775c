-- ===== src/Alp/Expect.antt =====
-- `alp_get_expected_response_length`: how long the reply to a command will be.
use riot_oss7_modem.Common.{
  ℕ, zero, suc, ◌+◌, ◌%◌, ◌^◌, ltb, ◌==◌, if◌then◌else◌, u8, u16, Outcome, done, fault, assertion,
  Option, none, some, true, false,
}
use riot_oss7_modem.Common.Memory.{Bytes}
use riot_oss7_modem.Fifo
use riot_oss7_modem.Fifo.{Fifo}
use riot_oss7_modem.Alp.{
  read_file_data_op, write_file_data_op, write_file_properties_op, return_file_data_op, forward_op,
  request_tag_op, d7asp_itf, addressee_id_length, id_type,
}
use riot_oss7_modem.Alp.Parse.{pop_byte, parse_length_operand}

-- `alp_length_operand_coded_length`
unfoldable pub length_operand_coded_length : ℕ → ℕ
length_operand_coded_length length =
    if ltb 0x3fffff length
    then 4
    else if ltb 0x3fff length
    then 3
    else if ltb 0x3f length
    then 2
    else 1

-- `sizeof(fs_file_header_t)` of include/fs.h, a packed struct of four single bytes and two words.
abbrev pub file_header_size : ℕ
file_header_size = 12

-- `fifo_skip`, whose result is not looked at.
unfoldable pub skip : ℕ → Fifo → Fifo
skip len fifo = (Fifo.skip fifo (u16 len)).1

-- The `case`s. `expected` is the uint8_t that adds up; `stale` is what an uninitialised local byte
-- holds.
unfoldable pub expect_read : ℕ → Fifo → ℕ × Fifo
expect_read expected fifo =
    let (offset, fifo1) = parse_length_operand (skip 1 fifo) in
    let (length, fifo2) = parse_length_operand fifo1 in
    let with_data = u8 (expected + length) in
    let with_length = u8 (with_data + length_operand_coded_length with_data) in
    let with_offset = u8 (with_length + (length_operand_coded_length offset + 1)) in
    (u8 (with_offset + 1), fifo2)

unfoldable pub expect_file_data : Fifo → Fifo
expect_file_data fifo =
    let (offset, fifo1) = parse_length_operand (skip 1 fifo) in
    let (length, fifo2) = parse_length_operand fifo1 in skip length fifo2

unfoldable pub expect_forward : ℕ → Fifo → Fifo
expect_forward stale fifo =
    let (itf_id, fifo1) = pop_byte fifo stale in
    let (ctrl, fifo2) = pop_byte (skip 1 fifo1) stale in
    if itf_id == d7asp_itf then skip (2 + addressee_id_length (id_type ctrl)) fifo2 else fifo1

-- One action, after its control byte.
unfoldable pub expect_action : ℕ → ℕ → ℕ → Fifo → Outcome (ℕ × Fifo)
expect_action stale op expected fifo =
    if op == read_file_data_op
    then done (expect_read expected fifo)
    else if op == request_tag_op
    then done (expected, skip 1 fifo)
    else if op == return_file_data_op
    then done (expected, expect_file_data fifo)
    else if op == write_file_data_op
    then done (expected, expect_file_data fifo)
    else if op == forward_op
    then done (expected, expect_forward stale fifo)
    else if op == write_file_properties_op
    then done (expected, skip (1 + file_header_size) fifo)
    else fault assertion

-- One round of the loop: the control byte, and its action.
unfoldable pub expect_round : ℕ → ℕ → Fifo → Outcome (ℕ × Fifo)
unfolding expect_action
expect_round stale expected fifo =
    let (raw, fifo') = pop_byte fifo stale in expect_action stale (raw % 2 ^ 6) expected fifo'

-- The `while` loop; `none` means that the rounds ran out.
unfoldable pub expect_rounds : ℕ → ℕ → ℕ → Fifo → Option (Outcome ℕ)
expect_rounds zero stale expected fifo = none
expect_rounds (suc fuel) stale expected fifo = elim (ltb 0 (Fifo.get_size fifo)) [
  | false ↦ some (done expected)
  | true ↦ elim (expect_round stale expected fifo) [
    | fault e ↦ some (fault e)
    | done (expected', fifo') ↦ expect_rounds fuel stale expected' fifo'
  ]
]

-- `alp_get_expected_response_length`. A command of `n` bytes takes at most `n` rounds.
unfoldable pub get_expected_response_length : ℕ → Bytes → ℕ → Option (Outcome ℕ)
unfolding expect_rounds
get_expected_response_length stale alp_command n =
    expect_rounds (suc n) stale 0 (Fifo.init_filled alp_command n (n + 1))
