-- ===== src/Alp/Append.antt =====
-- The functions of alp.c that append to a command. `assert(fifo_put(…) == SUCCESS)` does the put and
-- stops the program where it fails.
use riot_oss7_modem.Common.{
  ℕ, zero, suc, ◌+◌, ◌*◌, ◌^◌, Bool, true, false, ltb, ◌==◌, if◌then◌else◌, bit_or, u8, u16,
  Outcome, done, fault, assertion, ◌>>=◌,
}
use riot_oss7_modem.Common.Memory.{Bytes, advance}
use riot_oss7_modem.Fifo
use riot_oss7_modem.Fifo.{Fifo, ErrorCode, success}
use riot_oss7_modem.Alp.{
  read_file_data_op, write_file_data_op, return_file_data_op, forward_op, request_tag_op,
  lorawan_abp_itf, lorawan_otaa_itf, d7asp_itf, addressee_id_length, id_type, D7apSessionConfig,
  LorawanSessionConfigAbp, LorawanSessionConfigOtaa, word_bytes, bswap32,
}

unfoldable pub checked : ErrorCode × Fifo → Outcome Fifo
checked (success, fifo) = done fifo
checked (_, fifo) = fault assertion

-- `assert(fifo_put(fifo, bytes, len) == SUCCESS)`
unfoldable pub assert_put : Fifo → Bytes → ℕ → Outcome Fifo
unfolding checked
assert_put fifo bytes len = checked (Fifo.put fifo bytes len)

-- `assert(fifo_put_byte(fifo, byte) == SUCCESS)`
unfoldable pub assert_put_byte : Fifo → ℕ → Outcome Fifo
unfolding checked
assert_put_byte fifo byte = checked (Fifo.put_byte fifo byte)

-- A `bool` in arithmetic.
abbrev pub bit : Bool → ℕ
bit true = 1
bit false = 0

-- How many bytes follow the first, for a length of 64 and more.
abbrev pub following_bytes : ℕ → ℕ
following_bytes length = if ltb 0x3fffff length then 3 else if ltb 0x3fff length then 2 else 1

-- The `do … while`: the bytes `size - 1, …, 0` of the length.
unfoldable pub append_downto_zero : Fifo → Bytes → ℕ → Outcome Fifo
append_downto_zero fifo bytes zero = done fifo
append_downto_zero fifo bytes (suc size) =
    assert_put fifo (advance bytes size) 1 >>= λ fifo'. append_downto_zero fifo' bytes size

-- `alp_append_length_operand`
unfoldable pub append_length_operand : Fifo → ℕ → Outcome Fifo
unfolding append_downto_zero
append_length_operand fifo length =
    let size = following_bytes length in
    let byte = u8 (u8 (size * 2 ^ 6) + word_bytes length size) in
    let rest =
      assert_put_byte fifo byte >>= λ fifo'. append_downto_zero fifo' (word_bytes length) size in
    if ltb length 64 then assert_put fifo (word_bytes length) 1 else rest

-- `alp_append_file_offset_operand`
unfoldable pub append_file_offset_operand : Fifo → ℕ → ℕ → Outcome Fifo
append_file_offset_operand fifo file_id offset = do
  fifo ← assert_put_byte fifo file_id
  append_length_operand fifo offset

-- `alp_append_forward_action`, by the interface: the configuration of a DASH7 session …
unfoldable pub append_d7asp_config : Fifo → D7apSessionConfig → Outcome Fifo
append_d7asp_config fifo config = do
  fifo ← assert_put_byte fifo config.qos
  fifo ← assert_put_byte fifo config.dormant_timeout
  fifo ← assert_put_byte fifo config.addressee_ctrl
  let id_length = addressee_id_length (id_type config.addressee_ctrl)
  fifo ← assert_put_byte fifo config.access_class
  assert_put fifo config.id id_length

-- … of LoRaWAN with activation by personalisation …
unfoldable pub append_abp_config : Fifo → LorawanSessionConfigAbp → Outcome Fifo
append_abp_config fifo config = do
  fifo ← assert_put_byte fifo (bit config.request_ack * 2)
  fifo ← assert_put_byte fifo config.application_port
  fifo ← assert_put fifo config.nwk_s_key 16
  fifo ← assert_put fifo config.app_s_key 16
  fifo ← assert_put fifo (word_bytes (bswap32 config.dev_addr)) 4
  assert_put fifo (word_bytes (bswap32 config.network_id)) 4

-- … and over the air.
unfoldable pub append_otaa_config : Fifo → LorawanSessionConfigOtaa → Outcome Fifo
append_otaa_config fifo config = do
  fifo ← assert_put_byte fifo (bit config.request_ack * 2)
  fifo ← assert_put_byte fifo config.application_port
  fifo ← assert_put fifo config.dev_eui 8
  fifo ← assert_put fifo config.app_eui 8
  assert_put fifo config.app_key 16

-- The two bytes in front.
unfoldable pub append_forward_header : Fifo → ℕ → Outcome Fifo
append_forward_header fifo itf_id = do
  fifo ← assert_put_byte fifo forward_op
  assert_put_byte fifo itf_id

-- What the pointer `config` points to: the bytes, and what the casts to the three structs read there. It is
-- never null.
pub record ForwardConfig : Type 0 where
  pub d7asp : D7apSessionConfig
  pub abp : LorawanSessionConfigAbp
  pub otaa : LorawanSessionConfigOtaa
  pub bytes : Bytes

-- The chain of `if`s over `itf_id`.
unfoldable pub append_config : Fifo → ℕ → ForwardConfig → ℕ → Outcome Fifo
unfolding append_d7asp_config append_abp_config append_otaa_config
append_config fifo itf_id config config_len =
    if itf_id == d7asp_itf
    then append_d7asp_config fifo config.d7asp
    else if itf_id == lorawan_abp_itf
    then append_abp_config fifo config.abp
    else if itf_id == lorawan_otaa_itf
    then append_otaa_config fifo config.otaa
    else assert_put fifo config.bytes config_len

-- `alp_append_forward_action`
unfoldable pub append_forward_action : Fifo → ℕ → ForwardConfig → ℕ → Outcome Fifo
unfolding append_forward_header append_config
append_forward_action fifo itf_id config config_len =
    append_forward_header fifo itf_id >>= λ fifo'. append_config fifo' itf_id config config_len

-- `alp_append_return_file_data_action`. `fifo_put` takes the low 16 bits of the length.
unfoldable pub append_return_file_data_action : Fifo → ℕ → ℕ → ℕ → Bytes → Outcome Fifo
append_return_file_data_action fifo file_id offset length bytes = do
  fifo ← assert_put_byte fifo return_file_data_op
  fifo ← assert_put_byte fifo file_id
  fifo ← append_length_operand fifo offset
  fifo ← append_length_operand fifo length
  assert_put fifo bytes (u16 length)

-- `alp_append_tag_request_action`
unfoldable pub append_tag_request_action : Fifo → ℕ → Bool → Outcome Fifo
append_tag_request_action fifo tag_id eop = do
  fifo ← assert_put_byte fifo (bit_or request_tag_op (bit eop * 2 ^ 7))
  assert_put_byte fifo tag_id

-- The operation with its flags, a uint8_t.
abbrev pub flagged : ℕ → Bool → Bool → ℕ
flagged op resp group = bit_or (bit_or op (bit resp * 2 ^ 6)) (bit group * 2 ^ 7)

-- `alp_append_read_file_data_action`
unfoldable pub append_read_file_data_action : Fifo → ℕ → ℕ → ℕ → Bool → Bool → Outcome Fifo
append_read_file_data_action fifo file_id offset length resp group = do
  fifo ← assert_put_byte fifo (flagged read_file_data_op resp group)
  fifo ← append_file_offset_operand fifo file_id offset
  append_length_operand fifo length

-- `alp_append_write_file_data_action`
unfoldable pub append_write_file_data_action : Fifo → ℕ → ℕ → ℕ → Bytes → Bool → Bool → Outcome Fifo
append_write_file_data_action fifo file_id offset length bytes resp group = do
  fifo ← assert_put_byte fifo (flagged write_file_data_op resp group)
  fifo ← append_file_offset_operand fifo file_id offset
  fifo ← append_length_operand fifo length
  assert_put fifo bytes (u16 length)
