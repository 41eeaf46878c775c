-- ===== src/Alp.antt =====
-- drivers/oss7_modem/alp.c and include/alp.h, with what they take from include/d7ap.h and
-- include/lorawan_stack.h: the commands and replies of the Application Layer Protocol as bytes of
-- a fifo. This file has the codes and the data; the functions stand in the children.
pub mod Append
pub mod Parse
pub mod Expect
pub mod Dash7
pub mod Encoding
pub mod Shrinks
pub mod Rounds
pub mod Octets
pub mod Expecting
pub mod Appended
pub mod Front
pub mod Appending
pub mod Commands
pub mod Forwarding
pub mod Operand
pub mod Parsing
pub mod RoundTrip
pub mod Status
mod Tests
use riot_oss7_modem.Common.{ℕ, zero, suc, ◌+◌, ◌*◌, ◌/◌, ◌%◌, ◌^◌, Bool}
use riot_oss7_modem.Common.Memory.{Bytes}

-- `alp_operation_t`, where the code uses it.
abbrev pub read_file_data_op : ℕ
read_file_data_op = 1

abbrev pub write_file_data_op : ℕ
write_file_data_op = 4

abbrev pub write_file_properties_op : ℕ
write_file_properties_op = 6

abbrev pub return_file_data_op : ℕ
return_file_data_op = 32

abbrev pub return_status_op : ℕ
return_status_op = 34

abbrev pub return_tag_op : ℕ
return_tag_op = 35

abbrev pub forward_op : ℕ
forward_op = 50

abbrev pub request_tag_op : ℕ
request_tag_op = 52

-- `alp_itf_id_t`, where the code uses it.
abbrev pub lorawan_abp_itf : ℕ
lorawan_abp_itf = 0x02

abbrev pub lorawan_otaa_itf : ℕ
lorawan_otaa_itf = 0x03

abbrev pub d7asp_itf : ℕ
d7asp_itf = 0xd7

-- `alp_operand_file_offset_t`
pub record FileOffset : Type 0 where
  pub file_id : ℕ
  pub offset : ℕ

-- `alp_operand_file_data_t`
pub record FileData : Type 0 where
  pub file_offset : FileOffset
  pub provided_data_length : ℕ
  pub bytes : Bytes

-- The size of the array `data` in it.
abbrev pub file_data_capacity : ℕ
file_data_capacity = 255

-- `tag_response` of `alp_action_t`
pub record TagResponse : Type 0 where
  pub completed : Bool
  pub error : Bool
  pub tag_id : ℕ

-- `alp_action_t`: the operation selects the member of the union. Only the operations that
-- `alp_parse_action` lets through have a constructor. Nothing is ever stored in `status`, so
-- `return_status` has the bytes that were in the union before.
pub data Action : Type 0 where
  write_file_data : FileData → Action
  return_file_data : FileData → Action
  return_tag : TagResponse → Action
  return_status : Bytes → Action

-- `d7ap_addressee_id_type_t`
pub data IdType : Type 0 where
  nbid noid uid vid : IdType

-- `d7ap_addressee_id_length`; all four values of the two bits have a case.
unfoldable pub addressee_id_length : IdType → ℕ
addressee_id_length nbid = 1
addressee_id_length noid = 0
addressee_id_length uid = 8
addressee_id_length vid = 2

id_type_at : ℕ → IdType
id_type_at zero = nbid
id_type_at (suc zero) = noid
id_type_at (suc (suc zero)) = uid
id_type_at n = vid

-- Bits 4 and 5 of `d7ap_addressee_ctrl_t`.
unfoldable pub id_type : ℕ → IdType
unfolding id_type_at
id_type raw = id_type_at (raw / 2 ^ 4 % 4)

-- `d7ap_session_config_t`, with the raw bytes of its bit fields.
pub record D7apSessionConfig : Type 0 where
  pub qos : ℕ
  pub dormant_timeout : ℕ
  pub addressee_ctrl : ℕ
  pub access_class : ℕ
  pub id : Bytes

-- `lorawan_session_config_abp_t`
pub record LorawanSessionConfigAbp : Type 0 where
  pub nwk_s_key : Bytes
  pub app_s_key : Bytes
  pub dev_addr : ℕ
  pub network_id : ℕ
  pub request_ack : Bool
  pub application_port : ℕ

-- `lorawan_session_config_otaa_t`
pub record LorawanSessionConfigOtaa : Type 0 where
  pub dev_eui : Bytes
  pub app_eui : Bytes
  pub app_key : Bytes
  pub request_ack : Bool
  pub application_port : ℕ

-- `session_config_t`: `interface_type` selects the member of the union.
pub data SessionConfig : Type 0 where
  dash7 : D7apSessionConfig → SessionConfig
  lorawan_otaa : LorawanSessionConfigOtaa → SessionConfig
  lorawan_abp : LorawanSessionConfigAbp → SessionConfig

-- The bytes of a uint32_t in the memory of a little-endian machine, and back.
abbrev pub word_bytes : ℕ → Bytes
word_bytes w i = w / 256 ^ i % 256

abbrev pub word_of : Bytes → ℕ
word_of p = p 0 + p 1 * 2 ^ 8 + p 2 * 2 ^ 16 + p 3 * 2 ^ 24

-- `__builtin_bswap32`
abbrev pub bswap32 : ℕ → ℕ
bswap32 w =
    w / 2 ^ 24 % 256 + w / 2 ^ 16 % 256 * 2 ^ 8 + w / 2 ^ 8 % 256 * 2 ^ 16 + w % 256 * 2 ^ 24
