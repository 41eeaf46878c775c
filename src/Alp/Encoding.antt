-- ===== src/Alp/Encoding.antt =====
-- The bytes that the commands of ALP are on the wire, from the format and not from the code: a
-- length in one to four bytes, most significant first, whose top two bits count the bytes after the
-- first; and the actions that the driver sends and receives.
use riot_oss7_modem.Common.{
  ℕ, ◌+◌, ◌*◌, ◌/◌, ◌%◌, ◌^◌, Bool, List, [], ◌∷◌, ◌++◌, tabulate, ltb, ◌==◌, if◌then◌else◌,
}
use riot_oss7_modem.Common.Memory.{Bytes}
use riot_oss7_modem.Alp.{
  addressee_id_length, id_type, D7apSessionConfig, LorawanSessionConfigAbp,
  LorawanSessionConfigOtaa, SessionConfig, dash7, lorawan_otaa, lorawan_abp,
}
use riot_oss7_modem.Alp.Append.{bit, ForwardConfig}

-- A length below 2 ^ 30.
abbrev pub encode_length : ℕ → List ℕ
encode_length n =
    if ltb n (2 ^ 6)
    then n ∷ []
    else if ltb n (2 ^ 14)
    then (0x40 + n / 2 ^ 8) ∷ n % 2 ^ 8 ∷ []
    else if ltb n (2 ^ 22)
    then (0x80 + n / 2 ^ 16) ∷ n / 2 ^ 8 % 2 ^ 8 ∷ n % 2 ^ 8 ∷ []
    else (0xc0 + n / 2 ^ 24) ∷ n / 2 ^ 16 % 2 ^ 8 ∷ n / 2 ^ 8 % 2 ^ 8 ∷ n % 2 ^ 8 ∷ []

-- An operation in the low six bits, two flags above.
abbrev pub control : ℕ → Bool → Bool → ℕ
control op b6 b7 = op + bit b6 * 2 ^ 6 + bit b7 * 2 ^ 7

abbrev pub encode_big_endian : ℕ → List ℕ
encode_big_endian w = w / 2 ^ 24 % 2 ^ 8 ∷ w / 2 ^ 16 % 2 ^ 8 ∷ w / 2 ^ 8 % 2 ^ 8 ∷ w % 2 ^ 8 ∷ []

abbrev pub encode_file_offset : ℕ → ℕ → List ℕ
encode_file_offset file_id offset = file_id ∷ encode_length offset

abbrev pub encode_file_data : ℕ → ℕ → ℕ → Bytes → List ℕ
encode_file_data file_id offset length bytes =
    encode_file_offset file_id offset ++ (encode_length length ++ tabulate length bytes)

abbrev pub encode_d7asp : D7apSessionConfig → List ℕ
encode_d7asp c =
    c.qos
    ∷ c.dormant_timeout
    ∷ c.addressee_ctrl
    ∷ c.access_class
    ∷ tabulate (addressee_id_length (id_type c.addressee_ctrl)) c.id

abbrev pub encode_abp : LorawanSessionConfigAbp → List ℕ
encode_abp c =
    (bit c.request_ack * 2) ∷ c.application_port ∷ tabulate 16 c.nwk_s_key
    ++ (tabulate 16 c.app_s_key ++ (encode_big_endian c.dev_addr ++ encode_big_endian c.network_id))

abbrev pub encode_otaa : LorawanSessionConfigOtaa → List ℕ
encode_otaa c =
    (bit c.request_ack * 2) ∷ c.application_port ∷ tabulate 8 c.dev_eui
    ++ (tabulate 8 c.app_eui ++ tabulate 16 c.app_key)

-- The configuration that goes with an interface; any other interface has its bytes as they are.
abbrev pub encode_config : ℕ → ForwardConfig → ℕ → List ℕ
encode_config itf_id config config_len =
    if itf_id == 0xd7
    then encode_d7asp config.d7asp
    else if itf_id == 0x02
    then encode_abp config.abp
    else if itf_id == 0x03
    then encode_otaa config.otaa
    else tabulate config_len config.bytes

abbrev pub encode_forward : ℕ → ForwardConfig → ℕ → List ℕ
encode_forward itf_id config config_len = 50 ∷ itf_id ∷ encode_config itf_id config config_len

-- The forward action for the interface of a session.
abbrev pub encode_session : SessionConfig → List ℕ
encode_session (dash7 c) = 50 ∷ 0xd7 ∷ encode_d7asp c
encode_session (lorawan_otaa c) = 50 ∷ 0x03 ∷ encode_otaa c
encode_session (lorawan_abp c) = 50 ∷ 0x02 ∷ encode_abp c
