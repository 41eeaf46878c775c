-- ===== src/Alp/Dash7.antt =====
-- The enumerations and bit fields of include/d7ap.h that a session is configured with. The first field
-- of a byte is in its low bits.
use riot_oss7_modem.Common.{ℕ, ◌+◌, ◌*◌, ◌/◌, ◌%◌, ◌^◌, ◌<◌, ◌≡◌, refl, ap, ◌∙◌, Bool, arith}
use riot_oss7_modem.Alp.{IdType, nbid, noid, uid, vid, id_type, id_type_at}
use riot_oss7_modem.Alp.Append.{bit}

-- `nls_method_t`
pub data NlsMethod : Type 0 where
  aes_none aes_ctr aes_cbc_mac_128 aes_cbc_mac_64 aes_cbc_mac_32 : NlsMethod
  aes_ccm_128 aes_ccm_64 aes_ccm_32 : NlsMethod

abbrev pub nls_method_code : NlsMethod → ℕ
nls_method_code aes_none = 0
nls_method_code aes_ctr = 0x01
nls_method_code aes_cbc_mac_128 = 0x02
nls_method_code aes_cbc_mac_64 = 0x03
nls_method_code aes_cbc_mac_32 = 0x04
nls_method_code aes_ccm_128 = 0x05
nls_method_code aes_ccm_64 = 0x06
nls_method_code aes_ccm_32 = 0x07

-- The values of `d7ap_addressee_id_type_t`.
abbrev pub id_type_code : IdType → ℕ
id_type_code nbid = 0
id_type_code noid = 1
id_type_code uid = 2
id_type_code vid = 3

-- `d7ap_session_resp_mode_t`
pub data RespMode : Type 0 where
  resp_no resp_all resp_any resp_no_rpt resp_on_err resp_preferred : RespMode

abbrev pub resp_mode_code : RespMode → ℕ
resp_mode_code resp_no = 0
resp_mode_code resp_all = 1
resp_mode_code resp_any = 2
resp_mode_code resp_no_rpt = 4
resp_mode_code resp_on_err = 5
resp_mode_code resp_preferred = 6

-- `d7ap_session_retry_mode_t`
pub data RetryMode : Type 0 where
  retry_no : RetryMode

abbrev pub retry_mode_code : RetryMode → ℕ
retry_mode_code retry_no = 0

-- `d7ap_addressee_ctrl_t`, with nothing in `_rfu`.
abbrev pub addressee_ctrl_of : NlsMethod → IdType → ℕ
addressee_ctrl_of method type_ = nls_method_code method + id_type_code type_ * 2 ^ 4

-- `d7ap_session_qos_t`
abbrev pub qos_of : RespMode → RetryMode → (record_ stop_on_error : Bool) → ℕ
qos_of resp retry record_ stop_on_error =
    resp_mode_code resp
    + retry_mode_code retry * 2 ^ 3
    + bit record_ * 2 ^ 6
    + bit stop_on_error * 2 ^ 7

nls_method_code-lt : (method : NlsMethod) → nls_method_code method < 16
nls_method_code-lt aes_none = omega arith
nls_method_code-lt aes_ctr = omega arith
nls_method_code-lt aes_cbc_mac_128 = omega arith
nls_method_code-lt aes_cbc_mac_64 = omega arith
nls_method_code-lt aes_cbc_mac_32 = omega arith
nls_method_code-lt aes_ccm_128 = omega arith
nls_method_code-lt aes_ccm_64 = omega arith
nls_method_code-lt aes_ccm_32 = omega arith

id_type_code_lem :
    (type_ : IdType) → (id_type_code type_ < 4) × (id_type_at (id_type_code type_) ≡ type_)
unfolding id_type_at
id_type_code_lem nbid = (omega arith, refl)
id_type_code_lem noid = (omega arith, refl)
id_type_code_lem uid = (omega arith, refl)
id_type_code_lem vid = (omega arith, refl)

-- The type of the addressee is read back from the control byte as it was written.
pub id_type-addressee_ctrl_of :
    (method : NlsMethod) (type_ : IdType) → id_type (addressee_ctrl_of method type_) ≡ type_
unfolding id_type
id_type-addressee_ctrl_of method type_ =
    let (small, back) = id_type_code_lem type_ in
    let field : addressee_ctrl_of method type_ / 2 ^ 4 % 4 ≡ id_type_code type_ =
      omega (arith, nls_method_code-lt method, small) in
    ap id_type_at field ∙ back
