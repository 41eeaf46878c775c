-- ===== src/Interface/Frame.antt =====
-- The frames on the serial line, from the format in modem_interface.h and not from the code.
use riot_oss7_modem.Common.{ℕ, ◌/◌, ◌%◌, ◌^◌, List, [], ◌∷◌, ◌++◌, length}
use riot_oss7_modem.Crc.Reference.{ccitt}

-- Two bytes for the start, the counter, the type, the length, the checksum of the payload.
abbrev pub encode_header : ℕ → ℕ → List ℕ → List ℕ
encode_header counter type_ payload =
    0xc0
    ∷ 0x00
    ∷ counter
    ∷ type_
    ∷ length payload
    ∷ ccitt 0xffff payload / 2 ^ 8 % 2 ^ 8
    ∷ ccitt 0xffff payload % 2 ^ 8
    ∷ []

abbrev pub encode_frame : ℕ → ℕ → List ℕ → List ℕ
encode_frame counter type_ payload = encode_header counter type_ payload ++ payload
