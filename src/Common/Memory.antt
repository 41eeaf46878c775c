-- ===== src/Common/Memory.antt =====
-- `uint8_t*`: the byte at each offset from the pointer. What lies past the object that the pointer
-- belongs to has a value too, and the bounds theorems say that nobody looks at it.
use riot_oss7_modem.Common.{ℕ, ◌+◌, ◌-◌, ◌&&◌, ltb, leb, if◌then◌else◌}

abbrev pub Bytes : Type 0
Bytes = ℕ → ℕ

-- `p + n`
abbrev pub advance : Bytes → ℕ → Bytes
advance p n i = p (n + i)

-- `memcpy(dst + at, src, len)`
abbrev pub memcpy : Bytes → ℕ → Bytes → ℕ → Bytes
memcpy dst at src len i = if leb at i && ltb i (at + len) then src (i - at) else dst i
