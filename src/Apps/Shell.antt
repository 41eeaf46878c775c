-- ===== src/Apps/Shell.antt =====
-- apps/test/main.c: reads the modem's UID, and runs a shell. The call of `modem_init` passes a UART and
-- the callbacks where modem.h has an index and a baud rate, and `modem_cb_init` is not called.
pub mod Unregistered
use riot_oss7_modem.Common.{Bool, List, ◌∷◌, Outcome, done, ◌>>=◌}
use riot_oss7_modem.Common.Memory.{Bytes}
use riot_oss7_modem.Modem
use riot_oss7_modem.Modem.{Modem}
use riot_oss7_modem.Apps.{Line, welcome, read_uid}

-- `main` up to `shell_run`. `uid` is what the array holds before.
unfoldable pub boot : (Modem → Outcome (Bool × Modem)) → Modem → Bytes → Outcome (List Line × Modem)
boot wait m uid = read_uid wait (Modem.init m) uid >>= λ (lines, m'). done (welcome ∷ lines, m')
