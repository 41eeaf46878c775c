-- ===== src/Apps/SensorPush.antt =====
-- apps/sensor_push/main.c: sends a counter over DASH7 every twenty seconds.
pub mod Sends
pub mod Starts
pub mod Silent
use riot_oss7_modem.Common.{
  ℕ, ◌+◌, ◌-◌, ◌*◌, ◌/◌, ◌^◌, Bool, false, List, [], ◌∷◌, ◌++◌, u8, u32, some, Outcome, done, ◌>>=◌,
}
use riot_oss7_modem.Common.Memory.{Bytes}
use riot_oss7_modem.Alp.{SessionConfig, dash7, noid}
use riot_oss7_modem.Alp.Dash7.{resp_preferred, retry_no, aes_none, qos_of, addressee_ctrl_of}
use riot_oss7_modem.Modem
use riot_oss7_modem.Modem.{
  Modem, Status, busy, command_timeout, completed_success, completed_error, processing,
  send_unsolicited_response,
}
use riot_oss7_modem.Apps.{
  Line, welcome, sending, command_completed_in, completed_successfully, completed_with_error,
  timed_out, slept_until, modem_callbacks, read_uid,
}

-- `session_config`, with false in the bits that the initialiser leaves out.
abbrev pub session_config : SessionConfig
session_config = dash7 (record {
  qos = qos_of resp_preferred retry_no false false;
  dormant_timeout = 0;
  addressee_ctrl = addressee_ctrl_of aes_none noid;
  access_class = 0x01;
  id = λ _. 0;
})

-- The state of `main` in front of a round of its loop.
pub record Push : Type 0 where
  pub modem : Modem
  pub counter : ℕ
  pub lines : List Line

-- The times that the clock shows in a round: before and after the command, and after the sleep.
pub record Times : Type 0 where
  pub start : ℕ
  pub finished : ℕ
  pub woken : ℕ

-- `modem_init` and `modem_cb_init`
unfoldable pub set_up : Modem → Modem
set_up m = Modem.cb_init (Modem.init m) (some modem_callbacks)

-- The chain of `if`s over the status.
unfoldable pub report : Status → List Line
report completed_success = completed_successfully ∷ []
report completed_error = completed_with_error ∷ []
report command_timeout = timed_out ∷ []
report busy = []
report processing = []

-- What a round prints.
unfoldable pub round_lines : Times → ℕ → Status → List Line
unfolding report
round_lines t counter status =
    sending counter
      ∷ command_completed_in (u32 (t.finished + 2 ^ 32 - t.start) / 1000)
      ∷ report status
    ++ (slept_until t.woken ∷ [])

-- `xtimer_mutex_lock_timeout`, and the other threads while `main` sleeps, are parameters.
module _ (wait : Modem → Outcome (Bool × Modem)) (sleep : Modem → Outcome Modem) where
  -- `main` up to its loop. `uid` is what the array holds before.
  unfoldable pub boot : Modem → Bytes → Outcome Push
  unfolding set_up
  boot m uid = read_uid wait (set_up m) uid >>= λ (lines, m').
      done (record { modem = m'; counter = 0; lines = welcome ∷ lines })

  -- One round of the loop; `counter` is a uint8_t.
  unfoldable pub round : Times → Push → Outcome Push
  unfolding round_lines
  round t a =
      send_unsolicited_response wait a.modem 0x40 0 1 (λ _. a.counter) session_config
      >>= λ (status, m'). sleep m' >>= λ m''. done (record {
        modem = m'';
        counter = u8 (a.counter + 1);
        lines = a.lines ++ round_lines t a.counter status;
      })

  -- The first rounds.
  unfoldable pub rounds : List Times → Push → Outcome Push
  unfolding round
  rounds [] a = done a
  rounds (t ∷ ts) a = round t a >>= rounds ts
