-- ===== src/Modem/Returns.antt =====
-- modem.c, a synchronous command from its sending to its return, with any frames in between.
use riot_oss7_modem.Common.{ℕ, suc, ◌≡◌, ◌≢◌, inl, inr, refl, sym, ◌∙◌, true, false, some, done}
use mathlib.Core.Bool.{false≢true}
use riot_oss7_modem.Common.Memory.{Bytes}
use riot_oss7_modem.Fifo
use riot_oss7_modem.Fifo.{Fifo}
use riot_oss7_modem.Modem.{Modem, Status, command_timeout, lock_first, after_wait}
use riot_oss7_modem.Modem.Serial.{process_serial_frame}
use riot_oss7_modem.Modem.Answered.{Meets}
use riot_oss7_modem.Modem.Answered.Frame.{frame_effect}
use riot_oss7_modem.Modem.Waiting.{
  Phase, sent, waiting, returned, Step, frame, lock, acquire, expire,
}

-- Steps of the caller and the receiving thread, one after the other.
pub data Runs : Phase × Modem → Phase × Modem → Type 0 where
  stop : (s : Phase × Modem) → Runs s s
  step : {s t u : Phase × Modem} → Step s t → Runs t u → Runs s u

-- On the way there is a frame, handled while the caller waits, that completes its command.
pub record Answer (s t : Phase × Modem) : Type 0 where
  pub stale : ℕ → Bytes
  pub frame : Fifo
  pub left : Fifo
  pub before : Modem
  pub after : Modem
  pub earlier : Runs s (waiting, before)
  pub handled : process_serial_frame stale frame before ≡ some (done (left, after))
  pub same_tag : before.command.tag_id ≡ s.1.command.tag_id
  pub meets : Meets stale (suc (Fifo.get_size frame)) frame before
  pub freed : after.command.is_active ≡ false
  pub later : Runs (waiting, after) t

preceded :
    {r s t : Phase × Modem}
    → Step r s
    → s.1.command.tag_id ≡ r.1.command.tag_id
    → Answer s t
    → Answer r t
preceded first tag a = record {
  stale = a.stale;
  frame = a.frame;
  left = a.left;
  before = a.before;
  after = a.after;
  earlier = step first a.earlier;
  handled = a.handled;
  same_tag = a.same_tag ∙ tag;
  meets = a.meets;
  freed = a.freed;
  later = a.later;
}

-- Who is back stays back.
stays :
    {s t : Phase × Modem} (status : Status)
    → Runs s t
    → s.0 ≡ returned status
    → t.0 ≡ returned status
stays status (stop s) e = e
stays status (step (frame p m m' stale f g ran) rest) e = stays status rest e
stays status (step (lock m u) rest) e = absurd cc
stays status (step (acquire m u) rest) e = absurd cc
stays status (step (expire m) rest) e = absurd cc

answers :
    (p : Phase) (m m' : Modem) (t : Phase × Modem) (stale : ℕ → Bytes) (f g : Fifo)
    → p ≡ waiting
    → process_serial_frame stale f m ≡ some (done (g, m'))
    → Meets stale (suc (Fifo.get_size f)) f m
    → m'.command.is_active ≡ false
    → Runs (p, m') t
    → Answer (p, m) t
answers p m m' t stale f g w ran meets inactive rest = record {
  stale = stale;
  frame = f;
  left = g;
  before = m;
  after = m';
  earlier = rw w (stop (waiting, m));
  handled = ran;
  same_tag = refl;
  meets = meets;
  freed = inactive;
  later = rw w at rest;
}

-- From the wait on a locked mutex.
wait_answered :
    {s t : Phase × Modem} (status : Status)
    → Runs s t
    → s.0 ≡ waiting
    → s.1.locked ≡ true
    → t.0 ≡ returned status
    → status ≢ command_timeout
    → Answer s t
unfolding after_wait
wait_answered status (stop s) w locked back late = absurd (let e = sym w ∙ back in cc)
wait_answered {t = t} status (step (frame p m m' stale f g ran) rest) w locked back late =
    let (tag, _, how) = frame_effect stale f m g m' ran in
    elim how [
      | inl kept ↦
          preceded (frame p m m' stale f g ran) tag
            (wait_answered status rest w (kept.locked ∙ locked) back late)
      | inr (meets, inactive) ↦ answers p m m' t stale f g w ran meets inactive rest
    ]
wait_answered status (step (lock m u) rest) w locked back late = absurd cc
wait_answered status (step (acquire m u) rest) w locked back late =
    absurd (false≢true (sym u ∙ locked))
wait_answered status (step (expire m) rest) w locked back late =
    absurd (late (let e = sym (stays command_timeout rest refl) ∙ back in cc))

start_answered :
    {s t : Phase × Modem} (status : Status)
    → Runs s t
    → s.0 ≡ sent
    → t.0 ≡ returned status
    → status ≢ command_timeout
    → Answer s t
unfolding lock_first
start_answered status (stop s) w back late = absurd (let e = sym w ∙ back in cc)
start_answered status (step (frame p m m' stale f g ran) rest) w back late =
    preceded (frame p m m' stale f g ran) (frame_effect stale f m g m' ran).0
      (start_answered status rest w back late)
start_answered status (step (lock m u) rest) w back late =
    preceded (lock m u) refl (wait_answered status rest refl refl back late)
start_answered status (step (acquire m u) rest) w back late = absurd cc
start_answered status (step (expire m) rest) w back late = absurd cc

-- A synchronous command that does not time out was answered: on every way from the sending of the command
-- to its return with another status than MODEM_STATUS_COMMAND_TIMEOUT, with any frames handled in between,
-- there is a frame that is handled while the caller waits, in which the loop meets a tag response that says completed
-- with the tag that the command had when it was sent, and which frees the modem.
pub return_answered :
    (m m' : Modem) (status : Status)
    → Runs (sent, m) (returned status, m')
    → status ≢ command_timeout
    → Answer (sent, m) (returned status, m')
return_answered m m' status runs late = start_answered status runs refl refl late
