-- ===== src/Modem/Blocked.antt =====
-- modem.c after a command is sent: the calls of a program, the timeouts of callers and the frames that come, in any order.
use riot_oss7_modem.Common.{
  ℕ, suc, ap, ◌≡◌, ◌⊎◌, inl, inr, refl, sym, ◌∙◌, true, List, [], ◌∷◌, ◌++◌, some, Outcome, done,
  Bool,
}
use riot_oss7_modem.Common.Memory.{Bytes}
use riot_oss7_modem.Fifo
use riot_oss7_modem.Fifo.{Fifo}
use riot_oss7_modem.Alp.{SessionConfig}
use riot_oss7_modem.Modem.{
  Modem, Status, busy, lock_first, after_wait, read_file, read_file_async, write_file_async,
  send_unsolicited_response, alloc_command, unless_busy,
}
use riot_oss7_modem.Modem.Serial.{process_serial_frame}
use riot_oss7_modem.Modem.Answered.{Meets}
use riot_oss7_modem.Modem.Answered.Frame.{frame_effect}

-- The four functions that start a command, by their results. `wait` is the wait of a synchronous one.
pub data Called : Modem → Status → Modem → Type 0 where
  reads :
      (wait : Modem → Outcome (Bool × Modem)) (m m' : Modem) (file_id offset size : ℕ)
      (buffer : Bytes) (status : Status)
      → read_file wait m file_id offset size buffer size ≡ done (status, m')
      → Called m status m'
  reads_async :
      (m m' : Modem) (file_id offset size : ℕ) (status : Status)
      → read_file_async m file_id offset size ≡ done (status, m')
      → Called m status m'
  writes_async :
      (m m' : Modem) (file_id offset size : ℕ) (bytes : Bytes) (status : Status)
      → write_file_async m file_id offset size bytes ≡ done (status, m')
      → Called m status m'
  sends :
      (wait : Modem → Outcome (Bool × Modem)) (m m' : Modem) (file_id offset size : ℕ)
      (bytes : Bytes) (config : SessionConfig) (status : Status)
      → send_unsolicited_response wait m file_id offset size bytes config ≡ done (status, m')
      → Called m status m'

-- A frame is handled, a caller locks the mutex for the first time or its time is over, or a function is
-- called; and any number of these, with what the calls returned.
pub data Uses : Modem → List Status → Modem → Type 0 where
  stop : (m : Modem) → Uses m [] m
  frame :
      {m m' n : Modem} {statuses : List Status} (stale : ℕ → Bytes) (f g : Fifo)
      → process_serial_frame stale f m ≡ some (done (g, m'))
      → Uses m' statuses n
      → Uses m statuses n
  lock : {m n : Modem} {statuses : List Status} → Uses (lock_first m) statuses n → Uses m statuses n
  expire :
      {m n : Modem} {statuses : List Status}
      → Uses (after_wait true m).1 statuses n
      → Uses m statuses n
  call :
      {m m' n : Modem} {statuses : List Status} {status : Status}
      → Called m status m'
      → Uses m' statuses n
      → Uses m (status ∷ statuses) n

abbrev pub AreBusy : List Status → Type 0
AreBusy [] = Unit {0}
AreBusy (status ∷ statuses) = (status ≡ busy) × AreBusy statuses

-- A frame that completes the command with this tag; before it, all calls returned MODEM_STATUS_BUSY.
pub record Ended (m n : Modem) (statuses : List Status) : Type 0 where
  pub refused : List Status
  pub others : List Status
  pub split : statuses ≡ refused ++ others
  pub all_refused : AreBusy refused
  pub before : Modem
  pub after : Modem
  pub stale : ℕ → Bytes
  pub frame : Fifo
  pub left : Fifo
  pub earlier : Uses m refused before
  pub handled : process_serial_frame stale frame before ≡ some (done (left, after))
  pub same_tag : before.command.tag_id ≡ m.command.tag_id
  pub same_interface : before.interface ≡ m.interface
  pub meets : Meets stale (suc (Fifo.get_size frame)) frame before
  pub later : Uses after others n

-- Nothing happened.
pub record IsBlocked (m n : Modem) (statuses : List Status) : Type 0 where
  pub all_refused : AreBusy statuses
  pub active : n.command.is_active ≡ true
  pub same_tag : n.command.tag_id ≡ m.command.tag_id
  pub same_interface : n.interface ≡ m.interface

result_busy :
    {m m' : Modem} {status : Status} {r : Outcome (Status × Modem)}
    → r ≡ done (busy, m)
    → r ≡ done (status, m')
    → (status ≡ busy) × (m' ≡ m)
result_busy a b = let e = sym b ∙ a in (cc, cc)

pub send_refused :
    (wait : Modem → Outcome (Bool × Modem)) (m : Modem) (file_id offset size : ℕ) (bytes : Bytes)
    (config : SessionConfig)
    → m.command.is_active ≡ true
    → send_unsolicited_response wait m file_id offset size bytes config ≡ done (busy, m)
unfolding send_unsolicited_response alloc_command unless_busy
send_refused wait m file_id offset size bytes config active = rw active refl

active_refuses :
    {m m' : Modem} {status : Status}
    → Called m status m'
    → m.command.is_active ≡ true
    → (status ≡ busy) × (m' ≡ m)
unfolding read_file read_file_async write_file_async alloc_command unless_busy
active_refuses (reads wait m m' file_id offset size buffer status e) active =
    result_busy (rw active refl) e
active_refuses (reads_async m m' file_id offset size status e) active =
    result_busy (rw active refl) e
active_refuses (writes_async m m' file_id offset size bytes status e) active =
    result_busy (rw active refl) e
active_refuses (sends wait m m' file_id offset size bytes config status e) active =
    result_busy (send_refused wait m file_id offset size bytes config active) e

abbrev Result : Modem → Modem → List Status → Type 0
Result m n statuses = IsBlocked m n statuses ⊎ Ended m n statuses

-- A step in front that is no call, and that keeps the tag and the interface.
silent :
    {m m' n : Modem} {statuses : List Status}
    → ((k : Modem) (ss : List Status) → Uses m' ss k → Uses m ss k)
    → m'.command.tag_id ≡ m.command.tag_id
    → m'.interface ≡ m.interface
    → Result m' n statuses
    → Result m n statuses
silent first tag interface (inl a) = inl (record {
  all_refused = a.all_refused;
  active = a.active;
  same_tag = a.same_tag ∙ tag;
  same_interface = a.same_interface ∙ interface;
})
silent first tag interface (inr a) = inr (record {
  refused = a.refused;
  others = a.others;
  split = a.split;
  all_refused = a.all_refused;
  before = a.before;
  after = a.after;
  stale = a.stale;
  frame = a.frame;
  left = a.left;
  earlier = first a.before a.refused a.earlier;
  handled = a.handled;
  same_tag = a.same_tag ∙ tag;
  same_interface = a.same_interface ∙ interface;
  meets = a.meets;
  later = a.later;
})

-- A call in front that is refused.
refused_first :
    {m m' n : Modem} {status : Status} {statuses : List Status}
    → Called m status m'
    → status ≡ busy
    → m' ≡ m
    → Result m' n statuses
    → Result m n (status ∷ statuses)
refused_first c b same (inl a) = inl (record {
  all_refused = (b, a.all_refused);
  active = a.active;
  same_tag = a.same_tag ∙ ap (λ m. m.command.tag_id) same;
  same_interface = a.same_interface ∙ ap (λ m. m.interface) same;
})
refused_first {status} c b same (inr a) = inr (record {
  refused = status ∷ a.refused;
  others = a.others;
  split = ap (λ l. status ∷ l) a.split;
  all_refused = (b, a.all_refused);
  before = a.before;
  after = a.after;
  stale = a.stale;
  frame = a.frame;
  left = a.left;
  earlier = call c a.earlier;
  handled = a.handled;
  same_tag = a.same_tag ∙ ap (λ m. m.command.tag_id) same;
  same_interface = a.same_interface ∙ ap (λ m. m.interface) same;
  meets = a.meets;
  later = a.later;
})

-- While a command is active the driver is blocked until it is answered. From a modem with an active command, over any
-- sequence of frames, timeouts of callers and calls of the four functions that start a command: either all
-- calls returned MODEM_STATUS_BUSY, and the command is still active with its tag, and the interface as it was, so
-- that nothing was sent; or there is a frame in which the loop met a tag response with the command's tag that says
-- completed, and up to it all calls returned MODEM_STATUS_BUSY and the interface was as before.
pub refused_until_answered :
    {m n : Modem} {statuses : List Status}
    → m.command.is_active ≡ true
    → Uses m statuses n
    → IsBlocked m n statuses ⊎ Ended m n statuses
unfolding lock_first after_wait
refused_until_answered active (stop m) =
    inl (record { all_refused = tt; active = active; same_tag = refl; same_interface = refl })
refused_until_answered {m} {statuses} active (frame {m'} stale f g ran rest) =
    let (tag, interface, how) = frame_effect stale f m g m' ran in
    elim how [
      | inl kept ↦
          silent (λ k ss. frame stale f g ran) tag interface
            (refused_until_answered (kept.active ∙ active) rest)
      | inr (meets, _) ↦ inr (record {
        refused = [];
        others = statuses;
        split = refl;
        all_refused = tt;
        before = m;
        after = m';
        stale = stale;
        frame = f;
        left = g;
        earlier = stop m;
        handled = ran;
        same_tag = refl;
        same_interface = refl;
        meets = meets;
        later = rest;
      })
    ]
refused_until_answered active (lock rest) =
    silent (λ k ss. lock) refl refl (refused_until_answered active rest)
refused_until_answered active (expire rest) =
    silent (λ k ss. expire) refl refl (refused_until_answered active rest)
refused_until_answered active (call c rest) =
    let (b, same) = active_refuses c active in
    refused_first c b same
      (refused_until_answered (ap (λ m. m.command.is_active) same ∙ active) rest)
