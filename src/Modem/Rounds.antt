-- ===== src/Modem/Rounds.antt =====
-- The rounds of the loop of `process_serial_frame`, and what ends it.
use riot_oss7_modem.Common.{
  ℕ, suc, ◌≤◌, ◌<◌, ◌≡◌, ◌≢◌, refl, sym, ap, ◌∙◌, Bool, true, false, List, [], ◌∷◌, length, ◌==◌,
  Option, none, some, Outcome, done, fault, Fault, ◌>>=◌, arith,
}
use riot_oss7_modem.Common.Memory.{Bytes, memcpy}
use riot_oss7_modem.Fifo
use riot_oss7_modem.Fifo.{Fifo}
use riot_oss7_modem.Fifo.Valid.{length-contents, get_size_lem}
use riot_oss7_modem.Alp.{Action, return_tag}
use riot_oss7_modem.Alp.Parse.{parse_action}
use riot_oss7_modem.Alp.Front.{Holds}
use riot_oss7_modem.Modem.{Modem}
use riot_oss7_modem.Modem.Serial.{
  handle_tag, handle_action, process_action, process_actions, notify, complete,
  process_serial_frame,
}

-- A round that handles the first action, and the end of the loop.
pub round_lem :
    (stale : Bytes) (c : Bool) (f : Fifo) (m : Modem) (action : Action) (g : Fifo) (c' : Bool)
    (m' : Modem)
    → parse_action f stale ≡ done (action, g)
    → handle_action action c m ≡ done (c', m')
    → process_action stale c f m ≡ done (c', g, m')
unfolding process_action
round_lem stale c f m action g c' m' e h = rw (e, h) refl

pub round_fault :
    (stale : Bytes) (c : Bool) (f : Fifo) (m : Modem) (action : Action) (g : Fifo) (e : Fault)
    → parse_action f stale ≡ done (action, g)
    → handle_action action c m ≡ fault e
    → process_action stale c f m ≡ fault e
unfolding process_action
round_fault stale c f m action g e p h = rw (p, h) refl

pub loop_step :
    (fuel : ℕ) (stale : ℕ → Bytes) (c : Bool) (f : Fifo) (m : Modem) (x : ℕ) (xs : List ℕ)
    (round : Outcome (Bool × Fifo × Modem))
    → Holds f (x ∷ xs)
    → process_action (stale fuel) c f m ≡ round
    → process_actions (suc fuel) stale c f m ≡ elim round [
      | fault e ↦ some (fault e)
      | done (c', f', m') ↦ process_actions fuel stale c' f' m'
    ]
unfolding process_actions
loop_step fuel stale c f m x xs round h e =
    let more : (Fifo.get_size f == 0) ≡ false =
      ground (arith, get_size_lem h.0, ap length h.1, length-contents f) in
    rw (more, e, process_actions) refl

pub loop_stop :
    (fuel : ℕ) (stale : ℕ → Bytes) (c : Bool) (f : Fifo) (m : Modem)
    → Holds f []
    → process_actions (suc fuel) stale c f m ≡ some (done (c, f, m))
unfolding process_actions
loop_stop fuel stale c f m h =
    let none_left : (Fifo.get_size f == 0) ≡ true =
      ground (arith, get_size_lem h.0, ap length h.1, length-contents f) in
    rw (none_left, process_actions) refl

-- The part after the loop.
frame_end : Option (Outcome (Bool × Fifo × Modem)) → Option (Outcome (Fifo × Modem))
frame_end none = none
frame_end (some r) = some (r >>= λ (c, f', m'). complete c m' >>= λ m''. done (f', m''))

pub frame_lem :
    (stale : ℕ → Bytes) (f : Fifo) (m : Modem) (xs : List ℕ) (r : Outcome (Bool × Fifo × Modem))
    → Holds f xs
    → process_actions (suc (length xs)) stale false f m ≡ some r
    → process_serial_frame stale f m
      ≡ some (r >>= λ (c, f', m'). complete c m' >>= λ m''. done (f', m''))
unfolding process_serial_frame frame_end
frame_lem stale f m xs r h e =
    let n : Fifo.get_size f ≡ length xs =
      get_size_lem h.0 ∙ sym (length-contents f) ∙ ap length h.1 in
    ap (λ k. frame_end (process_actions (suc k) stale false f m)) n ∙ ap frame_end e

pub complete_synchronous :
    (m : Modem)
    → m.command.execute_synchronuous ≡ true
    → complete true m
      ≡ done (record m { locked = false; command = record m.command { is_active = false } })
unfolding complete notify
complete_synchronous m e = rw e refl

pub memcpy_copied : (dst src : Bytes) (len i : ℕ) → i < len → memcpy dst 0 src len i ≡ src i
memcpy_copied dst src len i h = ground arith

pub memcpy_kept : (dst src : Bytes) (len i : ℕ) → len ≤ i → memcpy dst 0 src len i ≡ dst i
memcpy_kept dst src len i h = ground arith

-- The command with the result of its tag response.
abbrev pub answered : Modem → Bool → Modem
answered m error = record m { command = record m.command { completed_with_error = error } }

pub tag_handled :
    (m : Modem) (c error completed : Bool) (tag_id : ℕ)
    → m.command.tag_id ≡ tag_id
    → handle_action
        (return_tag (record { completed = completed; error = error; tag_id = tag_id }))
        c
        m
      ≡ done (completed, answered m error)
unfolding handle_action handle_tag
tag_handled m c error completed tag_id e =
    let same : (tag_id == m.command.tag_id) ≡ true = ground (arith, e) in rw same refl

pub tag_unexpected :
    (m : Modem) (c error completed : Bool) (tag_id : ℕ)
    → m.command.tag_id ≢ tag_id
    → handle_action
        (return_tag (record { completed = completed; error = error; tag_id = tag_id }))
        c
        m
      ≡ done (c, m)
unfolding handle_action handle_tag
tag_unexpected m c error completed tag_id e =
    let other : (tag_id == m.command.tag_id) ≡ false = ground (arith, e) in rw other refl
