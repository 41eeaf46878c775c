-- ===== src/Modem/Ending.antt =====
-- The loop of `process_serial_frame` ends.
use riot_oss7_modem.Common.{
  ℕ, zero, suc, ◌<◌, ◌≡◌, inl, inr, refl, Bool, false, Bool-cases, ◌==◌, some, Outcome, done, fault,
  ◌>>=◌, arith,
}
use riot_oss7_modem.Common.Memory.{Bytes}
use riot_oss7_modem.Fifo
use riot_oss7_modem.Fifo.{Fifo}
use riot_oss7_modem.Fifo.Valid.{IsValid, size, get_size_lem}
use riot_oss7_modem.Alp.{Action}
use riot_oss7_modem.Alp.Parse.{parse_action}
use riot_oss7_modem.Alp.Shrinks.{TookSome, parse_action-TookSome}
use riot_oss7_modem.Modem.{Modem}
use riot_oss7_modem.Modem.Serial.{
  handle_action, process_action, process_actions, complete, process_serial_frame,
}

-- One round takes at least one byte.
abbrev Smaller : Fifo → Outcome (Bool × Fifo × Modem) → Type 0
Smaller f (done (c, g, m)) = IsValid g × (size g < size f)
Smaller f (fault e) = Unit

handled-Smaller :
    (f g : Fifo) (h : Outcome (Bool × Modem))
    → IsValid g × (size g < size f)
    → Smaller f (h >>= λ (c, m'). done (c, g, m'))
handled-Smaller f g (done r) t = t
handled-Smaller f g (fault e) t = tt

parsed-Smaller :
    (f : Fifo) (r : Outcome (Action × Fifo)) (c : Bool) (m : Modem)
    → TookSome f r
    → Smaller f (r >>= λ (action, g). handle_action action c m >>= λ (c', m'). done (c', g, m'))
parsed-Smaller f (done (action, g)) c m t = handled-Smaller f g (handle_action action c m) t
parsed-Smaller f (fault e) c m t = tt

process_action-Smaller :
    (stale : Bytes) (c : Bool) (f : Fifo) (m : Modem)
    → IsValid f
    → Smaller f (process_action stale c f m)
unfolding process_action
process_action-Smaller stale c f m v =
    parsed-Smaller f (parse_action f stale) c m (parse_action-TookSome stale v)

-- The rest of the loop, after a round.
after_round :
    (fuel : ℕ) (stale : ℕ → Bytes) (f : Fifo) (round : Outcome (Bool × Fifo × Modem))
    → Smaller f round
    → ((c : Bool) (g : Fifo) (m : Modem)
        → IsValid g
        → size g < size f
        → (r : Outcome (Bool × Fifo × Modem)) × (process_actions fuel stale c g m ≡ some r))
    → (r : Outcome (Bool × Fifo × Modem)) × (elim round [
      | fault e ↦ some (fault e)
      | done (c', f', m') ↦ process_actions fuel stale c' f' m'
    ]
        ≡ some r)
after_round fuel stale f (done (c, g, m)) t loop = loop c g m t.0 t.1
after_round fuel stale f (fault e) t loop = (fault e, refl)

process_actions_end :
    (fuel : ℕ) (stale : ℕ → Bytes) (c : Bool) (f : Fifo) (m : Modem)
    → IsValid f
    → size f < fuel
    → (r : Outcome (Bool × Fifo × Modem)) × (process_actions fuel stale c f m ≡ some r)
unfolding process_actions
process_actions_end zero stale c f m v h = absurd (omega (arith, h))
process_actions_end (suc fuel) stale c f m v h = elim (Bool-cases (Fifo.get_size f == 0)) [
  | inl e ↦ (done (c, f, m), rw (e, process_actions) refl)
  | inr e ↦
      let (r, ran) =
        after_round fuel stale f (process_action (stale fuel) c f m)
          (process_action-Smaller (stale fuel) c f m v)
          (λ c' g m' v' less. process_actions_end fuel stale c' g m' v' (omega (arith, less, h))) in
      (r, rw (e, process_actions) ran)
]

-- `process_serial_frame` ends on every frame: each round of its loop takes at least one byte.
pub process_serial_frame_ends :
    (stale : ℕ → Bytes) (f : Fifo) (m : Modem)
    → IsValid f
    → (r : Outcome (Fifo × Modem)) × (process_serial_frame stale f m ≡ some r)
unfolding process_serial_frame
process_serial_frame_ends stale f m v =
    let (r, ran) =
      process_actions_end (suc (Fifo.get_size f)) stale false f m v
        (omega (arith, get_size_lem v)) in
    (
      r >>= (λ (c, f', m'). complete c m' >>= λ m''. done (f', m'')),
      rw (ran, process_serial_frame) refl,
    )
