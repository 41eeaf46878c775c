-- ===== src/Modem/Answered/Frame.antt =====
-- What `process_serial_frame` does to the mutex that a caller waits for, as a whole.
use riot_oss7_modem.Common.{
  ℕ, suc, ◌≡◌, ◌⊎◌, inl, inr, refl, ◌∙◌, Bool, true, false, Option, none, some, Outcome, done,
  fault, ◌>>=◌,
}
use mathlib.Core.Bool.{false≢true}
use riot_oss7_modem.Common.Memory.{Bytes}
use riot_oss7_modem.Fifo
use riot_oss7_modem.Fifo.{Fifo}
use riot_oss7_modem.Modem.{Modem}
use riot_oss7_modem.Modem.Serial.{process_actions, notify, complete, process_serial_frame}
use riot_oss7_modem.Modem.Answered.{
  IsKept, IsKept-trans, same, Keeps, Meets, AfterLoop, log_event-IsKept, with_callbacks-Keeps,
  either, process_actions-AfterLoop,
}

-- What the part after the loop may do.
abbrev Completed : Bool → Modem → Outcome Modem → Type 0
Completed c m (fault e) = Unit {0}
Completed c m (done m') =
    (m'.command.tag_id ≡ m.command.tag_id)
    × (m'.interface ≡ m.interface)
    × (IsKept m m' ⊎ ((c ≡ true) × (m'.command.is_active ≡ false)))

abbrev KeepsTag : Modem → Outcome Modem → Type 0
KeepsTag m (fault e) = Unit {0}
KeepsTag m (done m') = (m'.command.tag_id ≡ m.command.tag_id) × (m'.interface ≡ m.interface)

Keeps-tag : (m : Modem) (r : Outcome Modem) → Keeps m r → KeepsTag m r
Keeps-tag m (fault e) kept = tt
Keeps-tag m (done m') kept = (kept.tag_id, kept.interface)

notify-KeepsTag : (m : Modem) → KeepsTag m (notify m)
unfolding notify
notify-KeepsTag m =
    either (KeepsTag m) m.command.execute_synchronuous _ _ (refl, refl)
      (Keeps-tag m _
        (with_callbacks-Keeps m _ (λ c. log_event-IsKept m c.command_completed_callback _)))

abbrev freed : Modem → Modem
freed m = record m { command = record m.command { is_active = false } }

freed-Completed :
    (m : Modem) (r : Outcome Modem) → KeepsTag m r → Completed true m (r >>= λ m'. done (freed m'))
freed-Completed m (fault e) kept = tt
freed-Completed m (done m') kept = (kept.0, kept.1, inr (refl, refl))

complete-Completed : (c : Bool) (m : Modem) → Completed c m (complete c m)
unfolding complete
complete-Completed false m = (refl, refl, inl (same m))
complete-Completed true m = freed-Completed m (notify m) (notify-KeepsTag m)

-- What a frame may do.
abbrev AfterFrame : (ℕ → Bytes) → Fifo → Modem → Option (Outcome (Fifo × Modem)) → Type 0
AfterFrame stale f m none = Unit {0}
AfterFrame stale f m (some (fault e)) = Unit {0}
AfterFrame stale f m (some (done (g, m'))) =
    (m'.command.tag_id ≡ m.command.tag_id)
    × (m'.interface ≡ m.interface)
    × (IsKept m m' ⊎ (Meets stale (suc (Fifo.get_size f)) f m × (m'.command.is_active ≡ false)))

module _ (stale : ℕ → Bytes) (f : Fifo) (m : Modem) where
  end-AfterFrame :
      (c : Bool) (g : Fifo) (m' : Modem) (r : Outcome Modem)
      → AfterLoop stale (suc (Fifo.get_size f)) false f m (some (done (c, g, m')))
      → Completed c m' r
      → AfterFrame stale f m (some (r >>= λ m''. done (g, m'')))
  end-AfterFrame c g m' (fault e) loop end = tt
  end-AfterFrame c g m' (done m'') (kept, why) (tag, interface, how) = (
    tag ∙ kept.tag_id,
    interface ∙ kept.interface,
    elim how [
      | inl unchanged ↦ inl (IsKept-trans kept unchanged)
      | inr (e, inactive) ↦ elim (why e) [
        | inl started ↦ absurd (false≢true started)
        | inr meets ↦ inr (meets, inactive)
      ]
    ],
  )

  loop-AfterFrame :
      (r : Option (Outcome (Bool × Fifo × Modem)))
      → AfterLoop stale (suc (Fifo.get_size f)) false f m r
      → AfterFrame stale f m (elim r [
        | none ↦ none
        | some ran ↦ some (ran >>= λ (c, g, m'). complete c m' >>= λ m''. done (g, m''))
      ])
  loop-AfterFrame none loop = tt
  loop-AfterFrame (some (fault e)) loop = tt
  loop-AfterFrame (some (done (c, g, m'))) loop =
      end-AfterFrame c g m' (complete c m') loop (complete-Completed c m')

  process_serial_frame-AfterFrame : AfterFrame stale f m (process_serial_frame stale f m)
  unfolding process_serial_frame
  process_serial_frame-AfterFrame =
      loop-AfterFrame (process_actions (suc (Fifo.get_size f)) stale false f m)
        (process_actions-AfterLoop (suc (Fifo.get_size f)) stale false f m)

  -- A frame keeps the tag of the command and the interface, and either leaves the mutex and the command as they were, or
  -- one of its rounds meets a tag response that completes the command, and the modem is free.
  pub frame_effect :
      (g : Fifo) (m' : Modem)
      → process_serial_frame stale f m ≡ some (done (g, m'))
      → (m'.command.tag_id ≡ m.command.tag_id)
        × (m'.interface ≡ m.interface)
        × (IsKept m m' ⊎ (Meets stale (suc (Fifo.get_size f)) f m × (m'.command.is_active ≡ false)))
  frame_effect g m' e = rw e at process_serial_frame-AfterFrame
