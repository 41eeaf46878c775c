-- ===== src/Modem/Answered.antt =====
-- The rounds of the loop of `process_serial_frame`, seen from a caller who waits: what they do to the
-- mutex, to the tag of the command, and to the local `command_completed`.
pub mod Frame
use riot_oss7_modem.Common.{
  ℕ, leb, zero, suc, ◌≡◌, ◌⊎◌, inl, inr, refl, ◌∙◌, Bool, true, false, Bool-cases, ◌==◌, Option,
  none, some, Outcome, done, fault, null_pointer, if◌then◌else◌, ◌>>=◌, arith,
}
use mathlib.Core.Bool.{false≢true}
use riot_oss7_modem.Common.Memory.{Bytes}
use riot_oss7_modem.Fifo
use riot_oss7_modem.Fifo.{Fifo}
use riot_oss7_modem.Alp.{
  Action, FileData, write_file_data, return_file_data, return_status, return_tag,
}
use riot_oss7_modem.Alp.Parse.{parse_action}
use riot_oss7_modem.Modem.{Modem, Callbacks, Event}
use riot_oss7_modem.Modem.Serial.{
  with_callbacks, log_event, handle_tag, handle_return, handle_action, process_action,
  process_actions, notify, complete, process_serial_frame,
}

-- A tag response with the tag of the command, which says that it is completed.
abbrev pub Completes : Action → Modem → Type 0
Completes (return_tag r) m = (r.completed ≡ true) × (r.tag_id ≡ m.command.tag_id)
Completes (write_file_data operand) m = ⊥
Completes (return_file_data operand) m = ⊥
Completes (return_status status) m = ⊥

-- The mutex, the tag of the command, that it is active, and the interface stay.
pub record IsKept (m m' : Modem) : Type 0 where
  pub locked : m'.locked ≡ m.locked
  pub tag_id : m'.command.tag_id ≡ m.command.tag_id
  pub active : m'.command.is_active ≡ m.command.is_active
  pub interface : m'.interface ≡ m.interface

pub same : (m : Modem) → IsKept m m
same m = record { locked = refl; tag_id = refl; active = refl; interface = refl }

abbrev pub Keeps : Modem → Outcome Modem → Type 0
Keeps m (fault e) = Unit {0}
Keeps m (done m') = IsKept m m'

pub log_event-IsKept :
    (m : Modem) (o : Option ℕ) (event : ℕ → Event) → IsKept m (log_event m o event)
unfolding log_event
log_event-IsKept m none event = record {
  locked = refl;
  tag_id = refl;
  active = refl;
  interface = refl;
}
log_event-IsKept m (some callback) event = record {
  locked = refl;
  tag_id = refl;
  active = refl;
  interface = refl;
}

pub with_callbacks-Keeps :
    (m : Modem) (k : Callbacks → Modem)
    → ((c : Callbacks) → IsKept m (k c))
    → Keeps m (with_callbacks m k)
unfolding with_callbacks
with_callbacks-Keeps m k kept = every m.callbacks
  where
    every :
        (o : Option Callbacks)
        → Keeps m (elim o [ none ↦ fault null_pointer | some c ↦ done (k c) ])
    every none = tt
    every (some c) = kept c

pub either :
    (P : Outcome Modem → Type 0) (b : Bool) (p q : Outcome Modem)
    → P p
    → P q
    → P (if b then p else q)
either P true p q a b = a
either P false p q a b = b

handle_return-Keeps : (operand : FileData) (m : Modem) → Keeps m (handle_return operand m)
unfolding handle_return
handle_return-Keeps operand m =
    either (Keeps m) m.command.execute_synchronuous _ _
      (either (Keeps m) (leb operand.provided_data_length m.command.response_size) _ _
        (record { locked = refl; tag_id = refl; active = refl; interface = refl }) tt)
      (with_callbacks-Keeps m _ (λ c. log_event-IsKept m c.return_file_data_callback _))

-- What a round with the given action may do.
abbrev Handled : Action → Bool → Modem → Outcome (Bool × Modem) → Type 0
Handled action c m (fault e) = Unit {0}
Handled action c m (done (c', m')) = IsKept m m' × (c' ≡ true → (c ≡ true) ⊎ Completes action m)

not_completing :
    (action : Action) (c : Bool) (m : Modem) (r : Outcome Modem)
    → Keeps m r
    → Handled action c m (r >>= λ m'. done (c, m'))
not_completing action c m (fault e) kept = tt
not_completing action c m (done m') kept = (kept, λ e. inl e)

handle_action-Handled :
    (action : Action) (c : Bool) (m : Modem) → Handled action c m (handle_action action c m)
unfolding handle_action handle_tag
handle_action-Handled (return_tag r) c m = elim (Bool-cases (r.tag_id == m.command.tag_id)) [
  | inl e ↦ rw e (
    record { locked = refl; tag_id = refl; active = refl; interface = refl },
    λ e'. inr (e', ground (arith, e)),
  )
  | inr e ↦
      rw e (record { locked = refl; tag_id = refl; active = refl; interface = refl }, λ e. inl e)
]
handle_action-Handled (write_file_data operand) c m =
    not_completing (write_file_data operand) c m _ (
      with_callbacks-Keeps m _
        (λ callbacks. log_event-IsKept m callbacks.write_file_data_callback _))
handle_action-Handled (return_file_data operand) c m =
    not_completing (return_file_data operand) c m _ (handle_return-Keeps operand m)
handle_action-Handled (return_status s) c m =
    (record { locked = refl; tag_id = refl; active = refl; interface = refl }, λ e. inl e)

-- What a round of the loop may do.
abbrev AfterRound : Bytes → Bool → Fifo → Modem → Outcome (Bool × Fifo × Modem) → Type 0
AfterRound stale c f m (fault e) = Unit {0}
AfterRound stale c f m (done (c', g, m')) =
    IsKept m m'
    × (c' ≡ true
        → (c ≡ true)
          ⊎ ((action : Action) × (h : Fifo) × (parse_action f stale ≡ done (action, h))
              × Completes action m))

process_action-AfterRound :
    (stale : Bytes) (c : Bool) (f : Fifo) (m : Modem)
    → AfterRound stale c f m (process_action stale c f m)
unfolding process_action
process_action-AfterRound stale c f m = parsed (parse_action f stale) refl
  where
    handled :
        (action : Action) (g : Fifo) (r : Outcome (Bool × Modem))
        → parse_action f stale ≡ done (action, g)
        → Handled action c m r
        → AfterRound stale c f m (r >>= λ (c', m'). done (c', g, m'))
    handled action g (fault e) p h = tt
    handled action g (done (c', m')) p (kept, why) =
        (kept, λ e. elim (why e) [ inl earlier ↦ inl earlier | inr now ↦ inr (action, g, p, now) ])

    parsed :
        (r : Outcome (Action × Fifo))
        → parse_action f stale ≡ r
        → AfterRound stale c f m
            (r >>= λ (action, g). handle_action action c m >>= λ (c', m'). done (c', g, m'))
    parsed (fault e) p = tt
    parsed (done (action, g)) p =
        handled action g (handle_action action c m) p (handle_action-Handled action c m)

-- In one of at most so many rounds on this fifo, the loop parses a tag response that completes the command.
pub data Meets (stale : ℕ → Bytes) : ℕ → Fifo → Modem → Type 0 where
  here :
      (fuel : ℕ) (f g : Fifo) (m : Modem) (action : Action)
      → parse_action f (stale fuel) ≡ done (action, g)
      → Completes action m
      → Meets stale (suc fuel) f m
  later :
      (fuel : ℕ) (c c' : Bool) (f g : Fifo) (m m' : Modem)
      → process_action (stale fuel) c f m ≡ done (c', g, m')
      → Meets stale fuel g m'
      → Meets stale (suc fuel) f m

-- What the loop may do.
abbrev pub AfterLoop :
    (ℕ → Bytes) → ℕ → Bool → Fifo → Modem → Option (Outcome (Bool × Fifo × Modem)) → Type 0
AfterLoop stale fuel c f m none = Unit {0}
AfterLoop stale fuel c f m (some (fault e)) = Unit {0}
AfterLoop stale fuel c f m (some (done (c', g, m'))) =
    IsKept m m' × (c' ≡ true → (c ≡ true) ⊎ Meets stale fuel f m)

pub IsKept-trans : {k m n : Modem} → IsKept k m → IsKept m n → IsKept k n
IsKept-trans a b = record {
  locked = b.locked ∙ a.locked;
  tag_id = b.tag_id ∙ a.tag_id;
  active = b.active ∙ a.active;
  interface = b.interface ∙ a.interface;
}

after_round :
    (stale : ℕ → Bytes) (fuel : ℕ) (c c' : Bool) (f g : Fifo) (m m' : Modem)
    (r : Option (Outcome (Bool × Fifo × Modem)))
    → process_action (stale fuel) c f m ≡ done (c', g, m')
    → AfterRound (stale fuel) c f m (done (c', g, m'))
    → AfterLoop stale fuel c' g m' r
    → AfterLoop stale (suc fuel) c f m r
after_round stale fuel c c' f g m m' none ran round rest = tt
after_round stale fuel c c' f g m m' (some (fault e)) ran round rest = tt
after_round stale fuel c c' f g m m' (some (done (c'', h, m''))) ran (kept, why) (kept', why') = (
  IsKept-trans kept kept',
  λ e. elim (why' e) [
    | inr meets ↦ inr (later fuel c c' f g m m' ran meets)
    | inl completed ↦ elim (why completed) [
      | inl earlier ↦ inl earlier
      | inr (action, k, p, now) ↦ inr (here fuel f k m action p now)
    ]
  ],
)

pub process_actions-AfterLoop :
    (fuel : ℕ) (stale : ℕ → Bytes) (c : Bool) (f : Fifo) (m : Modem)
    → AfterLoop stale fuel c f m (process_actions fuel stale c f m)
unfolding process_actions
process_actions-AfterLoop zero stale c f m = tt
process_actions-AfterLoop (suc fuel) stale c f m =
    turn (λ c' g m'. process_actions-AfterLoop fuel stale c' g m') (Fifo.get_size f == 0)
  where
    went :
        ((c' : Bool) (g : Fifo) (m' : Modem)
          → AfterLoop stale fuel c' g m' (process_actions fuel stale c' g m'))
        → (r : Outcome (Bool × Fifo × Modem)) → process_action (stale fuel) c f m ≡ r
        → AfterRound (stale fuel) c f m r
        → AfterLoop stale (suc fuel) c f m (elim r [
          | fault e ↦ some (fault e)
          | done (c', f', m') ↦ process_actions fuel stale c' f' m'
        ])
    went rest (fault e) ran round = tt
    went rest (done (c', g, m')) ran round =
        after_round stale fuel c c' f g m m' (process_actions fuel stale c' g m') ran round
          (rest c' g m')

    turn :
        ((c' : Bool) (g : Fifo) (m' : Modem)
          → AfterLoop stale fuel c' g m' (process_actions fuel stale c' g m'))
        → (b : Bool)
        → AfterLoop stale (suc fuel) c f m (elim b [
          | true ↦ some (done (c, f, m))
          | false ↦ elim (process_action (stale fuel) c f m) [
            | fault e ↦ some (fault e)
            | done (c', f', m') ↦ process_actions fuel stale c' f' m'
          ]
        ])
    turn rest true =
        (record { locked = refl; tag_id = refl; active = refl; interface = refl }, λ e. inl e)
    turn rest false =
        went rest (process_action (stale fuel) c f m) refl
          (process_action-AfterRound (stale fuel) c f m)
