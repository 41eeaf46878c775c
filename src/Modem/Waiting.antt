-- ===== src/Modem/Waiting.antt =====
-- A synchronous command and the thread that receives: who comes first at `cmd_mutex`.
use riot_oss7_modem.Common.{ℕ, ◌≡◌, ◌⊎◌, inl, inr, refl, sym, ◌∙◌, Bool, true, false, some, done}
use mathlib.Core.Bool.{false≢true}
use riot_oss7_modem.Common.Memory.{Bytes}
use riot_oss7_modem.Fifo.{Fifo}
use riot_oss7_modem.Modem.{Modem, Status, command_timeout, lock_first, after_wait}
use riot_oss7_modem.Modem.Serial.{process_serial_frame}

-- Where the caller of a synchronous command is: it has sent the command, it waits in
-- `xtimer_mutex_lock_timeout`, or it is back.
pub data Phase : Type 0 where
  sent waiting : Phase
  returned : Status → Phase

pub data Step : Phase × Modem → Phase × Modem → Type 0 where
  -- The receiving thread handles a frame.
  frame :
      (p : Phase) (m m' : Modem) (stale : ℕ → Bytes) (f g : Fifo)
      → process_serial_frame stale f m ≡ some (done (g, m'))
      → Step (p, m) (p, m')
  -- The first `mutex_lock`.
  lock : (m : Modem) → m.locked ≡ false → Step (sent, m) (waiting, lock_first m)
  -- The second one gets the mutex, or the time is over.
  acquire :
      (m : Modem)
      → m.locked ≡ false
      → Step
          (waiting, m)
          (returned (after_wait false (lock_first m)).0, (after_wait false (lock_first m)).1)
  expire : (m : Modem) → Step (waiting, m) (returned (after_wait true m).0, (after_wait true m).1)

-- While the mutex is locked the caller goes on waiting, or times out.
locked_out :
    {s t : Phase × Modem}
    → Step s t
    → s.0 ≡ waiting
    → s.1.locked ≡ true
    → (t.0 ≡ waiting) ⊎ (t.0 ≡ returned command_timeout)
unfolding after_wait
locked_out (frame p m m' stale f g e) w l = inl w
locked_out (lock m u) w l = absurd (false≢true (sym u ∙ l))
locked_out (acquire m u) w l = absurd (false≢true (sym u ∙ l))
locked_out (expire m) w l = inr refl

-- A reply that is handled before the caller gets to its first `mutex_lock` leaves the mutex
-- unlocked as it was. The caller then locks it, and from there can only see further frames or the
-- timeout, though the command is completed.
pub lost_wakeup :
    (stale : ℕ → Bytes) (f g : Fifo) (m m' : Modem)
    → process_serial_frame stale f m ≡ some (done (g, m'))
    → m'.locked ≡ false
    → m'.command.is_active ≡ false
    → Step (sent, m) (sent, m')
      × Step (sent, m') (waiting, lock_first m')
      × ((lock_first m').command.is_active ≡ false)
      × ((t : Phase × Modem)
          → Step (waiting, lock_first m') t
          → (t.0 ≡ waiting) ⊎ (t.0 ≡ returned command_timeout))
unfolding lock_first
lost_wakeup stale f g m m' ran unlocked inactive =
    (frame sent m m' stale f g ran, lock m' unlocked, inactive, λ t step. locked_out step refl refl)
