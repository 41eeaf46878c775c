-- ===== src/Apps/Shell/Unregistered.antt =====
-- The test program never registers its callbacks.
use riot_oss7_modem.Common.{
  ℕ, ◌^◌, ◌<◌, ◌≡◌, refl, ◌∙◌, Bool, true, false, List, [], ◌∷◌, ◌++◌, tabulate, none, some,
  Outcome, done, fault, null_pointer, arith,
}
use riot_oss7_modem.Common.Memory.{Bytes}
use riot_oss7_modem.Fifo
use riot_oss7_modem.Fifo.{Fifo}
use riot_oss7_modem.Fifo.View.{init_filled_lem}
use riot_oss7_modem.Alp.Encoding.{control, encode_file_data}
use riot_oss7_modem.Alp.Front.{Holds}
use riot_oss7_modem.Interface
use riot_oss7_modem.Interface.Send.{IsFlushed}
use riot_oss7_modem.Modem
use riot_oss7_modem.Modem.{Modem, lock_first, after_wait, block_until_cmd_completed}
use riot_oss7_modem.Modem.Serial.{process_serial_frame}
use riot_oss7_modem.Modem.Blocking.{read_file_sends}
use riot_oss7_modem.Apps.{Line, welcome, modem_uid, uid_after, read_uid}
use riot_oss7_modem.Apps.Shell.{boot}
use riot_oss7_modem.Apps.Unsolicited.{write_stops}

init_lem :
    (m : Modem)
    → IsFlushed (Modem.init m).interface.tx_fifo
      × ((Modem.init m).command.is_active ≡ m.command.is_active)
      × ((Modem.init m).next_tag_id ≡ m.next_tag_id)
      × ((Modem.init m).callbacks ≡ m.callbacks)
unfolding Modem.init Interface.register_handler Interface.init Fifo.init Fifo.init_filled
init_lem m =
    let (w, held, n) =
      init_filled_lem m.interface.tx_fifo.buffer 0 255 (omega arith) (omega arith) (omega arith) in
    (record { writable = w; empty = refl; capacity = refl }, refl, refl, refl)

-- The wait for the UID ends, by a reply or by the timeout, and no callback is registered in it.
abbrev pub WaitEnds : (Modem → Outcome (Bool × Modem)) → Type 0
WaitEnds wait =
    (m : Modem)
    → (timeout : Bool) × (m' : Modem) × (wait m ≡ done (timeout, m')) × (m'.callbacks ≡ m.callbacks)

callbacks-after_wait :
    (timeout : Bool) (m : Modem) → (after_wait timeout m).1.callbacks ≡ m.callbacks
unfolding after_wait
callbacks-after_wait true m = refl
callbacks-after_wait false m = refl

-- The test program, from a memory without registered callbacks and with no command active, comes to its
-- shell, whether the UID is answered or not; and the first frame after that with which the modem writes
-- file data on its own stops the program with the use of a NULL pointer.
pub shell_stops :
    (wait : Modem → Outcome (Bool × Modem)) (m : Modem) (uid : Bytes) (stale : ℕ → Bytes) (f : Fifo)
    (b6 b7 : Bool) (file_id offset n : ℕ) (bytes : Bytes)
    → WaitEnds wait
    → m.callbacks ≡ none
    → m.command.is_active ≡ false
    → m.next_tag_id < 2 ^ 8
    → offset < 2 ^ 30
    → n < 256
    → Holds f (control 4 b6 b7 ∷ encode_file_data file_id offset n bytes ++ [])
    → (lines : List Line) × (m' : Modem) × (boot wait m uid ≡ done (lines, m'))
      × (process_serial_frame stale f m' ≡ some (fault null_pointer))
unfolding boot read_uid block_until_cmd_completed lock_first
shell_stops wait m uid stale f b6 b7 file_id offset n bytes ends unregistered free octet k l h =
    let (flushed, active, tag, kept) = init_lem m in
    let i = Modem.init m in
    let (g, ran, s, _, _, _) =
      read_file_sends wait i (active ∙ free) flushed 0 0 8 (omega arith) uid 8 (omega arith)
        (
          omega arith,
          (
            omega (arith, tag, octet),
            (omega arith, (omega arith, (omega arith, (omega arith, tt)))),
          ),
        )
        (omega arith) in
    let (timeout, g', ran', same) = ends (lock_first g) in
    let r = after_wait timeout g' in
    (
      welcome ∷ modem_uid (tabulate 8 (uid_after r.0 uid r.1)) ∷ [],
      r.1,
      rw (ran, ran') refl,
      write_stops stale f r.1 b6 b7 file_id offset n bytes k l h
          (callbacks-after_wait timeout g' ∙ same ∙ s.callbacks_kept ∙ kept ∙ unregistered),
    )
