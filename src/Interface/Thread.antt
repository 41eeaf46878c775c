-- ===== src/Interface/Thread.antt =====
-- The receiving thread and the UART interrupt, as steps. `rx_mutex` is locked or not: `mutex_lock` waits
-- until it is not, and `mutex_unlock` of an unlocked mutex does nothing. An interrupt comes between
-- two runs of `process_rx_fifo`, not within one.
use riot_oss7_modem.Common.{
  ℕ, ◌≤◌, ◌≡◌, ◌≢◌, ◌⊎◌, refl, sym, ap, ◌∙◌, true, false, not, ◌||◌, List, ◌∷◌, length, tabulate,
  take, drop, ltb, ◌==◌, Outcome, done, arith,
}
use mathlib.Core.Bool.{false≢true}
use riot_oss7_modem.Common.Memory.{Bytes}
use riot_oss7_modem.Fifo
use riot_oss7_modem.Fifo.{Fifo}
use riot_oss7_modem.Fifo.Valid.{IsValid, size, contents, length-contents, get_size_lem}
use riot_oss7_modem.Fifo.Take.{peek_lem, skip_lem}
use riot_oss7_modem.Interface.{Interface}
use riot_oss7_modem.Interface.Deliver.{process_header}
use riot_oss7_modem.Interface.Receive.{
  Next, returns, locks, resync, examine_header, parse_header, process_rx_fifo, uart_rx_cb,
}

-- Where the thread waits for the mutex: in the loop of `rx_thread`, or in `process_rx_fifo`.
pub data Place : Type 0 where
  at_loop at_resync : Place

unfoldable pub place : Next → Place
place returns = at_loop
place locks = at_resync

module _ {W : Type 0} (call : ℕ → Fifo → Interface × W → Outcome (Fifo × Interface × W)) where
  pub data Step : Place × Interface × W → Place × Interface × W → Type 0 where
    -- A byte arrives.
    receive :
        (p : Place) (i i' : Interface) (w : W) (byte : ℕ)
        → uart_rx_cb i byte ≡ done i'
        → Step (p, i, w) (p, i', w)
    -- `mutex_lock` in the loop, and a run of `process_rx_fifo`.
    run :
        (i i' : Interface) (w w' : W) (next : Next)
        → i.locked ≡ false
        → process_rx_fifo call (record i { locked = true }, w) ≡ done (next, i', w')
        → Step (at_loop, i, w) (place next, i', w')
    -- The `mutex_lock` in `process_rx_fifo` comes through.
    resume :
        (i : Interface) (w : W)
        → i.locked ≡ false
        → Step (at_resync, i, w) (at_loop, record i { locked = true }, w)

  -- While the mutex is locked, nothing but a byte from the UART lets the program go on.
  pub locked_waits :
      {s t : Place × Interface × W}
      → Step s t
      → s.1.locked ≡ true
      → (byte : ℕ) × (uart_rx_cb s.1 byte ≡ done t.1) × (t.0 ≡ s.0)
  locked_waits (receive p i i' w byte e) l = (byte, e, refl)
  locked_waits (run i i' w w' next u e) l = absurd (false≢true (sym u ∙ l))
  locked_waits (resume i w u) l = absurd (false≢true (sym u ∙ l))

first_two :
    (h : Bytes) (x y : ℕ) (rest : List ℕ)
    → tabulate 7 h ≡ take 7 (x ∷ y ∷ rest)
    → (h 0 ≡ x) × (h 1 ≡ y)
first_two h x y rest e = (cc, cc)

-- A run on a fifo whose first two bytes do not start a frame.
noise_run :
    (i : Interface) (x y : ℕ) (rest : List ℕ)
    → IsValid i.rx_fifo
    → contents i.rx_fifo ≡ x ∷ y ∷ rest
    → ((x ≢ 0xc0) ⊎ (y ≢ 0))
    → 7 ≤ length rest
    → (parse_header i ≡ (locks, (parse_header i).1))
      × (contents (parse_header i).1.rx_fifo ≡ y ∷ rest)
      × ((parse_header i).1.locked ≡ i.locked)
unfolding parse_header examine_header resync
noise_run i x y rest v held noise enough =
    let fits : 9 ≤ size i.rx_fifo =
      omega (arith, ap length held, length-contents i.rx_fifo, enough) in
    let (_, copied, _) = peek_lem i.header 0 7 v (omega (arith, fits)) in
    let p = first_two (Fifo.peek i.rx_fifo i.header 0 7).1 x y rest (copied ∙ ap (take 7) held) in
    let (_, left, v', n) = skip_lem v 1 (omega (arith, fits)) in
    let more : ltb 7 (Fifo.get_size i.rx_fifo) ≡ true = ground (arith, fits, get_size_lem v) in
    let no_start : (not (x == 0xc0) || not (y == 0)) ≡ true = ground (arith, noise) in
    let still : ltb 7 (Fifo.get_size (Fifo.skip i.rx_fifo 1).1) ≡ true =
      ground (arith, fits, n, get_size_lem v') in
    (
      rw (more, p.0, p.1, no_start, still) refl,
      rw (more, p.0, p.1, no_start) (left ∙ ap (drop 1) held),
      rw (more, p.0, p.1, no_start) refl,
    )

-- Once the thread has run on a byte of noise with eight bytes or more behind it, it waits for its own
-- mutex: the bytes stay in the fifo, and however complete a frame they are, the program only goes on
-- when another byte arrives.
pub noise_blocks :
    {W : Type 0} (call : ℕ → Fifo → Interface × W → Outcome (Fifo × Interface × W)) (i : Interface)
    (w : W) (x y : ℕ) (rest : List ℕ)
    → IsValid i.rx_fifo
    → i.locked ≡ false
    → i.parsed_header ≡ false
    → contents i.rx_fifo ≡ x ∷ y ∷ rest
    → ((x ≢ 0xc0) ⊎ (y ≢ 0))
    → 7 ≤ length rest
    → (j : Interface) × Step call (at_loop, i, w) (at_resync, j, w)
      × (contents j.rx_fifo ≡ y ∷ rest)
      × ((t : Place × Interface × W)
          → Step call (at_resync, j, w) t
          → (byte : ℕ) × (uart_rx_cb j byte ≡ done t.1) × (t.0 ≡ at_resync))
unfolding place
noise_blocks call i w x y rest v unlocked idle held noise enough =
    let i' : Interface = record i { locked = true } in
    let (ran, left, l) = noise_run i' x y rest v held noise enough in
    let j = (parse_header i').1 in
    (
      j,
      run i j w w locks unlocked (process_header call i' w idle ∙ ap (λ r. done (r.0, r.1, w)) ran),
      left,
      λ t step. locked_waits call step l,
    )
