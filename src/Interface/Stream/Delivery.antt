-- ===== src/Interface/Stream/Delivery.antt =====
-- Frames on the serial line, from an empty receiver, under every interleaving of the interrupt and the
-- thread.
use riot_oss7_modem.Common.{
  ℕ, zero, suc, ◌<◌, ◌≡◌, refl, sym, ap, ◌∙◌, true, false, Bool-cases, inl, inr, List, [], ◌∷◌,
  ◌++◌, append-nil, length, length-tabulate, length-append, Outcome, arith,
}
use riot_oss7_modem.Fifo.{Fifo}
use riot_oss7_modem.Fifo.Valid.{size, contents, length-contents}
use riot_oss7_modem.Fifo.Put.{IsWritable}
use riot_oss7_modem.Interface.{Interface}
use riot_oss7_modem.Interface.Frame.{encode_frame, encode_header}
use riot_oss7_modem.Interface.Receive.{returns}
use riot_oss7_modem.Interface.Thread.{Place, Step, at_loop, at_resync, run, place}
use riot_oss7_modem.Interface.Stream.{
  Frame, payload, encode_frames, AreSendable, Delivered, Steps, stop, step, followed,
}
use riot_oss7_modem.Interface.Stream.Dispatch.{IsRegistered, TakesPayload}
use riot_oss7_modem.Interface.Stream.Invariant.{Phase, searching, parsed, IsStreaming, HasProgress}
use riot_oss7_modem.Interface.Stream.Runs.{AreSendable-drop, runs, steps-HasProgress}

-- The receiver before the first byte, with the handler of ALP as the only one.
pub record IsEmpty (p : ℕ) (i : Interface) : Type 0 where
  pub writable : IsWritable i.rx_fifo
  pub registered : IsRegistered p i
  pub idle : i.parsed_header ≡ false
  pub empty : contents i.rx_fifo ≡ []

-- A receiver that waits, with nothing to come, has nothing left.
nothing_left :
    (Ok : List ℕ → Type 0) (i : Interface) (fs : List Frame)
    → AreSendable Ok fs
    → Phase i [] fs
    → i.locked ≡ true
    → (fs ≡ []) × (contents i.rx_fifo ≡ []) × (i.parsed_header ≡ false)
nothing_left Ok i [] good (searching idle held few) l =
    (refl, sym (append-nil (contents i.rx_fifo)) ∙ held, idle)
nothing_left Ok i (f ∷ fs) good (searching idle held few) l = absurd (
    omega (
      arith,
      few l,
      ap length held,
      length-contents i.rx_fifo,
      length-append (contents i.rx_fifo) [],
      length-append (encode_frame f.counter f.type_ (payload f)) (encode_frames fs),
      length-append (encode_header f.counter f.type_ (payload f)) (payload f),
      length-tabulate f.length f.bytes,
      good.0.some_bytes,
    ))
nothing_left Ok i fs good (parsed f rest e busy header len held few) l = absurd (
    omega (
      arith,
      few l,
      ap length held,
      length-contents i.rx_fifo,
      length-append (contents i.rx_fifo) [],
      length-append (payload f) (encode_frames rest),
      length-tabulate f.length f.bytes,
    ))

module _ {W : Type 0} (call : ℕ → Fifo → Interface × W → Outcome (Fifo × Interface × W)) (p : ℕ)
    (Ok : List ℕ → Type 0) (Inv : W → Type 0) (Handled : List ℕ → W → W → Type 0)
    (takes : TakesPayload call p Ok Inv Handled) where
  start :
      (i : Interface) (fs : List Frame) (future : List ℕ)
      → IsEmpty p i
      → future ≡ encode_frames fs
      → IsStreaming p fs future at_loop i
  start i fs future s e = record {
    placed = refl;
    writable = s.writable;
    registered = s.registered;
    phase =
        searching s.idle (ap (λ l. l ++ future) s.empty ∙ e)
          (λ _. omega (arith, ap length s.empty, length-contents i.rx_fifo));
  }

  -- The frames have payloads of 1 to 255 bytes, ping requests have exactly one byte, only a handler of ALP is
  -- registered, and it takes whole each payload of ALP in them, which are ones that it accepts in a state that it keeps.
  -- While such frames arrive at an empty receiver, with the interrupts and the thread's runs in any order, the frames that
  -- were handed on are those in front, in their order: none is lost, duplicated, reordered or changed, and
  -- the thread does not wait in the search for a header.
  pub stream_in_order :
      (fs : List Frame) (i : Interface) (w : W) (bytes future : List ℕ) (t : Place × Interface × W)
      → IsEmpty p i
      → Inv w
      → AreSendable Ok fs
      → bytes ++ future ≡ encode_frames fs
      → Steps call (at_loop, i, w) bytes t
      → (delivered pending : List Frame) × (fs ≡ delivered ++ pending)
        × Delivered Handled delivered w t.2
        × (t.0 ≡ at_loop)
  stream_in_order fs i w bytes future t s inv good e steps =
      let a =
        steps-HasProgress call p Ok Inv Handled takes fs future bytes steps good inv
          (start i fs (bytes ++ future) s e) in
      (a.delivered, a.pending, a.split, a.world, a.streaming.placed)

  -- With nothing to come, the thread runs until it waits.
  settles :
      (n : ℕ) (fs : List Frame) (s : Place × Interface × W)
      → size s.1.rx_fifo < n
      → AreSendable Ok fs
      → Inv s.2
      → IsStreaming p fs [] s.0 s.1
      → (u : Place × Interface × W) × Steps call s [] u × (u.1.locked ≡ true)
  unfolding place
  settles zero fs s h good inv k = absurd (omega (arith, h))
  settles (suc n) fs (at_resync, i, w) h good inv k =
      let wrong : at_resync ≡ at_loop = k.placed in absurd cc
  settles (suc n) fs (at_loop, i, w) h good inv k = elim (Bool-cases i.locked) [
    | inl l ↦ (_, stop (at_loop, i, w), l)
    | inr l ↦
        let (j, w', ran, a, smaller) =
          runs call p Ok Inv Handled takes [] i w k.writable k.registered inv fs good k.phase in
        let first : Step call (at_loop, i, w) (at_loop, j, w') = run i j w w' returns l ran in
        elim (Bool-cases j.locked) [
          | inl waits ↦ (_, step first (stop (at_loop, j, w')), waits)
          | inr on ↦
              let less = smaller on in
              let (u, steps, waits) =
                settles n a.pending (at_loop, j, w') (omega (arith, less, h))
                  (AreSendable-drop Ok a.delivered a.pending (rw a.split at good)) a.inv
                  a.streaming in
              (u, step first steps, waits)
        ]
  ]

  -- Where the thread waits with nothing to come, everything is handed on.
  all_handed_on :
      (fs : List Frame) (w w' : W) (s : Place) (i : Interface)
      → AreSendable Ok fs
      → HasProgress Inv Handled p fs [] w s i w'
      → i.locked ≡ true
      → Delivered Handled fs w w' × IsEmpty p i
  all_handed_on fs w w' s i good a l =
      let k = a.streaming in
      let (none_left, empty, idle) =
        nothing_left Ok i a.pending (AreSendable-drop Ok a.delivered a.pending (rw a.split at good))
          k.phase l in
      let whole : fs ≡ a.delivered =
        a.split ∙ ap (λ l. a.delivered ++ l) none_left ∙ append-nil a.delivered in
      (
        rw (sym whole) at a.world,
        record { writable = k.writable; registered = k.registered; idle = idle; empty = empty },
      )

  progress :
      (fs : List Frame) (i : Interface) (w : W) (t : Place × Interface × W)
      → IsEmpty p i
      → Inv w
      → AreSendable Ok fs
      → Steps call (at_loop, i, w) (encode_frames fs) t
      → HasProgress Inv Handled p fs [] w t.0 t.1 t.2
  progress fs i w t s inv good steps =
      steps-HasProgress call p Ok Inv Handled takes fs [] (encode_frames fs) steps good inv
        (start i fs (encode_frames fs ++ []) s (append-nil (encode_frames fs)))

  -- The frames have payloads of 1 to 255 bytes, ping requests have exactly one byte, only a handler of ALP is
  -- registered, and it takes whole each payload of ALP in them, which are ones that it accepts in a state that it keeps.
  -- When all bytes of such frames have arrived at a receiver that was empty, in any interleaving with the thread's runs, then
  -- wherever the thread waits every frame has been handed on, in order, and the receiver is empty again.
  pub stream_complete :
      (fs : List Frame) (i : Interface) (w : W) (t : Place × Interface × W)
      → IsEmpty p i
      → Inv w
      → AreSendable Ok fs
      → Steps call (at_loop, i, w) (encode_frames fs) t
      → t.1.locked ≡ true
      → Delivered Handled fs w t.2 × IsEmpty p t.1
  stream_complete fs i w t s inv good steps waits =
      all_handed_on fs w t.2 t.0 t.1 good (progress fs i w t s inv good steps) waits

  -- The frames have payloads of 1 to 255 bytes, ping requests have exactly one byte, only a handler of ALP is
  -- registered, and it takes whole each payload of ALP in them, which are ones that it accepts in a state that it keeps.
  -- From every state in which all bytes of such frames have arrived at a receiver that was empty, finitely many
  -- runs of the thread lead to one in which it waits, every frame has been handed on, in order, and the
  -- receiver is empty again.
  pub stream_settles :
      (fs : List Frame) (i : Interface) (w : W) (t : Place × Interface × W)
      → IsEmpty p i
      → Inv w
      → AreSendable Ok fs
      → Steps call (at_loop, i, w) (encode_frames fs) t
      → (u : Place × Interface × W) × Steps call t [] u
        × (u.1.locked ≡ true)
        × Delivered Handled fs w u.2
        × IsEmpty p u.1
  stream_settles fs i w t s inv good steps =
      let a = progress fs i w t s inv good steps in
      let (u, more, waits) =
        settles (suc (size t.1.rx_fifo)) a.pending t (omega arith)
          (AreSendable-drop Ok a.delivered a.pending (rw a.split at good)) a.inv a.streaming in
      let (world, again) =
        stream_complete fs i w u s inv good
          (rw (append-nil (encode_frames fs)) at (followed call steps more)) waits in
      (u, more, waits, world, again)
