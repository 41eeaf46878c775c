-- ===== src/Interface/Stream/Runs.antt =====
-- Each step keeps the invariant.
use riot_oss7_modem.Common.{
  ℕ, ◌+◌, ◌≤◌, ◌≡◌, ◌⊎◌, inl, inr, refl, sym, ap, ◌∙◌, true, false, List, [], ◌∷◌, ◌++◌,
  append_assoc, length, length-tabulate, length-append, Outcome, done, fault, assertion, dec_le,
  dec_lt, ℕ_discrete, arith,
}
use mathlib.Core.Bool.{false≢true}
use riot_oss7_modem.Fifo
use riot_oss7_modem.Fifo.{Fifo}
use riot_oss7_modem.Fifo.Valid.{size, contents, length-contents}
use riot_oss7_modem.Fifo.Put.{IsWritable, HasRoom, put_appends, put_refuses}
use riot_oss7_modem.Interface.{Interface}
use riot_oss7_modem.Interface.Frame.{encode_header}
use riot_oss7_modem.Interface.Receive.{Next, returns, uart_rx_cb, received_byte}
use riot_oss7_modem.Interface.Thread.{Place, at_loop, at_resync, Step, receive, run, resume, place}
use riot_oss7_modem.Interface.Stream.{
  Frame, payload, encode_frames, AreSendable, nothing, Delivered-append, received, Steps, stop,
  step,
}
use riot_oss7_modem.Interface.Stream.Split.{split_prefix}
use riot_oss7_modem.Interface.Stream.Dispatch.{IsRegistered, TakesPayload}
use riot_oss7_modem.Interface.Stream.Handed.{hands_on}
use riot_oss7_modem.Interface.Stream.Invariant.{
  Phase, searching, parsed, IsStreaming, HasProgress, Ran, waits_for_header, takes_header,
  waits_for_payload,
}

pub AreSendable-drop :
    (Ok : List ℕ → Type 0) (fs gs : List Frame) → AreSendable Ok (fs ++ gs) → AreSendable Ok gs
AreSendable-drop Ok [] gs a = a
AreSendable-drop Ok (f ∷ fs) gs a = AreSendable-drop Ok fs gs a.1

HasRoom-dec : (f : Fifo) → HasRoom f 1 ⊎ (¬ HasRoom f 1)
HasRoom-dec f = elim (dec_lt (size f + 1) f.max_size) [
  | yes h ↦ inl (inl h)
  | no h ↦ elim (ℕ_discrete f.head_idx 0) [
    | no z ↦ inr (λ r. ground (arith, r, h, z))
    | yes z ↦ elim (dec_le (size f + 1) f.max_size) [
      | yes l ↦ inl (inr (z, l))
      | no l ↦ inr (λ r. ground (arith, r, h, l))
    ]
  ]
]

-- What an interrupt that comes back has done.
received_lem :
    (i i' : Interface) (byte : ℕ)
    → IsWritable i.rx_fifo
    → uart_rx_cb i byte ≡ done i'
    → (rx : Fifo) × (i' ≡ record i { rx_fifo = rx; locked = false })
      × (contents rx ≡ contents i.rx_fifo ++ (byte ∷ []))
      × IsWritable rx
unfolding uart_rx_cb received_byte
received_lem i i' byte w e = elim (HasRoom-dec i.rx_fifo) [
  | inr full ↦
      let stopped : fault assertion ≡ done i' =
        sym (ap (received_byte i) (put_refuses (λ _. byte) 1 w (omega arith) full)) ∙ e in
      cc
  | inl room ↦
      let (ok, appended, w', _) = put_appends (λ _. byte) 1 w room in
      let rx = (Fifo.put i.rx_fifo (λ _. byte) 1).1 in
      let ran : done (record i { rx_fifo = rx; locked = false }) ≡ done i' =
        sym (ap (λ e. received_byte i (e, rx)) ok) ∙ e in
      (rx, cc, appended, w')
]

-- An interrupt moves one byte from those to come to those that are held.
Phase-received :
    (i : Interface) (rx : Fifo) (byte : ℕ) (future : List ℕ) (fs : List Frame)
    → contents rx ≡ contents i.rx_fifo ++ (byte ∷ [])
    → Phase i (byte ∷ future) fs
    → Phase (record i { rx_fifo = rx; locked = false }) future fs
Phase-received i rx byte future fs appended (searching idle held few) =
    searching idle
      (ap (λ l. l ++ future) appended ∙ append_assoc (contents i.rx_fifo) (byte ∷ []) future ∙ held)
      (λ l. absurd (false≢true l))
Phase-received i rx byte future fs appended (parsed f rest e busy header len held few) =
    parsed f rest e busy header len
      (ap (λ l. l ++ future) appended ∙ append_assoc (contents i.rx_fifo) (byte ∷ []) future ∙ held)
      (λ l. absurd (false≢true l))

module _ {W : Type 0} (call : ℕ → Fifo → Interface × W → Outcome (Fifo × Interface × W)) (p : ℕ)
    (Ok : List ℕ → Type 0) (Inv : W → Type 0) (Handled : List ℕ → W → W → Type 0)
    (takes : TakesPayload call p Ok Inv Handled) where
  module _ (future : List ℕ) (i : Interface) (w : W) (wr : IsWritable i.rx_fifo)
      (reg : IsRegistered p i) (inv : Inv w) where
    abbrev locked : Interface
    locked = record i { locked = true }

    reg_locked : IsRegistered p locked
    reg_locked = record { alp = reg.alp; no_ping = reg.no_ping; no_logging = reg.no_logging }

    search :
        (fs : List Frame)
        → i.parsed_header ≡ false
        → contents i.rx_fifo ++ future ≡ encode_frames fs
        → Ran call p Inv Handled fs future locked w
    search fs idle held = elim (dec_le (size i.rx_fifo) 7) [
      | yes few ↦
          waits_for_header call p Inv Handled fs future locked w wr reg_locked refl inv idle held
            few
      | no many ↦ enough fs held many
    ]
      where
        enough :
            (fs : List Frame)
            → contents i.rx_fifo ++ future ≡ encode_frames fs
            → ¬ (size i.rx_fifo ≤ 7)
            → Ran call p Inv Handled fs future locked w
        enough [] held many = absurd (
            omega (
              arith,
              many,
              ap length held,
              length-append (contents i.rx_fifo) future,
              length-contents i.rx_fifo,
            ))
        enough (f ∷ rest) held many =
            let head = encode_header f.counter f.type_ (payload f) in
            let (tail, now, later) =
              split_prefix (contents i.rx_fifo) future head (payload f ++ encode_frames rest)
                (held ∙ append_assoc head (payload f) (encode_frames rest))
                (omega (arith, many, length-contents i.rx_fifo)) in
            takes_header call p Inv Handled (f ∷ rest) future locked w wr reg_locked refl inv f rest
              tail refl idle now later
              (omega
                (arith, many, ap length now, length-append head tail, length-contents i.rx_fifo))

    -- A run of `process_rx_fifo` with the invariant.
    pub runs :
        (fs : List Frame)
        → AreSendable Ok fs
        → Phase i future fs
        → Ran call p Inv Handled fs future locked w
    runs fs good (searching idle held few) = search fs idle held
    runs fs good (parsed f rest e busy header len held few) =
        elim (dec_lt (size i.rx_fifo) f.length) [
          | yes short ↦
              waits_for_payload call p Inv Handled fs future locked w wr reg_locked refl inv f rest
                e busy header len held short
          | no enough ↦
              let (tail, now, later) =
                split_prefix (contents i.rx_fifo) future (payload f) (encode_frames rest) held (
                  omega
                    (arith, enough, length-contents i.rx_fifo, length-tabulate f.length f.bytes)) in
              hands_on call p Ok Inv Handled takes fs future locked w f rest tail wr reg_locked e
                busy header len now later (rw e at good).0 inv
        ]

  -- A step keeps the invariant, of the frames that it does not hand on.
  pub step-HasProgress :
      (fs : List Frame) (future : List ℕ) {s t : Place × Interface × W} (one : Step call s t)
      → AreSendable Ok fs
      → Inv s.2
      → IsStreaming p fs (received call one ++ future) s.0 s.1
      → HasProgress Inv Handled p fs future s.2 t.0 t.1 t.2
  unfolding place
  step-HasProgress fs future (receive at i i' w byte e) good inv k =
      let (rx, made, appended, wr) = received_lem i i' byte k.writable e in
      rw made (record {
        delivered = [];
        pending = fs;
        split = refl;
        world = nothing w;
        inv = inv;
        streaming = record {
          placed = k.placed;
          writable = wr;
          registered = record {
            alp = k.registered.alp;
            no_ping = k.registered.no_ping;
            no_logging = k.registered.no_logging;
          };
          phase = Phase-received i rx byte future fs appended k.phase;
        };
      })
  step-HasProgress fs future (run i i' w w' next u e) good inv k =
      let (j, w'', ran, progress, _) =
        runs future i w k.writable k.registered inv fs good k.phase in
      let same : ◌≡◌ {A = Outcome (Next × Interface × W)} (done (returns, j, w''))
          (done (next, i', w')) =
        sym ran ∙ e in
      let at : returns ≡ next = cc in
      let state : j ≡ i' = cc in let world : w'' ≡ w' = cc in rw⁻¹ (at, state, world) progress
  step-HasProgress fs future (resume i w u) good inv k =
      let wrong : at_resync ≡ at_loop = k.placed in absurd cc

  -- And so do any number of steps.
  pub steps-HasProgress :
      (fs : List Frame) (future bytes : List ℕ) {s t : Place × Interface × W}
      → Steps call s bytes t
      → AreSendable Ok fs
      → Inv s.2
      → IsStreaming p fs (bytes ++ future) s.0 s.1
      → HasProgress Inv Handled p fs future s.2 t.0 t.1 t.2
  steps-HasProgress fs future bytes (stop s) good inv k = record {
    delivered = [];
    pending = fs;
    split = refl;
    world = nothing s.2;
    inv = inv;
    streaming = k;
  }
  steps-HasProgress fs future bytes (step {bytes = later} one more) good inv k =
      let regrouped = rw (append_assoc (received call one) later future) at k in
      let a = step-HasProgress fs (later ++ future) one good inv regrouped in
      let b =
        steps-HasProgress a.pending future later more
          (AreSendable-drop Ok a.delivered a.pending (rw a.split at good)) a.inv a.streaming in
      record {
        delivered = a.delivered ++ b.delivered;
        pending = b.pending;
        split =
            a.split
            ∙ ap (λ l. a.delivered ++ l) b.split
            ∙ sym (append_assoc a.delivered b.delivered b.pending);
        world = Delivered-append Handled a.world b.world;
        inv = b.inv;
        streaming = b.streaming;
      }
