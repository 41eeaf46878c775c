-- ===== src/Interface/Stream/Dispatch.antt =====
-- The chain of handlers of `process_rx_fifo` on a frame that can be sent, when only a handler of ALP is
-- registered, the way modem.c uses the interface.
use riot_oss7_modem.Common.{
  ℕ, ◌≡◌, inl, inr, refl, sym, ap, ◌∙◌, true, false, Bool-cases, List, length, length-tabulate,
  ◌==◌, none, some, [], ◌∷◌, Outcome, done, arith,
}
use riot_oss7_modem.Common.Memory.{Bytes}
use riot_oss7_modem.Fifo
use riot_oss7_modem.Fifo.{Fifo}
use riot_oss7_modem.Fifo.Valid.{IsValid, size, contents, length-contents, get_size_lem}
use riot_oss7_modem.Fifo.Take.{skip_lem}
use riot_oss7_modem.Interface.{Interface, transfer_bytes}
use riot_oss7_modem.Interface.Receive.{dispatch, call_pointer}
use riot_oss7_modem.Interface.Stream.{
  Frame, payload, IsSendable, Delivered, nothing, handed, passed,
}

-- The receiving side is the same.
pub record IsKept (i j : Interface) : Type 0 where
  pub rx_fifo : j.rx_fifo ≡ i.rx_fifo
  pub payload_len : j.payload_len ≡ i.payload_len
  pub locked : j.locked ≡ i.locked
  pub alp_handler : j.alp_handler ≡ i.alp_handler
  pub ping_response_handler : j.ping_response_handler ≡ i.ping_response_handler
  pub logging_handler : j.logging_handler ≡ i.logging_handler

pub same : (i : Interface) → IsKept i i
same i = record {
  rx_fifo = refl;
  payload_len = refl;
  locked = refl;
  alp_handler = refl;
  ping_response_handler = refl;
  logging_handler = refl;
}

-- The handler of ALP is registered, and no other.
pub record IsRegistered (p : ℕ) (i : Interface) : Type 0 where
  pub alp : i.alp_handler ≡ some p
  pub no_ping : i.ping_response_handler ≡ none
  pub no_logging : i.logging_handler ≡ none

module _ {W : Type 0} (call : ℕ → Fifo → Interface × W → Outcome (Fifo × Interface × W)) (p : ℕ)
    (Ok : List ℕ → Type 0) (Inv : W → Type 0) (Handled : List ℕ → W → W → Type 0) where
  -- The handler of ALP, in a state for which `Inv` holds, takes the whole of a payload that it accepts, does
  -- to the program's part what `Handled` says, keeps `Inv`, and leaves the receiving side alone.
  abbrev pub TakesPayload : Type 0
  TakesPayload =
      (g : Fifo) (i : Interface) (w : W)
      → IsValid g
      → Ok (contents g)
      → Inv w
      → (g' : Fifo) × (i' : Interface) × (w' : W) × (call p g (i, w) ≡ done (g', i', w'))
        × Handled (contents g) w w'
        × Inv w'
        × (Fifo.get_size g' ≡ 0)
        × IsKept i i'

  skipped : {g : Fifo} (n : ℕ) → IsValid g → size g ≡ n → Fifo.get_size (Fifo.skip g n).1 ≡ 0
  skipped n v e =
      let (_, _, v', left) = skip_lem v n (omega (arith, e)) in
      get_size_lem v' ∙ omega (arith, left, e)

  module _ (g : Fifo) (i : Interface) (w : W) (reg : IsRegistered p i) where
    dispatch_alp : (i.header 3 == 1) ≡ true → dispatch call g (i, w) ≡ call p g (i, w)
    unfolding dispatch call_pointer
    dispatch_alp a = rw (reg.alp, a) refl

    dispatch_ping :
        (i.header 3 == 1) ≡ false
        → (i.header 3 == 2) ≡ true
        → dispatch call g (i, w) ≡ done ((Fifo.skip g 1).1, transfer_bytes i (λ _. 0x02) 1 3, w)
    unfolding dispatch
    dispatch_ping a b = rw (reg.alp, reg.no_ping, reg.no_logging, a, b) refl

    dispatch_other :
        (i.header 3 == 1) ≡ false
        → (i.header 3 == 2) ≡ false
        → dispatch call g (i, w) ≡ done ((Fifo.skip g i.payload_len).1, i, w)
    unfolding dispatch
    dispatch_other a b = rw (reg.alp, reg.no_ping, reg.no_logging, a, b) refl

  transfer_bytes-IsKept :
      (i : Interface) (bytes : Bytes) (len type_ : ℕ) → IsKept i (transfer_bytes i bytes len type_)
  unfolding transfer_bytes
  transfer_bytes-IsKept i bytes len type_ = record {
    rx_fifo = refl;
    payload_len = refl;
    locked = refl;
    alp_handler = refl;
    ping_response_handler = refl;
    logging_handler = refl;
  }

  -- Every frame is taken as a whole.
  pub dispatch-takes :
      TakesPayload
      → (f : Frame) (g : Fifo) (i : Interface) (w : W) → IsSendable Ok f
      → Inv w
      → IsRegistered p i
      → IsValid g
      → contents g ≡ payload f
      → i.header 3 ≡ f.type_
      → i.payload_len ≡ f.length
      → (g' : Fifo) × (i' : Interface) × (w' : W) × (dispatch call g (i, w) ≡ done (g', i', w'))
        × Delivered Handled (f ∷ []) w w'
        × Inv w'
        × (Fifo.get_size g' ≡ 0)
        × IsKept i i'
  dispatch-takes takes f g i w good inv reg v held typed len =
      let sized : size g ≡ f.length =
        omega (arith, ap length held, length-contents g, length-tabulate f.length f.bytes) in
      let is : (n : ℕ) → (i.header 3 == n) ≡ (f.type_ == n) = λ n. ap (λ t. t == n) typed in
      elim (Bool-cases (f.type_ == 1)) [
        | inl a ↦
            let alp : f.type_ ≡ 1 = ground (arith, a) in
            let (g', i', w', ran, handled, inv', empty, kept) =
              takes g i w v (rw held (good.accepted alp)) inv in
            (
              g',
              i',
              w',
              dispatch_alp g i w reg (is 1 ∙ a) ∙ ran,
              handed f [] w w' w' alp (rw held at handled) (nothing w'),
              inv',
              empty,
              kept,
            )
        | inr a ↦
            let other = passed f [] w w (ground (arith, a)) (nothing w) in
            elim (Bool-cases (f.type_ == 2)) [
              | inl b ↦ (
                (Fifo.skip g 1).1,
                transfer_bytes i (λ _. 0x02) 1 3,
                w,
                dispatch_ping g i w reg (is 1 ∙ a) (is 2 ∙ b),
                other,
                inv,
                skipped 1 v (sized ∙ good.ping (ground (arith, b))),
                transfer_bytes-IsKept i (λ _. 0x02) 1 3,
              )
              | inr b ↦ (
                (Fifo.skip g i.payload_len).1,
                i,
                w,
                dispatch_other g i w reg (is 1 ∙ a) (is 2 ∙ b),
                other,
                inv,
                skipped i.payload_len v (sized ∙ sym len),
                same i,
              )
            ]
      ]
