-- ===== src/Interface/Stream/Handed.antt =====
-- A run of `process_rx_fifo` with a whole payload in the fifo.
use riot_oss7_modem.Common.{
  ℕ, ◌+◌, ◌≤◌, ◌≡◌, inl, inr, refl, sym, ap, ◌∙◌, true, Bool-cases, List, [], ◌∷◌, ◌++◌, length,
  length-tabulate, length-append, ltb, sub16, drop, drop-append, Outcome, done, ◌>>=◌, arith,
}
use mathlib.Core.Bool.{false≢true}
use riot_oss7_modem.Fifo
use riot_oss7_modem.Fifo.{Fifo}
use riot_oss7_modem.Fifo.Valid.{IsValid, size, contents, length-contents, get_size_lem}
use riot_oss7_modem.Fifo.Put.{IsWritable}
use riot_oss7_modem.Fifo.Take.{skip_lem}
use riot_oss7_modem.Crc.Reference.{ccitt}
use riot_oss7_modem.Interface.{Interface}
use riot_oss7_modem.Interface.Receive.{returns, finish, pop_parsed}
use riot_oss7_modem.Interface.Deliver.{
  HasHeader, counted, payload_fifo, payload_fifo-IsValid, contents-payload_fifo,
  parse_payload_accepts, process_payload,
}
use riot_oss7_modem.Interface.Safe.{skip-IsWritable}
use riot_oss7_modem.Interface.Stream.{Frame, payload, encode_frames, IsSendable}
use riot_oss7_modem.Interface.Stream.Dispatch.{IsKept, IsRegistered, TakesPayload, dispatch-takes}
use riot_oss7_modem.Interface.Stream.Invariant.{Phase, searching, Ran}

-- What `pop_parsed` leaves behind a handler that took the whole payload.
module _ (i j : Interface) (g : Fifo) (f : Frame) (tail : List ℕ) (wr : IsWritable i.rx_fifo)
    (held : contents i.rx_fifo ≡ payload f ++ tail) (len : i.payload_len ≡ f.length)
    (Ok : List ℕ → Type 0) (good : IsSendable Ok f) (kept : IsKept i j)
    (empty : Fifo.get_size g ≡ 0) where
  fits : f.length ≤ size i.rx_fifo
  fits = omega (
    arith,
    ap length held,
    length-contents i.rx_fifo,
    length-append (payload f) tail,
    length-tabulate f.length f.bytes,
  )

  popped-eq-skip : (pop_parsed j g).rx_fifo ≡ (Fifo.skip i.rx_fifo f.length).1
  unfolding pop_parsed
  popped-eq-skip =
      let all : sub16 j.payload_len (Fifo.get_size g) ≡ f.length =
        omega (arith, empty, len, kept.payload_len, good.short) in
      rw (all, kept.rx_fifo) refl

  popped :
      (contents (pop_parsed j g).rx_fifo ≡ tail)
      × IsWritable (pop_parsed j g).rx_fifo
      × (size (pop_parsed j g).rx_fifo + f.length ≡ size i.rx_fifo)
  popped =
      let (_, left, _, smaller) = skip_lem wr.valid f.length fits in
      let behind : drop f.length (contents i.rx_fifo) ≡ tail =
        ap (drop f.length) held
        ∙ ap (λ n. drop n (payload f ++ tail)) (sym (length-tabulate f.length f.bytes))
        ∙ drop-append (payload f) tail in
      rw popped-eq-skip (left ∙ behind, skip-IsWritable f.length wr, omega (arith, smaller, fits))

-- The search goes on where the frame ends.
finish-searching :
    (i : Interface) (future : List ℕ) (fs : List Frame)
    → IsValid i.rx_fifo
    → contents i.rx_fifo ++ future ≡ encode_frames fs
    → Phase (finish i) future fs
unfolding finish
finish-searching i future fs v held = searching refl held (λ l.
    elim (Bool-cases (ltb 7 (Fifo.get_size i.rx_fifo))) [
      | inl e ↦ absurd (false≢true (rw e at l))
      | inr e ↦ ground (arith, e, get_size_lem v)
    ])

module _ {W : Type 0} (call : ℕ → Fifo → Interface × W → Outcome (Fifo × Interface × W)) (p : ℕ)
    (Ok : List ℕ → Type 0) (Inv : W → Type 0) (Handled : List ℕ → W → W → Type 0)
    (takes : TakesPayload call p Ok Inv Handled) where
  pub hands_on :
      (fs : List Frame) (future : List ℕ) (i : Interface) (w : W) (f : Frame) (rest : List Frame)
      (tail : List ℕ)
      → IsWritable i.rx_fifo
      → IsRegistered p i
      → fs ≡ f ∷ rest
      → i.parsed_header ≡ true
      → HasHeader i.header f.counter f.type_ (length (payload f)) (ccitt 0xffff (payload f))
      → i.payload_len ≡ f.length
      → contents i.rx_fifo ≡ payload f ++ tail
      → tail ++ future ≡ encode_frames rest
      → IsSendable Ok f
      → Inv w
      → Ran call p Inv Handled fs future i w
  unfolding finish pop_parsed
  hands_on fs future i w f rest tail wr reg e busy header len held later good inv =
      let announced = header.announced ∙ length-tabulate f.length f.bytes in
      let accepts =
        parse_payload_accepts call i w f.length f.bytes tail wr.valid held good.octets announced len
          header.crc_high header.crc_low in
      let g = payload_fifo call i w f.length f.bytes tail wr.valid held good.octets announced len in
      let (g', i', w', ran, handled, inv', empty, kept) =
        dispatch-takes call p Ok Inv Handled takes f g (counted i) w good inv
          (record { alp = reg.alp; no_ping = reg.no_ping; no_logging = reg.no_logging })
          (payload_fifo-IsValid call i w f.length f.bytes tail wr.valid held good.octets announced
            len)
          (contents-payload_fifo call i w f.length f.bytes tail wr.valid held good.octets announced
            len)
          header.typed len in
      let (left, wr', smaller) = popped (counted i) i' g' f tail wr held len Ok good kept empty in
      let j = finish (pop_parsed i' g') in
      (
        j,
        w',
        process_payload call i w busy
            ∙ ap (λ m. m >>= λ (i', w'). done (returns, i', w')) accepts
            ∙ ap
                (λ m.
                  (m >>= λ (taken, i', w'). done (finish (pop_parsed i' taken), w')) >>= λ (i', w').
                  done (returns, i', w'))
                ran,
        record {
          delivered = f ∷ [];
          pending = rest;
          split = e;
          world = handled;
          inv = inv';
          streaming = record {
            placed = refl;
            writable = wr';
            registered = record {
              alp = kept.alp_handler ∙ reg.alp;
              no_ping = kept.ping_response_handler ∙ reg.no_ping;
              no_logging = kept.logging_handler ∙ reg.no_logging;
            };
            phase =
                finish-searching (pop_parsed i' g') future rest wr'.valid
                  (ap (λ l. l ++ future) left ∙ later);
          };
        },
        λ _. omega (arith, smaller, good.some_bytes),
      )
