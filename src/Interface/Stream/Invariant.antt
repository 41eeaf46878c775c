-- ===== src/Interface/Stream/Invariant.antt =====
-- What holds between two steps while frames that can be sent come in.
use riot_oss7_modem.Common.{
  ℕ, ◌≤◌, ◌<◌, ◌≡◌, refl, sym, ap, ◌∙◌, true, false, List, [], ◌∷◌, ◌++◌, length, length-tabulate,
  length-append, ltb, Outcome, done, arith,
}
use mathlib.Core.Bool.{false≢true}
use riot_oss7_modem.Fifo
use riot_oss7_modem.Fifo.{Fifo}
use riot_oss7_modem.Fifo.Valid.{size, contents, length-contents, get_size_lem}
use riot_oss7_modem.Fifo.Put.{IsWritable}
use riot_oss7_modem.Crc.Reference.{ccitt}
use riot_oss7_modem.Interface.{Interface}
use riot_oss7_modem.Interface.Frame.{encode_header}
use riot_oss7_modem.Interface.Receive.{
  returns, take_header, parse_header, parse_payload, process_rx_fifo,
}
use riot_oss7_modem.Interface.Deliver.{
  HasHeader, peeked, parse_header_lem, process_header, process_payload,
}
use riot_oss7_modem.Interface.Safe.{skip-IsWritable}
use riot_oss7_modem.Interface.Thread.{Place, at_loop}
use riot_oss7_modem.Interface.Stream.{Frame, payload, encode_frames, Delivered, nothing}
use riot_oss7_modem.Interface.Stream.Dispatch.{IsRegistered}

-- Where the receiver is in the frames `fs` that it has not handed on, with `future` still to arrive.
-- A locked mutex says that it waits for bytes that are not there.
pub data Phase (i : Interface) (future : List ℕ) (fs : List Frame) : Type 0 where
  searching :
      i.parsed_header ≡ false
      → contents i.rx_fifo ++ future ≡ encode_frames fs
      → (i.locked ≡ true → size i.rx_fifo ≤ 7)
      → Phase i future fs
  parsed :
      (f : Frame) (rest : List Frame)
      → fs ≡ f ∷ rest
      → i.parsed_header ≡ true
      → HasHeader i.header f.counter f.type_ (length (payload f)) (ccitt 0xffff (payload f))
      → i.payload_len ≡ f.length
      → contents i.rx_fifo ++ future ≡ payload f ++ encode_frames rest
      → (i.locked ≡ true → size i.rx_fifo < f.length)
      → Phase i future fs

pub record IsStreaming (p : ℕ) (fs : List Frame) (future : List ℕ) (place_ : Place) (i : Interface)
    : Type 0 where
  pub placed : place_ ≡ at_loop
  pub writable : IsWritable i.rx_fifo
  pub registered : IsRegistered p i
  pub phase : Phase i future fs

-- From the frames `fs`, those in front are handed on, in order, and the others are to come.
pub record HasProgress {W : Type 0} (Inv : W → Type 0) (Handled : List ℕ → W → W → Type 0) (p : ℕ)
    (fs : List Frame) (future : List ℕ) (w : W) (place_ : Place) (i : Interface) (w' : W)
    : Type 0 where
  pub delivered : List Frame
  pub pending : List Frame
  pub split : fs ≡ delivered ++ pending
  pub world : Delivered Handled delivered w w'
  pub inv : Inv w'
  pub streaming : IsStreaming p pending future place_ i

module _ {W : Type 0} (call : ℕ → Fifo → Interface × W → Outcome (Fifo × Interface × W)) (p : ℕ)
    (Inv : W → Type 0) (Handled : List ℕ → W → W → Type 0) where
  -- What one run of `process_rx_fifo` does.
  abbrev pub Ran : List Frame → List ℕ → Interface → W → Type 0
  Ran fs future i w =
      (j : Interface) × (w' : W) × (process_rx_fifo call (i, w) ≡ done (returns, j, w'))
      × HasProgress Inv Handled p fs future w at_loop j w'
      × ((j.locked ≡ false) → size j.rx_fifo < size i.rx_fifo)

  module _ (fs : List Frame) (future : List ℕ) (i : Interface) (w : W) (wr : IsWritable i.rx_fifo)
      (reg : IsRegistered p i) (locked : i.locked ≡ true) (inv : Inv w) where
    -- Nothing is handed on.
    stays :
        (j : Interface)
        → IsStreaming p fs future at_loop j
        → HasProgress Inv Handled p fs future w at_loop j w
    stays j s = record {
      delivered = [];
      pending = fs;
      split = refl;
      world = nothing w;
      inv = inv;
      streaming = s;
    }

    pub waits_for_header :
        i.parsed_header ≡ false
        → contents i.rx_fifo ++ future ≡ encode_frames fs
        → size i.rx_fifo ≤ 7
        → Ran fs future i w
    unfolding parse_header
    waits_for_header idle held few =
        let short : ltb 7 (Fifo.get_size i.rx_fifo) ≡ false =
          ground (arith, few, get_size_lem wr.valid) in
        (
          i,
          w,
          process_header call i w idle ∙ rw short refl,
          stays i (record {
            placed = refl;
            writable = wr;
            registered = reg;
            phase = searching idle held (λ _. few);
          }),
          λ e. absurd (false≢true (sym e ∙ locked)),
        )

    pub takes_header :
        (f : Frame) (rest : List Frame) (tail : List ℕ)
        → fs ≡ f ∷ rest
        → i.parsed_header ≡ false
        → contents i.rx_fifo ≡ encode_header f.counter f.type_ (payload f) ++ tail
        → tail ++ future ≡ payload f ++ encode_frames rest
        → 0 < length tail
        → Ran fs future i w
    unfolding take_header
    takes_header f rest tail e idle held later more =
        let (ran, header, len, v, left) =
          parse_header_lem i f.counter f.type_ (payload f) tail wr.valid held more in
        let j = take_header (peeked i f.counter f.type_ (payload f) tail wr.valid held more) in
        (
          j,
          w,
          process_header call i w idle ∙ ap (λ r. done (r.0, r.1, w)) ran,
          stays j (record {
            placed = refl;
            writable = skip-IsWritable 7 wr;
            registered = record {
              alp = reg.alp;
              no_ping = reg.no_ping;
              no_logging = reg.no_logging;
            };
            phase =
                parsed f rest e refl header (len ∙ length-tabulate f.length f.bytes)
                  (ap (λ l. l ++ future) left ∙ later) (λ l. absurd (false≢true l));
          }),
          λ _. omega (
            arith,
            ap length held,
            ap length left,
            length-contents i.rx_fifo,
            length-contents j.rx_fifo,
            length-append (encode_header f.counter f.type_ (payload f)) tail,
          ),
        )

    pub waits_for_payload :
        (f : Frame) (rest : List Frame)
        → fs ≡ f ∷ rest
        → i.parsed_header ≡ true
        → HasHeader i.header f.counter f.type_ (length (payload f)) (ccitt 0xffff (payload f))
        → i.payload_len ≡ f.length
        → contents i.rx_fifo ++ future ≡ payload f ++ encode_frames rest
        → size i.rx_fifo < f.length
        → Ran fs future i w
    unfolding parse_payload
    waits_for_payload f rest e busy header len held few =
        let short : ltb (Fifo.get_size i.rx_fifo) i.payload_len ≡ true =
          ground (arith, few, len, get_size_lem wr.valid) in
        (
          i,
          w,
          process_payload call i w busy ∙ rw short refl,
          stays i (record {
            placed = refl;
            writable = wr;
            registered = reg;
            phase = parsed f rest e busy header len held (λ _. few);
          }),
          λ l. absurd (false≢true (sym l ∙ locked)),
        )
