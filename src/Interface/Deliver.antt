-- ===== src/Interface/Deliver.antt =====
-- `process_rx_fifo` on a frame, on noise, and on a frame with a wrong checksum.
use riot_oss7_modem.Common.{
  ℕ, ◌+◌, ◌/◌, ◌%◌, ◌^◌, ◌≤◌, ◌<◌, ◌≡◌, inl, inr, refl, sym, ap, ◌∙◌, true, false, Bool-cases, List,
  [], ◌∷◌, ◌++◌, append_assoc, tabulate, take, drop, take-append, length, length-tabulate,
  length-append, ltb, Outcome, done, fault, ◌>>=◌, arith,
}
use mathlib.Core.Path.{ap₂}
use riot_oss7_modem.Common.Memory.{Bytes}
use riot_oss7_modem.Fifo
use riot_oss7_modem.Fifo.{Fifo}
use riot_oss7_modem.Fifo.Valid.{IsValid, size, contents, length-contents, get_size_lem}
use riot_oss7_modem.Fifo.Take.{peek_lem, skip_lem}
use riot_oss7_modem.Fifo.View.{subview, init_subview-eq, contents-subview, subview-IsValid}
use riot_oss7_modem.Crc.Reference.{ccitt}
use riot_oss7_modem.Interface.{Interface}
use riot_oss7_modem.Interface.Frame.{encode_header, encode_frame}
use riot_oss7_modem.Interface.Verify.{verify_payload_iff}
use riot_oss7_modem.Interface.Receive.{
  verify_payload, returns, take_header, examine_header, parse_header, finish, pop_parsed, dispatch,
  parse_verified, parse_payload, process_rx_fifo,
}

-- The header field by field, in the array `header`.
pub record HasHeader (header : Bytes) (counter type_ n crc : ℕ) : Type 0 where
  pub sync : header 0 ≡ 0xc0
  pub version : header 1 ≡ 0
  pub counted : header 2 ≡ counter
  pub typed : header 3 ≡ type_
  pub announced : header 4 ≡ n
  pub crc_high : header 5 ≡ crc / 2 ^ 8 % 2 ^ 8
  pub crc_low : header 6 ≡ crc % 2 ^ 8

seven :
    (h : Bytes) (a b c d e f g : ℕ)
    → tabulate 7 h ≡ a ∷ b ∷ c ∷ d ∷ e ∷ f ∷ g ∷ []
    → (h 0 ≡ a) × (h 1 ≡ b) × (h 2 ≡ c) × (h 3 ≡ d) × (h 4 ≡ e) × (h 5 ≡ f) × (h 6 ≡ g)
seven h a b c d e f g p = (cc, cc, cc, cc, cc, cc, cc)

-- The first run of `process_rx_fifo` on a frame takes its header.
module _ (i : Interface) (counter type_ : ℕ) (payload rest : List ℕ) (valid : IsValid i.rx_fifo)
    (held : contents i.rx_fifo ≡ encode_header counter type_ payload ++ rest)
    (more : 0 < length rest) where
  abbrev pub peeked : Interface
  peeked = record i { header = (Fifo.peek i.rx_fifo i.header 0 7).1 }

  fits : 7 < size i.rx_fifo
  fits = omega (
    arith,
    more,
    ap length held,
    length-contents i.rx_fifo,
    length-append (encode_header counter type_ payload) rest,
  )

  peeked-HasHeader : HasHeader peeked.header counter type_ (length payload) (ccitt 0xffff payload)
  peeked-HasHeader =
      let (_, copied, _) = peek_lem i.header 0 7 valid (omega (arith, fits)) in
      let p =
        seven peeked.header 0xc0 0 counter type_ (length payload)
          (ccitt 0xffff payload / 2 ^ 8 % 2 ^ 8) (ccitt 0xffff payload % 2 ^ 8)
          (copied ∙ ap (take 7) held) in
      record {
        sync = p.0;
        version = p.1;
        counted = p.2;
        typed = p.3;
        announced = p.4;
        crc_high = p.5;
        crc_low = p.6;
      }

  pub parse_header_lem :
      (parse_header i ≡ (returns, take_header peeked))
      × HasHeader (take_header peeked).header counter type_ (length payload) (ccitt 0xffff payload)
      × ((take_header peeked).payload_len ≡ length payload)
      × IsValid (take_header peeked).rx_fifo
      × (contents (take_header peeked).rx_fifo ≡ rest)
  unfolding parse_header examine_header take_header
  parse_header_lem =
      let enough : ltb 7 (Fifo.get_size i.rx_fifo) ≡ true =
        ground (arith, fits, get_size_lem valid) in
      let h = peeked-HasHeader in
      let (_, left, v, _) = skip_lem valid 7 (omega (arith, fits)) in
      (rw (enough, h.sync, h.version) refl, h, h.announced, v, left ∙ ap (drop 7) held)

-- The state in which the handler runs.
abbrev pub counted : Interface → Interface
counted i = record i { packet_down_counter = i.header 2 }

-- The next run, once the payload is there.
module _ {W : Type 0} (call : ℕ → Fifo → Interface × W → Outcome (Fifo × Interface × W))
    (i : Interface) (w : W) (n : ℕ) (bytes : Bytes) (rest : List ℕ) (valid : IsValid i.rx_fifo)
    (held : contents i.rx_fifo ≡ tabulate n bytes ++ rest)
    (octets : (k : ℕ) → k < n → bytes k < 2 ^ 8) (announced : i.header 4 ≡ n)
    (expected : i.payload_len ≡ n) where
  abbrev pub payload_fifo : Fifo
  payload_fifo = subview valid 0 n

  there : 0 + n ≤ size i.rx_fifo
  there = omega (
    arith,
    ap length held,
    length-contents i.rx_fifo,
    length-append (tabulate n bytes) rest,
    length-tabulate n bytes,
  )

  start : i.rx_fifo.head_idx + 0 ≤ i.rx_fifo.max_size
  start = omega (arith, valid.head_in)

  pub payload_fifo-IsValid : IsValid payload_fifo
  payload_fifo-IsValid = subview-IsValid valid 0 n there start

  take_payload : take n (tabulate n bytes ++ rest) ≡ tabulate n bytes
  take_payload =
      ap (λ m. take m (tabulate n bytes ++ rest)) (sym (length-tabulate n bytes))
      ∙ take-append (tabulate n bytes) rest

  pub contents-payload_fifo : contents payload_fifo ≡ tabulate n bytes
  contents-payload_fifo = contents-subview valid 0 n there start ∙ ap (take n) held ∙ take_payload

  reaches :
      parse_payload call (i, w) ≡ parse_verified call payload_fifo (verify_payload i payload_fifo) w
  unfolding parse_payload
  reaches =
      let complete : ltb (Fifo.get_size i.rx_fifo) n ≡ false =
        ground (arith, there, get_size_lem valid) in
      rw (expected, complete, init_subview-eq valid 0 n there) refl

  -- A payload whose checksum is the one in the header is handed to the chain of handlers, in a fifo
  -- that holds exactly the payload; then what they took is popped, and the search for a header goes on.
  pub parse_payload_accepts :
      i.header 5 ≡ ccitt 0xffff (tabulate n bytes) / 2 ^ 8 % 2 ^ 8
      → i.header 6 ≡ ccitt 0xffff (tabulate n bytes) % 2 ^ 8
      → parse_payload call (i, w) ≡ (
          dispatch call payload_fifo (counted i, w) >>= λ (taken, i', w').
          done (finish (pop_parsed i' taken), w'))
  unfolding parse_verified
  parse_payload_accepts high low =
      let (decides, after) =
        verify_payload_iff i payload_fifo n bytes payload_fifo-IsValid contents-payload_fifo octets
          announced in
      reaches
      ∙ ap (λ v. parse_verified call payload_fifo v w)
          (ap₂ (λ a b. (a, b)) (decides.1 (high, low)) after)

  -- A payload with another checksum is not handed on, and its bytes stay in the fifo: they are
  -- searched for a header next.
  pub parse_payload_rejects :
      ¬ (
        (i.header 5 ≡ ccitt 0xffff (tabulate n bytes) / 2 ^ 8 % 2 ^ 8)
        × (i.header 6 ≡ ccitt 0xffff (tabulate n bytes) % 2 ^ 8))
      → parse_payload call (i, w) ≡ done (finish (counted i), w)
  unfolding parse_verified
  parse_payload_rejects wrong =
      let (decides, after) =
        verify_payload_iff i payload_fifo n bytes payload_fifo-IsValid contents-payload_fifo octets
          announced in
      elim (Bool-cases (verify_payload i payload_fifo).0) [
        | inl accepted ↦ absurd (wrong (decides.0 accepted))
        | inr rejected ↦
            reaches
            ∙ ap (λ v. parse_verified call payload_fifo v w) (ap₂ (λ a b. (a, b)) rejected after)
      ]

bind_assoc :
    {A B C : Type 0} (m : Outcome A) (f : A → Outcome B) (g : B → Outcome C)
    → (m >>= f >>= g) ≡ (m >>= λ a. f a >>= g)
bind_assoc (done a) f g = refl
bind_assoc (fault e) f g = refl

module _ {W : Type 0} (call : ℕ → Fifo → Interface × W → Outcome (Fifo × Interface × W))
    (i : Interface) (w : W) where
  pub process_header :
      i.parsed_header ≡ false
      → process_rx_fifo call (i, w) ≡ done ((parse_header i).0, (parse_header i).1, w)
  unfolding process_rx_fifo
  process_header e = rw e refl

  pub process_payload :
      i.parsed_header ≡ true
      → process_rx_fifo call (i, w)
        ≡ (parse_payload call (i, w) >>= λ (i', w'). done (returns, i', w'))
  unfolding process_rx_fifo
  process_payload e = rw e refl

-- Two runs of `process_rx_fifo` on a frame with a payload of at least one byte, with anything
-- behind it: the first takes the header and unlocks the mutex, so that there is a second, in which
-- the chain of handlers gets a fifo with exactly the payload, and then what they took is popped.
pub frame_delivered :
    {W : Type 0} (call : ℕ → Fifo → Interface × W → Outcome (Fifo × Interface × W)) (i : Interface)
    (w : W) (counter type_ n : ℕ) (bytes : Bytes) (rest : List ℕ)
    → IsValid i.rx_fifo
    → i.parsed_header ≡ false
    → contents i.rx_fifo ≡ encode_frame counter type_ (tabulate n bytes) ++ rest
    → 0 < n
    → ((k : ℕ) → k < n → bytes k < 2 ^ 8)
    → (j : Interface) × (g : Fifo) × (process_rx_fifo call (i, w) ≡ done (returns, j, w))
      × (j.locked ≡ false)
      × (process_rx_fifo call (j, w) ≡ (
          dispatch call g (counted j, w) >>= λ (taken, i', w').
          done (returns, finish (pop_parsed i' taken), w')))
      × IsValid g
      × (contents g ≡ tabulate n bytes)
      × (contents j.rx_fifo ≡ tabulate n bytes ++ rest)
      × HasHeader j.header counter type_ n (ccitt 0xffff (tabulate n bytes))
      × IsValid j.rx_fifo
      × (j.payload_len ≡ n)
      × (j.alp_handler ≡ i.alp_handler)
unfolding take_header
frame_delivered {W} call i w counter type_ n bytes rest valid idle held some_bytes octets =
    let payload = tabulate n bytes in
    let regroup = held ∙ append_assoc (encode_header counter type_ payload) payload rest in
    let more : 0 < length (payload ++ rest) =
      omega (arith, some_bytes, length-append payload rest, length-tabulate n bytes) in
    let (ran, header, len, v, left) =
      parse_header_lem i counter type_ payload (payload ++ rest) valid regroup more in
    let j = take_header (peeked i counter type_ payload (payload ++ rest) valid regroup more) in
    let announced = header.announced ∙ length-tabulate n bytes in
    let expected = len ∙ length-tabulate n bytes in
    let accepts =
      parse_payload_accepts call j w n bytes rest v left octets announced expected header.crc_high
        header.crc_low in
    (
      j,
      payload_fifo call j w n bytes rest v left octets announced expected,
      process_header call i w idle ∙ ap (λ r. done (r.0, r.1, w)) ran,
      refl,
      process_payload call j w refl
          ∙ ap (λ m. m >>= λ (i', w'). done (returns, i', w')) accepts
          ∙ bind_assoc {A = Fifo × Interface × W} {B = Interface × W}
              (dispatch call (payload_fifo call j w n bytes rest v left octets announced expected)
                (counted j, w))
              (λ (taken, i', w'). done (finish (pop_parsed i' taken), w'))
              (λ (i', w'). done (returns, i', w')),
      payload_fifo-IsValid call j w n bytes rest v left octets announced expected,
      contents-payload_fifo call j w n bytes rest v left octets announced expected,
      left,
      rw length-tabulate at header,
      v,
      expected,
      refl,
    )
