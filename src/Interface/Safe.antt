-- ===== src/Interface/Safe.antt =====
-- The receiving side, its invariant, and where it stops the program.
use riot_oss7_modem.Common.{
  ℕ, ◌+◌, ◌≤◌, ◌≡◌, inl, inr, refl, ap, ◌∙◌, Bool, true, false, not, ◌||◌, Bool-cases, [], ◌∷◌,
  ◌++◌, take, ◌⊎◌, Fault, ltb, ◌==◌, Option, none, some, Outcome, done, fault, assertion, ◌>>=◌,
  arith, dec_le,
}
use mathlib.Core.Bool.{false≢true}
use riot_oss7_modem.Fifo
use riot_oss7_modem.Fifo.{Fifo, success}
use riot_oss7_modem.Fifo.Valid.{IsValid, size, contents, get_size_lem}
use riot_oss7_modem.Fifo.Put.{IsWritable, HasRoom, put_appends, put_refuses}
use riot_oss7_modem.Fifo.Take.{skip_lem, too_short}
use riot_oss7_modem.Fifo.View.{contents-subview, subview, init_subview-eq, subview-IsValid}
use riot_oss7_modem.Interface.{Interface, transfer_bytes}
use riot_oss7_modem.Interface.Receive.{
  verify_payload, Next, returns, resync, take_header, examine_header, parse_header, finish,
  pop_parsed, selects, call_pointer, dispatch, parse_verified, parse_payload, process_rx_fifo,
  uart_rx_cb, received_byte,
}
use riot_oss7_modem.Interface.Deliver.{process_header, process_payload}

skip_own : (f : Fifo) (len : ℕ) → (Fifo.skip f len).1.is_subview ≡ f.is_subview
unfolding Fifo.skip
skip_own f len = ground arith

pub skip-IsWritable : {f : Fifo} (len : ℕ) → IsWritable f → IsWritable (Fifo.skip f len).1
skip-IsWritable {f} len w = elim (dec_le len (size f)) [
  | yes h ↦
      let (_, _, v, _) = skip_lem w.valid len h in
      record { valid = v; own = skip_own f len ∙ w.own }
  | no h ↦ let e = (too_short w.valid len (λ _. 0) 0 (omega arith)).2 in rw e w
]

examine_header-IsWritable :
    (i : Interface) → IsWritable i.rx_fifo → IsWritable (examine_header i).1.rx_fifo
unfolding examine_header resync take_header
examine_header-IsWritable i w =
    elim (Bool-cases (not (i.header 0 == 0xc0) || not (i.header 1 == 0x00))) [
      | inl e ↦ rw e (skip-IsWritable 1 w)
      | inr e ↦ rw e (skip-IsWritable 7 w)
    ]

parse_header-IsWritable :
    (i : Interface) → IsWritable i.rx_fifo → IsWritable (parse_header i).1.rx_fifo
unfolding parse_header
parse_header-IsWritable i w = elim (Bool-cases (ltb 7 (Fifo.get_size i.rx_fifo))) [
  | inr e ↦ rw e w
  | inl e ↦
      rw e
        (examine_header-IsWritable (record i { header = (Fifo.peek i.rx_fifo i.header 0 7).1 }) w)
]

-- The pointer is the registered one for the type in the header.
abbrev pub IsFor : ℕ → Interface → Type 0
IsFor p i =
    ((i.alp_handler ≡ some p) × (i.header 3 ≡ 1))
    ⊎ ((i.ping_response_handler ≡ some p) × (i.header 3 ≡ 3))
    ⊎ ((i.logging_handler ≡ some p) × (i.header 3 ≡ 4))

module _ {W : Type 0} (call : ℕ → Fifo → Interface × W → Outcome (Fifo × Interface × W)) where
  -- A handler that returns leaves the receiving fifo in order.
  abbrev pub HandlersKeepFifo : Type 0
  HandlersKeepFifo =
      (p : ℕ) (g g' : Fifo) (i i' : Interface) (w w' : W)
      → call p g (i, w) ≡ done (g', i', w')
      → IsWritable i.rx_fifo
      → IsWritable i'.rx_fifo

  -- A handler that stops the program, on a whole payload whose checksum is right.
  pub record Stopped (i : Interface) (w : W) (e : Fault) : Type 0 where
    pub pointer : ℕ
    pub payload : Fifo
    pub announced : i.parsed_header ≡ true
    pub whole : i.payload_len ≤ size i.rx_fifo
    pub held : contents payload ≡ take i.payload_len (contents i.rx_fifo)
    pub valid : IsValid payload
    pub checked : (verify_payload i payload).0 ≡ true
    pub selected : IsFor pointer i
    pub stops : call pointer payload ((verify_payload i payload).1, w) ≡ fault e

  abbrev Called : Fifo → Interface → W → Outcome (Fifo × Interface × W) → Type 0
  Called g i w r =
      ((g' : Fifo) × (i' : Interface) × (w' : W) × (r ≡ done (g', i', w')) × IsWritable i'.rx_fifo)
      ⊎ ((e : Fault) × (p : ℕ) × (r ≡ fault e) × IsFor p i × (call p g (i, w) ≡ fault e))

  abbrev Parsed : Interface → W → Outcome (Interface × W) → Type 0
  Parsed i w r =
      ((j : Interface) × (w' : W) × (r ≡ done (j, w')) × IsWritable j.rx_fifo)
      ⊎ ((e : Fault) × (r ≡ fault e) × Stopped i w e)

  module _ (keep : HandlersKeepFifo) where
    call-Called :
        (p : ℕ) (g : Fifo) (i : Interface) (w : W)
        → IsWritable i.rx_fifo
        → IsFor p i
        → Called g i w (call p g (i, w))
    call-Called p g i w k selected = returned (call p g (i, w)) refl
      where
        returned : (r : Outcome (Fifo × Interface × W)) → call p g (i, w) ≡ r → Called g i w r
        returned (fault e) ran = inr (e, p, refl, selected, ran)
        returned (done (g', i', w')) ran = inl (g', i', w', refl, keep p g g' i i' w w' ran k)

    pointer-Called :
        (h : Option ℕ) (b : Bool) (g : Fifo) (i : Interface) (w : W)
        → IsWritable i.rx_fifo
        → selects h b ≡ true
        → ((p : ℕ) → h ≡ some p → b ≡ true → IsFor p i)
        → Called g i w (call_pointer call h g (i, w))
    unfolding call_pointer
    pointer-Called none b g i w k e selected = absurd (false≢true e)
    pointer-Called (some p) b g i w k e selected = call-Called p g i w k (selected p refl e)

    dispatch-Called :
        (g : Fifo) (i : Interface) (w : W)
        → IsWritable i.rx_fifo
        → Called g i w (dispatch call g (i, w))
    unfolding dispatch transfer_bytes
    dispatch-Called g i w k = elim (Bool-cases (selects i.alp_handler (i.header 3 == 1))) [
      | inl a ↦ rw a (
          pointer-Called i.alp_handler (i.header 3 == 1) g i w k a
            (λ p h t. inl (h, ground (arith, t))))
      | inr a ↦ elim (Bool-cases (selects i.ping_response_handler (i.header 3 == 3))) [
        | inl b ↦
            rw (a, b)
              (pointer-Called i.ping_response_handler (i.header 3 == 3) g i w k b
                (λ p h t. inr (inl (h, ground (arith, t)))))
        | inr b ↦ elim (Bool-cases (selects i.logging_handler (i.header 3 == 4))) [
          | inl c ↦
              rw (a, b, c)
                (pointer-Called i.logging_handler (i.header 3 == 4) g i w k c
                  (λ p h t. inr (inr (h, ground (arith, t)))))
          | inr c ↦ elim (Bool-cases (i.header 3 == 2)) [
            | inl d ↦ rw (a, b, c, d) (inl (_, _, _, refl, k))
            | inr d ↦ rw (a, b, c, d) (inl (_, _, _, refl, k))
          ]
        ]
      ]
    ]

    -- A payload that is there, in the subview `g`.
    module _ (i : Interface) (w : W) (k : IsWritable i.rx_fifo) (g : Fifo)
        (announced : i.parsed_header ≡ true) (whole : i.payload_len ≤ size i.rx_fifo)
        (held : contents g ≡ take i.payload_len (contents i.rx_fifo)) (valid : IsValid g) where
      after_dispatch :
          (r : Outcome (Fifo × Interface × W))
          → (verify_payload i g).0 ≡ true
          → Called g (verify_payload i g).1 w r
          → Parsed i w (r >>= λ (g', i', w'). done (finish (pop_parsed i' g'), w'))
      unfolding finish pop_parsed verify_payload
      after_dispatch r checked (inl (g', i', w', ran, k')) =
          inl (finish (pop_parsed i' g'), w', rw ran refl, skip-IsWritable _ k')
      after_dispatch r checked (inr (e, p, ran, selected, stops)) = inr (
        e,
        rw ran refl,
        record {
          pointer = p;
          payload = g;
          announced = announced;
          whole = whole;
          held = held;
          valid = valid;
          checked = checked;
          selected = selected;
          stops = stops;
        },
      )

      verified :
          (b : Bool)
          → (verify_payload i g).0 ≡ b
          → Parsed i w (parse_verified call g (b, (verify_payload i g).1) w)
      unfolding parse_verified finish verify_payload
      verified false e = inl (finish (verify_payload i g).1, w, refl, k)
      verified true e =
          after_dispatch (dispatch call g ((verify_payload i g).1, w)) e
            (dispatch-Called g (verify_payload i g).1 w k)

    parse_payload-Parsed :
        (i : Interface) (w : W)
        → IsWritable i.rx_fifo
        → i.parsed_header ≡ true
        → Parsed i w (parse_payload call (i, w))
    unfolding parse_payload
    parse_payload-Parsed i w k announced =
        elim (Bool-cases (ltb (Fifo.get_size i.rx_fifo) i.payload_len)) [
          | inl e ↦ rw e (inl (i, w, refl, k))
          | inr e ↦
              let v = k.valid in
              let there : 0 + i.payload_len ≤ size i.rx_fifo = ground (arith, e, get_size_lem v) in
              let start : i.rx_fifo.head_idx + 0 ≤ i.rx_fifo.max_size = omega (arith, v.head_in) in
              let g = subview v 0 i.payload_len in
              rw (e, init_subview-eq v 0 i.payload_len there)
                (verified i w k g announced (omega (arith, there))
                  (contents-subview v 0 i.payload_len there start)
                  (subview-IsValid v 0 i.payload_len there start) (verify_payload i g).0 refl)
        ]

    -- If the handlers that return leave the receiving fifo in order: whatever bytes came in and whatever the headers
    -- announce, `process_rx_fifo` either returns and leaves a fifo that can be received into, or it is a handler that
    -- stops the program.
    pub process_rx_fifo_returns :
        (i : Interface) (w : W)
        → IsWritable i.rx_fifo
        → ((next : Next) × (j : Interface) × (w' : W) × (process_rx_fifo call (i, w)
              ≡ done (next, j, w'))
            × IsWritable j.rx_fifo)
          ⊎ ((e : Fault) × (process_rx_fifo call (i, w) ≡ fault e) × Stopped i w e)
    process_rx_fifo_returns i w k = elim (Bool-cases i.parsed_header) [
      | inl e ↦ elim (parse_payload-Parsed i w k e) [
        | inl (j, w', ran, k') ↦ inl (
          returns,
          j,
          w',
          process_payload call i w e ∙ ap (λ m. m >>= λ (i', w'). done (returns, i', w')) ran,
          k',
        )
        | inr (stop, ran, stopped) ↦ inr (
          stop,
          process_payload call i w e ∙ ap (λ m. m >>= λ (i', w'). done (returns, i', w')) ran,
          stopped,
        )
      ]
      | inr e ↦ inl (
        (parse_header i).0,
        (parse_header i).1,
        w,
        process_header call i w e,
        parse_header-IsWritable i k,
      )
    ]

-- `uart_rx_cb` appends the byte and unlocks the mutex of the thread; without room it stops the
-- program.
pub uart_rx_cb_lem :
    (i : Interface) (byte : ℕ)
    → IsWritable i.rx_fifo
    → (HasRoom i.rx_fifo 1
        → (j : Interface) × (uart_rx_cb i byte ≡ done j)
          × (contents j.rx_fifo ≡ contents i.rx_fifo ++ (byte ∷ []))
          × IsWritable j.rx_fifo
          × (j.locked ≡ false))
      × (¬ HasRoom i.rx_fifo 1 → uart_rx_cb i byte ≡ fault assertion)
unfolding uart_rx_cb received_byte
uart_rx_cb_lem i byte w = (
  λ room.
      let (ok, appended, w', _) = put_appends (λ _. byte) 1 w room in
      (
        record i { rx_fifo = (Fifo.put i.rx_fifo (λ _. byte) 1).1; locked = false },
        ap (λ e. received_byte i (e, (Fifo.put i.rx_fifo (λ _. byte) 1).1)) ok,
        appended,
        w',
        refl,
      ),
  λ full. ap (received_byte i) (put_refuses (λ _. byte) 1 w (omega arith) full),
)
