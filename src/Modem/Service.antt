-- ===== src/Modem/Service.antt =====
-- `process_serial_frame` as the handler that `modem_init` registers: from the bytes of the serial line to the
-- caller's buffer.
use riot_oss7_modem.Common.{
  ℕ, ◌^◌, ◌≤◌, ◌<◌, ◌≡◌, refl, sym, ap, ◌∙◌, Bool, true, false, List, [], ◌∷◌, ◌++◌, tabulate,
  length, length-append, get_or, drop, drop-append, sub16, Option, none, some, Outcome, done, fault,
  assertion, ◌>>=◌, arith,
}
use riot_oss7_modem.Common.Memory.{Bytes}
use riot_oss7_modem.Fifo
use riot_oss7_modem.Fifo.{Fifo}
use riot_oss7_modem.Fifo.Valid.{IsValid, size, contents, length-contents, get_size_lem}
use riot_oss7_modem.Fifo.Take.{skip_lem}
use riot_oss7_modem.Alp.Encoding.{control, encode_file_data}
use riot_oss7_modem.Alp.Front.{Holds}
use riot_oss7_modem.Common.Octets.{AreOctets, tabulate-get_or, get_or-octet}
use riot_oss7_modem.Interface.{Interface}
use riot_oss7_modem.Interface.Frame.{encode_frame}
use riot_oss7_modem.Interface.Receive.{
  returns, finish, pop_parsed, dispatch, call_pointer, process_rx_fifo,
}
use riot_oss7_modem.Interface.Deliver.{counted, frame_delivered}
use riot_oss7_modem.Modem.{Modem}
use riot_oss7_modem.Modem.Serial.{process_serial_frame}
use riot_oss7_modem.Modem.Replies.{read_reply}

-- The result of a handler that ends; `process_serial_frame` always does.
unfoldable pub ended : Option (Outcome (Fifo × Modem)) → Outcome (Fifo × Interface × Modem)
ended none = fault assertion
ended (some r) = r >>= λ (g, m). done (g, m.interface, m)

-- The call of the registered handler. The modem's state has the interface in it, too.
unfoldable pub call_handler :
    (ℕ → Bytes) → ℕ → Fifo → Interface × Modem → Outcome (Fifo × Interface × Modem)
unfolding ended
call_handler stale p g (i, m) = ended (process_serial_frame stale g (record m { interface = i }))

-- What was taken off the subview is taken off the fifo.
pop_parsed_all :
    (i : Interface) (g : Fifo) (xs rest : List ℕ)
    → IsValid i.rx_fifo
    → contents i.rx_fifo ≡ xs ++ rest
    → i.payload_len ≡ length xs
    → length xs < 2 ^ 8
    → Holds g []
    → contents (pop_parsed i g).rx_fifo ≡ rest
unfolding pop_parsed
pop_parsed_all i g xs rest v held len short empty =
    let none_left : Fifo.get_size g ≡ 0 =
      get_size_lem empty.0 ∙ sym (length-contents g) ∙ ap length empty.1 in
    let all : sub16 i.payload_len (Fifo.get_size g) ≡ length xs =
      omega (arith, none_left, len, short) in
    let fits : length xs ≤ size i.rx_fifo =
      omega (arith, ap length held, length-contents i.rx_fifo, length-append xs rest) in
    let (_, left, _, _) = skip_lem v (length xs) fits in
    ap (λ n. contents (Fifo.skip i.rx_fifo n).1) all
    ∙ left
    ∙ ap (drop (length xs)) held
    ∙ drop-append xs rest

dispatch_alp :
    {W : Type 0} (call : ℕ → Fifo → Interface × W → Outcome (Fifo × Interface × W)) (g : Fifo)
    (i : Interface) (w : W) (p : ℕ)
    → i.alp_handler ≡ some p
    → i.header 3 ≡ 1
    → dispatch call g (i, w) ≡ call p g (i, w)
unfolding dispatch call_pointer
dispatch_alp call g i w p a e = rw (a, e) refl

-- `frame_delivered` for a handler of ALP frames that takes the whole payload.
alp_frame :
    {W : Type 0} (call : ℕ → Fifo → Interface × W → Outcome (Fifo × Interface × W)) (i : Interface)
    (w : W) (p counter : ℕ) (xs rest : List ℕ) (Q : W → Type 0)
    → IsValid i.rx_fifo
    → i.parsed_header ≡ false
    → i.alp_handler ≡ some p
    → contents i.rx_fifo ≡ encode_frame counter 1 xs ++ rest
    → AreOctets xs
    → 0 < length xs
    → length xs < 2 ^ 8
    → ((g : Fifo) (j : Interface)
        → Holds g xs
        → (g' : Fifo) × (w' : W) × (call p g (j, w) ≡ done (g', j, w')) × Holds g' [] × Q w')
    → (j j' : Interface) × (w' : W) × (process_rx_fifo call (i, w) ≡ done (returns, j, w))
      × (j.locked ≡ false)
      × (process_rx_fifo call (j, w) ≡ done (returns, j', w'))
      × (contents j'.rx_fifo ≡ rest)
      × Q w'
unfolding finish
alp_frame call i w p counter xs rest Q v idle registered held octets some_bytes short handles =
    let read : Bytes = λ k. get_or xs k 0 in
    let all = tabulate-get_or xs in
    let (j, g, first, unlocked, second, valid, holds, left, header, v', len, kept) =
      frame_delivered call i w counter 1 (length xs) read rest v idle
        (held ∙ ap (λ l. encode_frame counter 1 l ++ rest) (sym all)) some_bytes
        (get_or-octet xs octets) in
    let (g', w', ran, empty, result) = handles g (counted j) (valid, holds ∙ all) in
    (
      j,
      finish (pop_parsed (counted j) g'),
      w',
      first,
      unlocked,
      second
          ∙ ap (λ r. r >>= λ (taken, i', w'). done (returns, finish (pop_parsed i' taken), w'))
              (dispatch_alp call g (counted j) w p (kept ∙ registered) header.typed ∙ ran),
      pop_parsed_all (counted j) g' xs rest v' (left ∙ ap (λ l. l ++ rest) all) len short empty,
      result,
    )

module _ (stale : ℕ → Bytes) (i : Interface) (m : Modem) (p counter file_id offset n tag_id : ℕ)
    (b6 b7 error : Bool) (bytes : Bytes) (rest : List ℕ) where
  abbrev pub payload : List ℕ
  payload =
      control 32 b6 b7 ∷ encode_file_data file_id offset n bytes
      ++ (control 35 error true ∷ tag_id ∷ [])

  -- From the serial line to the caller: when the receiving fifo holds the frame with the reply to a
  -- synchronous read, two runs of `process_rx_fifo` copy exactly the data to the caller's buffer, wake the
  -- caller up with the modem's error flag, free the modem, and leave what is behind the frame.
  pub read_completes :
      IsValid i.rx_fifo
      → i.parsed_header ≡ false
      → i.alp_handler ≡ some p
      → contents i.rx_fifo ≡ encode_frame counter 1 payload ++ rest
      → AreOctets payload
      → length payload < 2 ^ 8
      → offset < 2 ^ 30
      → n < 256
      → m.command.execute_synchronuous ≡ true
      → n ≤ m.command.response_size
      → m.command.tag_id ≡ tag_id
      → (j j' : Interface) × (m' : Modem) × (process_rx_fifo (call_handler stale) (i, m)
          ≡ done (returns, j, m))
        × (j.locked ≡ false)
        × (process_rx_fifo (call_handler stale) (j, m) ≡ done (returns, j', m'))
        × (contents j'.rx_fifo ≡ rest)
        × ((tabulate n m'.command.response_buffer ≡ tabulate n bytes)
            × (m'.locked ≡ false)
            × (m'.command.is_active ≡ false)
            × (m'.command.completed_with_error ≡ error))
  unfolding call_handler ended
  read_completes v idle registered held octets short offset_small n_small synchronous fits same =
      alp_frame (call_handler stale) i m p counter payload rest
        (λ m'.
          (tabulate n m'.command.response_buffer ≡ tabulate n bytes)
          × (m'.locked ≡ false)
          × (m'.command.is_active ≡ false)
          × (m'.command.completed_with_error ≡ error))
        v idle registered held octets (omega arith) short
        (λ g j holds.
          let (g', m', ran, copied, _, unlocked, inactive, result, interface, empty) =
            read_reply stale g (record m { interface = j }) b6 b7 error file_id offset n tag_id
              bytes offset_small n_small synchronous holds fits same in
          (
            g',
            m',
            ap ended ran ∙ ap (λ k. done (g', k, m')) interface,
            empty,
            (copied, unlocked, inactive, result),
          ))
