-- ===== src/Apps/Printed.antt =====
-- From the serial line to the printed lines: data that the modem writes on its own, frame after frame.
use riot_oss7_modem.Common.{
  ℕ, ◌^◌, ◌<◌, ◌≡◌, refl, sym, ap, ◌∙◌, true, false, List, [], ◌∷◌, ◌++◌, append-nil, append_assoc,
  length, get_or, Option, some, Outcome, done, arith,
}
use riot_oss7_modem.Common.Memory.{Bytes}
use riot_oss7_modem.Common.Octets.{AreOctets, tabulate-get_or, get_or-octet}
use riot_oss7_modem.Fifo.{Fifo}
use riot_oss7_modem.Fifo.Valid.{length-contents, get_size_lem}
use riot_oss7_modem.Alp.Encoding.{control, encode_file_data}
use riot_oss7_modem.Alp.Operand.{received}
use riot_oss7_modem.Interface.{Interface}
use riot_oss7_modem.Interface.Thread.{Place, at_loop}
use riot_oss7_modem.Interface.Stream.{
  Frame, payload, encode_frames, AreSendable, Delivered, nothing, handed, passed, Steps,
}
use riot_oss7_modem.Interface.Stream.Dispatch.{TakesPayload, same}
use riot_oss7_modem.Interface.Stream.Delivery.{IsEmpty, stream_settles}
use riot_oss7_modem.Modem.{Modem, Event}
use riot_oss7_modem.Modem.Service.{call_handler, ended}
use riot_oss7_modem.Apps.{Line, modem_callbacks, on_event, modem_write_file_data}
use riot_oss7_modem.Apps.Unsolicited.{write_printed}

-- What the calls of callbacks printed.
abbrev pub printed : List Event → List Line
printed [] = []
printed (e ∷ es) = on_event e ++ printed es

printed-append : (es : List Event) (e : Event) → printed (es ++ (e ∷ [])) ≡ printed es ++ on_event e
printed-append [] e = append-nil (on_event e)
printed-append (d ∷ es) e =
    ap (λ l. on_event d ++ l) (printed-append es e)
    ∙ sym (append_assoc (on_event d) (printed es) (on_event e))

-- A frame in which the modem writes file data.
pub record Write : Type 0 where
  pub counter : ℕ
  pub file_id : ℕ
  pub offset : ℕ
  pub count : ℕ
  pub bytes : Bytes

abbrev pub action : Write → List ℕ
action w = control 4 false false ∷ encode_file_data w.file_id w.offset w.count w.bytes ++ []

pub record IsGood (w : Write) : Type 0 where
  pub octets : AreOctets (action w)
  pub short : length (action w) < 2 ^ 8
  pub offset_small : w.offset < 2 ^ 30
  pub count_small : w.count < 256

abbrev pub AreGood : List Write → Type 0
AreGood [] = Unit {0}
AreGood (w ∷ ws) = IsGood w × AreGood ws

abbrev pub frame_of : Write → Frame
frame_of w = record {
  counter = w.counter;
  type_ = 1;
  length = length (action w);
  bytes = λ k. get_or (action w) k 0;
}

abbrev pub frames_of : List Write → List Frame
frames_of [] = []
frames_of (w ∷ ws) = frame_of w ∷ frames_of ws

abbrev pub line_of : Write → Line
line_of w = modem_write_file_data w.file_id (received w.offset) w.count

abbrev pub lines_of : List Write → List Line
lines_of [] = []
lines_of (w ∷ ws) = line_of w ∷ lines_of ws

-- The three parts of what the handler does with a payload.
abbrev Writes : List ℕ → Type 0
Writes xs = (w : Write) × IsGood w × (xs ≡ action w)

abbrev Registered : Modem → Type 0
Registered m = m.callbacks ≡ some modem_callbacks

abbrev Prints : List ℕ → Modem → Modem → Type 0
Prints xs m m' =
    (w : Write)
    → IsGood w
    → xs ≡ action w
    → printed m'.events ≡ printed m.events ++ (line_of w ∷ [])

some_injective :
    {f g : Fifo} {m n : Modem}
    → ◌≡◌ {A = Option (Outcome (Fifo × Modem))} (some (done (f, m))) (some (done (g, n)))
    → m ≡ n
some_injective e = cc

module _ (stale : ℕ → Bytes) (p : ℕ) where
  call_handler-TakesPayload : TakesPayload (call_handler stale) p Writes Registered Prints
  unfolding call_handler ended
  call_handler-TakesPayload g i m v (w, good, held) registered =
      let n : Modem = record m { interface = i } in
      let (g', event, ran, line, empty) =
        write_printed stale g n false false w.file_id w.offset w.count w.bytes good.offset_small
          good.count_small (v, held) registered in
      (
        g',
        i,
        record n { events = m.events ++ (event ∷ []) },
        rw ran refl,
        λ w' good' held'.
            let (_, event', ran', line', _) =
              write_printed stale g n false false w'.file_id w'.offset w'.count w'.bytes
                good'.offset_small good'.count_small (v, held') registered in
            ap (λ m. printed m.events) (some_injective (sym ran ∙ ran'))
            ∙ printed-append m.events event'
            ∙ ap (λ l. printed m.events ++ l) line',
        registered,
        get_size_lem empty.0 ∙ sym (length-contents g') ∙ ap length empty.1,
        same i,
      )

  payload-frame_of : (w : Write) → payload (frame_of w) ≡ action w
  payload-frame_of w = tabulate-get_or (action w)

  frames_of-AreSendable : (ws : List Write) → AreGood ws → AreSendable Writes (frames_of ws)
  frames_of-AreSendable [] good = tt
  frames_of-AreSendable (w ∷ ws) good = (
    record {
      some_bytes = omega arith;
      short = good.0.short;
      octets = get_or-octet (action w) good.0.octets;
      ping = λ e. absurd (omega (arith, e));
      accepted = λ e. (w, good.0, payload-frame_of w);
    },
    frames_of-AreSendable ws good.1,
  )

  all_printed :
      (ws : List Write) (m m' : Modem)
      → AreGood ws
      → Delivered Prints (frames_of ws) m m'
      → printed m'.events ≡ printed m.events ++ lines_of ws
  all_printed [] m _ good (nothing w) = sym (append-nil (printed m.events))
  all_printed (w ∷ ws) m m' good (handed f fs m0 next last e prints rest) =
      all_printed ws next m' good.1 rest
      ∙ ap (λ l. l ++ lines_of ws) (prints w good.0 (payload-frame_of w))
      ∙ append_assoc (printed m.events) (line_of w ∷ []) (lines_of ws)
  all_printed (w ∷ ws) m m' good (passed f fs m0 last n rest) = absurd (n refl)

  -- From the serial line to the lines that are printed, with the callbacks of the programs registered and
  -- an empty receiver: when the bytes of frames in which the modem writes file data have arrived, in
  -- any interleaving with the thread's runs, finitely many runs of the thread lead to a state in which it
  -- waits, exactly one line is printed for each frame, in their order, with the file, the offset as the
  -- operand parser receives it and the length, and the receiver is empty again.
  pub writes_printed :
      (ws : List Write) (i : Interface) (m : Modem) (t : Place × Interface × Modem)
      → IsEmpty p i
      → m.callbacks ≡ some modem_callbacks
      → AreGood ws
      → Steps (call_handler stale) (at_loop, i, m) (encode_frames (frames_of ws)) t
      → (u : Place × Interface × Modem) × Steps (call_handler stale) t [] u
        × (u.1.locked ≡ true)
        × (printed u.2.events ≡ printed m.events ++ lines_of ws)
        × IsEmpty p u.1
  writes_printed ws i m t empty registered good steps =
      let (u, more, waits, delivered, again) =
        stream_settles (call_handler stale) p Writes Registered Prints call_handler-TakesPayload
          (frames_of ws) i m t empty registered (frames_of-AreSendable ws good) steps in
      (u, more, waits, all_printed ws m u.2 good delivered, again)
