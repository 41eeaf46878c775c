-- ===== src/Interface/Stream/Tests.antt =====
-- Two bytes of ALP in one frame, byte by byte.
use riot_oss7_modem.Common.{
  ℕ, length, ap, ◌≡◌, ◌++◌, refl, true, false, ◌∙◌, List, [], ◌∷◌, get_or, none, some, Outcome,
  done, arith,
}
use riot_oss7_modem.Fifo
use riot_oss7_modem.Fifo.{Fifo}
use riot_oss7_modem.Fifo.Valid.{size, contents, get_size_lem}
use riot_oss7_modem.Fifo.Take.{skip_lem}
use riot_oss7_modem.Interface.{Interface, idle}
use riot_oss7_modem.Interface.Send.{IsFlushed}
use riot_oss7_modem.Interface.Thread.{Place, at_loop}
use riot_oss7_modem.Interface.Stream.{Frame, encode_frames, AreSendable, Delivered, Steps, followed}
use riot_oss7_modem.Interface.Stream.Dispatch.{TakesPayload}
use riot_oss7_modem.Interface.Stream.Delivery.{
  IsEmpty, stream_in_order, stream_complete, stream_settles,
}
use riot_oss7_modem.Interface.Stream.Arrival.{arrives}
use riot_oss7_modem.Interface.Stream.Link.{
  numbered, transfer_all, transfer_all-sends, link_delivers,
}

abbrev empty_of : ℕ → Fifo
empty_of max_size = record {
  head_idx = 0;
  tail_idx = 0;
  max_size = max_size;
  buffer = λ _. 0;
  is_subview = false;
}

abbrev node : Interface
node = record {
  rx_fifo = empty_of 255;
  tx_fifo = empty_of 254;
  request_pending = false;
  header = λ _. 0;
  payload_len = 0;
  packet_up_counter = 0;
  packet_down_counter = 0;
  uart_state_pin = 0;
  target_uart_state_pin = 0;
  listen_uart_inited = true;
  parsed_header = false;
  alp_handler = some 1;
  ping_response_handler = none;
  logging_handler = none;
  locked = true;
  state = idle;
  uart_out = [];
}

-- A handler that keeps the payloads, the last in front.
abbrev keeps : ℕ → Fifo → Interface × List (List ℕ) → Outcome (Fifo × Interface × List (List ℕ))
keeps p g s = done ((Fifo.skip g (size g)).1, s.0, contents g ∷ s.1)

abbrev AnyPayload : List ℕ → Type 0
AnyPayload payload = Unit

abbrev AnyState : List (List ℕ) → Type 0
AnyState w = Unit

abbrev Kept : List ℕ → List (List ℕ) → List (List ℕ) → Type 0
Kept payload w w' = w' ≡ payload ∷ w

keeps-TakesPayload : TakesPayload keeps 1 AnyPayload AnyState Kept
keeps-TakesPayload g i w v ok inv =
    let (_, _, v', left) = skip_lem v (size g) (omega arith) in
    (
      (Fifo.skip g (size g)).1,
      i,
      contents g ∷ w,
      refl,
      refl,
      tt,
      get_size_lem v' ∙ omega (arith, left),
      record {
        rx_fifo = refl;
        payload_len = refl;
        locked = refl;
        alp_handler = refl;
        ping_response_handler = refl;
        logging_handler = refl;
      },
    )

abbrev frame : Frame
frame = record { counter = 1; type_ = 1; length = 2; bytes = λ k. get_or (5 ∷ 6 ∷ []) k 0 }

frame-AreSendable : AreSendable AnyPayload (frame ∷ [])
frame-AreSendable = (
  record {
    some_bytes = omega arith;
    short = omega arith;
    octets = λ k h. ground (arith, h);
    ping = λ e. ground (arith, e);
    accepted = λ e. tt;
  },
  tt,
)

node-IsEmpty : IsEmpty 1 node
node-IsEmpty = record {
  writable = record { valid = omega arith; own = refl };
  registered = record { alp = refl; no_ping = refl; no_logging = refl };
  idle = refl;
  empty = refl;
}

-- All bytes arrive before the thread runs.
arrival :
    (j : Interface) × Steps keeps (at_loop, node, []) (encode_frames (frame ∷ [])) (at_loop, j, [])
arrival =
    arrives keeps at_loop [] (encode_frames (frame ∷ [])) node node-IsEmpty.writable (omega arith)

stream_in_order_example :
    (delivered pending : List Frame) × (frame ∷ [] ≡ delivered ++ pending)
    × Delivered Kept delivered [] []
    × (at_loop ≡ at_loop)
stream_in_order_example =
    stream_in_order keeps 1 AnyPayload AnyState Kept keeps-TakesPayload (frame ∷ []) node []
      (encode_frames (frame ∷ [])) [] (at_loop, arrival.0, []) node-IsEmpty tt frame-AreSendable
      refl arrival.1

-- The state of that node in which everything is handed on.
handed_on :
    (u : Place × Interface × List (List ℕ)) × Steps keeps
      (at_loop, node, [])
      (encode_frames (frame ∷ []))
      u
    × (u.1.locked ≡ true)
handed_on =
    let (u, more, waits, _, _) =
      stream_settles keeps 1 AnyPayload AnyState Kept keeps-TakesPayload (frame ∷ []) node []
        (at_loop, arrival.0, []) node-IsEmpty tt frame-AreSendable arrival.1 in
    (u, followed keeps arrival.1 more, waits)

stream_complete_example : Delivered Kept (frame ∷ []) [] handed_on.0.2 × IsEmpty 1 handed_on.0.1
stream_complete_example =
    stream_complete keeps 1 AnyPayload AnyState Kept keeps-TakesPayload (frame ∷ []) node []
      handed_on.0 node-IsEmpty tt frame-AreSendable handed_on.1 handed_on.2

stream_settles_example :
    (u : Place × Interface × List (List ℕ)) × Steps keeps (at_loop, arrival.0, []) [] u
    × (u.1.locked ≡ true)
    × Delivered Kept (frame ∷ []) [] u.2
    × IsEmpty 1 u.1
stream_settles_example =
    stream_settles keeps 1 AnyPayload AnyState Kept keeps-TakesPayload (frame ∷ []) node []
      (at_loop, arrival.0, []) node-IsEmpty tt frame-AreSendable arrival.1

node-IsFlushed : IsFlushed node.tx_fifo
node-IsFlushed = record {
  writable = record { valid = omega arith; own = refl };
  empty = refl;
  capacity = refl;
}

sent : (transfer_all node (frame ∷ [])).uart_out ≡ encode_frames (numbered 0 (frame ∷ []))
sent =
    transfer_all-sends AnyPayload node (frame ∷ []) node-IsFlushed frame-AreSendable
      (omega arith, tt)

sent_arrival :
    (j : Interface) × Steps keeps
      (at_loop, node, [])
      (transfer_all node (frame ∷ [])).uart_out
      (at_loop, j, [])
sent_arrival =
    arrives keeps at_loop [] (transfer_all node (frame ∷ [])).uart_out node node-IsEmpty.writable
      (omega (arith, ap length sent))

link_delivers_example :
    (u : Place × Interface × List (List ℕ)) × Steps keeps (at_loop, sent_arrival.0, []) [] u
    × (u.1.locked ≡ true)
    × Delivered Kept (frame ∷ []) [] u.2
    × IsEmpty 1 u.1
link_delivers_example =
    link_delivers keeps 1 AnyPayload AnyState Kept node node [] (frame ∷ [])
      (at_loop, sent_arrival.0, []) keeps-TakesPayload node-IsFlushed refl node-IsEmpty tt
      frame-AreSendable (omega arith, tt) sent_arrival.1
