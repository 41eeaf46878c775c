-- ===== src/Interface/Stream/Link.antt =====
-- Two ends of a serial line: `modem_interface_transfer_bytes` on one side, `rx_thread` and `uart_rx_cb` on the
-- other.
use riot_oss7_modem.Common.{
  ℕ, ◌+◌, ◌≤◌, ◌≡◌, sym, ap, ◌∙◌, true, List, [], ◌∷◌, ◌++◌, append-nil, append_assoc, u8, Outcome,
}
use riot_oss7_modem.Fifo.{Fifo}
use riot_oss7_modem.Interface.{Interface, transfer_bytes}
use riot_oss7_modem.Interface.Frame.{encode_frame}
use riot_oss7_modem.Interface.Send.{IsFlushed, transfer_sends}
use riot_oss7_modem.Interface.Thread.{Place, at_loop}
use riot_oss7_modem.Interface.Stream.{
  Frame, payload, encode_frames, AreSendable, Delivered, nothing, handed, passed, Steps,
}
use riot_oss7_modem.Interface.Stream.Dispatch.{TakesPayload}
use riot_oss7_modem.Interface.Stream.Delivery.{IsEmpty, stream_settles}

-- One call after the other; the counters of the frames are the sender's.
abbrev pub transfer_all : Interface → List Frame → Interface
transfer_all i [] = i
transfer_all i (f ∷ fs) = transfer_all (transfer_bytes i f.bytes f.length f.type_) fs

abbrev pub numbered : ℕ → List Frame → List Frame
numbered counter [] = []
numbered counter (f ∷ fs) = record f { counter = u8 (counter + 1) } ∷ numbered (u8 (counter + 1)) fs

-- The payloads that `transfer_bytes` sends as a whole.
abbrev pub AreShort : List Frame → Type 0
AreShort [] = Unit {0}
AreShort (f ∷ fs) = (f.length ≤ 246) × AreShort fs

-- What a sequence of calls puts on the line is the frames one behind the other, with the counters that
-- follow each other modulo 256.
pub transfer_all-sends :
    (Ok : List ℕ → Type 0) (i : Interface) (fs : List Frame)
    → IsFlushed i.tx_fifo
    → AreSendable Ok fs
    → AreShort fs
    → (transfer_all i fs).uart_out ≡ i.uart_out ++ encode_frames (numbered i.packet_up_counter fs)
transfer_all-sends Ok i [] idle good short = sym (append-nil i.uart_out)
transfer_all-sends Ok i (f ∷ fs) idle good short =
    let (sent, flushed, counted, _) =
      transfer_sends i f.bytes f.length f.type_ idle good.0.octets short.0 in
    let j = transfer_bytes i f.bytes f.length f.type_ in
    let rest : ℕ → List ℕ = λ c. encode_frames (numbered c fs) in
    transfer_all-sends Ok j fs flushed good.1 short.1
    ∙ ap (λ l. l ++ rest j.packet_up_counter) sent
    ∙ append_assoc i.uart_out (encode_frame (u8 (i.packet_up_counter + 1)) f.type_ (payload f))
        (rest j.packet_up_counter)
    ∙ ap
        (λ c.
          i.uart_out ++ (encode_frame (u8 (i.packet_up_counter + 1)) f.type_ (payload f) ++ rest c))
        counted

AreSendable-numbered :
    (Ok : List ℕ → Type 0) (c : ℕ) (fs : List Frame)
    → AreSendable Ok fs
    → AreSendable Ok (numbered c fs)
AreSendable-numbered Ok c [] good = good
AreSendable-numbered Ok c (f ∷ fs) good = (
  record {
    some_bytes = good.0.some_bytes;
    short = good.0.short;
    octets = good.0.octets;
    ping = good.0.ping;
    accepted = good.0.accepted;
  },
  AreSendable-numbered Ok (u8 (c + 1)) fs good.1,
)

-- The counters do not matter to the handlers.
unnumbered :
    {W : Type 0} (Handled : List ℕ → W → W → Type 0) (c : ℕ) (fs : List Frame) (w w' : W)
    → Delivered Handled (numbered c fs) w w'
    → Delivered Handled fs w w'
unnumbered Handled c [] _ _ (nothing w) = nothing w
unnumbered Handled c (f ∷ fs) _ _ (handed g gs w w' w'' e h d) =
    handed f fs w w' w'' e h (unnumbered Handled (u8 (c + 1)) fs w' w'' d)
unnumbered Handled c (f ∷ fs) _ _ (passed g gs w w' n d) =
    passed f fs w w' n (unnumbered Handled (u8 (c + 1)) fs w w' d)

-- What one side transfers, the other side hands on. The payloads have 1 to 246 bytes, ping requests exactly one; the
-- sender's fifo is empty and it has sent nothing; the receiver is empty, only a handler of ALP is registered there, and
-- it takes whole each payload of ALP in the calls, which are ones that it accepts in a state that it keeps. From
-- every state in which all bytes that a sequence of calls of `modem_interface_transfer_bytes` put on the
-- line have arrived, in any interleaving with the thread's runs, finitely many runs lead to one in which
-- the thread waits, the payloads of ALP have gone to the handler in the order of the calls, and the receiver
-- is empty again.
pub link_delivers :
    {W : Type 0} (call : ℕ → Fifo → Interface × W → Outcome (Fifo × Interface × W)) (p : ℕ)
    (Ok : List ℕ → Type 0) (Inv : W → Type 0) (Handled : List ℕ → W → W → Type 0)
    (sender i : Interface) (w : W) (fs : List Frame) (t : Place × Interface × W)
    → TakesPayload call p Ok Inv Handled
    → IsFlushed sender.tx_fifo
    → sender.uart_out ≡ []
    → IsEmpty p i
    → Inv w
    → AreSendable Ok fs
    → AreShort fs
    → Steps call (at_loop, i, w) (transfer_all sender fs).uart_out t
    → (u : Place × Interface × W) × Steps call t [] u
      × (u.1.locked ≡ true)
      × Delivered Handled fs w u.2
      × IsEmpty p u.1
link_delivers call p Ok Inv Handled sender i w fs t takes idle silent empty inv good short steps =
    let c = sender.packet_up_counter in
    let line : (transfer_all sender fs).uart_out ≡ encode_frames (numbered c fs) =
      transfer_all-sends Ok sender fs idle good short
      ∙ ap (λ l. l ++ encode_frames (numbered c fs)) silent in
    let (u, more, waits, world, again) =
      stream_settles call p Ok Inv Handled takes (numbered c fs) i w t empty inv
        (AreSendable-numbered Ok c fs good) (rw line at steps) in
    (u, more, waits, unnumbered Handled c fs w u.2 world, again)
