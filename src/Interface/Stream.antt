-- ===== src/Interface/Stream.antt =====
-- A sequence of frames on the serial line, and the steps that the receiving thread takes on its bytes.
mod Split
pub mod Dispatch
pub mod Invariant
mod Handed
mod Runs
pub mod Delivery
pub mod Arrival
pub mod Link
mod Tests
use riot_oss7_modem.Common.{
  ℕ, ◌^◌, ◌<◌, ◌≡◌, ◌≢◌, refl, List, [], ◌∷◌, ◌++◌, append_assoc, tabulate, ◌==◌, if◌then◌else◌,
  Outcome,
}
use riot_oss7_modem.Common.Memory.{Bytes}
use riot_oss7_modem.Fifo.{Fifo}
use riot_oss7_modem.Interface.{Interface, alp_data_type}
use riot_oss7_modem.Interface.Frame.{encode_frame}
use riot_oss7_modem.Interface.Thread.{Place, Step, receive, run, resume}

-- A frame that a sender puts on the line.
pub record Frame : Type 0 where
  pub counter : ℕ
  pub type_ : ℕ
  pub length : ℕ
  pub bytes : Bytes

abbrev pub payload : Frame → List ℕ
payload f = tabulate f.length f.bytes

abbrev pub encode_frames : List Frame → List ℕ
encode_frames [] = []
encode_frames (f ∷ fs) = encode_frame f.counter f.type_ (payload f) ++ encode_frames fs

-- A payload of octets that the length byte can announce, and that is not empty; the ping request has
-- one byte, and a payload of ALP is one that the handler accepts.
pub record IsSendable (Ok : List ℕ → Type 0) (f : Frame) : Type 0 where
  pub some_bytes : 0 < f.length
  pub short : f.length < 2 ^ 8
  pub octets : (k : ℕ) → k < f.length → f.bytes k < 2 ^ 8
  pub ping : f.type_ ≡ 2 → f.length ≡ 1
  pub accepted : f.type_ ≡ 1 → Ok (payload f)

abbrev pub AreSendable : (List ℕ → Type 0) → List Frame → Type 0
AreSendable Ok [] = Unit {0}
AreSendable Ok (f ∷ fs) = IsSendable Ok f × AreSendable Ok fs

-- What frames do to the state of the program, when `Handled` is what a payload of ALP does to it: each
-- payload of ALP is handled, in order, and the other frames do nothing.
pub data Delivered {W : Type 0} (Handled : List ℕ → W → W → Type 0)
    : List Frame → W → W → Type 0 where
  nothing : (w : W) → Delivered Handled [] w w
  handed :
      (f : Frame) (fs : List Frame) (w w' w'' : W)
      → f.type_ ≡ alp_data_type
      → Handled (payload f) w w'
      → Delivered Handled fs w' w''
      → Delivered Handled (f ∷ fs) w w''
  passed :
      (f : Frame) (fs : List Frame) (w w' : W)
      → f.type_ ≢ alp_data_type
      → Delivered Handled fs w w'
      → Delivered Handled (f ∷ fs) w w'

pub Delivered-append :
    {W : Type 0} (Handled : List ℕ → W → W → Type 0) {fs gs : List Frame} {w w' w'' : W}
    → Delivered Handled fs w w'
    → Delivered Handled gs w' w''
    → Delivered Handled (fs ++ gs) w w''
Delivered-append Handled (nothing w) b = b
Delivered-append Handled (handed f fs w w' w'' e h a) b =
    handed f _ w w' _ e h (Delivered-append Handled a b)
Delivered-append Handled (passed f fs w w' n a) b = passed f _ w _ n (Delivered-append Handled a b)

module _ {W : Type 0} (call : ℕ → Fifo → Interface × W → Outcome (Fifo × Interface × W)) where
  -- The byte that a step receives, if it is the interrupt.
  abbrev pub received : {s t : Place × Interface × W} → Step call s t → List ℕ
  received (receive p i i' w byte e) = byte ∷ []
  received (run i i' w w' next u e) = []
  received (resume i w u) = []

  -- Any number of steps, in any order, and the bytes that arrive in them.
  pub data Steps : Place × Interface × W → List ℕ → Place × Interface × W → Type 0 where
    stop : (s : Place × Interface × W) → Steps s [] s
    step :
        {s t u : Place × Interface × W} {bytes : List ℕ} (one : Step call s t)
        → Steps t bytes u
        → Steps s (received one ++ bytes) u

  pub followed :
      {s t u : Place × Interface × W} {bytes more : List ℕ}
      → Steps s bytes t
      → Steps t more u
      → Steps s (bytes ++ more) u
  followed (stop s) b = b
  followed {more} (step {bytes} one a) b =
      rw (append_assoc (received one) bytes more) (step one (followed a b))
