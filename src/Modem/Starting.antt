-- ===== src/Modem/Starting.antt =====
-- A command is built in its fifo and sent: what the functions that start one have in common.
use riot_oss7_modem.Common.{
  ℕ, ◌+◌, ◌≤◌, ◌<◌, ◌≡◌, inr, refl, sym, ap, ◌∙◌, true, false, List, [], ◌∷◌, ◌++◌, tabulate,
  tabulate_ext, length, u8, done, ◌>>=◌, arith,
}
use riot_oss7_modem.Fifo
use riot_oss7_modem.Fifo.{Fifo}
use riot_oss7_modem.Fifo.Valid.{size, index, contents, length-contents, get_size_lem}
use riot_oss7_modem.Fifo.Put.{IsWritable, HasRoom}
use riot_oss7_modem.Fifo.View.{init_filled_lem}
use riot_oss7_modem.Alp.Append.{append_tag_request_action}
use riot_oss7_modem.Alp.Encoding.{control}
use riot_oss7_modem.Alp.Appended.{Appended}
use riot_oss7_modem.Alp.Commands.{append_tag_request_action-Appends}
use riot_oss7_modem.Common.Octets.{AreOctets, octet_of}
use riot_oss7_modem.Interface.Frame.{encode_frame}
use riot_oss7_modem.Interface.Send.{IsFlushed, transfer_sends}
use riot_oss7_modem.Modem.{Modem, fresh_command, with_fifo, alloc_command, send_command}

-- A command fifo, filled from the start of its array.
pub record IsFilled (f : Fifo) (xs : List ℕ) : Type 0 where
  pub writable : IsWritable f
  pub held : contents f ≡ xs
  pub capacity : f.max_size ≡ 255
  pub from_start : f.head_idx ≡ 0

pub IsFilled-Appended :
    {f g : Fifo} {xs : List ℕ} (ys : List ℕ)
    → IsFilled f xs
    → Appended f ys g
    → IsFilled g (xs ++ ys)
IsFilled-Appended ys a b = record {
  writable = b.writable;
  held = b.held ∙ ap (λ l. l ++ ys) a.held;
  capacity = b.same_max ∙ a.capacity;
  from_start = b.same_head ∙ a.from_start;
}

pub has_room :
    {f : Fifo} {xs : List ℕ} (ys : List ℕ)
    → IsFilled f xs
    → length xs + length ys ≤ 255
    → HasRoom f (length ys)
has_room {f} ys a h =
    inr (a.from_start, omega (arith, h, ap length a.held, length-contents f, a.capacity))

in_array :
    (f : Fifo) → f.head_idx ≡ 0 → size f ≤ f.max_size → tabulate (size f) f.buffer ≡ contents f
in_array f e h = tabulate_ext (size f) _ _ (λ i p. ap f.buffer (place i p))
  where
    place : (i : ℕ) → i < size f → i ≡ index f i
    place i p = ground (arith, e, h, p)

-- `modem_interface_transfer_bytes` of the command.
send_command_lem :
    (m : Modem) (xs : List ℕ)
    → IsFilled m.command.fifo xs
    → AreOctets xs
    → length xs ≤ 246
    → IsFlushed m.interface.tx_fifo
    → ((send_command m).interface.uart_out
        ≡ m.interface.uart_out ++ encode_frame (u8 (m.interface.packet_up_counter + 1)) 1 xs)
      × IsFlushed (send_command m).interface.tx_fifo
      × ((send_command m).interface.packet_up_counter ≡ u8 (m.interface.packet_up_counter + 1))
unfolding send_command
send_command_lem m xs filled octets short idle =
    let f = m.command.fifo in
    let sized : size f ≡ length xs = sym (length-contents f) ∙ ap length filled.held in
    let n : u8 (Fifo.get_size f) ≡ size f =
      omega (arith, get_size_lem filled.writable.valid, sized, short) in
    let array : tabulate (size f) f.buffer ≡ xs =
      in_array f filled.from_start (omega (arith, sized, short, filled.capacity)) ∙ filled.held in
    let p =
      transfer_sends m.interface f.buffer (size f) 1 idle
        (octet_of (size f) f.buffer (rw array octets)) (omega (arith, sized, short)) in
    rw n (
      p.0
          ∙ ap
              (λ l.
                m.interface.uart_out ++ encode_frame (u8 (m.interface.packet_up_counter + 1)) 1 l)
              array,
      p.1,
      p.2,
    )

-- `alloc_command` of a free modem.
pub record Allocated (m g : Modem) : Type 0 where
  pub active : g.command.is_active ≡ true
  pub tagged : g.command.tag_id ≡ m.next_tag_id
  pub next_tag : g.next_tag_id ≡ u8 (m.next_tag_id + 1)
  pub request : IsFilled g.command.fifo (control 52 false true ∷ m.next_tag_id ∷ [])
  pub same_interface : g.interface ≡ m.interface
  pub same_callbacks : g.callbacks ≡ m.callbacks
  pub same_events : g.events ≡ m.events

fresh-IsFilled : (m : Modem) → IsFilled (fresh_command m).fifo []
unfolding fresh_command Fifo.init Fifo.init_filled
fresh-IsFilled m =
    let (w, held, n) =
      init_filled_lem m.command.fifo.buffer 0 256 (omega arith) (omega arith) (omega arith) in
    record { writable = w; held = held; capacity = omega (arith, n); from_start = refl }

abbrev taken : Modem → Modem
taken m = record m { command = fresh_command m; next_tag_id = u8 (m.next_tag_id + 1) }

alloc_command-eq :
    (m : Modem)
    → m.command.is_active ≡ false
    → alloc_command m ≡ (
        append_tag_request_action (fresh_command m).fifo m.next_tag_id true >>= λ fifo.
        done (true, with_fifo (taken m) fifo))
unfolding alloc_command fresh_command
alloc_command-eq m free = rw free refl

pub alloc_command_lem :
    (m : Modem)
    → m.command.is_active ≡ false
    → (g : Modem) × (alloc_command m ≡ done (true, g))
      × Allocated m g
      × (g.command.execute_synchronuous ≡ false)
unfolding fresh_command with_fifo
alloc_command_lem m free =
    let filled = fresh-IsFilled m in
    let request = control 52 false true ∷ m.next_tag_id ∷ [] in
    let (f, ran, a) =
      append_tag_request_action-Appends (fresh_command m).fifo filled.writable m.next_tag_id true
        (has_room request filled (omega arith)) in
    (
      with_fifo (taken m) f,
      alloc_command-eq m free ∙ ap (λ r. r >>= λ fifo. done (true, with_fifo (taken m) fifo)) ran,
      record {
        active = refl;
        tagged = refl;
        next_tag = refl;
        request = IsFilled-Appended request filled a;
        same_interface = refl;
        same_callbacks = refl;
        same_events = refl;
      },
      refl,
    )

-- What starting a command leads to: the frame with `xs` is sent, with the next tag in it, the modem
-- is busy with it, and the next command gets the tag after.
pub record Started (m m' : Modem) (xs : List ℕ) : Type 0 where
  pub frame_sent :
      m'.interface.uart_out
      ≡ m.interface.uart_out ++ encode_frame (u8 (m.interface.packet_up_counter + 1)) 1 xs
  pub flushed : IsFlushed m'.interface.tx_fifo
  pub counted : m'.interface.packet_up_counter ≡ u8 (m.interface.packet_up_counter + 1)
  pub active : m'.command.is_active ≡ true
  pub tagged : m'.command.tag_id ≡ m.next_tag_id
  pub next_tag : m'.next_tag_id ≡ u8 (m.next_tag_id + 1)
  pub callbacks_kept : m'.callbacks ≡ m.callbacks

-- The command is complete in the fifo, and is sent.
pub sent-Started :
    {m g : Modem} (f : Fifo) (xs : List ℕ)
    → Allocated m g
    → IsFilled f xs
    → AreOctets xs
    → length xs ≤ 246
    → IsFlushed m.interface.tx_fifo
    → Started m (send_command (with_fifo g f)) xs
unfolding with_fifo send_command
sent-Started {m} {g} f xs a filled octets short idle =
    let (frame, flushed, counter) =
      send_command_lem (with_fifo g f) xs filled octets short (rw a.same_interface idle) in
    record {
      frame_sent =
          frame
          ∙ ap (λ i. i.uart_out ++ encode_frame (u8 (i.packet_up_counter + 1)) 1 xs)
              a.same_interface;
      flushed = flushed;
      counted = counter ∙ ap (λ i. u8 (i.packet_up_counter + 1)) a.same_interface;
      active = a.active;
      tagged = a.tagged;
      next_tag = a.next_tag;
      callbacks_kept = a.same_callbacks;
    }
