-- ===== src/Interface/Receive.antt =====
-- The functions of modem_interface.c that take frames off the receiving fifo. The registered
-- handlers are a parameter: they get the address, the payload, and all of the state, with the
-- program's own part `W`.
use riot_oss7_modem.Common.{
  ℕ, ◌+◌, ◌/◌, ◌^◌, Bool, true, false, not, ◌||◌, ltb, ◌==◌, if◌then◌else◌, u8, sub16, Option, none,
  some, Outcome, done, fault, assertion, ◌>>=◌,
}
use riot_oss7_modem.Common.Memory.{Bytes}
use riot_oss7_modem.Fifo
use riot_oss7_modem.Fifo.{Fifo, ErrorCode, success}
use riot_oss7_modem.Crc.{crc_calculate}
use riot_oss7_modem.Interface.{
  Interface, alp_data_type, ping_request_type, ping_response_type, logging_type, header_size,
  transfer_bytes,
}

-- `packet_down_counter` after the check for missing packets.
unfoldable pub count_down : ℕ → ℕ → ℕ
count_down counter received =
    let counter' = u8 (counter + 1) in if not (received == counter') then received else counter'

-- The comparison of the checksum in the header with that of the payload.
unfoldable pub crc_matches : Bytes → ℕ → Bool
crc_matches header crc = not (not (header 5 == u8 (crc / 2 ^ 8)) || not (header 6 == u8 crc))

-- `verify_payload`. The local array has as many places as the header announces, and may have none.
unfoldable pub verify_payload : Interface → Fifo → Bool × Interface
unfolding count_down crc_matches
verify_payload i bytes =
    let payload = (Fifo.peek bytes (λ _. 0) 0 (i.header 4)).1 in
    (
      crc_matches i.header (crc_calculate payload (i.header 4)),
      record i { packet_down_counter = count_down i.packet_down_counter (i.header 2) },
    )

-- How `process_rx_fifo` ends: it returns, or it calls `mutex_lock` and returns once it has the mutex.
pub data Next : Type 0 where
  returns locks : Next

-- The branch that skips one byte.
unfoldable pub resync : Interface → Next × Interface
resync i =
    let rx_fifo' = (Fifo.skip i.rx_fifo 1).1 in
    (
      if ltb header_size (Fifo.get_size rx_fifo') then locks else returns,
      record i { rx_fifo = rx_fifo'; parsed_header = false; payload_len = 0 },
    )

-- The branch that takes the header, and unlocks.
unfoldable pub take_header : Interface → Interface
take_header i = record i {
  parsed_header = true;
  rx_fifo = (Fifo.skip i.rx_fifo header_size).1;
  payload_len = i.header 4;
  locked = false;
}

-- With the header that was peeked.
unfoldable pub examine_header : Interface → Next × Interface
unfolding resync take_header
examine_header i =
    if not (i.header 0 == 0xc0) || not (i.header 1 == 0x00)
    then resync i
    else (returns, take_header i)

-- `process_rx_fifo` while no header is parsed.
unfoldable pub parse_header : Interface → Next × Interface
unfolding examine_header
parse_header i =
    if ltb header_size (Fifo.get_size i.rx_fifo)
    then examine_header (record i { header = (Fifo.peek i.rx_fifo i.header 0 header_size).1 })
    else (returns, i)

-- Its last lines.
unfoldable pub finish : Interface → Interface
finish i = record i {
  payload_len = 0;
  parsed_header = false;
  locked = if ltb header_size (Fifo.get_size i.rx_fifo) then false else i.locked;
}

-- The bytes that were taken from the subview are popped from the fifo.
unfoldable pub pop_parsed : Interface → Fifo → Interface
pop_parsed i payload_fifo = record i {
  rx_fifo = (Fifo.skip i.rx_fifo (sub16 i.payload_len (Fifo.get_size payload_fifo))).1;
}

-- A pointer is not NULL, and the type is its own.
abbrev pub selects : Option ℕ → Bool → Bool
selects none b = false
selects (some p) b = b

module _ {W : Type 0} (call : ℕ → Fifo → Interface × W → Outcome (Fifo × Interface × W)) where
  -- A call through a pointer that is known not to be NULL.
  unfoldable pub call_pointer : Option ℕ → Fifo → Interface × W → Outcome (Fifo × Interface × W)
  call_pointer none payload_fifo s = fault assertion
  call_pointer (some p) payload_fifo s = call p payload_fifo s

  -- The chain of `if`s over the type of the frame.
  unfoldable pub dispatch : Fifo → Interface × W → Outcome (Fifo × Interface × W)
  unfolding call_pointer
  dispatch payload_fifo (i, w) =
      let type_ = i.header 3 in
      if selects i.alp_handler (type_ == alp_data_type)
      then call_pointer i.alp_handler payload_fifo (i, w)
      else if selects i.ping_response_handler (type_ == ping_response_type)
      then call_pointer i.ping_response_handler payload_fifo (i, w)
      else if selects i.logging_handler (type_ == logging_type)
      then call_pointer i.logging_handler payload_fifo (i, w)
      else if type_ == ping_request_type
      then done ((Fifo.skip payload_fifo 1).1, transfer_bytes i (λ _. 0x02) 1 ping_response_type, w)
      else done ((Fifo.skip payload_fifo i.payload_len).1, i, w)

  -- A payload that is verified, and one that is not.
  unfoldable pub parse_verified : Fifo → Bool × Interface → W → Outcome (Interface × W)
  unfolding dispatch finish pop_parsed
  parse_verified payload_fifo (true, i) w =
      dispatch payload_fifo (i, w) >>= λ (payload_fifo', i', w').
      done (finish (pop_parsed i' payload_fifo'), w')
  parse_verified payload_fifo (false, i) w = done (finish i, w)

  -- `process_rx_fifo` once a header is parsed.
  unfoldable pub parse_payload : Interface × W → Outcome (Interface × W)
  unfolding parse_verified verify_payload
  parse_payload (i, w) =
      if ltb (Fifo.get_size i.rx_fifo) i.payload_len
      then done (i, w)
      else (Fifo.init_subview i.rx_fifo 0 i.payload_len >>= λ payload_fifo.
          parse_verified payload_fifo (verify_payload i payload_fifo) w)

  -- `process_rx_fifo`
  unfoldable pub process_rx_fifo : Interface × W → Outcome (Next × Interface × W)
  unfolding parse_header parse_payload
  process_rx_fifo (i, w) =
      if not i.parsed_header
      then done ((parse_header i).0, (parse_header i).1, w)
      else (parse_payload (i, w) >>= λ (i', w'). done (returns, i', w'))

-- `uart_rx_cb`, after its put.
unfoldable pub received_byte : Interface → ErrorCode × Fifo → Outcome Interface
received_byte i (success, rx_fifo') = done (record i { rx_fifo = rx_fifo'; locked = false })
received_byte i (_, rx_fifo') = fault assertion

-- `uart_rx_cb`
unfoldable pub uart_rx_cb : Interface → ℕ → Outcome Interface
unfolding received_byte
uart_rx_cb i byte = received_byte i (Fifo.put i.rx_fifo (λ _. byte) 1)
