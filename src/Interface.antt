-- ===== src/Interface.antt =====
-- drivers/oss7_modem/modem_interface.c and include/modem_interface.h: frames on the serial line, with
-- a header of seven bytes. This file has the state, and the sending of frames.
pub mod Receive
pub mod Frame
pub mod Send
pub mod Verify
pub mod Deliver
pub mod Safe
pub mod Corrupt
pub mod Thread
pub mod Stream
mod Tests
use riot_oss7_modem.Common.{
  ℕ, zero, suc, ◌+◌, ◌/◌, ◌%◌, ◌^◌, Bool, true, false, List, [], ◌∷◌, ◌++◌, tabulate, length,
  get_or, Option, none, some, u8, if◌then◌else◌, ◌==◌,
}
use riot_oss7_modem.Common.Memory.{Bytes}
use riot_oss7_modem.Fifo
use riot_oss7_modem.Fifo.{Fifo}
use riot_oss7_modem.Crc.{crc_calculate}

-- `serial_message_type_t`
abbrev pub alp_data_type : ℕ
alp_data_type = 0x01

abbrev pub ping_request_type : ℕ
ping_request_type = 0x02

abbrev pub ping_response_type : ℕ
ping_response_type = 0x03

abbrev pub logging_type : ℕ
logging_type = 0x04

-- The sizes of the arrays, and of the header.
abbrev pub rx_buffer_size : ℕ
rx_buffer_size = 256

abbrev pub tx_fifo_size : ℕ
tx_fifo_size = 255

abbrev pub header_size : ℕ
header_size = 7

-- `state_t`; the code that would switch between them is commented out.
pub data State : Type 0 where
  idle req_start req_wait req_busy resp resp_pending_req : State

-- The static variables, and what went to `uart_write`. A `cmd_handler_t` is a number that stands for
-- the address of a function, and `none` is NULL. `locked` is `rx_mutex`.
pub record Interface : Type 0 where
  pub rx_fifo : Fifo
  pub tx_fifo : Fifo
  pub request_pending : Bool
  pub header : Bytes
  pub payload_len : ℕ
  pub packet_up_counter : ℕ
  pub packet_down_counter : ℕ
  pub uart_state_pin : ℕ
  pub target_uart_state_pin : ℕ
  pub listen_uart_inited : Bool
  pub parsed_header : Bool
  pub alp_handler : Option ℕ
  pub ping_response_handler : Option ℕ
  pub logging_handler : Option ℕ
  pub locked : Bool
  pub state : State
  pub uart_out : List ℕ

-- `flush_modem_interface_tx_fifo`. Only bytes that the pop writes are sent.
unfoldable pub flush : Interface → Interface
flush i =
    let len = u8 (Fifo.get_size i.tx_fifo) in
    let (err, buffer, tx_fifo') = Fifo.pop i.tx_fifo (λ _. 0) len in
    record i { tx_fifo = tx_fifo'; uart_out = i.uart_out ++ tabulate len buffer }

-- The array `header` of `modem_interface_transfer_bytes`.
unfoldable pub frame_header : ℕ → ℕ → ℕ → ℕ → Bytes
frame_header counter type_ length crc i =
    get_or (0xc0 ∷ 0x00 ∷ counter ∷ type_ ∷ length ∷ u8 (crc / 2 ^ 8) ∷ u8 crc ∷ []) i 0

-- `modem_interface_transfer_bytes`. The results of `fifo_put` are not looked at.
unfoldable pub transfer_bytes : Interface → Bytes → ℕ → ℕ → Interface
unfolding flush frame_header
transfer_bytes i bytes length type_ =
    let counter = u8 (i.packet_up_counter + 1) in
    let header = frame_header counter type_ length (crc_calculate bytes length) in
    let with_header = (Fifo.put i.tx_fifo header header_size).1 in
    flush (record i {
      packet_up_counter = counter;
      request_pending = true;
      tx_fifo = (Fifo.put with_header bytes length).1;
    })

-- `modem_interface_transfer`, of the characters in front of the terminating zero.
unfoldable pub transfer : Interface → List ℕ → Interface
unfolding transfer_bytes
transfer i string = transfer_bytes i (λ k. get_or string k 0) (u8 (length string)) logging_type

-- `modem_interface_register_handler`
unfoldable pub register_handler : Interface → Option ℕ → ℕ → Interface
register_handler i cmd_handler type_ =
    if type_ == alp_data_type
    then record i { alp_handler = cmd_handler }
    else if type_ == ping_response_type
    then record i { ping_response_handler = cmd_handler }
    else if type_ == logging_type
    then record i { logging_handler = cmd_handler }
    else i

-- `modem_interface_init`, without the calls that set up the thread and the UART. The arrays behind
-- the fifos keep what they have.
unfoldable pub init : Interface → ℕ → ℕ → Interface
init i uart_state_int_pin target_uart_state_int_pin = record i {
  tx_fifo = Fifo.init i.tx_fifo.buffer tx_fifo_size;
  state = idle;
  uart_state_pin = uart_state_int_pin;
  target_uart_state_pin = target_uart_state_int_pin;
  rx_fifo = Fifo.init i.rx_fifo.buffer rx_buffer_size;
  listen_uart_inited = true;
}
