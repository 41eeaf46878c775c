-- ===== src/Lib.antt =====
-- The OSS-7 modem driver of riot-oss7-modem, in C: a program on RIOT talks over a serial line to a
-- DASH7 and LoRaWAN modem. It sends a command in the Application Layer Protocol (ALP), and gets
-- replies and unsolicited data in the same protocol. Paths of the driver are relative to drivers/oss7_modem.
--
-- Parts, from the bottom up, with the files here:
--   Common         shared names, and the children Words (machine words with the wrap-around written
--                  out), Lists, Memory (a `uint8_t*` is the byte at each offset), Faults (an `assert` that
--                  fails, a write out of bounds, a NULL pointer), Bits and Xor
--                  (the laws of `|` and `^`), Octets (lists of bytes).
--   Fifo           fifo.c, include/fifo.h: the byte queue in a circular buffer that all others use.
--                  Each function returns the new `fifo_t` beside its `error_t`. The proofs are in
--                  Valid (invariant), Put, Take, View (subviews, initialisation), Trace (sequences of calls),
--                  Interrupt (`fifo_put` within `fifo_skip` and `fifo_pop`).
--   Crc            crc.c, include/crc.h, against the bitwise definition in Crc/Reference. Shift, Burst and
--                  Detects are about the errors that the checksum finds.
--   Alp            alp.c, include/alp.h, and what they take from include/d7ap.h, include/lorawan_stack.h
--                  and include/fs.h. The functions are in Append (commands), Parse (replies) and Expect (the
--                  length of the reply); Encoding is the wire format, written from the format. The proofs on
--                  appending are in Appended, Appending, Commands, Forwarding, Octets; on parsing in Front,
--                  Operand, Parsing, Status, Shrinks; on both in RoundTrip; on the expected length in Rounds and Expecting. Dash7 has the
--                  enumerations and bit fields of include/d7ap.h.
--   Interface      modem_interface.c, include/modem_interface.h: frames with a header and a checksum. The
--                  record `Interface` has the static variables; sending is in Interface.antt, receiving
--                  (`process_rx_fifo`, `uart_rx_cb`) in Receive. Frame is the format. Send, Verify, Deliver
--                  and Safe have the proofs, Corrupt those on damaged frames.
--                  Thread has `rx_thread` and the UART interrupt as a step relation; Stream has sequences of
--                  steps on sequences of frames, with the children Dispatch, Split, Invariant, Handed, Runs,
--                  Arrival, Delivery (what the receiver hands on), Link (with the sending side).
--   Modem          modem.c, include/modem.h: one command at a time. The record `Modem` has the static variables
--                  and the interface; Serial has `process_serial_frame`. Starting, Sending,
--                  Blocking, Ending, Rounds, Replies, Asynchronous and Service (the handler behind the interface)
--                  have the proofs. Waiting has a synchronous caller and the receiving thread as a step relation,
--                  Answered and Returns which frames let the caller go on, Blocked the calls while a
--                  command is active. Stops is about where the receiving thread can stop the program.
--   Apps           apps/sensor_push/main.c (SensorPush) and apps/test/main.c (Shell): the programs that use
--                  the driver, with the lines that they print. Sends, Starts, Silent and Unregistered have
--                  the proofs; Unsolicited has those on data that the modem writes on its own, and Printed those on
--                  the way from the serial line to the printed lines.
--
-- How they interact: `modem_*` builds a command in its own fifo by the functions of Alp/Append, and hands
-- the array to `transfer_bytes`, which puts a frame into the transmitting fifo and flushes it to the
-- UART (`uart_out`). `uart_rx_cb` puts a byte into the receiving fifo and unlocks `rx_mutex`; the thread
-- runs `process_rx_fifo`, which calls the registered handler on a subview of the fifo. The
-- handler for ALP frames is `process_serial_frame`, which takes action after action off the subview.
--
-- Conventions: the machine is little-endian, `assert` is compiled in, `int` has 32 bits. A function pointer
-- is a number, NULL is `none`. What an uninitialised variable holds is an argument called `stale`. In
-- Interface/Receive the handlers are a parameter, in Modem `xtimer_mutex_lock_timeout` is one. A call of a
-- callback of the application is an entry in `events`, and the callback does not call the driver.
-- What the callbacks of the programs print is a function of the events (`on_event`). The wait for a reply, the
-- sleep of a program and the clock are parameters, too; frames that come meanwhile belong to the wait and
-- the sleep. `response_size` is the size of the caller's array, which the code does not know.
-- A pointer that is cast to several types is the record of what the casts read (`ForwardConfig`). The local array of
-- `verify_payload`, whose length the header announces, may have the length 0, as GCC allows. Of the static variables of
-- modem_interface.c, `uart_handle` and the thread's stack are RIOT's and not in the record `Interface`.
--
-- Fuel: the loops of `alp_get_expected_response_length` and `process_serial_frame` run on fuel, one more than
-- the bytes of the fifo. Every round takes at least one byte, so the fuel is enough; `none` would say that it was not.
-- All other recursion is structural. Bounds: a valid fifo has at most 2 ^ 15 - 1 places, lengths are
-- below 2 ^ 30, the largest that the format can carry.
--
-- Not modelled: the RIOT calls (threads, UART set-up, timer), the debug output, the code that is commented
-- out or compiled only with PLATFORM_USE_MODEM_INTERRUPT_LINES, an interrupt within a run of
-- `process_rx_fifo` (Fifo/Interrupt has one within a fifo function),
-- `modem_write_file` and other functions that modem.h declares and no file defines, and the types of
-- d7ap.h, alp.h, fs.h and dae.h that no code of the repository uses.
pub mod Common
pub mod Fifo
pub mod Crc
pub mod Alp
pub mod Interface
pub mod Modem
pub mod Apps
