-- ===== src/Lib.antt =====
-- avr-cec, a library for the CEC line of HDMI on small AVR controllers: its protocol engines, the
-- hardware drivers, the assignment of addresses, and the arithmetic and the tables of its
-- headers.
--
-- The parts and how they interact. The application and the drivers share a receive buffer and a
-- transmit buffer. The receive engine gets a start condition, bits and errors from the driver,
-- fills the receive buffer, and decides which ack slots the driver pulls. The transmit engine
-- gives the driver the bits of the queued message. The receive engine checks each bit that it
-- hears against the transmit engine's last ones, and reports acks and errors to it; an error on a
-- transmission ends it through the driver, which calls `cec_transmit_finish_abort`. The address
-- module answers which targets are the host's own, and queues polls until it has an address.
-- `cec_periodic` calls the driver's two sides and the address module in turn; there are no
-- interrupts in the modelled builds.
--
-- Which file models what:
--   Common: the libraries' names, bytes, arrays and bit operations.
--   Spec: the constants of cec_spec.h and cec.h.
--   Transmit: cec_transmit.c. `Tx` holds its variables, `State` the values of `transmit_state`;
--     `start`, `get_bit`, `finish_abort`, `init` are the functions named cec_transmit_*, and
--     `data_bit`, `control_bit`, `push_last` the parts of cec_transmit_get_bit. Children: Layout
--     (a message on the line, the specification), Frame (the bits of a byte), Emit (the bits of a
--     message), Left (how far it is), Sender (what a driver that asks for the bits one by one
--     sends), Attempts (retries), Echo (the memory of the last bits), Bounds.
--   Receive: cec_receive.c. State has `Rx`, its variables, with the flags byte as a record of
--     eight conditions, and the parts of cec_receive_bit: `data_bit`, `finish_byte` (with
--     `judge_byte` and `apply_nack`), `eom_bit`, `ack_bit`. Engine has the functions as they are
--     called: `receive_start`, `receive_bit`, `receive_error`, and of cec_transmit.c `on_error`,
--     `check_tx_bit`, `receive_ack`, over a `Node`, which holds both engines and the driver.
--     Decode, Byte, Frame, Message, Overrun, Ack, Bounds, Pending, Echo and AtRest (a host whose
--     transmit side is idle) hold the proofs.
--   Link: one host's transmit engine against another one's receive engine; Link/Slots has the
--     slots of a sender that the other host pulls, for the two drivers. Link/Own, Link/Hears,
--     Link/Acked, Link/Begun, Link/Refused, Link/Busy and Link/Outcome are about a host that hears
--     its own message: `talk` is the order in which the drivers take a bit to send and hand one
--     over.
--   Pins: the pin macros of cec.h over the port's registers; Pins/Masks has the laws of bits, and
--     Pins/Calls the proofs. Raw keeps one of these bits, `driven`.
--   Raw: the drivers' variables and registers, and what they give the engines; Raw/Receive is
--     cec_receive_min.c, one function for each of the tests of cec_receive_periodic; Raw/Pwm is
--     cec_transmit_pwm.c. Raw/Window, Raw/Sent (what the sender loads) and Raw/Cycles (the pulses
--     that the timer makes of it) have the proofs on the sender, Raw/AtRest those on a receiver
--     whose host sends nothing. Raw/View is the part of the driver that its reception depends on,
--     Raw/Wave the calls in which a start bit and bits arrive, Raw/Heard what they do. Raw/Pulses
--     is about pulses on the line and a receiver that looks at it now and then, Raw/Deliver about
--     the pulses of another host, and Raw/Loop about a main loop that hears them.
--   Usi: cec_usi.c, the driver that uses the Universal Serial Interface. The file itself has its
--     variables and registers, its constants, cec_transmit_abort and cec_receive_nack_frame; Tick
--     is cec_process_tick, in the parts take_bit, no_transition, tick_falls (with next_frame) and
--     tick_rises; Queue is cec_usi_next_bit, one function for each case of its switch; Ack is the
--     assembly of cec_receive_do_ack, a function for each of its loops; Periodic is the rest:
--     cec_receive_periodic, in the parts check_line, turn_over and drive_ack, the functions for
--     cec_halt, and cec_receive_init. View (the part of the driver that its reception depends
--     on), Wave, Calls, Sent, Deliver, Synced, AtRest and Shifts hold the proofs.
--   Addr: DevType is cec_addr_dev_type.c, with the proofs in DevType/Claim and DevType/Empties,
--     and DevType/Table is the choice of its table by the device type; Static is
--     cec_addr_bitfield.c, cec_addr_fixed.c and cec_addr_none.c.
--   Cec: cec.c, for the builds with addresses by device type: with the raw drivers, and in
--     Cec/Usi with the USI driver; for those with other addresses, Cec/Static. Cec/Halt, Cec/Timer,
--     Cec/Usi/Halt and Cec/Usi/Queued have the proofs on cec_halt, Cec/Heard and Cec/Usi/Runs those
--     on the main loop.
--   Watchdog: cec_watchdog.S, which works beside the library: `watchdog_periodic`, with a function
--     for what follows each label, and `watchdog_init`; Report and Prescaler have the proofs.
--   Codes: Keys is cec_keys.h, Messages and Messages/Operands are cec_msg.h; Keys/Table,
--     Keys/Shared, Messages/Distinct, Messages/Values and Messages/Modes have the proofs.
--   Macros: div.h (Div, Mul), bitops.h (Log, and LogAsm for the assembler), time.h (Time; Long
--     for the long ticks, Frequency for periods, Rollover for the choice of the prescaler).
--   Tests: examples and runs.
--
-- Numbers. An unsigned char or int is a natural number with its wrap-around written out (`u8`,
-- `u16`). Arrays are lists: an index out of range reads 0 and writes nothing. In Receive/Bounds
-- the list goes on behind the receive buffer, with what stands there in memory, so that a write
-- past the buffer would be seen; Transmit/Bounds is about the indices of the other. A macro
-- computes in the type of its arguments: `m` and `values` are the number of values of that type.
-- `_BV` of avr-libc, whose value above the width of int is not fixed, is a parameter of `log2`,
-- `log2_asm` and Pins, and with the other names of avr/io.h one of Watchdog.
--
-- Interfaces. `Driver` is what the engines require of a hardware driver: that an abort ends with
-- `cec_transmit_finish_abort`; `raw_driver` and `usi_driver` fill it. `Sender` is what
-- Transmit/Sender requires of a driver that asks for the bits of a message; the PWM driver
-- (Raw/Sent) and the USI driver (Usi/Sent) fill it. `MainLoop` is what Raw/Loop requires of a
-- build, and Cec/Heard and Cec/Static fill it. `Config` holds the choices of the build, and `Bus`
-- what a poll meets on the line.
--
-- Bounds and fuel. No loop of the modelled code is unbounded. `log2_from` makes the 32
-- comparisons of LOG2, `log2_entries` has the 31 entries of the assembler's, and `shift_from` the
-- 24 of LJIFFIES_SHIFT, the numbers of lines in the source. `emit` and `feed` count calls that
-- the driver makes, ten for a byte.
--
-- Not modelled: builds with CEC_MONITOR (but for the pin macros), which leave the transmit side
-- out and do not compile, as cec_transmit_on_error of cec.c takes no argument and is given one;
-- cec_transmit_raw.c, which cec.c includes and the repository does not have. The tick counts of
-- cec_transmit_pwm.c are computed in floating point, and are parameters (`PwmTicks`); the level of
-- the line and the timer's flag are arguments of the calls. Of timer 1 it is taken that it takes
-- OCR1B over when a pulse begins and compares with OCR1C as it stands, and that a call comes at
-- the beginning of each pulse. Between two hosts with the raw drivers, the times that the sender's
-- counts take in the receiver's ticks, and the times of the other host's calls, are arguments; the
-- line is low for as long as the sender pulls it. In the USI driver, the application's
-- cec_usi_frame_hook, the prescaler's value, the registers at the beginning of a call and their
-- movement within it are arguments; its mode registers, which nothing reads, are left out, and so
-- are the halt of the timer and the block on interrupts around the assembly of cec_receive_do_ack,
-- and its local copies of state variables are written at once, since nothing reads those in
-- between.
pub mod Common
pub mod Spec
pub mod Transmit
pub mod Receive
pub mod Link
pub mod Macros
pub mod Codes
pub mod Addr
pub mod Pins
pub mod Raw
pub mod Usi
pub mod Cec
pub mod Watchdog
pub mod Tests
