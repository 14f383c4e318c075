-- ===== src/Lib.antt =====
-- HCAN, a home automation over a CAN bus: the firmware of its AVR boards, written in C.
--
-- The framework CANIX (canix/) receives and sends CAN frames, keeps a clock, and calls the handlers of
-- the devices. A controller board (firmwares/controllerboard-1612-v01/) runs devices that are
-- configured in its EEPROM: each has a data record, a handler for frames (X_can_callback) and a timer
-- handler. They act on output pins and send frames, which the board's own devices hear too. An adapter
-- on a serial line and two daemons (hcanhid/, hcand/) carry the frames to the programs of a host.
--
-- Files and code:
--   Board: the frame of canix/canix.h, the output pins and the frames handed to
--     canix_frame_send_with_prio. A device's record holds the board that it acts on.
--   Canix.Ident: the CAN identifier in canix_frame_send_with_prio and canix_process_messages.
--   Canix.Transmit, Wire: the controller's transmit buffers and its receive buffer (canix/mcp2515.c),
--     canix_frame_send_with_prio and the frame of canix_process_messages.
--   Canix.Hms, Eeprom: the service of canix/hcan_hms.c.
--   Canix.Queue, Conservation, Delivery: canix_rx_queue between the interrupt and can_read_message
--     (canix/mcp2515.c).
--   Canix.Filters: canix_reg_frame_callback and canix_deliver_frame.
--   Canix.Clock, Day, Zones: canix_update_datetime and canix_is_date_valid (canix/canix.c), the time
--     service canix_SFP_RTS_handler (canix/hcan_rts.c) and time_matches (canix/tools.c).
--   Canix.Tick: the clock in the interrupt TIMER0_OVF_vect (canix/canix.c).
--   Eds: the EEPROM data system canix/eds.c. Space (the operations on the memory), Callback
--     (eds_can_callback); Chain, Alloc, Free, Merge, Compact, Search, Format and Fuel are proofs.
--   Lichtzone: lichtzone.c. State (data, action groups), Callback (lichtzone_can_callback), Timer
--     (lichtzone_timer_handler); Inform and Presses are proofs.
--   Rolladen: rolladen.c. State (data, positions), Lowlevel (rolladen_lowlevel_timer_handler), Callback
--     (rolladen_can_callback); Relays, Timing, Halt and Position are proofs.
--   Powerport: powerport.c. State (data, relay, edges), Handlers (timer, groups, frames); powerportAutomat.c
--     (Automat); Timer, Groups and Bright are proofs.
--   Heizung: heizung.c. State (data, PWM), Control (two-point control, heizung_timer_handler), Callback
--     (heizung_can_callback); Duty, TwoPoint, Stop and Lines are proofs.
--   Usv: firmwares/usv-modul/usvstatemachine.c. State (data, switches, statistics), Machine (the handlers);
--     Dwell and Extrema are proofs.
--   Devices: devices.c and timer.c. Load (devices_load_config), Timer (timer_handler and the calls of
--     idle_handler); Layout, Refusal and Schedule are proofs.
--   Fenster: reedkontakt.c (Reedkontakt) and dunstabzugport.c (Dunstabzug), and the two with the bus
--     between them (Strecke); Offen, Others, Stays and Timeout are proofs.
--   Taster: taster.c. State (taster_timer_handler); Press is a proof.
--   Pumpe: zentralheizungspumpe.c. State (the device); Store and Mean are proofs.
--   Zeit: zeitzone.c (Zeitzone), zeitschaltuhr.c (Schaltuhr) and rolladenAutomat.c (Automat), and the time
--     switch with a power port on the bus (Port); Commands, Switched, Follow, Once and Details are
--     proofs.
--   Serial: the serial line between firmwares/hostinterface-v02/main.c (Interface) and hcanhid/main.c
--     (Daemon), with the digits of both (Hex); Digits, Writes, Frames, ToBus, ToHost and Bounds are proofs.
--   Hub: hcand/main.c. Table (peers, packets, the alarm); Deliver and Expiry are proofs.
--   Addressd: hcanaddressd/main.c. State (the table, a round of the loop); Leases and Unique are proofs.
--   Timeservice: timeservice.c. State (the service), Bus (two of them); Leader and Alone are proofs.
--   Helligkeit: helligkeitssensor.c with floatingAverage.c (State); Mean is a proof.
--   Multitaster: multitaster.c (State) and poti.c (Poti); Position, Select and Streak are proofs.
--   Schlitz: rolladenSchlitzpos.c (State); Query and Pairing are proofs.
--   Schalter: schalter.c (State); Debounce is a proof.
--   Tempsensor: tempsensor.c (State); Period is a proof.
--   Tastdimmer: tastdimmer.c, the whole device.
--   Examples: tests, and the theorems at concrete inputs.
--
-- A handler is a function from the old record to the new one. Arrays are lists; `return` inside a loop
-- or a block is a flag in the result. An unsigned field wraps where the code can reach its end; a
-- signed one whose overflow is undefined in C is an integer. `int` has 16 bits, as on the AVR.
-- Loops over arrays are structural. Those over the blocks of the EEPROM run on EDS_DATA_END steps of fuel:
-- each step passes two bytes at least, and the loops without fuel end with the same results (Eds.Fuel).
--
-- Not modelled: port registers and bus drivers (darlingtonoutput.c, shiftio.c, onewire.c, and of
-- mcp2515.c the setup of the controller), the main loop, and what other devices of a board do while
-- a device's frame is delivered to them; the frames that a light zone hears from itself, those that
-- a window contact sends to the hood, and those that a time switch sends to a power port, are part of
-- their models. A frame that is handed over for
-- sending may still be dropped when the controller's buffers are full. The boot loaders and the user
-- panel. On the host: the sockets, the poll loops, and the C++ tools.
--
-- Parameters: EDS_DATA_END, which depends on the controller (`eds_end`), sizeof of the devices'
-- records (`config_size`, `data_size`), what the main loop does to a power port during the 800 ms
-- pulse of a bistable relay (`meanwhile`), and which time zones match (`zeitzone_matches`) for the
-- heating, the time switch and the shutter; Zeit.Zeitzone has the function. The readings of the
-- converter, the answers on the 1-wire bus and the levels of input pins are inputs, as are the clock
-- of the time service, and what accept and select give to the address daemon. The contents of a
-- receive buffer are those of the transmit buffer that was sent, but for the flags in SIDL
-- (`OnWire`). A division by 0, undefined in C, gives 0. Where an index leaves a fixed array, which
-- is undefined in C, a write is lost: in the table of the devices and their RAM, whose ends the code
-- does not test, and behind the eight bytes of a received message. The blinking of the LEDs (led.c)
-- and the log (syslog) are not modelled.
pub mod Prelude
pub mod Addressd
pub mod Board
pub mod Canix
pub mod Devices
pub mod Eds
pub mod Heizung
pub mod Helligkeit
pub mod Hub
pub mod Fenster
pub mod Lichtzone
pub mod Powerport
pub mod Multitaster
pub mod Pumpe
pub mod Rolladen
pub mod Schalter
pub mod Schlitz
pub mod Serial
pub mod Tastdimmer
pub mod Taster
pub mod Tempsensor
pub mod Timeservice
pub mod Usv
pub mod Zeit
mod Examples
