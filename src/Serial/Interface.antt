-- ===== src/Serial/Interface.antt =====
-- firmwares/hostinterface-v02/main.c: the adapter between the CAN bus and the serial line. The state
-- `halted` is `while (1)` until the watchdog resets the board: all that arrives meanwhile is lost. The
-- LEDs are left out.
use hcan.Prelude.{
  ℕ, ◌+◌, ◌%◌, Bool, true, Option, none, some, List, [], ◌∷◌, ◌++◌, if◌then◌else◌, ◌==◌, ltb,
  get_or, set, length,
}
use hcan.Serial.Hex.{is_command, send_values, convert_hexstr2int, bytes_of, id_of, copy}

-- the arguments of can_send_message, and what can_read_message gives
pub record Message : Type 0 where
  pub extended : ℕ
  pub content : List ℕ

-- `usb` holds the characters given to usb_putc, `sent` the messages given to can_send_message, both the
-- newest first.
pub record Interface : Type 0 where
  pub serial : ℕ  -- uint8_t
  pub obuffer : List ℕ  -- 64 bytes
  pub oindex : ℕ  -- uint8_t
  pub first_bits_char : Option ℕ
  pub usb : List ℕ
  pub sent : List Message
  pub halted : Bool

abbrev put : ℕ → Interface → Interface
put c p = record p { usb = c ∷ p.usb }

-- the command F
unfoldable pub send_frame : Interface → Interface
unfolding copy
send_frame p =
    if get_or p.obuffer 4 0 + 5 == p.oindex
    then record p {
      sent =
          record { extended = id_of p.obuffer; content = copy (get_or p.obuffer 4 0) 5 p.obuffer }
          ∷ p.sent;
    }
    else record p { halted = true }

unfoldable pub handle_serial_command : ℕ → Interface → Interface
unfolding send_frame
handle_serial_command c p =
    if c == 66
    then put 66 (record p { oindex = 0; first_bits_char = none })
    else if c == 67
    then record p { first_bits_char = none; oindex = 0 }
    else if c == 70
    then send_frame p
    else if c == 80
    then put 80 p
    else if c == 82
    then record p { halted = true }
    else if c == 83
    then put 50 (put 48 p)
    else p

-- a character that is not a command; 0xff, a signed `char`, is -1 as an int, the sign that none is there
unfoldable pub handle_value : ℕ → Option ℕ → Interface → Interface
unfolding convert_hexstr2int
handle_value c none p = record p { first_bits_char = if c == 255 then none else some c }
handle_value c (some first) p = record p {
  obuffer = set p.obuffer p.oindex (convert_hexstr2int first c);
  oindex = (p.oindex + 1) % 256;
  first_bits_char = none;
}

abbrev check_bounds : Interface → Interface
check_bounds p = if ltb 63 p.oindex then record p { halted = true } else p

unfoldable pub handle_serial_input : ℕ → Interface → Interface
unfolding handle_serial_command handle_value
handle_serial_input c p =
    if p.halted
    then p
    else check_bounds
        (if is_command c then handle_serial_command c p else handle_value c p.first_bits_char p)

unfoldable pub receive : List ℕ → Interface → Interface
receive [] p = p
receive (c ∷ cs) p = receive cs (handle_serial_input c p)

-- usb_putc of each character
abbrev pub put_all : List ℕ → Interface → Interface
put_all [] p = p
put_all (c ∷ cs) p = put_all cs (put c p)

-- the characters of handle_frame_input
unfoldable pub frame_chars : Message → List ℕ
unfolding send_values
frame_chars m =
    let size : ℕ = length m.content in
    67 ∷ (send_values (bytes_of m.extended ++ size ∷ m.content) ++ 70 ∷ [])

-- can_read_message has given the message
unfoldable pub handle_frame_input : Message → Interface → Interface
unfolding frame_chars
handle_frame_input m p = put_all (frame_chars m) (record p { serial = (p.serial + 1) % 256 })
