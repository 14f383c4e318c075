-- ===== src/Serial/Daemon.antt =====
-- hcanhid/main.c: the daemon between the serial line and hcand. A size beyond the eight bytes of a
-- CANFrame, and an index beyond the 64 of the buffer, are undefined in C; here no byte is lost of the
-- first, and none is written for the second.
use hcan.Prelude.{
  ℕ, ◌+◌, ◌%◌, Bool, true, false, Option, none, some, List, [], ◌∷◌, ◌++◌, if◌then◌else◌, ◌==◌,
  get_or, set, length,
}
use hcan.Serial.Hex.{is_command, send_values, convert_hexstr2int, bytes_of, id_of, copy}
use hcan.Serial.Interface.{Message}

-- `written` holds the characters given to sendchar, the newest first. With `reset_flag` the handler is in
-- recchar, for the character after `Y`.
pub record Daemon : Type 0 where
  pub ibuffer : List ℕ  -- 64 bytes
  pub iindex : ℕ  -- uint8_t
  pub first_bits_char : Option ℕ
  pub reset_flag : Bool
  pub to_hcand : Option Message  -- frame_to_hcand, if frame_to_hcand_busy
  pub to_hi : Option Message  -- frame_to_hi, if frame_to_hi_busy
  pub written : List ℕ
  pub packet_sent : ℕ
  pub packet_recvd : ℕ

abbrev pub send_char : ℕ → Daemon → Daemon
send_char c p = record p { written = c ∷ p.written }

-- reset_HI; the characters that it reads away do not reach the handler
abbrev reset_hi : Daemon → Daemon
reset_hi p = send_char 82 p

-- the first of the frames waits, the second is lost
abbrev pub or_first : Option Message → Message → Option Message
or_first none m = some m
or_first (some busy) m = some busy

-- the command F
unfoldable pub take_frame : Daemon → Daemon
unfolding copy
take_frame p =
    let size : ℕ = get_or p.ibuffer 4 0 in
    let frame : Message = record { extended = id_of p.ibuffer; content = copy size 5 p.ibuffer } in
    if size + 5 == p.iindex
    then record p { to_hcand = or_first p.to_hcand frame; packet_recvd = p.packet_recvd + 1 }
    else record (reset_hi p) { iindex = 0 }

unfoldable pub handle_serial_command : ℕ → Daemon → Daemon
unfolding take_frame
handle_serial_command c p =
    if c == 66
    then record p { iindex = 0 }
    else if c == 89
    then record p { reset_flag = true }
    else if c == 67
    then record p { iindex = 0 }
    else if c == 70
    then take_frame p
    else send_char 82 p

unfoldable pub handle_value : ℕ → Option ℕ → Daemon → Daemon
unfolding convert_hexstr2int
handle_value c none p = record p { first_bits_char = some c }
handle_value c (some first) p = record p {
  ibuffer = set p.ibuffer p.iindex (convert_hexstr2int first c);
  iindex = (p.iindex + 1) % 256;
  first_bits_char = none;
}

-- a character from the serial line, in the main loop
unfoldable pub read_serial : ℕ → Daemon → Daemon
unfolding handle_serial_command handle_value
read_serial c p =
    if p.reset_flag
    then record p { reset_flag = false; iindex = 0 }
    else if is_command c
    then handle_serial_command c p
    else handle_value c p.first_bits_char p

unfoldable pub receive : List ℕ → Daemon → Daemon
receive [] p = p
receive (c ∷ cs) p = receive cs (read_serial c p)

-- send_frame_to_HI
unfoldable pub frame_chars : Message → List ℕ
unfolding send_values
frame_chars m =
    let size : ℕ = length m.content in
    67 ∷ (send_values (bytes_of m.extended ++ size ∷ m.content) ++ 70 ∷ [])

abbrev send_chars : List ℕ → Daemon → Daemon
send_chars [] p = p
send_chars (c ∷ cs) p = send_chars cs (send_char c p)

-- the main loop where the serial line can be written
unfoldable pub write_serial : Option Message → Daemon → Daemon
unfolding frame_chars
write_serial none p = p
write_serial (some m) p = record (send_chars (frame_chars m) p) {
  to_hi = none;
  packet_sent = p.packet_sent + 1;
}

-- the main loop where hcand has a frame; it is read only while none waits for the line
unfoldable pub read_hcand : Message → Daemon → Daemon
read_hcand m p = record p { to_hi = or_first p.to_hi m }

-- the main loop where hcand can be written: the frame that is sent, and the new state
unfoldable pub write_hcand : Daemon → Option Message × Daemon
write_hcand p = (p.to_hcand, record p { to_hcand = none })
