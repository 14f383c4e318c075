-- ===== src/Zeit/Zeitzone.antt =====
-- zeitzone.c: the time zones of a board, in the order of their devices, and the reaction of one to
-- frames.
use hcan.Prelude.{ℕ, ◌+◌, Bool, true, false, List, [], ◌∷◌, if◌then◌else◌, ◌==◌}
use hcan.Board.{Frame, byte, Board, hes_frame, send, low}
use hcan.Canix.Clock.{Clock, time_matches}

-- eds_zeitzone_block_t
pub record Config : Type 0 where
  pub gruppe : ℕ
  pub day_pattern : ℕ
  pub from_hour : ℕ
  pub from_minute : ℕ
  pub to_hour : ℕ
  pub to_minute : ℕ

-- device_data_zeitzone, with the EEPROM and the board that it acts on
pub record Zeitzone : Type 0 where
  pub config : Config
  pub it : ℕ
  pub eeprom : ℕ → ℕ
  pub board : Board

abbrev pub in_zone : Clock → Config → Bool
in_zone c z = time_matches c z.from_hour z.from_minute z.to_hour z.to_minute z.day_pattern

unfoldable pub zeitzone_matches : Clock → List Config → ℕ → Bool
zeitzone_matches c [] id = false
zeitzone_matches c (z ∷ zs) id = if z.gruppe == id then in_zone c z else zeitzone_matches c zs id

abbrev pub details_request : ℕ
details_request = 110

abbrev pub details_replay : ℕ
details_replay = 111

abbrev pub write_details : ℕ
write_details = 112

abbrev pub write_details_ack : ℕ
write_details_ack = 113

abbrev pub test_match_request : ℕ
test_match_request = 114

abbrev pub test_match_replay : ℕ
test_match_replay = 115

-- EDS_zeitzone_BLOCK_ID
abbrev pub block_id : ℕ
block_id = 18

abbrev pub answer : Zeitzone → Frame → ℕ → List ℕ → Zeitzone
answer p f size rest = record p { board = send (hes_frame p.board f.src size rest) low p.board }

unfoldable pub on_details_request : Zeitzone → Frame → Zeitzone
on_details_request p f =
    let z = p.config in
    answer p f 8 (
      details_replay ∷ z.gruppe ∷ z.day_pattern ∷ z.from_hour ∷ z.from_minute ∷ z.to_hour
      ∷ z.to_minute ∷ [])

abbrev pub write_byte : ℕ → ℕ → (ℕ → ℕ) → ℕ → ℕ
write_byte at v memory n = if n == at then v else memory n

-- the bytes 3 to 7 of the frame behind the header of the block and its group
abbrev pub write_bytes : Zeitzone → Frame → ℕ → ℕ
write_bytes p f = write_byte (p.it + 7) (byte f 7) (
    write_byte (p.it + 6) (byte f 6) (
      write_byte (p.it + 5) (byte f 5)
        (write_byte (p.it + 4) (byte f 4) (write_byte (p.it + 3) (byte f 3) p.eeprom))))

unfoldable pub on_write_details : Zeitzone → Frame → Zeitzone
on_write_details p f =
    let q = record p {
      config = record {
        gruppe = p.config.gruppe;
        day_pattern = byte f 3;
        from_hour = byte f 4;
        from_minute = byte f 5;
        to_hour = byte f 6;
        to_minute = byte f 7;
      };
      eeprom = write_bytes p f;
    } in
    if p.it == 0
    then p
    else if p.eeprom p.it == block_id
    then answer q f 3 (write_details_ack ∷ p.config.gruppe ∷ [])
    else p

abbrev pub one_if : Bool → ℕ
one_if true = 1
one_if false = 0

module _ (c : Clock) (zones : List Config) where
  unfoldable pub on_test_match : Zeitzone → Frame → Zeitzone
  unfolding zeitzone_matches
  on_test_match p f =
      answer p f 4 (
        test_match_replay
        ∷ p.config.gruppe
        ∷ one_if (zeitzone_matches c zones p.config.gruppe)
        ∷ [])

  -- zeitzone_can_callback, on a board with these zones
  unfoldable pub can_callback : Zeitzone → Frame → Zeitzone
  unfolding on_details_request on_write_details on_test_match
  can_callback p f =
      if byte f 2 == p.config.gruppe
      then if byte f 1 == details_request
        then on_details_request p f
        else if byte f 1 == write_details
        then on_write_details p f
        else if byte f 1 == test_match_request
        then on_test_match p f
        else p
      else p
