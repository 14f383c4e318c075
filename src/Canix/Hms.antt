-- ===== src/Canix/Hms.antt =====
-- canix/hcan_hms.c: the service for the state of a board, its EEPROM and its counters. The answer of the
-- build (the controller's number and the version) and the controller's error counters are arguments.
use hcan.Prelude.{ℕ, ◌+◌, ◌/◌, ◌%◌, ◌^◌, Bool, true, List, [], ◌∷◌, if◌then◌else◌, ◌==◌}
use hcan.Board.{Frame, byte, Board, send, low, proto_sfp, word, msb, lsb}

abbrev pub srv_hms : ℕ
srv_hms = 1

abbrev pub ping_request : ℕ
ping_request = 1

abbrev pub device_state_request : ℕ
device_state_request = 3

abbrev pub device_reset : ℕ
device_reset = 5

abbrev pub device_type_request : ℕ
device_type_request = 9

abbrev pub eeprom_write : ℕ
eeprom_write = 20

abbrev pub eeprom_read_request : ℕ
eeprom_read_request = 22

abbrev pub eeprom_read_replay : ℕ
eeprom_read_replay = 23

abbrev pub eeprom_bulk_request : ℕ
eeprom_bulk_request = 24

abbrev pub eeprom_bulk_replay : ℕ
eeprom_bulk_replay = 25

abbrev pub uptime_query : ℕ
uptime_query = 30

abbrev pub syslog_level_set : ℕ
syslog_level_set = 32

abbrev pub build_version_query : ℕ
build_version_query = 33

abbrev pub can_ec_query : ℕ
can_ec_query = 35

abbrev pub rx_received_query : ℕ
rx_received_query = 41

abbrev pub rx_lost_query : ℕ
rx_lost_query = 43

abbrev pub tx_sent_query : ℕ
tx_sent_query = 45

abbrev pub tx_dropped_query : ℕ
tx_dropped_query = 47

abbrev pub stats_reset : ℕ
stats_reset = 49

-- EEPR_BOARD_TYPE and EEPR_DEBUG_LEVEL
abbrev pub eepr_board_type : ℕ
eepr_board_type = 4

abbrev pub eepr_debug_level : ℕ
eepr_debug_level = 5

-- what the handler reads and writes; `resets` says that canix_reset was called, which does not return
pub record Hms : Type 0 where
  pub eeprom : ℕ → ℕ
  pub uptime_sec : ℕ
  pub syslog_level : ℕ
  pub rx_received : ℕ
  pub rx_lost : ℕ
  pub tx_sent : ℕ
  pub tx_dropped : ℕ
  pub resets : Bool
  pub board : Board

-- what the build and the hardware give
pub record Given : Type 0 where
  pub mcu : ℕ
  pub buildver : ℕ
  pub error_counters : ℕ

-- an answer to the sender: the kind of the request plus 1, and the rest of the bytes
abbrev pub answer : Frame → ℕ → List ℕ → Hms → Hms
answer f size rest h = record h {
  board =
      send
        (record {
          src = h.board.self;
          dst = f.src;
          proto = proto_sfp;
          size = size;
          bytes = srv_hms ∷ (byte f 1 + 1) ∷ rest;
        })
        low h.board;
}

-- the four bytes of a counter
abbrev pub counter : ℕ → List ℕ
counter n = (n / 2 ^ 24 % 2 ^ 8) ∷ (n / 2 ^ 16 % 2 ^ 8) ∷ (n / 2 ^ 8 % 2 ^ 8) ∷ (n % 2 ^ 8) ∷ []

-- frame->data[2] | frame->data[3] << 8
abbrev pub address_of : Frame → ℕ
address_of f = word (byte f 3) (byte f 2)

unfoldable pub write_byte : ℕ → ℕ → Hms → Hms
write_byte a v h = record h { eeprom = λ k. if k == a then v else h.eeprom k }

-- six bytes from an address on; it has 16 bits
abbrev pub bulk : (ℕ → ℕ) → ℕ → List ℕ
bulk m a =
    m (a % 2 ^ 16)
    ∷ m ((a + 1) % 2 ^ 16)
    ∷ m ((a + 2) % 2 ^ 16)
    ∷ m ((a + 3) % 2 ^ 16)
    ∷ m ((a + 4) % 2 ^ 16)
    ∷ m ((a + 5) % 2 ^ 16)
    ∷ []

-- the cases on the EEPROM
unfoldable pub on_eeprom : Frame → Hms → Hms
on_eeprom f h =
    if byte f 1 == eeprom_write
    then answer f 2 []
        (if h.eeprom (address_of f) == byte f 4 then h else write_byte (address_of f) (byte f 4) h)
    else if byte f 1 == eeprom_read_request
    then answer f 3 (h.eeprom (address_of f) ∷ []) h
    else if byte f 1 == eeprom_bulk_request
    then answer f 8 (bulk h.eeprom (address_of f)) h
    else h

-- the cases on the counters
unfoldable pub on_counters : Frame → Hms → Hms
on_counters f h =
    if byte f 1 == rx_received_query
    then answer f 6 (counter h.rx_received) h
    else if byte f 1 == rx_lost_query
    then answer f 6 (counter h.rx_lost) h
    else if byte f 1 == tx_sent_query
    then answer f 6 (counter h.tx_sent) h
    else if byte f 1 == tx_dropped_query
    then answer f 6 (counter h.tx_dropped) h
    else if byte f 1 == stats_reset
    then record h { rx_received = 0; rx_lost = 0; tx_sent = 0; tx_dropped = 0 }
    else h

-- the cases on the board
unfoldable pub on_board : Given → Frame → Hms → Hms
on_board g f h =
    if byte f 1 == ping_request
    then answer f 2 [] h
    else if byte f 1 == device_state_request
    then answer f 3 (2 ∷ []) h
    else if byte f 1 == device_reset
    then record h { resets = true }
    else if byte f 1 == device_type_request
    then answer f 4 (g.mcu ∷ h.eeprom eepr_board_type ∷ []) h
    else if byte f 1 == uptime_query
    then answer f 6 (counter h.uptime_sec) h
    else if byte f 1 == syslog_level_set
    then write_byte eepr_debug_level (byte f 2) (record h { syslog_level = byte f 2 })
    else if byte f 1 == build_version_query
    then answer f 4 (msb g.buildver ∷ lsb g.buildver ∷ []) h
    else if byte f 1 == can_ec_query
    then answer f 4 (msb g.error_counters ∷ lsb g.error_counters ∷ []) h
    else h

-- canix_SFP_HMS_handler: the cases exclude each other
unfoldable pub hms_handler : Given → Hms → Frame → Hms
hms_handler g h f = on_board g f (on_counters f (on_eeprom f h))
