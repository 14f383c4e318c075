-- ===== src/Eds/Callback.antt =====
-- canix/eds.c: eds_can_callback, the service on the bus. canix_frame_send sends with the low priority.
use hcan.Prelude.{ℕ, ◌+◌, List, [], ◌∷◌, if◌then◌else◌, ◌==◌, ltb}
use hcan.Board.{Frame, byte, Board, send, low, msb, lsb, word, proto_sfp}
use hcan.Eds.Space.{Memory, write, data_start, next_block, format, alloc, free, defragment}

-- The space and the board that the service answers on.
pub record Eds : Type 0 where
  pub eeprom : Memory
  pub board : Board

abbrev pub srv_eds : ℕ
srv_eds = 7

abbrev pub get_next_block : ℕ
get_next_block = 1

abbrev pub defragment_request : ℕ
defragment_request = 3

abbrev pub allocate_block : ℕ
allocate_block = 4

abbrev pub free_block : ℕ
free_block = 6

abbrev pub read_from_block : ℕ
read_from_block = 8

abbrev pub write_to_block : ℕ
write_to_block = 10

abbrev pub format_request : ℕ
format_request = 12

abbrev pub answer : Eds → Frame → ℕ → List ℕ → Eds
answer e f size rest = record e {
  board =
      send
        (record {
          src = e.board.self;
          dst = f.src;
          proto = proto_sfp;
          size = size;
          bytes = srv_eds ∷ rest;
        })
        low e.board;
}

-- the block that a frame names
abbrev pub pointer : Frame → ℕ
pointer f = word (byte f 2) (byte f 3)

module _ (eds_end : ℕ) where
  unfoldable pub on_get_next_block : Eds → Frame → Eds
  on_get_next_block e f =
      let h1 = pointer f in
      let next = if h1 == 0 then data_start else next_block e.eeprom h1 in
      let h2 = if ltb next eds_end then next else 0 in
      answer e f 6 (2 ∷ msb h2 ∷ lsb h2 ∷ e.eeprom h2 ∷ e.eeprom (h2 + 1) ∷ [])

  unfoldable pub on_allocate_block : Eds → Frame → Eds
  unfolding alloc write
  on_allocate_block e f =
      let (m, h2) = alloc eds_end e.eeprom (byte f 3) in
      answer (record e { eeprom = write h2 (byte f 2) m }) f 4 (5 ∷ msb h2 ∷ lsb h2 ∷ [])

  unfoldable pub on_free_block : Eds → Frame → Eds
  unfolding free
  on_free_block e f =
      let (m, res) = free eds_end e.eeprom (pointer f) in
      answer (record e { eeprom = m }) f 3 (7 ∷ res ∷ [])

  unfoldable pub on_read_from_block : Eds → Frame → Eds
  on_read_from_block e f =
      let k = pointer f + byte f 4 in
      answer e f 6 (9 ∷ e.eeprom k ∷ e.eeprom (k + 1) ∷ e.eeprom (k + 2) ∷ e.eeprom (k + 3) ∷ [])

  unfoldable pub on_write_to_block : Eds → Frame → Eds
  unfolding write
  on_write_to_block e f =
      answer (record e { eeprom = write (pointer f + byte f 4) (byte f 5) e.eeprom }) f 2 (11 ∷ [])

  unfoldable pub can_callback : Eds → Frame → Eds
  unfolding on_get_next_block on_allocate_block on_free_block on_read_from_block on_write_to_block
      defragment format
  can_callback e f =
      if byte f 1 == get_next_block
      then on_get_next_block e f
      else if byte f 1 == allocate_block
      then on_allocate_block e f
      else if byte f 1 == free_block
      then on_free_block e f
      else if byte f 1 == defragment_request
      then record e { eeprom = defragment eds_end e.eeprom }
      else if byte f 1 == read_from_block
      then on_read_from_block e f
      else if byte f 1 == write_to_block
      then on_write_to_block e f
      else if byte f 1 == format_request
      then record e { eeprom = format eds_end e.eeprom }
      else e
