-- ===== src/Powerport/State.antt =====
-- powerport.c: the data of a power port, its timer and its relay. A bistable relay is switched by a
-- pulse of 800 ms, in which canix_sleep_100th runs the main loop: what that does to this device is the
-- parameter `meanwhile`.
use hcan.Prelude.{
  ℕ, ◌+◌, ◌-◌, ◌*◌, ◌%◌, ◌^◌, Bool, true, false, [], ◌∷◌, not, if◌then◌else◌, ◌==◌, ltb,
}
use hcan.Board.{Board, hes_frame, send, low, multicast_info, bit, setpin, getpin}

-- eds_powerport_block_t; gruppe3 is also the delay of the timer
pub record Config : Type 0 where
  pub port : ℕ
  pub feature : ℕ
  pub gruppe0 : ℕ
  pub gruppe1 : ℕ
  pub gruppe2 : ℕ
  pub gruppe3 : ℕ

-- device_data_powerport, with the board that it acts on
pub record Powerport : Type 0 where
  pub config : Config
  pub count_down_timer : ℕ  -- uint16_t
  pub bistable_relais_state : ℕ  -- uint8_t
  pub board : Board

-- FALLENDE_FLANKE and STEIGENDE_FLANKE
pub data Flanke : Type 0 where
  fallende steigende : Flanke

-- POWERPORT_FEATURE_*: the numbers of the bits
abbrev pub bistable_relais : ℕ
bistable_relais = 0

abbrev pub verzoegert_ein : ℕ
verzoegert_ein = 1

abbrev pub auto_aus : ℕ
auto_aus = 2

abbrev pub nachlauf : ℕ
nachlauf = 3

abbrev pub weck_verzoegert_ein : ℕ
weck_verzoegert_ein = 4

abbrev pub weck_auto_aus : ℕ
weck_auto_aus = 5

abbrev pub has : Powerport → ℕ → Bool
has p k = bit p.config.feature k

-- `feature |= 1 << k` and `feature &= ~(1 << k)` on a uint8_t
abbrev pub set_bit : ℕ → ℕ → ℕ
set_bit x k = if ltb k 8 then if bit x k then x else x + 2 ^ k else x

abbrev pub clear_bit : ℕ → ℕ → ℕ
clear_bit x k = if bit x k then x - 2 ^ k else x

abbrev pub with_feature : Powerport → ℕ → Powerport
with_feature p x = record p { config = record p.config { feature = x } }

abbrev pub delay_of : ℕ → ℕ
delay_of n = if bit n 7 then n % 128 else n * 60

unfoldable pub setup_timer : Powerport → Powerport
setup_timer p = record p { count_down_timer = delay_of p.config.gruppe3 }

-- powerport_get(p) != 0
abbrev pub is_on : Powerport → Bool
is_on p =
    if has p bistable_relais
    then not (p.bistable_relais_state == 0)
    else getpin p.config.port p.board

abbrev pub one_if : Bool → ℕ
one_if true = 1
one_if false = 0

abbrev pub group_state_info : ℕ
group_state_info = 17

unfoldable pub send_state_info : Powerport → Powerport
send_state_info p = record p {
  board =
      send
        (hes_frame p.board multicast_info 4
          (group_state_info ∷ p.config.gruppe0 ∷ one_if (is_on p) ∷ []))
        low p.board;
}

abbrev pub pin : Bool → Powerport → Powerport
pin v p = record p { board = setpin p.config.port v p.board }

-- `^= 0x01`
abbrev pub flip_bit_0 : ℕ → ℕ
flip_bit_0 n = if n % 2 == 0 then n + 1 else n - 1

unfoldable pub relais_off : Powerport → Powerport
unfolding send_state_info
relais_off p = send_state_info (pin false p)

abbrev pub flip_relais : Powerport → Powerport
flip_relais p = record p { bistable_relais_state = flip_bit_0 p.bistable_relais_state }

module _ (meanwhile : Powerport → Powerport) where
  unfoldable pub relais_on : Powerport → Powerport
  unfolding send_state_info
  relais_on p = send_state_info (
      if has p bistable_relais
      then flip_relais (pin false (meanwhile (pin true p)))
      else pin true p)

  abbrev rising : Powerport → Powerport
  rising p =
      if has p auto_aus
      then setup_timer (relais_on p)
      else if has p verzoegert_ein
      then setup_timer p
      else record (relais_on p) { count_down_timer = 0 }

  abbrev falling : Powerport → Powerport
  falling p =
      if has p nachlauf then setup_timer p else record (relais_off p) { count_down_timer = 0 }

  -- set_powerport_or_timer
  unfoldable pub set_or_timer : Powerport → Flanke → Powerport
  unfolding setup_timer relais_on relais_off
  set_or_timer p steigende = rising p
  set_or_timer p fallende = falling p

  unfoldable pub toggle : Powerport → Powerport
  unfolding set_or_timer
  toggle p = set_or_timer p (if getpin p.config.port p.board then fallende else steigende)

unfoldable pub init : Powerport → Powerport
init p = record p { count_down_timer = 0 }
