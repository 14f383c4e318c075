-- ===== src/Powerport/Automat.antt =====
-- powerportAutomat.c: the commands for one group are passed on to the group of a power port, but for ON
-- when it is too bright.
use hcan.Prelude.{ℕ, Bool, true, false, [], ◌∷◌, ◌&&◌, not, if◌then◌else◌, ◌==◌, ltb}
use hcan.Board.{Frame, byte, Board, hes_frame, send, hi, multicast_control, word}

-- eds_powerportAutomat_block_t without feature and helligkeitswertueberschreitung, which are never read
pub record Config : Type 0 where
  pub powerport_gruppe : ℕ
  pub steller_gruppe : ℕ
  pub automatik_ein_schalter_gruppe : ℕ
  pub helligkeits_gruppe : ℕ
  pub helligkeitsschwelle : ℕ

-- device_data_powerportAutomat, with the board that it acts on
pub record Automat : Type 0 where
  pub config : Config
  pub brightness : ℕ  -- uint16_t
  pub msg_ist_versendet : Bool
  pub automatik_ein : Bool
  pub board : Board

unfoldable pub init : Automat → Automat
init p = record p {
  brightness = 65535;
  msg_ist_versendet = false;
  automatik_ein = if p.config.automatik_ein_schalter_gruppe == 255 then true else p.automatik_ein;
}

abbrev pub power_group_on : ℕ
power_group_on = 10

abbrev pub power_group_off : ℕ
power_group_off = 11

abbrev pub helligkeits_info : ℕ
helligkeits_info = 71

abbrev pub too_bright : Automat → Bool
too_bright p =
    p.automatik_ein
    && (not (p.brightness == 65535) && ltb p.config.helligkeitsschwelle p.brightness)

unfoldable pub send_message : ℕ → Automat → Automat
send_message active p = if (active == power_group_on) && too_bright p then p else record p {
  board =
      send (hes_frame p.board multicast_control 3 (active ∷ p.config.powerport_gruppe ∷ [])) hi
        p.board;
}

-- the reaction to a command for a group
unfoldable pub on_command : ℕ → Bool → ℕ → Automat → Automat
unfolding send_message
on_command active auto group p =
    if group == p.config.automatik_ein_schalter_gruppe
    then record p { automatik_ein = auto }
    else if group == p.config.steller_gruppe
    then send_message active p
    else p

-- powerportAutomat_can_callback
unfoldable pub can_callback : Automat → Frame → Automat
unfolding on_command
can_callback p f =
    if byte f 1 == power_group_on
    then on_command power_group_on true (byte f 2) p
    else if byte f 1 == power_group_off
    then on_command power_group_off false (byte f 2) p
    else if byte f 1 == helligkeits_info
    then if not (p.config.helligkeits_gruppe == 255) && (byte f 2 == p.config.helligkeits_gruppe)
      then record p { brightness = word (byte f 3) (byte f 4) }
      else p
    else p
