-- ===== src/Powerport/Handlers.antt =====
-- powerport.c: powerport_timer_handler, called every second, powerport_is_in_group and
-- powerport_can_callback.
use hcan.Prelude.{ℕ, ◌+◌, ◌%◌, Bool, true, false, List, [], ◌∷◌, ◌||◌, if◌then◌else◌, ◌==◌, ltb}
use hcan.Board.{Frame, byte, hes_frame, send, hi, msb, lsb, word}
use hcan.Powerport.State.{
  Powerport, fallende, steigende, verzoegert_ein, auto_aus, nachlauf, weck_verzoegert_ein,
  weck_auto_aus, has, set_bit, clear_bit, with_feature, setup_timer, is_on, one_if, relais_on,
  relais_off, set_or_timer, toggle,
}

-- the loop of powerport_is_in_group
abbrev in_gruppen : List ℕ → ℕ → Bool
in_gruppen [] group = false
in_gruppen (g ∷ gs) group = if g == group then true else in_gruppen gs group

unfoldable pub is_in_group : Powerport → ℕ → Bool
is_in_group p group =
    let first_three = gruppe0 ∷ gruppe1 ∷ gruppe2 ∷ [] in
    let all_four = gruppe0 ∷ gruppe1 ∷ gruppe2 ∷ gruppe3 ∷ [] in
    if group == 255
    then false
    else in_gruppen (if has p auto_aus then first_three else all_four) group
  where
    open p.config use {gruppe0, gruppe1, gruppe2, gruppe3}

abbrev pub taster_down : ℕ
taster_down = 1

abbrev pub group_on : ℕ
group_on = 10

abbrev pub group_off : ℕ
group_off = 11

abbrev pub state_query : ℕ
state_query = 12

abbrev pub state_replay : ℕ
state_replay = 13

abbrev pub wecker_set : ℕ
wecker_set = 72

abbrev pub wecker_details_request : ℕ
wecker_details_request = 73

abbrev pub wecker_details : ℕ
wecker_details = 74

unfoldable pub on_state_query : Powerport → Frame → Powerport
on_state_query p f = record p {
  board =
      send (hes_frame p.board f.src 4 (state_replay ∷ byte f 2 ∷ one_if (is_on p) ∷ [])) hi p.board;
}

unfoldable pub on_wecker_details_request : Powerport → Frame → Powerport
on_wecker_details_request p f =
    if p.config.gruppe0 == byte f 2
    then record p {
      board =
          send
            (hes_frame p.board f.src 5 (
              wecker_details
              ∷ p.config.gruppe0
              ∷ msb p.count_down_timer
              ∷ lsb p.count_down_timer
              ∷ []))
            hi p.board;
    }
    else p

module _ (meanwhile : Powerport → Powerport) where
  -- what an expired timer does
  unfoldable pub expire : Powerport → Powerport
  unfolding relais_on relais_off setup_timer
  expire p =
      if has p weck_verzoegert_ein
      then woken (relais_on meanwhile p)
      else if has p weck_auto_aus
      then asleep (relais_off p)
      else if has p verzoegert_ein
      then relais_on meanwhile p
      else if has p auto_aus || has p nachlauf
      then relais_off p
      else p
    where
      woken : Powerport → Powerport
      woken q = setup_timer (with_feature q (clear_bit q.config.feature weck_verzoegert_ein))

      asleep : Powerport → Powerport
      asleep q = with_feature q (clear_bit q.config.feature weck_auto_aus)

  -- the decrement of a uint16_t, which passes 0
  unfoldable pub timer_handler : Powerport → Powerport
  timer_handler p =
      let q = if p.count_down_timer == 1 then expire p else p in
      if ltb 0 p.count_down_timer
      then record q { count_down_timer = (q.count_down_timer + 65535) % 65536 }
      else p

  unfoldable pub on_wecker_set : Powerport → Frame → Powerport
  unfolding relais_on
  on_wecker_set p f =
      let q = record (with_feature p (set_bit p.config.feature (byte f 3))) {
        count_down_timer = word (byte f 4) (byte f 5);
      } in
      if p.config.gruppe0 == byte f 2
      then if has q weck_auto_aus then relais_on meanwhile q else q
      else p

  unfoldable pub can_callback : Powerport → Frame → Powerport
  unfolding is_in_group toggle set_or_timer on_state_query on_wecker_set on_wecker_details_request
  can_callback p f =
      if is_in_group p (byte f 2)
      then if byte f 1 == taster_down
        then toggle meanwhile p
        else if byte f 1 == group_on
        then set_or_timer meanwhile p steigende
        else if byte f 1 == group_off
        then set_or_timer meanwhile p fallende
        else if byte f 1 == state_query
        then on_state_query p f
        else if byte f 1 == wecker_set
        then on_wecker_set p f
        else if byte f 1 == wecker_details_request
        then on_wecker_details_request p f
        else p
      else p
