-- ===== src/Examples/Zeit.antt =====
-- A time switch, a shutter by the time of day, and a zone (zeitschaltuhr.c, rolladenAutomat.c, zeitzone.c).
use hcan.Prelude.{ℕ, ◌+◌, ◌≡◌, ◌==◌, Bool, true, false, refl, [], ◌∷◌, arith}
use hcan.Board.{Board, Frame}
use hcan.Canix.Clock.{Clock}
use hcan.Zeit.Schaltuhr.{Schaltuhr, init, any_matches}
use hcan.Zeit.Automat.{Automat}
use hcan.Zeit.Automat
use hcan.Zeit.Zeitzone.{Zeitzone, zeitzone_matches}
use hcan.Zeit.Zeitzone
use hcan.Zeit.Port.{Second}
use hcan.Zeit.Port
use hcan.Zeit.Switched.{port_follows_zones}
use hcan.Powerport.State.{Powerport, is_on}
use hcan.Powerport.Handlers.{is_in_group}
use hcan.Zeit.Once.{second, frame, run, number_sent, one_message_in_stay}
use hcan.Zeit.Details.{on_circle, written_zone_matches}

abbrev board : Board
board = record { self = 100; pins = λ k. false; sent = [] }

abbrev pump : Bool → Bool → Schaltuhr
pump automatic on = record {
  config = record {
    power_gruppe = 40;
    automatik_ein_schalter_gruppe = 41;
    zeitzonen_ids = 3 ∷ 4 ∷ 255 ∷ 255 ∷ 255 ∷ 255 ∷ 255 ∷ 255 ∷ [];
  };
  state = on;
  update_counter = 2;
  automatik_ein = automatic;
  board = board;
}

-- zone 3, 4 or none
abbrev only : ℕ → ℕ → Bool
only n k = k == n

-- a port of the group 40, and the zone `n` in a second
abbrev port : Powerport
port = record {
  config = record {
    port = 3;
    feature = 0;
    gruppe0 = 12;
    gruppe1 = 40;
    gruppe2 = 255;
    gruppe3 = 255;
  };
  count_down_timer = 0;
  bistable_relais_state = 0;
  board = record { self = 101; pins = λ k. false; sent = [] };
}

abbrev in_zone : ℕ → Bool → Second
in_zone n first = record { zones = only n; port_first = first }

port_follows_zones_example :
    is_on
      (Port.second
        (λ p. p)
        (in_zone 4 true)
        (Port.seconds
          (λ p. p)
          (in_zone 3 false ∷ in_zone 9 true ∷ [])
          (record { switch = init (pump true false); port = port }))).port
    ≡ true
unfolding any_matches is_in_group
port_follows_zones_example =
    port_follows_zones (λ p. p) (in_zone 3 false ∷ in_zone 9 true ∷ []) (in_zone 4 true)
      (pump true false) port refl
      (record {
        monostable = refl;
        no_delay = refl;
        no_end = refl;
        no_rest = refl;
        timer = refl;
        member = refl;
      })
      refl

abbrev automatic_on : Frame
automatic_on = record { src = 50; dst = 35; proto = 1; size = 3; bytes = 5 ∷ 10 ∷ 41 ∷ [] }

abbrev shutter : Automat
shutter = record {
  config = record {
    rolladen_gruppe = 60;
    rolladen_soll_position = 200;
    automatik_ein_schalter_gruppe = 41;
    zeitzonen_ids = 3 ∷ 4 ∷ [];
    helligkeits_gruppe = 255;
    helligkeitsschwelle = 0;
    helligkeitswertueberschreitung = 0;
  };
  brightness = 65535;
  msg_ist_versendet = false;
  automatik_ein = true;
  board = board;
}

one_message_in_stay_example :
    number_sent (run (second (only 3) ∷ frame automatic_on ∷ second (only 4) ∷ []) shutter) ≡ 1
unfolding Automat.any_matches
one_message_in_stay_example =
    one_message_in_stay (only 3) (frame automatic_on ∷ second (only 4) ∷ []) shutter refl refl
      (refl, (tt, (refl, tt)))

abbrev zone : Zeitzone
zone = record {
  config = record {
    gruppe = 3;
    day_pattern = 0;
    from_hour = 0;
    from_minute = 0;
    to_hour = 0;
    to_minute = 0;
  };
  it = 40;
  eeprom = λ n. 18;
  board = board;
}

-- on all days from 22:00 to 6:30
abbrev night : Frame
night = record {
  src = 50;
  dst = 100;
  proto = 1;
  size = 8;
  bytes = 5 ∷ 112 ∷ 3 ∷ 127 ∷ 22 ∷ 0 ∷ 6 ∷ 30 ∷ [];
}

abbrev noon_zone : Zeitzone.Config
noon_zone = record {
  gruppe = 7;
  day_pattern = 127;
  from_hour = 12;
  from_minute = 0;
  to_hour = 13;
  to_minute = 0;
}

abbrev clock : Clock
clock = record {
  day_of_week = 1;
  hour = 5;
  minute = 0;
  second = 0;
  last_date_update = 0;
  day_of_month = 1;
  month_of_year = 1;
  year = 9;
}

written_zone_matches_example :
    let q = Zeitzone.can_callback clock [] zone night in
    (zeitzone_matches clock (noon_zone ∷ q.config ∷ []) 3 ≡ on_circle clock 127 1320 390)
    × (q.eeprom (40 + 3) ≡ 127)
    × (q.eeprom (40 + 4) ≡ 22)
    × (q.eeprom (40 + 5) ≡ 0)
    × (q.eeprom (40 + 6) ≡ 6)
    × (q.eeprom (40 + 7) ≡ 30)
written_zone_matches_example =
    written_zone_matches clock clock [] (noon_zone ∷ []) [] zone night ((λ z. omega arith), tt) refl
      refl (λ z. omega arith) refl (omega arith) (omega arith) (omega arith) (omega arith)
      (omega arith)
