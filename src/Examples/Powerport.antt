-- ===== src/Examples/Powerport.antt =====
-- A fan with 5 seconds of overrun and a staircase light (powerport.c).
use hcan.Prelude.{ℕ, ◌+◌, ◌≡◌, true, false, refl, [], ◌∷◌, arith}
use hcan.Powerport.State.{Powerport}
use hcan.Board.{Frame}
use hcan.Powerport.Automat.{Automat, too_bright}
use hcan.Powerport.Bright.{receive, number_on, no_on_while_bright}
use hcan.Powerport.Timer.{pin_of, seconds, timer_expires}

abbrev port_with : ℕ → ℕ → Powerport
port_with feature timer = record {
  config = record {
    port = 3;
    feature = feature;
    gruppe0 = 17;
    gruppe1 = 18;
    gruppe2 = 255;
    gruppe3 = 0x80 + 5;
  };
  count_down_timer = timer;
  bistable_relais_state = 0;
  board = record { self = 100; pins = λ k. true; sent = [] };
}

-- bit 3 is NACHLAUF
abbrev fan : Powerport
fan = port_with 8 5

abbrev idle : Powerport → Powerport
idle p = p

timer_expires_example :
    (pin_of (seconds idle 2 fan) ≡ true)
    × (pin_of (seconds idle 5 fan) ≡ false)
    × ((seconds idle 5 fan).count_down_timer ≡ 0)
timer_expires_example =
    timer_expires idle 2 2 fan (record { plain = refl; no_wake = refl; no_sleep = refl }) refl
      (omega arith)

-- a lamp in the garden, with a sensor that reports 900
abbrev garden : Automat
garden = record {
  config = record {
    powerport_gruppe = 70;
    steller_gruppe = 71;
    automatik_ein_schalter_gruppe = 72;
    helligkeits_gruppe = 73;
    helligkeitsschwelle = 500;
  };
  brightness = 900;
  msg_ist_versendet = false;
  automatik_ein = true;
  board = record { self = 100; pins = λ k. false; sent = [] };
}

abbrev command : ℕ → ℕ → Frame
command kind group = record {
  src = 50;
  dst = 35;
  proto = 1;
  size = 3;
  bytes = 5 ∷ kind ∷ group ∷ [];
}

no_on_while_bright_example :
    let q = receive (command 10 71 ∷ command 11 71 ∷ []) garden in
    (number_on q.board.sent ≡ 0) × (too_bright q ≡ true)
unfolding number_on
no_on_while_bright_example =
    no_on_while_bright (command 10 71 ∷ command 11 71 ∷ []) garden refl (refl, (refl, tt))
