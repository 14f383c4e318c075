-- ===== src/Examples/Tempsensor.antt =====
-- A temperature sensor (tempsensor.c).
use hcan.Prelude.{◌+◌, ◌%◌, ◌≡◌, false, refl, List, [], ◌∷◌, inr, arith}
use hcan.Board.{Frame, send, low, multicast_info}
use hcan.Tempsensor.State.{
  Tempsensor, temperature_frame, temperature_info, timer_handler, str2id, str2id_from, pair,
}
use hcan.Tempsensor.Period.{Event, second, frame, run_events, NoQuery, answers, sends_each_interval}

-- the id 10a2b30400080f6c
abbrev sensor : Tempsensor
sensor = record {
  config = record {
    io_pin = 12;
    gruppe = 30;
    modus = 1;
    interval = 5;
    ow_id = 49 ∷ 48 ∷ 97 ∷ 50 ∷ 98 ∷ 51 ∷ 48 ∷ 52 ∷ 48 ∷ 48 ∷ 48 ∷ 56 ∷ 48 ∷ 102 ∷ 54 ∷ 99 ∷ 0 ∷ [];
  };
  timer_counter = 4;
  convert_sent = false;
  temperature = 300;
  ow_pin = 0;
  commands = [];
  board = record { self = 100; pins = λ k. false; sent = [] };
}

-- a query for the group 31
abbrev other_query : Frame
other_query = record { src = 7; dst = 100; proto = 1; size = 3; bytes = 5 ∷ 35 ∷ 31 ∷ [] }

abbrev events : List Event
events = second 0 ∷ frame other_query ∷ second 0 ∷ second 0 ∷ second 0 ∷ []

sends_each_interval_example :
    let q = timer_handler 325 (run_events events sensor) in
    ((run_events events sensor).board ≡ sensor.board)
    × (q.board
        ≡ send
            (temperature_frame multicast_info temperature_info
              (record sensor { temperature = 325 }))
            low
            sensor.board)
    × (q.timer_counter ≡ (q.config.interval + 255) % 256)
    × (q.convert_sent ≡ false)
unfolding str2id str2id_from pair NoQuery answers
sends_each_interval_example =
    sends_each_interval sensor events 325
      (record {
        modus = λ e. omega arith;
        id = 16 ∷ 162 ∷ 179 ∷ 4 ∷ 0 ∷ 8 ∷ 15 ∷ 108 ∷ [];
        has_id = refl;
        byte_interval = omega arith;
      })
      refl refl (tt, (inr (λ e. omega arith), (tt, (tt, (tt, tt))))) refl
