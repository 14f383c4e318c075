-- ===== src/Examples/Helligkeit.antt =====
-- A brightness sensor (helligkeitssensor.c).
use hcan.Prelude.{◌≡◌, false, refl, List, [], ◌∷◌, ◌++◌, replicate, arith}
use hcan.Board.{send, low}
use hcan.Helligkeit.State.{sum, get_adc_value_inverted, Sensor, Adc, init, info_frame, cycle}
use hcan.Helligkeit.Mean.{run, Waits, sends_mean}

abbrev sensor : Sensor
sensor = init (record {
  config = record { port = 8; gruppe = 30; feature = 0; send_cycle_mins = 1 };
  secs_until_next_send = 0;
  filter_brightness = record { a_data = []; index_next_value = 0 };
  board = record { self = 100; pins = λ k. false; sent = [] };
})

abbrev dark : Adc
dark = record { first = 1023; second = 1023; third = 1023; fourth = 1023 }

abbrev bright : Adc
bright = record { first = 23; second = 23; third = 23; fourth = 23 }

abbrev newest : List Adc
newest = bright ∷ bright ∷ dark ∷ dark ∷ dark ∷ dark ∷ dark ∷ dark ∷ []

sends_mean_example :
    ((run (newest ++ replicate 52 bright) sensor).board ≡ sensor.board)
    × ((run (dark ∷ newest ++ replicate 52 bright) sensor).board
        ≡ send (info_frame 250 sensor) low sensor.board)
    × Waits (cycle sensor) (run (dark ∷ newest ++ replicate 52 bright) sensor)
unfolding init sum get_adc_value_inverted
sends_mean_example =
    sends_mean dark newest (replicate 52 bright) sensor refl
      (record { left = refl; ring = record { full = refl; inside = omega arith } })
