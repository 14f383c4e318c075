-- ===== src/Examples/Schalter.antt =====
-- A switch that bounces (schalter.c).
use hcan.Prelude.{◌≡◌, true, false, refl, [], ◌∷◌}
use hcan.Schalter.State.{Schalter, falling, rising, timer_handler, send_message}
use hcan.Schalter.Debounce.{run}

abbrev switch : Schalter
switch = record {
  config = record { port = 9; feature = 0; gruppe = 17 };
  new_state = 0;
  last_edge = falling;
  board = record { self = 100; pins = λ k. false; sent = [] };
}

-- three samples, with others between them
bounced : (run (true ∷ false ∷ true ∷ false ∷ false ∷ true ∷ []) switch).last_edge ≡ rising
unfolding run timer_handler send_message
bounced = refl
