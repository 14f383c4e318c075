-- ===== src/Examples/Timeservice.antt =====
-- Two time services (timeservice.c).
use hcan.Prelude.{ℕ, ◌≡◌, false, refl, List, [], ◌∷◌, replicate, arith}
use hcan.Board.{low}
use hcan.Canix.Clock.{Clock}
use hcan.Timeservice.State.{Timeservice, date_frame, time_frame}
use hcan.Timeservice.Bus.{Bus, Round, run}
use hcan.Timeservice.Leader.{higher_level_silent}
use hcan.Timeservice.Alone.{alone, sends_when_alone}

abbrev service : ℕ → ℕ → ℕ → ℕ → Timeservice
service self level takeover interval = record {
  config = record { level = level; takeover_time = takeover; interval = interval };
  last_time_frame_received = 0;
  last_time_frame_sent = 0;
  board = record { self = self; pins = λ k. false; sent = [] };
}

abbrev clock : Clock
clock = record {
  day_of_week = 1;
  hour = 12;
  minute = 30;
  second = 7;
  last_date_update = 0;
  day_of_month = 5;
  month_of_year = 6;
  year = 11;
}

-- the second one has sent the time so far
abbrev bus : Bus
bus = record {
  first = service 100 1 3 2;
  second = record (service 101 2 5 2) { last_time_frame_received = 200 };
}

abbrev seconds : List Round
seconds = replicate 7 (record { first_clock = clock; second_clock = clock; first_leads = false })

higher_level_silent_example : (run seconds bus).second.board.sent ≡ []
higher_level_silent_example =
    higher_level_silent seconds bus
      (record {
        lower_level = omega arith;
        patient = omega arith;
        byte_takeover = omega arith;
        byte_interval = omega arith;
      })
      (omega arith) (omega arith)

abbrev single : Timeservice
single = service 100 1 3 2

-- the fifth second is the first one with frames
sends_when_alone_example :
    (alone (clock ∷ clock ∷ clock ∷ clock ∷ clock ∷ []) single).board.sent
    ≡ record { frame = date_frame clock single; prio = low }
      ∷ record { frame = time_frame clock single; prio = low }
      ∷ (alone (clock ∷ clock ∷ clock ∷ clock ∷ []) single).board.sent
sends_when_alone_example =
    sends_when_alone clock (clock ∷ clock ∷ clock ∷ clock ∷ []) single (record {
      not_received = refl;
      not_sent = refl;
      some_takeover = omega arith;
      byte_takeover = omega arith;
      byte_interval = omega arith;
    })
