-- ===== src/Examples/Taster.antt =====
-- Presses of a button (taster.c).
use hcan.Prelude.{ℕ, ◌≡◌, false, refl, [], ◌∷◌}
use hcan.Taster.State.{Taster, press}
use hcan.Taster.Press.{messages, sent_by, press_sends}

abbrev button : ℕ → Taster
button feature = record {
  config = record { port = 9; feature = feature; gruppe = 17 };
  pressed = 0;
  board = record { self = 100; pins = λ k. false; sent = [] };
}

-- 50 ms: the press and the release
press_sends_example :
    (messages (press 5 (button 0)).board.sent ≡ (5 ∷ 2 ∷ 17 ∷ 9 ∷ []) ∷ (5 ∷ 1 ∷ 17 ∷ 9 ∷ []) ∷ [])
    × ((press 5 (button 0)).pressed ≡ 0)
unfolding sent_by messages
press_sends_example = press_sends 5 (button 0) refl
