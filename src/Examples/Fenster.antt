-- ===== src/Examples/Fenster.antt =====
-- A kitchen window and the hood (reedkontakt.c, dunstabzugport.c).
use hcan.Prelude.{ℕ, ◌≡◌, Bool, true, false, refl, [], ◌∷◌, inr, arith}
use hcan.Board.{Board, Frame}
use hcan.Fenster.Reedkontakt.{Reedkontakt}
use hcan.Fenster.Dunstabzug.{Dunstabzug}
use hcan.Fenster.Strecke.{Strecke, Second, seconds, is_on}
use hcan.Fenster.Others.{shortens}
use hcan.Fenster.Stays.{on_while_open}

abbrev board : Board
board = record { self = 100; pins = λ k. false; sent = [] }

abbrev window : Reedkontakt
window = record {
  config = record { port = 5; gruppe = 40; modus = 1; feature = 0 };
  timer_counter = 0;
  last_state = false;
  board = board;
}

abbrev hood : Dunstabzug
hood = record {
  config = record {
    port = 2;
    reed_gruppe0 = 39;
    freischalt_taster = 17;
    freischalt_zeit = 2;
    reed_gruppe1 = 40;
  };
  counter = 0;
  state_reed0 = false;
  state_reed1 = false;
  state_dunst = false;
  board = board;
}

abbrev kitchen : Strecke
kitchen = record { reed = window; hood = hood }

abbrev frame_with : ℕ → ℕ → ℕ → Frame
frame_with kind group level = record {
  src = 50;
  dst = 36;
  proto = 1;
  size = 4;
  bytes = 5 ∷ kind ∷ group ∷ level ∷ [];
}

-- the contact of the other group is opened
abbrev lively : Bool → Second
lively o = record { hood_first = o; others = frame_with 91 39 1 ∷ [] }

on_while_open_example : is_on (seconds true (lively true ∷ lively false ∷ []) kitchen).hood ≡ true
unfolding shortens
on_while_open_example =
    on_while_open (lively true) (lively false ∷ []) kitchen
      (record { active = λ z. omega arith; group = inr refl; quiet = refl }) refl
      ((refl, tt), ((refl, tt), tt))
