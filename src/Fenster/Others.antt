-- ===== src/Fenster/Others.antt =====
-- dunstabzugport.c: frames that do not shorten the time of the hood's socket.

use hcan.Prelude.{ℕ, ◌==◌, ◌&&◌, ◌||◌, ◌≤◌, ◌≡◌, Bool, false, List, [], ◌∷◌, All, arith, refl, ◌∙◌}
use hcan.Board.{Frame, byte}
use hcan.Fenster.Reedkontakt.{state_change}
use hcan.Fenster.Dunstabzug.{
  Dunstabzug, Config, on_offen, on_state_change, on_taster_down, taster_down,
}
use hcan.Fenster.Dunstabzug
use hcan.Fenster.Strecke.{hear}
use hcan.Fenster.Offen.{Running, can_callback_config}

-- A frame that can shorten the time of a hood: a contact of one of its groups is shut, or its own button
-- goes down.
unfoldable pub shortens : Config → Frame → Bool
shortens c f =
    (byte f 1 == state_change)
      && (byte f 3 == 0)
      && ((c.reed_gruppe0 == byte f 2) || (c.reed_gruppe1 == byte f 2))
    || (byte f 1 == taster_down) && (c.freischalt_taster == byte f 2)

abbrev pub Keeps : Config → Frame → Type 0
Keeps c f = shortens c f ≡ false

Keeps-Running :
    (n : ℕ) (h : Dunstabzug) (f : Frame)
    → n ≤ 7
    → Keeps h.config f
    → Running n h
    → Running n (Dunstabzug.can_callback h f)
unfolding Dunstabzug.can_callback on_offen on_state_change on_taster_down shortens
Keeps-Running n h f le keeps r = ground arith

pub hear_config : (h : Dunstabzug) (fs : List Frame) → (hear fs h).config ≡ h.config
unfolding hear
hear_config h [] = refl
hear_config h (f ∷ fs) = hear_config (Dunstabzug.can_callback h f) fs ∙ can_callback_config h f

pub hear-Running :
    (n : ℕ) (h : Dunstabzug) (fs : List Frame)
    → n ≤ 7
    → All (Keeps h.config) fs
    → Running n h
    → Running n (hear fs h)
unfolding hear
hear-Running n h [] le all r = r
hear-Running n h (f ∷ fs) le (one, all) r =
    hear-Running n (Dunstabzug.can_callback h f) fs le (rw (can_callback_config h f) all)
      (Keeps-Running n h f le one r)
