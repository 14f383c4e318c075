-- ===== src/Zeit/Port.antt =====
-- zeitschaltuhr.c and powerport.c: a time switch and a power port of its group, with the bus between them.
-- In each second the timer handlers of both devices run and the port gets what the switch sends; the two
-- boards share no clock, so the port's handler runs before or after.

use hcan.Prelude.{ℕ, Bool, List, [], ◌∷◌, if◌then◌else◌}
use hcan.Board.{Sent}
use hcan.Powerport.State.{Powerport}
use hcan.Powerport.Handlers as Port
use hcan.Powerport.Handlers.{is_in_group, group_on, group_off, taster_down}
use hcan.Zeit.Schaltuhr.{Schaltuhr, timer_handler}

-- the switch and the port
pub record Strecke : Type 0 where
  pub switch : Schaltuhr
  pub port : Powerport

-- what is the case in a second: the zones that match, and whether the port's handler is first
pub record Second : Type 0 where
  pub zones : ℕ → Bool
  pub port_first : Bool

module _ (meanwhile : Powerport → Powerport) where
  -- the frames, the newest first, in the order in which they were sent
  unfoldable pub receive : List Sent → Powerport → Powerport
  unfolding Port.can_callback
  receive [] p = p
  receive (s ∷ older) p = Port.can_callback meanwhile (receive older p) s.frame

  unfoldable pub second : Second → Strecke → Strecke
  unfolding timer_handler Port.timer_handler receive
  second t s =
      let w = timer_handler t.zones s.switch in
      let frames = w.board.sent in
      record {
        switch = record w { board = record w.board { sent = [] } };
        port =
            if t.port_first
            then receive frames (Port.timer_handler meanwhile s.port)
            else Port.timer_handler meanwhile (receive frames s.port);
      }

  unfoldable pub seconds : List Second → Strecke → Strecke
  unfolding second
  seconds [] s = s
  seconds (t ∷ ts) s = seconds ts (second t s)
