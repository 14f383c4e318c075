-- ===== src/Fenster/Strecke.antt =====
-- A window contact and the hood's socket, with the bus between them. In each second the timer handlers of
-- both devices run and the hood gets what the contact sends; the two boards share no clock, so the hood's
-- handler runs before or after. Frames of other senders come between the seconds.
use hcan.Prelude.{Bool, List, [], ◌∷◌, if◌then◌else◌}
use hcan.Board.{Frame, Sent, getpin}
use hcan.Fenster.Reedkontakt.{Reedkontakt}
use hcan.Fenster.Reedkontakt
use hcan.Fenster.Dunstabzug.{Dunstabzug}
use hcan.Fenster.Dunstabzug

pub record Strecke : Type 0 where
  pub reed : Reedkontakt
  pub hood : Dunstabzug

-- the frames, the newest first, in the order in which they were sent
unfoldable pub receive : List Sent → Dunstabzug → Dunstabzug
unfolding Dunstabzug.can_callback
receive [] p = p
receive (s ∷ older) p = Dunstabzug.can_callback (receive older p) s.frame

abbrev pub take_sent : Reedkontakt → Reedkontakt
take_sent p = record p { board = record p.board { sent = [] } }

-- a second with the contact at `level`, in which `hood_first` says which of the hood's two calls is first
unfoldable pub second : Bool → Bool → Strecke → Strecke
unfolding Reedkontakt.timer_handler Dunstabzug.timer_handler receive
second level hood_first s =
    let r = Reedkontakt.timer_handler level s.reed in
    let frames = r.board.sent in
    record {
      reed = take_sent r;
      hood =
          if hood_first
          then receive frames (Dunstabzug.timer_handler s.hood)
          else Dunstabzug.timer_handler (receive frames s.hood);
    }

-- frames of other senders, the first one first
unfoldable pub hear : List Frame → Dunstabzug → Dunstabzug
unfolding Dunstabzug.can_callback
hear [] p = p
hear (f ∷ fs) p = hear fs (Dunstabzug.can_callback p f)

-- which of the hood's two calls is first in a second, and the other frames that the hood hears after them
pub record Second : Type 0 where
  pub hood_first : Bool
  pub others : List Frame

-- seconds with the contact at `level`
unfoldable pub seconds : Bool → List Second → Strecke → Strecke
unfolding second hear
seconds level [] s = s
seconds level (t ∷ ts) s =
    let s' = second level t.hood_first s in
    seconds level ts (record s' { hood = hear t.others s'.hood })

abbrev pub is_on : Dunstabzug → Bool
is_on p = getpin p.config.port p.board
