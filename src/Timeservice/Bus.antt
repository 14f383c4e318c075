-- ===== src/Timeservice/Bus.antt =====
-- Two boards on the bus, each with a time service (timeservice.c). In each second both handlers run, in
-- either order, and each board gets what the other sends.
use hcan.Prelude.{Bool, true, false, List, [], ◌∷◌, if◌then◌else◌}
use hcan.Board.{Sent, Frame}
use hcan.Canix.Clock.{Clock}
use hcan.Canix.Filters.{matches}
use hcan.Timeservice.State.{Timeservice, timer_handler, can_callback, entry}

pub record Bus : Type 0 where
  pub first : Timeservice
  pub second : Timeservice

-- the head of a board's only service
abbrev only : List Timeservice → Timeservice → Timeservice
only [] p = p
only (q ∷ qs) p = q

-- a frame that the board gets
abbrev pub get : Timeservice → Frame → Timeservice
get p f = if matches entry f then only (can_callback (p ∷ []) f) p else p

-- the frames, the newest first, in the order in which they were sent
unfoldable pub receive : List Sent → Timeservice → Timeservice
receive [] p = p
receive (s ∷ older) p = get (receive older p) s.frame

-- the frames of a new second
abbrev pub clear : Timeservice → Timeservice
clear p = record p { board = record p.board { sent = [] } }

-- a second in which the first board's handler runs before the other's, or after it
unfoldable pub tick : Clock → Clock → Bool → Bus → Bus
tick c d true b =
    let p = timer_handler c (clear b.first) in
    let q = timer_handler d (receive p.board.sent (clear b.second)) in
    record { first = receive q.board.sent p; second = q }
tick c d false b =
    let q = timer_handler d (clear b.second) in
    let p = timer_handler c (receive q.board.sent (clear b.first)) in
    record { first = p; second = receive p.board.sent q }

-- a second's clocks of the two boards, and its order
pub record Round : Type 0 where
  pub first_clock : Clock
  pub second_clock : Clock
  pub first_leads : Bool

unfoldable pub run : List Round → Bus → Bus
run [] b = b
run (r ∷ rs) b = run rs (tick r.first_clock r.second_clock r.first_leads b)
