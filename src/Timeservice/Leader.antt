-- ===== src/Timeservice/Leader.antt =====
-- Two time services on the bus (timeservice.c): the one with the lower level silences the other.
use hcan.Prelude.{
  ℕ, zero, suc, ◌+◌, ◌-◌, ◌≤◌, ◌<◌, ◌≡◌, ◌⊎◌, inl, inr, true, false, Bool, List, [], ◌∷◌, arith,
  refl, if◌then◌else◌, ltb, leb, ◌&&◌, ◌==◌, length,
}
use hcan.Board.{Sent}
use hcan.Canix.Clock.{Clock}
use hcan.Canix.Filters.{matches}
use hcan.Timeservice.State.{Timeservice, timer_handler, can_callback, send_time, count_received}
use hcan.Timeservice.Bus.{Bus, Round, tick, run, receive, clear}

-- a service that has got the time of `p`
abbrev heard : Timeservice → Timeservice → Timeservice
heard p q =
    if ltb p.config.level q.config.level then record q { last_time_frame_received = 0 } else q

receive_spoken :
    (c : Clock) (p q : Timeservice)
    → p.board.sent ≡ []
    → receive (send_time c p).board.sent q ≡ heard p q
unfolding receive can_callback matches
receive_spoken c p q z = rw z (ground arith)

-- the handler's next call sends the time
abbrev speaks : Timeservice → Bool
speaks p =
    leb p.config.takeover_time (count_received p).last_time_frame_received
    && (p.last_time_frame_sent == p.config.interval)

receive_handled :
    (c : Clock) (p q : Timeservice)
    → p.board.sent ≡ []
    → receive (timer_handler c p).board.sent q ≡ (if speaks p then heard p q else q)
unfolding timer_handler receive
receive_handled c p q z = ground (arith, receive_spoken c (count_received p) q z)

timer_handler_config : (c : Clock) (p : Timeservice) → (timer_handler c p).config ≡ p.config
unfolding timer_handler
timer_handler_config c p = ground arith

-- frames of a level that is not lower change nothing
receive_higher :
    (c : Clock) (p q : Timeservice)
    → p.board.sent ≡ []
    → q.config.level ≤ p.config.level
    → receive (timer_handler c p).board.sent q ≡ q
receive_higher c p q z le = rw (receive_handled c p q z) (ground arith)

receive_silent :
    (fs : List Sent) (q : Timeservice) → q.board.sent ≡ [] → (receive fs q).board.sent ≡ []
unfolding receive can_callback
receive_silent [] q z = z
receive_silent (f ∷ fs) q z = ground (arith, receive_silent fs q z)

receive_config : (fs : List Sent) (q : Timeservice) → (receive fs q).config ≡ q.config
unfolding receive can_callback
receive_config [] q = refl
receive_config (f ∷ fs) q = ground (arith, receive_config fs q)

-- A second, where the first service has the lower level: it runs as if it was alone, and the other's
-- counter starts again where the first one sends.
stepped : Clock → Clock → Bool → Bus → Bus
stepped c d true b = record {
  first = timer_handler c (clear b.first);
  second =
      timer_handler d
        (if speaks (clear b.first) then heard (clear b.first) (clear b.second) else clear b.second);
}
stepped c d false b = record {
  first = timer_handler c (clear b.first);
  second =
      let q = timer_handler d (clear b.second) in
      if speaks (clear b.first) then heard (clear b.first) q else q;
}

tick-stepped :
    (c d : Clock) (o : Bool) (b : Bus)
    → b.first.config.level ≤ b.second.config.level
    → tick c d o b ≡ stepped c d o b
unfolding tick stepped
tick-stepped c d true b le =
    rw
      (
        receive_higher d (receive (timer_handler c (clear b.first)).board.sent (clear b.second))
            (timer_handler c (clear b.first))
            (receive_silent (timer_handler c (clear b.first)).board.sent (clear b.second) refl)
            (rw
              (
                receive_config (timer_handler c (clear b.first)).board.sent (clear b.second),
                timer_handler_config c (clear b.first),
              )
              le),
        receive_handled c (clear b.first) (clear b.second) refl,
      )
      refl
tick-stepped c d false b le =
    rw
      (
        receive_higher d (clear b.second) (clear b.first) refl le,
        receive_handled c (clear b.first) (timer_handler d (clear b.second)) refl,
      )
      refl

-- the levels are in order, and the other service waits longer than the interval of the first
pub record Ordered (b : Bus) : Type 0 where
  pub lower_level : b.first.config.level < b.second.config.level
  pub patient : b.first.config.interval + 3 ≤ b.second.config.takeover_time
  pub byte_takeover : b.first.config.takeover_time ≤ 255
  pub byte_interval : b.first.config.interval ≤ 255

-- the first service sends the time, and the other has heard it
record Hushed (b : Bus) : Type 0 where
  leads : b.first.config.takeover_time ≤ b.first.last_time_frame_received
  counts : b.first.last_time_frame_sent ≤ b.first.config.interval
  recent : b.second.last_time_frame_received ≤ b.first.last_time_frame_sent + 1

tick_configs :
    (c d : Clock) (o : Bool) (b : Bus)
    → b.first.config.level ≤ b.second.config.level
    → ((tick c d o b).first.config ≡ b.first.config)
      × ((tick c d o b).second.config ≡ b.second.config)
unfolding stepped timer_handler
tick_configs c d true b le = rw (tick-stepped c d true b le) (ground arith)
tick_configs c d false b le = rw (tick-stepped c d false b le) (ground arith)

tick-Hushed :
    (c d : Clock) (o : Bool) (b : Bus)
    → Ordered b
    → Hushed b
    → Hushed (tick c d o b) × ((tick c d o b).second.board.sent ≡ [])
unfolding stepped timer_handler
tick-Hushed c d true b h q = rw (tick-stepped c d true b (omega arith)) (ground arith)
tick-Hushed c d false b h q = rw (tick-stepped c d false b (omega arith)) (ground arith)

-- the seconds until the first service sends, less one, are at most n
record Near (n : ℕ) (b : Bus) : Type 0 where
  counts : b.first.last_time_frame_sent ≤ b.first.config.interval
  near :
      b.first.config.takeover_time
        - b.first.last_time_frame_received
        + (b.first.config.interval - b.first.last_time_frame_sent)
      ≤ n

module _ (c d : Clock) (b : Bus) (h : Ordered b) where
  tick-Near : (n : ℕ) (o : Bool) → Near (suc n) b → Hushed (tick c d o b) ⊎ Near n (tick c d o b)
  unfolding stepped timer_handler
  tick-Near n true q = rw (tick-stepped c d true b (omega arith)) (ground arith)
  tick-Near n false q = rw (tick-stepped c d false b (omega arith)) (ground arith)

  tick_now-Hushed : (o : Bool) → Near 0 b → Hushed (tick c d o b)
  unfolding stepped timer_handler
  tick_now-Hushed true q = rw (tick-stepped c d true b (omega arith)) (ground arith)
  tick_now-Hushed false q = rw (tick-stepped c d false b (omega arith)) (ground arith)

  tick-Ordered : (o : Bool) → Ordered (tick c d o b)
  tick-Ordered o = ground (arith, tick_configs c d o b (omega arith))

run-Hushed :
    (r : Round) (rs : List Round) (b : Bus)
    → Ordered b
    → Hushed b
    → (run (r ∷ rs) b).second.board.sent ≡ []
unfolding run
run-Hushed r [] b h q = (tick-Hushed r.first_clock r.second_clock r.first_leads b h q).1
run-Hushed r (r2 ∷ rs) b h q =
    run-Hushed r2 rs (tick r.first_clock r.second_clock r.first_leads b)
      (tick-Ordered r.first_clock r.second_clock b h r.first_leads)
      (tick-Hushed r.first_clock r.second_clock r.first_leads b h q).0

run-Near :
    (n : ℕ) (rs : List Round) (b : Bus)
    → Ordered b
    → Near n b
    → n + 2 ≤ length rs
    → (run rs b).second.board.sent ≡ []
unfolding run
run-Near n [] b h q le = ground arith
run-Near n (r ∷ []) b h q le = ground arith
run-Near zero (r ∷ r2 ∷ rs) b h q le =
    run-Hushed r2 rs (tick r.first_clock r.second_clock r.first_leads b)
      (tick-Ordered r.first_clock r.second_clock b h r.first_leads)
      (tick_now-Hushed r.first_clock r.second_clock b h r.first_leads q)
run-Near (suc n) (r ∷ r2 ∷ rs) b h q le =
    elim (tick-Near r.first_clock r.second_clock b h n r.first_leads q) [
      | inl hushed ↦
          run-Hushed r2 rs (tick r.first_clock r.second_clock r.first_leads b)
            (tick-Ordered r.first_clock r.second_clock b h r.first_leads) hushed
      | inr closer ↦
          run-Near n (r2 ∷ rs) (tick r.first_clock r.second_clock r.first_leads b)
            (tick-Ordered r.first_clock r.second_clock b h r.first_leads) closer (omega arith)
    ]

-- Of two services the one with the lower level has sent at most its interval ago, and the other's
-- takeover time is at least that interval and 3 seconds; their other counters are arbitrary. In each
-- second after the first one's takeover time and interval and one more second, the other sends nothing,
-- whichever handler is first in each second and whatever the clocks show.
pub higher_level_silent :
    (rs : List Round) (b : Bus)
    → Ordered b
    → b.first.last_time_frame_sent ≤ b.first.config.interval
    → b.first.config.takeover_time + b.first.config.interval + 2 ≤ length rs
    → (run rs b).second.board.sent ≡ []
higher_level_silent rs b h counts le =
    run-Near (b.first.config.takeover_time + b.first.config.interval) rs b h
      (record { counts = counts; near = omega arith }) le
