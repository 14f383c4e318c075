-- ===== src/Fenster/Stays.antt =====
-- The hood's socket stays on while the window is open: the seconds of the two devices together.
use mathlib.Core.Path.{subst, sym}
use hcan.Prelude.{
  ℕ, suc, ◌+◌, ◌≤◌, ◌≡◌, ◌≢◌, ◌⊎◌, inl, inr, Bool, true, false, List, [], ◌∷◌, All, arith, refl,
  ◌∙◌,
}
use hcan.Board.{Sent}
use hcan.Fenster.Reedkontakt.{Reedkontakt, state_change}
use hcan.Fenster.Reedkontakt
use hcan.Fenster.Dunstabzug.{
  Dunstabzug, Config, on_offen, on_state_change, on_taster_down, taster_down,
}
use hcan.Fenster.Dunstabzug
use hcan.Fenster.Strecke.{Strecke, Second, receive, hear, second, seconds, is_on}
use hcan.Fenster.Offen.{
  Switches, ReportsSent, Running, Reports-Running, receive_config, receive-Running, Handled,
  timer_handler-Handled,
}
use hcan.Fenster.Others.{Keeps, hear_config, hear-Running}

receive_some-Running :
    (g : ℕ) (h : Dunstabzug) (fs : List Sent)
    → Switches g h
    → All (ReportsSent g) fs
    → fs ≢ []
    → Running 7 (receive fs h)
unfolding receive
receive_some-Running g h [] s all some_sent = ground arith
receive_some-Running g h (f ∷ older) s (one, all) some_sent =
    Reports-Running g (receive older h) f.frame (rw (receive_config h older) s) one

timer_handler-Running :
    (n : ℕ) (h : Dunstabzug) → 1 ≤ n → Running (suc n) h → Running n (Dunstabzug.timer_handler h)
unfolding Dunstabzug.timer_handler
timer_handler-Running n h le r = ground arith

timer_handler_config : (h : Dunstabzug) → (Dunstabzug.timer_handler h).config ≡ h.config
unfolding Dunstabzug.timer_handler
timer_handler_config h = ground arith

-- The contact reports, the hood is switched by its group, and nothing waits to be sent.
pub record Paired (s : Strecke) : Type 0 where
  pub active : s.reed.config.modus ≢ 0
  pub group : Switches s.reed.config.gruppe s.hood
  pub quiet : s.reed.board.sent ≡ []

-- The contact's counter is 0, so that a frame comes now, or the hood's outlasts it.
abbrev Timely : ℕ → Dunstabzug → Type 0
Timely tc h = (tc ≡ 0) ⊎ ((tc ≤ 4) × Running (tc + 2) h)

module _ (g : ℕ) (h : Dunstabzug) (fs : List Sent) (s : Switches g h)
    (all : All (ReportsSent g) fs) where
  Switches-timer_handler : Switches g (Dunstabzug.timer_handler h)
  Switches-timer_handler = rw (timer_handler_config h) s

  due_before : fs ≢ [] → Running 6 (receive fs (Dunstabzug.timer_handler h))
  due_before spoke = ground (
    arith,
    receive_some-Running g (Dunstabzug.timer_handler h) fs Switches-timer_handler all spoke,
  )

  due_after : fs ≢ [] → Running 6 (Dunstabzug.timer_handler (receive fs h))
  due_after spoke =
      timer_handler-Running 6 (receive fs h) (omega arith) (receive_some-Running g h fs s all spoke)

  later_before :
      (tc : ℕ)
      → tc ≤ 3
      → Running (tc + 3) h
      → Running (tc + 2) (receive fs (Dunstabzug.timer_handler h))
  later_before tc few r =
      receive-Running g (tc + 2) (Dunstabzug.timer_handler h) fs Switches-timer_handler all
        (omega arith) (timer_handler-Running (tc + 2) h (omega arith) (ground arith))

  later_after :
      (tc : ℕ)
      → tc ≤ 3
      → Running (tc + 3) h
      → Running (tc + 2) (Dunstabzug.timer_handler (receive fs h))
  later_after tc few r =
      timer_handler-Running (tc + 2) (receive fs h) (omega arith)
        (ground (arith, receive-Running g (tc + 3) h fs s all))

hood_after :
    (o : Bool) (s : Strecke)
    → Paired s
    → Timely s.reed.timer_counter s.hood
    → Running ((second true o s).reed.timer_counter + 2) (second true o s).hood
      × ((second true o s).reed.timer_counter ≤ 4)
unfolding second
hood_after o s p t = ground (
  arith,
  handled.counted,
  due_before g s.hood fs p.group handled.reported,
  due_after g s.hood fs p.group handled.reported,
  handled.spoke,
  later_before g s.hood fs p.group handled.reported,
  later_after g s.hood fs p.group handled.reported,
)
  where
    g : ℕ
    g = s.reed.config.gruppe

    fs : List Sent
    fs = (Reedkontakt.timer_handler true s.reed).board.sent

    handled : Handled s.reed (Reedkontakt.timer_handler true s.reed)
    handled = timer_handler-Handled s.reed p.active p.quiet

second_hood_config : (o : Bool) (s : Strecke) → (second true o s).hood.config ≡ s.hood.config
unfolding second
second_hood_config true s =
    receive_config (Dunstabzug.timer_handler s.hood)
      (Reedkontakt.timer_handler true s.reed).board.sent
    ∙ timer_handler_config s.hood
second_hood_config false s =
    timer_handler_config (receive (Reedkontakt.timer_handler true s.reed).board.sent s.hood)
    ∙ receive_config s.hood (Reedkontakt.timer_handler true s.reed).board.sent

second-Paired : (o : Bool) (s : Strecke) → Paired s → Paired (second true o s)
unfolding second
second-Paired o s p = record {
  active = ground (arith, handled.same_config);
  group = rw (second_hood_config o s, handled.same_config) p.group;
  quiet = refl;
}
  where
    handled : Handled s.reed (Reedkontakt.timer_handler true s.reed)
    handled = timer_handler-Handled s.reed p.active p.quiet

-- No other frame of a second shortens the hood's time.
abbrev pub KeepsAll : Config → Second → Type 0
KeepsAll c t = All (Keeps c) t.others

heard : Second → Strecke → Strecke
heard t s = let s' = second true t.hood_first s in record s' { hood = hear t.others s'.hood }

heard_config : (t : Second) (s : Strecke) → (heard t s).hood.config ≡ s.hood.config
unfolding heard
heard_config t s =
    hear_config (second true t.hood_first s).hood t.others ∙ second_hood_config t.hood_first s

heard-Running :
    (t : Second) (s : Strecke)
    → Paired s
    → Timely s.reed.timer_counter s.hood
    → KeepsAll s.hood.config t
    → Running ((heard t s).reed.timer_counter + 2) (heard t s).hood
      × ((heard t s).reed.timer_counter ≤ 4)
unfolding heard
heard-Running t s p due keeps =
    let s' = second true t.hood_first s in
    let (running, few) = hood_after t.hood_first s p due in
    let keeps' : KeepsAll s'.hood.config t = rw (second_hood_config t.hood_first s) keeps in
    (hear-Running (s'.reed.timer_counter + 2) s'.hood t.others (omega arith) keeps' running, few)

heard-Paired : (t : Second) (s : Strecke) → Paired s → Paired (heard t s)
unfolding heard
heard-Paired t s p =
    let s' = second true t.hood_first s in
    let q = second-Paired t.hood_first s p in
    record { active = q.active; group = rw (hear_config s'.hood t.others) q.group; quiet = q.quiet }

seconds_on :
    (t : Second) (ts : List Second) (s : Strecke)
    → Paired s
    → Timely s.reed.timer_counter s.hood
    → All (KeepsAll s.hood.config) (t ∷ ts)
    → is_on (seconds true (t ∷ ts) s).hood ≡ true
unfolding seconds heard
seconds_on t [] s p due (keeps, all) = ground (arith, heard-Running t s p due keeps)
seconds_on t (u ∷ ts) s p due (keeps, all) =
    let (running, few) = heard-Running t s p due keeps in
    seconds_on u ts (heard t s) (heard-Paired t s p) (inr (few, running))
      (subst (λ c. All (KeepsAll c) (u ∷ ts)) (sym (heard_config t s)) all)

-- Let a contact that reports (its mode is not 0) have the timer at 0, as it has after a second in which
-- it is closed, and the hood be switched by the contact's group. When the contact then is open, the
-- hood's socket is on after the first second and after each further second, whichever of the hood's
-- calls is first in each second, and whatever other frames the hood hears between the seconds, save
-- those by which a contact of one of its groups is shut and those of its own button.
pub on_while_open :
    (t : Second) (ts : List Second) (s : Strecke)
    → Paired s
    → s.reed.timer_counter ≡ 0
    → All (KeepsAll s.hood.config) (t ∷ ts)
    → is_on (seconds true (t ∷ ts) s).hood ≡ true
on_while_open t ts s p due keeps = seconds_on t ts s p (inl due) keeps
