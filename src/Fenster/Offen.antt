-- ===== src/Fenster/Offen.antt =====
-- The hood's socket stays on while the window is open.
use hcan.Prelude.{
  ℕ, ◌-◌, ◌≤◌, ◌≡◌, ◌≢◌, ◌⊎◌, inl, inr, true, List, [], ◌∷◌, if◌then◌else◌, ◌==◌, arith, refl, ap,
  Bool-cases, All,
}
use hcan.Board.{Sent, Frame, byte}
use hcan.Fenster.Reedkontakt.{
  Reedkontakt, report_open, differ, count_down, send_offen, send_state_change, reedkontakt_offen,
  state_change,
}
use hcan.Fenster.Reedkontakt
use hcan.Fenster.Dunstabzug.{Dunstabzug, on_offen, on_state_change}
use hcan.Fenster.Dunstabzug
use hcan.Fenster.Strecke.{receive, is_on}

-- The hood is switched by the group.
abbrev pub Switches : ℕ → Dunstabzug → Type 0
Switches g h = (h.config.reed_gruppe0 ≡ g) ⊎ (h.config.reed_gruppe1 ≡ g)

-- a frame by which a contact says that it is open
pub data Reports (g : ℕ) (f : Frame) : Type 0 where
  offen : byte f 1 ≡ reedkontakt_offen → byte f 2 ≡ g → Reports g f
  changed : byte f 1 ≡ state_change → byte f 2 ≡ g → byte f 3 ≡ 1 → Reports g f

abbrev pub ReportsSent : ℕ → Sent → Type 0
ReportsSent g s = Reports g s.frame

-- The hood runs for at least `n` seconds more.
abbrev pub Running : ℕ → Dunstabzug → Type 0
Running n h = (n ≤ h.counter) × (is_on h ≡ true)

on_offen-Running : (g : ℕ) (h : Dunstabzug) → Switches g h → Running 7 (on_offen g h)
unfolding on_offen
on_offen-Running g h (inl e) = ground arith
on_offen-Running g h (inr e) = ground arith

on_state_change-Running :
    (g : ℕ) (h : Dunstabzug) → Switches g h → Running 7 (on_state_change g 1 h)
unfolding on_state_change
on_state_change-Running g h (inl e) = ground arith
on_state_change-Running g h (inr e) = ground arith

pub can_callback_config :
    (h : Dunstabzug) (f : Frame) → (Dunstabzug.can_callback h f).config ≡ h.config
unfolding Dunstabzug.can_callback on_offen on_state_change Dunstabzug.on_taster_down
can_callback_config h f = ground arith

pub Reports-Running :
    (g : ℕ) (h : Dunstabzug) (f : Frame)
    → Switches g h
    → Reports g f
    → Running 7 (Dunstabzug.can_callback h f)
unfolding Dunstabzug.can_callback
Reports-Running g h f s (offen e1 e2) = rw (e1, e2) (on_offen-Running g h s)
Reports-Running g h f s (changed e1 e2 e3) = rw (e1, e2, e3) (on_state_change-Running g h s)

pub receive_config : (h : Dunstabzug) (fs : List Sent) → (receive fs h).config ≡ h.config
unfolding receive
receive_config h [] = refl
receive_config h (s ∷ older) =
    ground (arith, can_callback_config (receive older h) s.frame, receive_config h older)

pub receive-Running :
    (g n : ℕ) (h : Dunstabzug) (fs : List Sent)
    → Switches g h
    → All (ReportsSent g) fs
    → n ≤ 7
    → Running n h
    → Running n (receive fs h)
unfolding receive
receive-Running g n h [] s all le r = r
receive-Running g n h (f ∷ older) s (one, all) le r =
    ground (arith, Reports-Running g (receive older h) f.frame (rw (receive_config h older) s) one)

-- A call of the timer handler while the contact is open.
pub record Handled (r r' : Reedkontakt) : Type 0 where
  pub same_config : r'.config ≡ r.config
  pub counted : r'.timer_counter ≡ (if r.timer_counter == 0 then 4 else r.timer_counter - 1)
  pub reported : All (ReportsSent r.config.gruppe) r'.board.sent
  pub spoke : r.timer_counter ≡ 0 → r'.board.sent ≢ []

report_due :
    (r : Reedkontakt)
    → r.config.modus ≢ 0
    → r.timer_counter ≡ 0
    → report_open true r ≡ count_down (send_offen r)
unfolding report_open
report_due r active due = ground arith

report_later :
    (r : Reedkontakt) → r.config.modus ≢ 0 → r.timer_counter ≢ 0 → report_open true r ≡ count_down r
unfolding report_open
report_later r active later = ground arith

module _ (r q : Reedkontakt) where
  report_open-Handled :
      r.config.modus ≢ 0
      → q.config ≡ r.config
      → q.timer_counter ≡ r.timer_counter
      → All (ReportsSent r.config.gruppe) q.board.sent
      → Handled r (report_open true q)
  report_open-Handled active same count all = elim (Bool-cases (q.timer_counter == 0)) [
    | inl due ↦ rw (report_due q (ground arith) (ground arith)) (record {
      same_config = same;
      counted = ground arith;
      reported = (offen refl (ap (λ c. c.gruppe) same), all);
      spoke = λ z e. ground arith;
    })
    | inr later ↦ rw (report_later q (ground arith) (ground arith)) (record {
      same_config = same;
      counted = ground arith;
      reported = all;
      spoke = λ z. ground arith;
    })
  ]

change :
    (r : Reedkontakt)
    → r.board.sent ≡ []
    → let q = if differ true r.last_state then send_state_change true r else r in
      (q.config ≡ r.config)
      × (q.timer_counter ≡ r.timer_counter)
      × All (ReportsSent r.config.gruppe) q.board.sent
change r quiet = elim (Bool-cases r.last_state) [
  | inl was_open ↦ rw (was_open, quiet) (refl, refl, tt)
  | inr was_shut ↦ rw (was_shut, quiet) (refl, refl, (changed refl refl refl, tt))
]

pub timer_handler-Handled :
    (r : Reedkontakt)
    → r.config.modus ≢ 0
    → r.board.sent ≡ []
    → Handled r (Reedkontakt.timer_handler true r)
unfolding Reedkontakt.timer_handler
timer_handler-Handled r active quiet =
    let (same, count, all) = change r quiet in
    report_open-Handled r (if differ true r.last_state then send_state_change true r else r) active
      same count all
