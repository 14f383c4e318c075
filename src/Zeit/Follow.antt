-- ===== src/Zeit/Follow.antt =====
-- zeitschaltuhr.c: what the switched group hears, when the automatic comes back.
use hcan.Prelude.{
  ℕ, zero, suc, ◌-◌, ◌≡◌, ◌≢◌, Bool, true, false, List, [], ◌∷◌, if◌then◌else◌, ◌==◌, ltb, arith,
  refl, ◌∙◌, Bool-cases, inl, inr,
}
use hcan.Board.{Frame, byte, Sent}
use hcan.Zeit.Commands.{timer_handler_state}
use hcan.Zeit.Schaltuhr.{
  Schaltuhr, send_message, update, any_matches, timer_handler, can_callback, power_group_on,
  power_group_off,
}

-- the last command ON or OFF for the group among the frames, of which the newest is first
unfoldable pub heard : ℕ → List Sent → Bool
heard group [] = false
heard group (s ∷ older) =
    let before = heard group older in
    if byte s.frame 2 == group
    then if byte s.frame 1 == power_group_on
      then true
      else if byte s.frame 1 == power_group_off
      then false
      else before
    else before

-- the automatic is on, and the group hears the state
pub record Follows (p : Schaltuhr) : Type 0 where
  pub automatic : p.automatik_ein ≡ true
  pub same : heard p.config.power_gruppe p.board.sent ≡ p.state

update-heard :
    (p : Schaltuhr)
    → heard p.config.power_gruppe p.board.sent ≡ p.state
    → heard p.config.power_gruppe (update p).board.sent ≡ p.state
unfolding update send_message heard
update-heard p same = ground arith

update_fields :
    (p : Schaltuhr)
    → ((update p).config ≡ p.config)
      × ((update p).state ≡ p.state)
      × ((update p).automatik_ein ≡ p.automatik_ein)
unfolding update send_message
update_fields p = ground arith

timer_handler-Follows : (m : ℕ → Bool) (p : Schaltuhr) → Follows p → Follows (timer_handler m p)
unfolding timer_handler send_message heard
timer_handler-Follows m p f = record {
  automatic = ground (arith, f.automatic, update_fields p);
  same = ground (arith, f.automatic, f.same, update_fields p, update-heard p f.same);
}

timer_handler_config : (m : ℕ → Bool) (p : Schaltuhr) → (timer_handler m p).config ≡ p.config
unfolding timer_handler send_message
timer_handler_config m p = ground (arith, update_fields p)

-- the same zones for some seconds
abbrev pub steady : (ℕ → Bool) → ℕ → Schaltuhr → Schaltuhr
steady m zero p = p
steady m (suc n) p = steady m n (timer_handler m p)

steady_on :
    (m : ℕ → Bool) (n : ℕ) (p : Schaltuhr)
    → Follows p
    → p.state ≡ true
    → any_matches m p.config.zeitzonen_ids ≡ true
    → heard p.config.power_gruppe (steady m n p).board.sent ≡ true
steady_on m zero p f on match = f.same ∙ on
steady_on m (suc n) p f on match = ground (
  arith,
  steady_on m n (timer_handler m p) (timer_handler-Follows m p f),
  timer_handler_config m p,
  timer_handler_state m p f.automatic,
)

module _ (m : ℕ → Bool) (p : Schaltuhr) (auto : p.automatik_ein ≡ true) (on : p.state ≡ true)
    (match : any_matches m p.config.zeitzonen_ids ≡ true) where
  refresh-Follows : p.update_counter ≡ 0 → Follows (timer_handler m p)
  unfolding timer_handler update send_message heard
  refresh-Follows due = record {
    automatic = ground (arith, auto, on, match, due);
    same = ground (arith, auto, on, match, due);
  }

  wait_on :
      p.update_counter ≢ 0 → timer_handler m p ≡ record p { update_counter = p.update_counter - 1 }
  unfolding timer_handler update
  wait_on later = ground (arith, auto, on, match)

-- The group has heard OFF though the switch has it for on, until the next regular message.
late :
    (m : ℕ → Bool) (n : ℕ) (p : Schaltuhr)
    → p.automatik_ein ≡ true
    → p.state ≡ true
    → heard p.config.power_gruppe p.board.sent ≡ false
    → any_matches m p.config.zeitzonen_ids ≡ true
    → heard p.config.power_gruppe (steady m n p).board.sent ≡ ltb p.update_counter n
late m zero p auto on off match = ground arith
late m (suc n) p auto on off match = elim (Bool-cases (p.update_counter == 0)) [
  | inl due ↦ ground (
    arith,
    steady_on m n (timer_handler m p) (refresh-Follows m p auto on match (ground arith)),
    timer_handler_config m p,
    timer_handler_state m p auto,
  )
  | inr later ↦
      rw (steady, wait_on m p auto on match (ground arith))
        (late m n (record p { update_counter = p.update_counter - 1 }) auto on off match
          ∙ ground arith)
]

off_heard :
    (p : Schaltuhr)
    → heard p.config.power_gruppe (send_message power_group_off p).board.sent ≡ false
unfolding send_message heard
off_heard p = ground arith

resumed :
    (m : ℕ → Bool) (p : Schaltuhr) (f : Frame)
    → p.automatik_ein ≡ false
    → byte f 1 ≡ power_group_on
    → byte f 2 ≡ p.config.automatik_ein_schalter_gruppe
    → can_callback (timer_handler m p) f
      ≡ record (send_message power_group_off p) { automatik_ein = true }
unfolding can_callback timer_handler send_message
resumed m p f manual kind group = rw (manual, kind, group) (ground arith)

-- A time switch that has its group on, whose automatic is off for a second and then on again by the
-- frame for its group: while a zone matches, the last command that the group has heard is OFF for as
-- many seconds as update_counter has, and ON after them.
pub late_after_automatic :
    (m : ℕ → Bool) (n : ℕ) (p : Schaltuhr) (f : Frame)
    → p.automatik_ein ≡ false
    → p.state ≡ true
    → byte f 1 ≡ power_group_on
    → byte f 2 ≡ p.config.automatik_ein_schalter_gruppe
    → any_matches m p.config.zeitzonen_ids ≡ true
    → heard p.config.power_gruppe (steady m n (can_callback (timer_handler m p) f)).board.sent
      ≡ ltb p.update_counter n
unfolding send_message
late_after_automatic m n p f manual on kind group match = rw (resumed m p f manual kind group) (
    late m n (record (send_message power_group_off p) { automatik_ein = true }) refl on
      (off_heard p) match)
