-- ===== src/Zeit/Commands.antt =====
-- zeitschaltuhr.c: what a second of a time switch with its automatic on sends to its group.

use hcan.Prelude.{
  ℕ, ◌≡◌, ◌≢◌, ◌⊎◌, inl, inr, Bool, true, [], ◌∷◌, ◌==◌, arith, refl, sym, not, ◌∙◌, Bool-cases,
}
use hcan.Board.{Sent, byte}
use hcan.Zeit.Schaltuhr.{Schaltuhr, send_message, update, any_matches, timer_handler, command}

-- what a call of the switch's handler sends, if anything, is its state
pub record Handled (group : ℕ) (before after : Schaltuhr) : Type 0 where
  pub automatic : after.automatik_ein ≡ true
  pub same_config : after.config ≡ before.config
  pub said :
      ((after.board.sent ≡ []) × (after.state ≡ before.state))
      ⊎ ((s : Sent) × (after.board.sent ≡ s ∷ [])
          × (byte s.frame 1 ≡ command after.state)
          × (byte s.frame 2 ≡ group))

message-Handled :
    (p q : Schaltuhr)
    → p.board.sent ≡ []
    → q.board ≡ p.board
    → q.config ≡ p.config
    → q.automatik_ein ≡ true
    → Handled p.config.power_gruppe p (send_message (command q.state) q)
unfolding send_message
message-Handled p q quiet same config on = record {
  automatic = on;
  same_config = config;
  said = rw (same, config, quiet) (inr (_, refl, refl, refl));
}

update-Handled :
    (p : Schaltuhr)
    → p.board.sent ≡ []
    → p.automatik_ein ≡ true
    → Handled p.config.power_gruppe p (update p)
unfolding update send_message
update-Handled p quiet on = elim (Bool-cases (p.update_counter == 0)) [
  | inl due ↦
      rw due
        (record { automatic = on; same_config = refl; said = rw quiet (inr (_, refl, refl, refl)) })
  | inr later ↦ rw later (record { automatic = on; same_config = refl; said = inl (quiet, refl) })
]

module _ (m : ℕ → Bool) (p : Schaltuhr) (on : p.automatik_ein ≡ true) where
  -- the state is as the zones ask for
  as_before : p.state ≡ any_matches m p.config.zeitzonen_ids → timer_handler m p ≡ update p
  unfolding timer_handler
  as_before same = ground (arith, on, same)

  -- a zone begins or ends
  switches :
      p.state ≢ any_matches m p.config.zeitzonen_ids
      → timer_handler m p ≡ send_message (command (not p.state)) (record p { state = not p.state })
  unfolding timer_handler
  switches differ = elim (Bool-cases p.state) [
    | inl was_on ↦ ground (arith, on, was_on, differ)
    | inr was_off ↦ ground (arith, on, was_off, differ)
  ]

  pub timer_handler-Handled :
      p.board.sent ≡ [] → Handled p.config.power_gruppe p (timer_handler m p)
  timer_handler-Handled quiet = elim (Bool-cases p.state) [
    | inl was_on ↦ elim (Bool-cases (any_matches m p.config.zeitzonen_ids)) [
      | inl found ↦ rw (as_before (was_on ∙ sym found)) (update-Handled p quiet on)
      | inr not_found ↦
          rw (switches (ground arith))
            (message-Handled p (record p { state = not p.state }) quiet refl refl on)
    ]
    | inr was_off ↦ elim (Bool-cases (any_matches m p.config.zeitzonen_ids)) [
      | inl found ↦
          rw (switches (ground arith))
            (message-Handled p (record p { state = not p.state }) quiet refl refl on)
      | inr not_found ↦ rw (as_before (was_off ∙ sym not_found)) (update-Handled p quiet on)
    ]
  ]

update_state : (p : Schaltuhr) → (update p).state ≡ p.state
unfolding update send_message
update_state p = ground arith

pub timer_handler_state :
    (m : ℕ → Bool) (p : Schaltuhr)
    → p.automatik_ein ≡ true
    → (timer_handler m p).state ≡ any_matches m p.config.zeitzonen_ids
unfolding timer_handler send_message
timer_handler_state m p on = ground (arith, update_state p)
