-- ===== src/Zeit/Once.antt =====
-- rolladenAutomat.c: at most one message in a stay within the time zones.
use hcan.Prelude.{
  ℕ, suc, ◌+◌, ◌≤◌, ◌≡◌, Bool, true, List, [], ◌∷◌, if◌then◌else◌, length, All, arith, refl, sym,
  ◌∙◌,
}
use mathlib.Core.Path.{subst}
use hcan.Board.{Frame}
use hcan.Zeit.Automat.{Automat, send_message, in_zone, any_matches, timer_handler, can_callback}

-- what happens to the device: a second, with the zones that match, or a frame
pub data Event : Type 0 where
  second : (ℕ → Bool) → Event
  frame : Frame → Event

unfoldable pub handle : Event → Automat → Automat
unfolding timer_handler can_callback
handle (second m) p = timer_handler m p
handle (frame f) p = can_callback p f

unfoldable pub run : List Event → Automat → Automat
unfolding handle
run [] p = p
run (e ∷ es) p = run es (handle e p)

-- a zone matches, in a second
abbrev pub Within : List ℕ → Event → Type 0
Within ids (second m) = any_matches m ids ≡ true
Within ids (frame f) = Unit

abbrev pub number_sent : Automat → ℕ
number_sent p = length p.board.sent

-- the messages, and one more while it may still be sent
abbrev budget : Automat → ℕ
budget p = if p.msg_ist_versendet then number_sent p else suc (number_sent p)

-- the configuration stays and the budget is not passed
record Kept (p q : Automat) : Type 0 where
  config : q.config ≡ p.config
  spent : budget q ≡ budget p
  stays : p.msg_ist_versendet ≡ true → q.msg_ist_versendet ≡ true

send_message-Kept : (p : Automat) → Kept p (send_message p)
unfolding send_message
send_message-Kept p = record { config = ground arith; spent = ground arith; stays = ground arith }

in_zone-Kept : (p : Automat) → Kept p (in_zone p)
unfolding in_zone
in_zone-Kept p =
    let k = send_message-Kept p in
    record {
      config = ground (arith, k.config);
      spent = ground (arith, k.spent);
      stays = ground (arith, k.stays);
    }

handle-Kept : (e : Event) (p : Automat) → Within p.config.zeitzonen_ids e → Kept p (handle e p)
unfolding handle timer_handler can_callback
handle-Kept (second m) p w =
    let k = in_zone-Kept p in
    record {
      config = ground (arith, k.config, w);
      spent = ground (arith, k.spent, w);
      stays = ground (arith, k.stays, w);
    }
handle-Kept (frame f) p w = record {
  config = ground arith;
  spent = ground arith;
  stays = ground arith;
}

run-Kept :
    (es : List Event) (p : Automat) → All (Within p.config.zeitzonen_ids) es → Kept p (run es p)
unfolding run
run-Kept [] p w = record { config = refl; spent = refl; stays = λ sent. sent }
run-Kept (e ∷ es) p (w, ws) =
    let k = handle-Kept e p w in
    let r =
      run-Kept es (handle e p) (subst (λ c. All (Within c.zeitzonen_ids) es) (sym k.config) ws) in
    record {
      config = r.config ∙ k.config;
      spent = r.spent ∙ k.spent;
      stays = λ sent. r.stays (k.stays sent);
    }

-- While one of its zones matches in each second, a shutter's automatic sends at most one message, and
-- none if it has sent one already in this stay, whatever frames it gets: switching the automatic off
-- and on and the brightness included.
pub at_most_one_message :
    (es : List Event) (p : Automat)
    → All (Within p.config.zeitzonen_ids) es
    → number_sent (run es p) ≤ (if p.msg_ist_versendet then number_sent p else number_sent p + 1)
at_most_one_message es p w = ground (arith, (run-Kept es p w).spent)

first_second :
    (m : ℕ → Bool) (p : Automat)
    → p.config.helligkeits_gruppe ≡ 255
    → p.automatik_ein ≡ true
    → any_matches m p.config.zeitzonen_ids ≡ true
    → (timer_handler m p).msg_ist_versendet ≡ true
unfolding timer_handler in_zone send_message
first_second m p no_sensor auto w = ground arith

-- A shutter's automatic that is on and has no brightness sensor, and one of whose zones matches in a
-- second and in each second after it, has after these, whatever frames it gets, sent one message more
-- than before the first of them, or none more if it had sent one in this stay already.
pub one_message_in_stay :
    (m : ℕ → Bool) (es : List Event) (p : Automat)
    → p.config.helligkeits_gruppe ≡ 255
    → p.automatik_ein ≡ true
    → All (Within p.config.zeitzonen_ids) (second m ∷ es)
    → number_sent (run (second m ∷ es) p)
      ≡ (if p.msg_ist_versendet then number_sent p else number_sent p + 1)
unfolding run handle
one_message_in_stay m es p no_sensor auto (w, ws) =
    let k = handle-Kept (second m) p w in
    let r =
      run-Kept es (timer_handler m p)
        (subst (λ c. All (Within c.zeitzonen_ids) es) (sym k.config) ws) in
    ground (arith, k.spent, r.spent, r.stays (first_second m p no_sensor auto w))
