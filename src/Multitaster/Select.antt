-- ===== src/Multitaster/Select.antt =====
-- A press of the button goes to the group of the section in which the potentiometer stands (multitaster.c).
use native.Mathlib.Nat.{div-le_self}
use hcan.Prelude.{
  lt→ltb, ltb, ℕ, zero, suc, ◌*◌, ◌/◌, ◌≤◌, ◌<◌, ◌≡◌, ◌⊎◌, inl, inr, false, [], ◌∷◌, arith, refl,
  if◌then◌else◌, get_or, ◌∙◌,
}
use hcan.Board.{Frame, byte, word, send, hi, multicast_control, hes_frame}
use hcan.Multitaster.State.{
  Multitaster, max_groups, entprell_1s, rolladen_auf, rolladen_zu, has, taster_down, divisions,
  detect_and_set_one_scale, init, get_group, report, timer_handler, can_callback, poti_pos_changed,
  find_pos,
}
use hcan.Multitaster.Position.{InSection, find_pos_section, find_pos_zero, group_behind}

-- 30 ms of a pressed button
unfoldable pub press_30ms : Multitaster → Multitaster
unfolding timer_handler
press_30ms p = timer_handler false (timer_handler false (timer_handler false p))

-- a plain button that is not pressed
pub record Plain (p : Multitaster) : Type 0 where
  pub no_wait : has p entprell_1s ≡ false
  pub not_zu : has p rolladen_zu ≡ false
  pub not_auf : has p rolladen_auf ≡ false
  pub not_pressed : p.pressed ≡ 0

abbrev pub down_frame : Multitaster → ℕ → Frame
down_frame p group =
    hes_frame p.board multicast_control 4 (taster_down ∷ group ∷ p.config.taster_port ∷ [])

press-Plain :
    (p : Multitaster)
    → Plain p
    → (press_30ms p).board ≡ send (down_frame p (get_group p)) hi p.board
unfolding press_30ms timer_handler report get_group
press-Plain p h = ground arith

-- a potentiometer's frame
abbrev pub value_of : Frame → ℕ
value_of f = word (byte f 3) (byte f 4)

pub record IsPoti (p : Multitaster) (f : Frame) : Type 0 where
  pub kind : byte f 1 ≡ poti_pos_changed
  pub group : byte f 2 ≡ p.config.poti_gruppe

after_frame :
    (p : Multitaster) (f : Frame)
    → IsPoti p f
    → can_callback (init p) f ≡ record p {
      one_scale = 1023 / divisions p.config.gruppen;
      last_poti_pos = find_pos max_groups 0 (1023 / divisions p.config.gruppen) (value_of f) 0;
    }
unfolding can_callback init detect_and_set_one_scale
after_frame p f h = ground arith

-- the group of a press after the potentiometer's frame
selected :
    (p : Multitaster) (f : Frame) (k : ℕ)
    → IsPoti p f
    → Plain p
    → find_pos max_groups 0 (1023 / divisions p.config.gruppen) (value_of f) 0 ≡ k
    → (press_30ms (can_callback (init p) f)).board
      ≡ send
          (down_frame p (if ltb k max_groups then get_or p.config.gruppen k 255 else 255))
          hi
          p.board
unfolding get_group
selected p f k h plain e =
    rw (after_frame p f h, e)
      (press-Plain (record p { one_scale = 1023 / divisions p.config.gruppen; last_poti_pos = k })
        (record {
          no_wait = plain.no_wait;
          not_zu = plain.not_zu;
          not_auf = plain.not_auf;
          not_pressed = plain.not_pressed;
        }))

scale_range : (n : ℕ) → 1023 / n ≤ 1023
scale_range n = div-le_self 1023 n

-- A button that starts and gets a frame of its potentiometer with a value in section `k`, of the nine first
-- ones (`k * s + 1` to `(k + 1) * s`, where `s` is 1023 divided by the number of groups before the first
-- 255), sends TASTER_DOWN to its group `k` after it is pressed for 30 ms.
pub group_of_section :
    (p : Multitaster) (f : Frame) (k : ℕ)
    → IsPoti p f
    → Plain p
    → k < 9
    → InSection k (1023 / divisions p.config.gruppen) (value_of f)
    → (press_30ms (can_callback (init p) f)).board
      ≡ send (down_frame p (get_or p.config.gruppen k 255)) hi p.board
group_of_section p f k h plain lt s =
    selected p f k h plain (
      find_pos_section max_groups 0 k (1023 / divisions p.config.gruppen) (value_of f) 0
        (omega arith) (omega arith) lt (scale_range (divisions p.config.gruppen)) s)
    ∙ rw (lt→ltb k max_groups (omega arith)) refl

-- behind the last section
past_end :
    (n value : ℕ)
    → 1 ≤ n
    → n ≤ 8
    → n * (1023 / n) < value
    → value ≤ 1023
    → InSection n (1023 / n) value
past_end zero value pos le above top = omega arith
past_end (suc zero) value pos le above top = record { above = above; below = omega arith }
past_end (suc (suc zero)) value pos le above top = record { above = above; below = omega arith }
past_end (suc (suc (suc zero))) value pos le above top = record {
  above = above;
  below = omega arith;
}
past_end (suc (suc (suc (suc zero)))) value pos le above top = record {
  above = above;
  below = omega arith;
}
past_end (suc (suc (suc (suc (suc zero))))) value pos le above top = record {
  above = above;
  below = omega arith;
}
past_end (suc (suc (suc (suc (suc (suc zero)))))) value pos le above top = record {
  above = above;
  below = omega arith;
}
past_end (suc (suc (suc (suc (suc (suc (suc zero))))))) value pos le above top = record {
  above = above;
  below = omega arith;
}
past_end (suc (suc (suc (suc (suc (suc (suc (suc zero)))))))) value pos le above top = record {
  above = above;
  below = omega arith;
}
past_end (suc (suc (suc (suc (suc (suc (suc (suc (suc n))))))))) value pos le above top =
    omega arith

-- At the ends of the scale a press goes to the group 255, which no device has: at the value 0, and, with
-- one to eight groups, at the values behind the last section, which there are where 1023 is not a multiple
-- of the number of groups.
pub no_group_at_ends :
    (p : Multitaster) (f : Frame)
    → IsPoti p f
    → Plain p
    → 1 ≤ divisions p.config.gruppen
    → divisions p.config.gruppen ≤ 8
    → value_of f ≤ 1023
    → (value_of f ≡ 0)
      ⊎ (divisions p.config.gruppen * (1023 / divisions p.config.gruppen) < value_of f)
    → (press_30ms (can_callback (init p) f)).board ≡ send (down_frame p 255) hi p.board
no_group_at_ends p f h plain pos le top (inl z) =
    selected p f 255 h plain (rw z (find_pos_zero 9 (1023 / divisions p.config.gruppen) 0))
no_group_at_ends p f h plain pos le top (inr above) =
    selected p f (divisions p.config.gruppen) h plain (
      find_pos_section max_groups 0 (divisions p.config.gruppen) (1023 / divisions p.config.gruppen)
        (value_of f) 0 (omega arith) (omega arith) (omega arith)
        (scale_range (divisions p.config.gruppen))
        (past_end (divisions p.config.gruppen) (value_of f) pos le above top))
    ∙ rw
        (
          lt→ltb (divisions p.config.gruppen) max_groups (omega arith),
          group_behind p.config.gruppen,
        )
        refl
