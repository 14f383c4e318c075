-- ===== src/Lichtzone/Presses.antt =====
-- Button presses and the timer of a light zone (lichtzone.c).
use hcan.Prelude.{
  ℕ, zero, suc, ◌+◌, ◌≤◌, ◌<◌, ◌≡◌, Bool, true, false, List, [], ◌∷◌, arith, if◌then◌else◌, ◌==◌,
  refl,
}
use hcan.Board.{Frame, byte}
use hcan.Lichtzone.State.{off, on_ext, Lichtzone, has_timer, inform_action_groups}
use hcan.Lichtzone.Callback.{
  taster_down, ext_timerinit, is_third, extend_on, toggle_loop, off_loop, on_loop, on_taster_down,
  can_callback, count_press,
}
use hcan.Lichtzone.Timer.{timer_handler}
use hcan.Lichtzone.Inform.{inform_action_groups-Keeps}

-- whether a group is in an array of the configuration
abbrev pub listed : ℕ → List ℕ → Bool
listed n [] = false
listed n (g ∷ gs) = if n == g then true else listed n gs

toggle_loop_third :
    (gs : List ℕ) (n : ℕ) (p : Lichtzone)
    → is_third p ≡ true
    → listed n gs ≡ true
    → toggle_loop gs n p ≡ (extend_on p, true)
unfolding toggle_loop
toggle_loop_third [] n p t l = cc
toggle_loop_third (g ∷ gs) n p t l = ground (arith, toggle_loop_third gs n p)

toggle_loop_unlisted :
    (gs : List ℕ) (n : ℕ) (p : Lichtzone) → listed n gs ≡ false → toggle_loop gs n p ≡ (p, false)
unfolding toggle_loop
toggle_loop_unlisted [] n p l = refl
toggle_loop_unlisted (g ∷ gs) n p l = ground (arith, toggle_loop_unlisted gs n p)

on_loop_unlisted : (gs : List ℕ) (n : ℕ) (p : Lichtzone) → listed n gs ≡ false → on_loop gs n p ≡ p
unfolding on_loop
on_loop_unlisted [] n p l = refl
on_loop_unlisted (g ∷ gs) n p l = ground (arith, on_loop_unlisted gs n p)

extended :
    (p : Lichtzone)
    → ((extend_on p).state ≡ on_ext)
      × ((extend_on p).timer_counter ≡ ext_timerinit)
      × ((extend_on p).exton_taster_down_counter ≡ 0)
      × ((extend_on p).exton_sec_counter ≡ 0)
unfolding extend_on
extended p = ground (
  arith,
  inform_action_groups-Keeps (record p {
    exton_sec_counter = 0;
    exton_taster_down_counter = 0;
    state = on_ext;
    timer_counter = ext_timerinit;
  }),
)

third_press_toggles :
    (p : Lichtzone) (f : Frame)
    → listed (byte f 2) p.config.toggle_gruppen ≡ true
    → 2 ≤ p.exton_taster_down_counter
    → p.exton_taster_down_counter < 255
    → p.exton_sec_counter < 3
    → on_taster_down p f ≡ extend_on (count_press p)
unfolding on_taster_down
third_press_toggles p f l a b c =
    ground (arith, toggle_loop_third p.config.toggle_gruppen (byte f 2) (count_press p))

-- A press of a button in a toggle group, with two presses counted (and fewer than 255) in a window of
-- less than 3 seconds, puts the zone into the extended mode for four hours, from any state, and
-- closes the window.
pub third_press_extends :
    (p : Lichtzone) (f : Frame)
    → byte f 1 ≡ taster_down
    → listed (byte f 2) p.config.toggle_gruppen ≡ true
    → 2 ≤ p.exton_taster_down_counter
    → p.exton_taster_down_counter < 255
    → p.exton_sec_counter < 3
    → let q = can_callback p f in
      (q.state ≡ on_ext)
      × (q.timer_counter ≡ 14400)
      × (q.exton_taster_down_counter ≡ 0)
      × (q.exton_sec_counter ≡ 0)
unfolding can_callback
third_press_extends p f d l a b c =
    ground (arith, third_press_toggles p f l a b c, extended (count_press p))

-- switched off, with the timer stopped
abbrev pub IsDark : Lichtzone → Type 0
IsDark p = (p.state ≡ off) × (p.timer_counter ≡ 0)

off_loop-IsDark :
    (gs : List ℕ) (n : ℕ) (p : Lichtzone)
    → (IsDark p → IsDark (off_loop gs n p)) × (listed n gs ≡ true → IsDark (off_loop gs n p))
unfolding off_loop
off_loop-IsDark [] n p = ground arith
off_loop-IsDark (g ∷ gs) n p =
    let dark = record p { state = off; timer_counter = 0 } in
    ground (
      arith,
      inform_action_groups-Keeps dark,
      off_loop-IsDark gs n p,
      off_loop-IsDark gs n (inform_action_groups dark),
    )

off_loop_config : (gs : List ℕ) (n : ℕ) (p : Lichtzone) → (off_loop gs n p).config ≡ p.config
unfolding off_loop
off_loop_config [] n p = refl
off_loop_config (g ∷ gs) n p =
    let dark = record p { state = off; timer_counter = 0 } in
    ground (
      arith,
      inform_action_groups-Keeps dark,
      off_loop_config gs n p,
      off_loop_config gs n (inform_action_groups dark),
    )

off_press_darkens :
    (p : Lichtzone) (f : Frame)
    → listed (byte f 2) p.config.toggle_gruppen ≡ false
    → listed (byte f 2) p.config.off_gruppen ≡ true
    → listed (byte f 2) p.config.on_gruppen ≡ false
    → IsDark (on_taster_down p f)
unfolding on_taster_down
off_press_darkens p f t o n =
    let q = count_press p in
    let r = off_loop p.config.off_gruppen (byte f 2) q in
    ground (
      arith,
      toggle_loop_unlisted p.config.toggle_gruppen (byte f 2) q,
      off_loop-IsDark p.config.off_gruppen (byte f 2) q,
      off_loop_config p.config.off_gruppen (byte f 2) q,
      on_loop_unlisted p.config.on_gruppen (byte f 2) r,
    )

-- A button of an off group that is in no toggle and no on group switches the zone off and stops its
-- timer, from any state.
pub off_press :
    (p : Lichtzone) (f : Frame)
    → byte f 1 ≡ taster_down
    → listed (byte f 2) p.config.toggle_gruppen ≡ false
    → listed (byte f 2) p.config.off_gruppen ≡ true
    → listed (byte f 2) p.config.on_gruppen ≡ false
    → ((can_callback p f).state ≡ off) × ((can_callback p f).timer_counter ≡ 0)
unfolding can_callback
off_press p f d t o n = ground (arith, off_press_darkens p f t o n)

-- n calls of the timer handler, one second apart
unfoldable pub seconds : ℕ → Lichtzone → Lichtzone
seconds zero p = p
seconds (suc n) p = seconds n (timer_handler p)

timer_step :
    (p : Lichtzone) (n : ℕ)
    → has_timer p ≡ true
    → p.timer_counter ≡ suc (suc n)
    → let q = timer_handler p in
      (q.config ≡ p.config) × (q.state ≡ p.state) × (q.timer_counter ≡ suc n)
unfolding timer_handler
timer_step p n t c = ground arith

timer_end : (p : Lichtzone) → has_timer p ≡ true → p.timer_counter ≡ 1 → IsDark (timer_handler p)
unfolding timer_handler
timer_end p t c =
    ground (arith, inform_action_groups-Keeps (record p { timer_counter = 0; state = off }))

timer_holds :
    (n m : ℕ) (p : Lichtzone)
    → has_timer p ≡ true
    → p.timer_counter ≡ suc (n + m)
    → (seconds n p).state ≡ p.state
unfolding seconds
timer_holds zero m p t c = refl
timer_holds (suc n) m p t c =
    let c' : p.timer_counter ≡ suc (suc (n + m)) = omega arith in
    let next = timer_step p (n + m) t c' in ground (arith, next, timer_holds n m (timer_handler p))

timer_ends :
    (n : ℕ) (p : Lichtzone)
    → has_timer p ≡ true
    → p.timer_counter ≡ suc n
    → IsDark (seconds (suc n) p)
unfolding seconds
timer_ends zero p t c = timer_end p t c
timer_ends (suc n) p t c =
    let next = timer_step p n t c in ground (arith, next, timer_ends n (timer_handler p))

-- With a timer configured and m + k + 1 seconds on it, and no frame meanwhile, the zone has its state
-- still after m seconds, and is off, its timer stopped, after m + k + 1.
pub timer_runs_out :
    (m k : ℕ) (p : Lichtzone)
    → has_timer p ≡ true
    → p.timer_counter ≡ suc (m + k)
    → ((seconds m p).state ≡ p.state)
      × ((seconds (suc (m + k)) p).state ≡ off)
      × ((seconds (suc (m + k)) p).timer_counter ≡ 0)
timer_runs_out m k p t c =
    let (dark, stopped) = timer_ends (m + k) p t c in (timer_holds m k p t c, dark, stopped)
