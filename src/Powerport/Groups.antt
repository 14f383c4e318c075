-- ===== src/Powerport/Groups.antt =====
-- Groups, bistable relays and alarms of a power port (powerport.c).
use hcan.Prelude.{ℕ, ◌+◌, ◌%◌, ◌≡◌, ◌≢◌, true, false, refl, arith}
use hcan.Board.{bit, getpin}
use hcan.Powerport.State.{
  Powerport, clear_bit, bistable_relais, auto_aus, weck_verzoegert_ein, has, relais_on, delay_of,
}
use hcan.Powerport.Handlers.{is_in_group, expire, timer_handler}

-- A power port without AUTO_AUS answers to the number in gruppe3 as to a group, also where another
-- feature uses that number as its delay.
pub delay-is_in_group :
    (p : Powerport)
    → has p auto_aus ≡ false
    → p.config.gruppe3 ≢ 255
    → is_in_group p p.config.gruppe3 ≡ true
unfolding is_in_group
delay-is_in_group p a n = ground arith

clear_bit_cleared : (x : ℕ) → bit x 4 ≡ true → bit (clear_bit x 4) 4 ≡ false
clear_bit_cleared x h = ground arith

module _ (meanwhile : Powerport → Powerport) where
  relais_on_plain :
      (p : Powerport)
      → has p bistable_relais ≡ false
      → ((relais_on meanwhile p).config ≡ p.config)
        × (getpin p.config.port (relais_on meanwhile p).board ≡ true)
  unfolding relais_on
  relais_on_plain p b = ground arith

  expire_wake :
      (p : Powerport)
      → has p weck_verzoegert_ein ≡ true
      → let q = relais_on meanwhile p in
        ((expire meanwhile p).board ≡ q.board)
        × ((expire meanwhile p).config
            ≡ record q.config { feature = clear_bit q.config.feature weck_verzoegert_ein })
        × ((expire meanwhile p).count_down_timer ≡ delay_of q.config.gruppe3)
  unfolding expire
  expire_wake p w = rw w (refl, refl, refl)

  timer_at_one :
      (p : Powerport)
      → p.count_down_timer ≡ 1
      → let q = expire meanwhile p in
        timer_handler meanwhile p
        ≡ record q { count_down_timer = (q.count_down_timer + 65535) % 65536 }
  unfolding timer_handler
  timer_at_one p c = ground arith

  -- A delayed alarm that runs out on a plain relay switches the pin on, clears the alarm, and loads the
  -- timer with one less than the delay modulo 2^16: without a delay it is left at 65535.
  pub alarm_reload :
      (p : Powerport)
      → has p bistable_relais ≡ false
      → has p weck_verzoegert_ein ≡ true
      → p.count_down_timer ≡ 1
      → let q = timer_handler meanwhile p in
        (getpin p.config.port q.board ≡ true)
        × (has q weck_verzoegert_ein ≡ false)
        × (q.count_down_timer ≡ (delay_of p.config.gruppe3 + 65535) % 65536)
  alarm_reload p b w c =
      let q = relais_on meanwhile p in
      let (same, on) = relais_on_plain p b in
      let (board, config, timer) = expire_wake p w in
      let feature : bit q.config.feature weck_verzoegert_ein ≡ true = rw same w in
      rw (timer_at_one p c)
        (rw board on, rw config (clear_bit_cleared q.config.feature feature), rw (timer, same) refl)
