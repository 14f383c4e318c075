-- ===== src/Zeit/Details.antt =====
-- zeitzone.c: a zone that is written over the bus.
use hcan.Prelude.{
  ℕ, ◌+◌, ◌-◌, ◌*◌, ◌%◌, ◌<◌, ◌≡◌, ◌≢◌, Bool, List, [], ◌∷◌, ◌++◌, ◌&&◌, leb, All, arith, refl, ap,
  ◌∙◌,
}
use hcan.Board.{Frame, byte, bit}
use hcan.Canix.Clock.{Clock, time_matches}
use hcan.Canix.Day.{IsTime}
use hcan.Canix.Zones.{time_matches_circle}
use hcan.Zeit.Zeitzone.{
  Config, Zeitzone, zeitzone_matches, write_details, block_id, on_write_details, can_callback,
}

-- the day of the pattern, and the minute of the day on the way round the clock
abbrev pub on_circle : Clock → ℕ → ℕ → ℕ → Bool
on_circle c days t1 t2 =
    bit days c.day_of_week
    && leb ((c.hour * 60 + c.minute + 1440 - t1) % 1440) ((t2 + 1440 - t1) % 1440)

written_config :
    (c : Clock) (zones : List Config) (p : Zeitzone) (f : Frame)
    → byte f 1 ≡ write_details
    → byte f 2 ≡ p.config.gruppe
    → p.it ≢ 0
    → p.eeprom p.it ≡ block_id
    → let q = can_callback c zones p f in
      (q.config ≡ record {
        gruppe = p.config.gruppe;
        day_pattern = byte f 3;
        from_hour = byte f 4;
        from_minute = byte f 5;
        to_hour = byte f 6;
        to_minute = byte f 7;
      })
      × (q.eeprom (p.it + 3) ≡ byte f 3)
      × (q.eeprom (p.it + 4) ≡ byte f 4)
      × (q.eeprom (p.it + 5) ≡ byte f 5)
      × (q.eeprom (p.it + 6) ≡ byte f 6)
      × (q.eeprom (p.it + 7) ≡ byte f 7)
unfolding can_callback on_write_details
written_config c zones p f kind group block type = ground arith

first_zone :
    (c : Clock) (z : Config) (zs : List Config)
    → zeitzone_matches c (z ∷ zs) z.gruppe
      ≡ time_matches c z.from_hour z.from_minute z.to_hour z.to_minute z.day_pattern
unfolding zeitzone_matches
first_zone c z zs = ground arith

other_zones :
    (c : Clock) (group : ℕ) (before zs : List Config)
    → All (λ z. z.gruppe ≢ group) before
    → zeitzone_matches c (before ++ zs) group ≡ zeitzone_matches c zs group
unfolding zeitzone_matches
other_zones c group [] zs others = refl
other_zones c group (z ∷ before) zs (other, others) =
    ground (arith, other, other_zones c group before zs others)

-- A frame that writes times of day as the details of a zone, whose block in the EEPROM is its own:
-- where it is the first of the board's zones with its group, behind any zones of other groups, this
-- group then matches exactly on the days of the pattern written, on the way round the clock from the begin to the end written, at any
-- time of day, and the EEPROM has the five bytes written.
pub written_zone_matches :
    (c now : Clock) (zones before later : List Config) (p : Zeitzone) (f : Frame)
    → All (λ z. z.gruppe ≢ p.config.gruppe) before
    → byte f 1 ≡ write_details
    → byte f 2 ≡ p.config.gruppe
    → p.it ≢ 0
    → p.eeprom p.it ≡ block_id
    → byte f 4 < 24
    → byte f 5 < 60
    → byte f 6 < 24
    → byte f 7 < 60
    → IsTime now
    → let q = can_callback c zones p f in
      (zeitzone_matches now (before ++ q.config ∷ later) p.config.gruppe
        ≡ on_circle now (byte f 3) (byte f 4 * 60 + byte f 5) (byte f 6 * 60 + byte f 7))
      × (q.eeprom (p.it + 3) ≡ byte f 3)
      × (q.eeprom (p.it + 4) ≡ byte f 4)
      × (q.eeprom (p.it + 5) ≡ byte f 5)
      × (q.eeprom (p.it + 6) ≡ byte f 6)
      × (q.eeprom (p.it + 7) ≡ byte f 7)
written_zone_matches c now zones before later p f others kind group block type h1 m1 h2 m2 time =
    let (config, e3, e4, e5, e6, e7) = written_config c zones p f kind group block type in
    let z : Config = record {
      gruppe = p.config.gruppe;
      day_pattern = byte f 3;
      from_hour = byte f 4;
      from_minute = byte f 5;
      to_hour = byte f 6;
      to_minute = byte f 7;
    } in
    (
      other_zones now p.config.gruppe before ((can_callback c zones p f).config ∷ later) others
          ∙ ap (λ x. zeitzone_matches now (x ∷ later) p.config.gruppe) config
          ∙ first_zone now z later
          ∙ time_matches_circle now (byte f 4) (byte f 5) (byte f 6) (byte f 7) (byte f 3) time h1
              m1 h2 m2,
      e3,
      e4,
      e5,
      e6,
      e7,
    )
