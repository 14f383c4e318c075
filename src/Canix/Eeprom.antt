-- ===== src/Canix/Eeprom.antt =====
-- The EEPROM of a board over the bus (canix/hcan_hms.c).
use mathlib.Core.Path.{fun_ext}
use hcan.Prelude.{
  ap, ◌∙◌, ℕ, ◌≡◌, Bool, true, false, List, [], ◌∷◌, arith, refl, if◌then◌else◌, ◌==◌,
}
use hcan.Board.{Frame, byte}
use hcan.Canix.Hms.{
  Hms, Given, eeprom_write, syslog_level_set, eeprom_read_request, address_of, answer, bulk,
  eepr_debug_level, eeprom_bulk_request, write_byte, on_eeprom, on_counters, on_board, hms_handler,
}

-- frames of the service, the last one first
unfoldable pub run : Given → List Frame → Hms → Hms
run g [] h = h
run g (f ∷ fs) h = hms_handler g (run g fs h) f

-- the byte that the frames leave at an address that held `v`
unfoldable pub written : ℕ → List Frame → ℕ → ℕ
written a [] v = v
written a (f ∷ fs) v =
    let older = written a fs v in
    if byte f 1 == eeprom_write
    then if address_of f == a then byte f 4 else older
    else if byte f 1 == syslog_level_set
    then if eepr_debug_level == a then byte f 2 else older
    else older

handled_eeprom :
    (g : Given) (h : Hms) (f : Frame) (a : ℕ)
    → (hms_handler g h f).eeprom a ≡ (
        if byte f 1 == eeprom_write
        then if address_of f == a then byte f 4 else h.eeprom a
        else if byte f 1 == syslog_level_set
        then if eepr_debug_level == a then byte f 2 else h.eeprom a
        else h.eeprom a)
unfolding hms_handler on_board on_counters on_eeprom write_byte
handled_eeprom g h f a = ground arith

run_eeprom :
    (g : Given) (fs : List Frame) (h : Hms) (a : ℕ)
    → (run g fs h).eeprom a ≡ written a fs (h.eeprom a)
unfolding run written
run_eeprom g [] h a = refl
run_eeprom g (f ∷ fs) h a = rw (handled_eeprom g (run g fs h) f a, run_eeprom g fs h a) refl

read-answer :
    (g : Given) (h : Hms) (f : Frame)
    → byte f 1 ≡ eeprom_read_request
    → hms_handler g h f ≡ answer f 3 (h.eeprom (address_of f) ∷ []) h
unfolding hms_handler on_board on_counters on_eeprom
read-answer g h f e = ground arith

bulk-answer :
    (g : Given) (h : Hms) (f : Frame)
    → byte f 1 ≡ eeprom_bulk_request
    → hms_handler g h f ≡ answer f 8 (bulk h.eeprom (address_of f)) h
unfolding hms_handler on_board on_counters on_eeprom
bulk-answer g h f e = ground arith

-- After any frames to the service of a board, a request to read one byte or six of its EEPROM is answered
-- with the bytes that the last frames wrote to these addresses (a write, or for the address 5 a syslog
-- level), or with the bytes that were there; the six addresses are modulo 2^16.
pub reads_last_written :
    (g : Given) (fs : List Frame) (h : Hms) (f : Frame) (six : Bool)
    → byte f 1 ≡ (if six then eeprom_bulk_request else eeprom_read_request)
    → let now : ℕ → ℕ = λ a. written a fs (h.eeprom a) in
      let q = run g fs h in
      hms_handler g q f ≡ (
        if six
        then answer f 8 (bulk now (address_of f)) q
        else answer f 3 (now (address_of f) ∷ []) q)
reads_last_written g fs h f true e =
    bulk-answer g (run g fs h) f e
    ∙ ap (λ (m : ℕ → ℕ). answer f 8 (bulk m (address_of f)) (run g fs h))
        (fun_ext (run_eeprom g fs h))
reads_last_written g fs h f false e =
    read-answer g (run g fs h) f e ∙ rw (run_eeprom g fs h (address_of f)) refl
