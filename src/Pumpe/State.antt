-- ===== src/Pumpe/State.antt =====
-- zentralheizungspumpe.c: the demand that the heaters report, and the pump that is switched by its mean.
use mathlib.Core.Option
use hcan.Prelude.{
  ℕ, suc, ◌+◌, ◌/◌, ◌%◌, Option, none, some, List, [], ◌∷◌, if◌then◌else◌, ◌==◌, ltb, leb,
  replicate,
}
use hcan.Board.{Frame, byte, Board, hes_frame, send, hi, multicast_control}

-- an entry of the array heizung
pub record Entry : Type 0 where
  pub id : ℕ
  pub waermebedarf : ℕ

-- device_data_zentralheizungspumpe, of its configuration the group, with the board that it acts on
pub record Pumpe : Type 0 where
  pub gruppe : ℕ
  pub heizung : List Entry
  pub board : Board

abbrev pub max_anz_heizungen : ℕ
max_anz_heizungen = 15

abbrev pub einschalt_schwelle : ℕ
einschalt_schwelle = 10

abbrev pub ausschalt_schwelle : ℕ
ausschalt_schwelle = 5

-- HCAN_HES_HEIZUNG_WAERMEBEDARF_INFO
abbrev pub waermebedarf_info : ℕ
waermebedarf_info = 61

abbrev pub power_group_on : ℕ
power_group_on = 10

abbrev pub power_group_off : ℕ
power_group_off = 11

unfoldable pub init : Pumpe → Pumpe
init p = record p { heizung = replicate max_anz_heizungen (record { id = 255; waermebedarf = 0 }) }

-- the first pass: the entry of the heater, if there is one
unfoldable pub update : ℕ → ℕ → List Entry → Option (List Entry)
update id demand [] = none
update id demand (e ∷ es) =
    if e.id == id
    then some (record e { waermebedarf = demand } ∷ es)
    else Option.map (λ rest. e ∷ rest) (update id demand es)

-- the second pass: the first free entry
unfoldable pub create : ℕ → ℕ → List Entry → Option (List Entry)
create id demand [] = none
create id demand (e ∷ es) =
    if e.id == 255
    then some (record { id = id; waermebedarf = demand } ∷ es)
    else Option.map (λ rest. e ∷ rest) (create id demand es)

abbrev pub or_else : Option (List Entry) → List Entry → List Entry
or_else none es = es
or_else (some new) es = new

-- waermebedarfSpeichern
unfoldable pub waermebedarf_speichern : ℕ → ℕ → List Entry → List Entry
unfolding update create
waermebedarf_speichern id demand es =
    or_else (update id demand es) (or_else (create id demand es) es)

-- the loop of getMittlererWaermebedarf: the sum, a uint16_t, and the number
unfoldable pub sum_from : ℕ → ℕ → List Entry → ℕ × ℕ
sum_from total i [] = (total, i)
sum_from total i (e ∷ es) =
    if ltb 0 e.waermebedarf
    then sum_from ((total + e.waermebedarf) % 65536) (suc i) es
    else sum_from total i es

-- the cast to uint8_t comes before the division
unfoldable pub mean_of : ℕ × ℕ → ℕ
mean_of (total, i) = if total == 0 then 0 else total % 256 / i

-- getMittlererWaermebedarf
unfoldable pub mittlerer_waermebedarf : List Entry → ℕ
unfolding sum_from mean_of
mittlerer_waermebedarf es = mean_of (sum_from 0 0 es)

abbrev pub send_message : ℕ → Pumpe → Pumpe
send_message kind p = record p {
  board = send (hes_frame p.board multicast_control 3 (kind ∷ p.gruppe ∷ [])) hi p.board;
}

-- the switching by the mean
unfoldable pub switch : ℕ → Pumpe → Pumpe
switch mean p =
    if leb einschalt_schwelle mean
    then send_message power_group_on p
    else if leb mean ausschalt_schwelle
    then send_message power_group_off p
    else p

-- zentralheizungspumpe_can_callback
unfoldable pub can_callback : Pumpe → Frame → Pumpe
unfolding waermebedarf_speichern mittlerer_waermebedarf switch
can_callback p f =
    let table = waermebedarf_speichern (byte f 2) (byte f 3) p.heizung in
    if byte f 1 == waermebedarf_info
    then switch (mittlerer_waermebedarf table) (record p { heizung = table })
    else p
