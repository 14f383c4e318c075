-- ===== src/Examples/Pumpe.antt =====
-- Two heaters and the pump (zentralheizungspumpe.c).
use hcan.Prelude.{◌≡◌, false, some, [], ◌∷◌, length, List, arith}
use hcan.Board.{Frame}
use hcan.Pumpe.State.{Entry, Pumpe, waermebedarf_speichern}
use hcan.Pumpe.Store.{lookup, store_lookup}

abbrev entries : List Entry
entries = record { id = 3; waermebedarf = 40 } ∷ record { id = 255; waermebedarf = 0 } ∷ []

abbrev pump : Pumpe
pump = record {
  gruppe = 90;
  heizung = entries;
  board = record { self = 100; pins = λ k. false; sent = [] };
}

abbrev info : Frame
info = record { src = 50; dst = 35; proto = 1; size = 4; bytes = 5 ∷ 61 ∷ 8 ∷ 60 ∷ [] }

store_lookup_example :
    (lookup 8 (waermebedarf_speichern 8 60 entries) ≡ some 60)
    × (length (waermebedarf_speichern 8 60 entries) ≡ 2)
store_lookup_example = store_lookup 8 60 8 entries (λ z. omega arith)
