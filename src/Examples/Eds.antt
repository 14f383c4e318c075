-- ===== src/Examples/Eds.antt =====
-- A small EEPROM space of 20 bytes, and one of 1024 (eds.c).
use hcan.Prelude.{◌≡◌, refl, true, false, arith, [], ◌∷◌, List, if◌then◌else◌, ◌==◌, some}
use hcan.Board.{Frame}
use hcan.Eds.Space.{Memory, alloc, free, defragment, search_from, data_start}
use hcan.Eds.Fuel.{Runs, search_body, alloc_body, free_body, defragment_body, loops_end}
use hcan.Eds.Callback.{Eds}
use hcan.Eds.Chain.{Block, Chain}
use hcan.Eds.Alloc.{free_of, place, alloc_refines}
use hcan.Eds.Compact.{is_compact, taken, defragment_compacts}
use hcan.Eds.Free.{vacate, Freed, free_refines}

-- a taster of four bytes and two free blocks
abbrev space : Memory
space = λ k.
    if k == 34 then 11 else if k == 35 then 4 else if k == 41 then 6 else if k == 49 then 4 else 0

abbrev taster : Block
taster = record { type = 11; size = 4 }

abbrev blocks : List Block
blocks = taster ∷ free_of 6 ∷ free_of 4 ∷ []

abbrev tiled : Chain 53 space 34 blocks
tiled = (refl, refl, omega arith, (refl, refl, omega arith, (refl, refl, omega arith, refl)))

alloc_refines_example :
    let (w, r) = alloc 53 space 2 in
    (r ≡ 40) × Chain 53 w 34 (taster ∷ free_of 2 ∷ free_of 2 ∷ free_of 4 ∷ [])
unfolding place
alloc_refines_example = alloc_refines 53 space blocks 2 tiled

free_refines_example :
    Freed 53 34 34 space (some (free_of 4 ∷ free_of 6 ∷ free_of 4 ∷ [])) (free 53 space 34)
unfolding vacate
free_refines_example = free_refines 53 space blocks 34 tiled

defragment_compacts_example :
    (cs : List Block) × Chain 53 (defragment 53 space) 34 cs
    × (is_compact cs ≡ true)
    × (taken cs ≡ taster ∷ [])
unfolding taken
defragment_compacts_example = defragment_compacts 53 space blocks tiled

abbrev request : Frame
request = record { src = 7; dst = 100; proto = 1; size = 4; bytes = 7 ∷ 4 ∷ 12 ∷ 40 ∷ [] }

abbrev node : Eds
node = record { eeprom = space; board = record { self = 100; pins = λ k. false; sent = [] } }

abbrev erased : Memory
erased = λ k. 255

-- no block has the type 99, and the byte behind the end has
abbrev stray : Memory
stray = λ k. if k == 54 then 99 else space k

-- bytes that are no blocks: the search steps on behind the end
loops_end_example :
    Runs (search_body 53 (λ n. 3) 7 9) 40 (search_from 53 53 (λ n. 3) 40 7 9)
    × Runs (alloc_body 53 (λ n. 3) 5) data_start (alloc 53 (λ n. 3) 5)
    × Runs (free_body 53 (λ n. 3) 41) data_start (free 53 (λ n. 3) 41)
    × Runs
        (defragment_body 53)
        (record { memory = λ n. 3; last = 0; block = data_start })
        (defragment 53 (λ n. 3))
loops_end_example = loops_end 53 (λ n. 3) 40 7 9 5 41
