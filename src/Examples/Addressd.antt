-- ===== src/Examples/Addressd.antt =====
-- Connections to hcanaddressd (hcanaddressd/main.c).
use hcan.Prelude.{ℕ, ◌<◌, ◌+◌, ◌≡◌, ◌==◌, false, refl, some, none, List, [], ◌∷◌}
use hcan.Addressd.State.{
  round, release, connect, assign_address, init_peer_array, Round, run, start,
}
use hcan.Addressd.Leases.{lasts, slot, grants, keeps_address}
use hcan.Addressd.Unique.{new_sockets, unused, one_address_each}

abbrev connection : ℕ → Round
connection s = record { accepted = some s; at_end = λ k. false }

abbrev end_of : ℕ → Round
end_of s = record { accepted = none; at_end = λ k. k == s }

-- the first connection ends and another one comes, while the second one stays
keeps_address_example :
    (slot
        (run (connection 9 ∷ end_of 7 ∷ []) (run (connection 8 ∷ connection 7 ∷ []) start)).peers
        1
      ≡ slot (run (connection 8 ∷ connection 7 ∷ []) start).peers 1)
    × (grants 513
          (run
            (connection 9 ∷ end_of 7 ∷ [])
            (run (connection 8 ∷ connection 7 ∷ []) start)).written
        ≡ grants 513 (run (connection 8 ∷ connection 7 ∷ []) start).written)
unfolding run round release connect assign_address init_peer_array lasts
keeps_address_example =
    keeps_address (connection 8 ∷ connection 7 ∷ []) (connection 9 ∷ end_of 7 ∷ []) 1 8 refl refl

abbrev rounds : List Round
rounds = connection 9 ∷ end_of 7 ∷ connection 8 ∷ connection 7 ∷ []

one_address_each_example :
    ((i : ℕ) → i < 32 → (slot (run rounds start).peers i).address ≡ 512 + i)
    × ((i j s : ℕ)
        → (slot (run rounds start).peers i).socket ≡ some s
        → (slot (run rounds start).peers j).socket ≡ some s
        → i ≡ j)
unfolding new_sockets unused run round release connect assign_address init_peer_array
one_address_each_example = one_address_each rounds refl
