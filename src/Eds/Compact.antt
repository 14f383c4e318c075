-- ===== src/Eds/Compact.antt =====
-- What eds_defragment (canix/eds.c) is for: no two neighbours are left that could be joined.
use hcan.Prelude.{
  ℕ, ◌≡◌, Bool, true, false, arith, refl, List, [], ◌∷◌, ◌&&◌, not, if◌then◌else◌, leb, Bool-cases,
  inl, inr,
}
use hcan.Eds.Space.{Memory, data_start, defragment}
use hcan.Eds.Chain.{Block, Chain}
use hcan.Eds.Merge.{is_free, joined_size, join_from, join, defragment_refines}

abbrev fit : Block → Block → Bool
fit a b = is_free a && is_free b && leb (joined_size a b) 255

-- no two neighbours are free and fit into 255 bytes
unfoldable pub is_compact : List Block → Bool
is_compact [] = true
is_compact (a ∷ []) = true
is_compact (a ∷ b ∷ bs) = not (fit a b) && is_compact (b ∷ bs)

-- the blocks in use
unfoldable pub taken : List Block → List Block
taken [] = []
taken (b ∷ bs) = if is_free b then taken bs else b ∷ taken bs

-- A block that does not fit with another does not fit with what that one is joined into.
fit_larger :
    (x a b : Block)
    → fit x a ≡ false
    → fit a b ≡ true
    → fit x (record { type = 0; size = joined_size a b }) ≡ false
fit_larger x a b h g = ground arith

is_compact-join_from :
    (x a : Block) (bs : List Block) → fit x a ≡ false → is_compact (x ∷ join_from a bs) ≡ true
unfolding is_compact join_from
is_compact-join_from x a [] h = rw h refl
is_compact-join_from x a (b ∷ bs) h = elim (Bool-cases (fit a b)) [
  | inl joint ↦ rw joint (
      is_compact-join_from x (record { type = 0; size = joined_size a b }) bs
        (fit_larger x a b h joint))
  | inr apart ↦ rw (apart, h) (is_compact-join_from a b bs apart)
]

is_compact-tail : (x : Block) (bs : List Block) → is_compact (x ∷ bs) ≡ true → is_compact bs ≡ true
unfolding is_compact
is_compact-tail x [] h = refl
is_compact-tail x (b ∷ bs) h = ground arith

taken-join_from : (a : Block) (bs : List Block) → taken (join_from a bs) ≡ taken (a ∷ bs)
unfolding taken join_from
taken-join_from a [] = refl
taken-join_from a (b ∷ bs) = elim (Bool-cases (fit a b)) [
  | inl joint ↦
      let first : is_free a ≡ true = ground arith in
      let second : is_free b ≡ true = ground arith in
      rw (joint, first, second) (taken-join_from (record { type = 0; size = joined_size a b }) bs)
  | inr apart ↦ rw (apart, taken-join_from b bs) refl
]

is_compact-join : (bs : List Block) → is_compact (join bs) ≡ true
unfolding join is_compact
is_compact-join [] = refl
is_compact-join (b ∷ bs) =
    let used : Block = record { type = 1; size = 0 } in
    is_compact-tail used (join_from b bs) (is_compact-join_from used b bs refl)

taken-join : (bs : List Block) → taken (join bs) ≡ taken bs
unfolding join taken
taken-join [] = refl
taken-join (b ∷ bs) = taken-join_from b bs

-- A data space that is tiled by blocks is after eds_defragment tiled by blocks of which no two neighbours
-- are free and fit into one of 255 bytes; those in use are the same, in the same order.
pub defragment_compacts :
    (eds_end : ℕ) (m : Memory) (bs : List Block)
    → Chain eds_end m data_start bs
    → (cs : List Block) × Chain eds_end (defragment eds_end m) data_start cs
      × (is_compact cs ≡ true)
      × (taken cs ≡ taken bs)
defragment_compacts eds_end m bs c =
    let (chain, low) = defragment_refines eds_end m bs 0 c (omega arith) in
    (join bs, chain, is_compact-join bs, taken-join bs)
