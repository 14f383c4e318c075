-- ===== src/Pumpe/Store.antt =====
-- zentralheizungspumpe.c: the table of the heaters' demand as a finite map.
use hcan.Prelude.{
  ℕ, ◌≡◌, ◌≢◌, Bool, true, false, Option, none, some, List, [], ◌∷◌, ◌||◌, ◌&&◌, if◌then◌else◌,
  ◌==◌, arith, refl, length, Option-cases, inl, inr,
}
use hcan.Pumpe.State.{Entry, update, create, waermebedarf_speichern}

-- the demand of the heater `id`
unfoldable pub lookup : ℕ → List Entry → Option ℕ
lookup id [] = none
lookup id (e ∷ es) = if e.id == id then some e.waermebedarf else lookup id es

abbrev pub has : ℕ → List Entry → Bool
has id [] = false
has id (e ∷ es) = let rest = has id es in (e.id == id) || rest

update-none : (id d : ℕ) (es : List Entry) → update id d es ≡ none → has id es ≡ false
unfolding update
update-none id d [] h = refl
update-none id d (e ∷ es) h = elim (Option-cases (update id d es)) [
  | inl absent ↦ ground (arith, update-none id d es absent, absent)
  | inr (new, at) ↦ ground (arith, at)
]

update-some :
    (id d j : ℕ) (es new : List Entry)
    → update id d es ≡ some new
    → (lookup j new ≡ (if j == id then some d else lookup j es)) × (length new ≡ length es)
unfolding update lookup
update-some id d j [] new h = ground arith
update-some id d j (e ∷ es) new h = elim (Option-cases (update id d es)) [
  | inl absent ↦ ground (arith, absent)
  | inr (rest, at) ↦ ground (arith, at, update-some id d j es rest at)
]

lookup_absent : (id : ℕ) (es : List Entry) → has id es ≡ false → lookup id es ≡ none
unfolding lookup
lookup_absent id [] h = refl
lookup_absent id (e ∷ es) h = ground (arith, lookup_absent id es)

create-none : (id d : ℕ) (es : List Entry) → create id d es ≡ none → has 255 es ≡ false
unfolding create
create-none id d [] h = refl
create-none id d (e ∷ es) h = elim (Option-cases (create id d es)) [
  | inl absent ↦ ground (arith, create-none id d es absent, absent)
  | inr (new, at) ↦ ground (arith, at)
]

create-some :
    (id d j : ℕ) (es new : List Entry)
    → j ≢ 255
    → has id es ≡ false
    → create id d es ≡ some new
    → (lookup j new ≡ (if j == id then some d else lookup j es))
      × (length new ≡ length es)
      × (has 255 es ≡ true)
unfolding create lookup
create-some id d j [] new nf fresh h = ground arith
create-some id d j (e ∷ es) new nf fresh h = elim (Option-cases (create id d es)) [
  | inl absent ↦ ground (arith, absent)
  | inr (rest, at) ↦ ground (arith, at, create-some id d j es rest nf)
]

has-update : (id d : ℕ) (es new : List Entry) → update id d es ≡ some new → has id es ≡ true
unfolding update
has-update id d [] new h = ground arith
has-update id d (e ∷ es) new h = elim (Option-cases (update id d es)) [
  | inl absent ↦ ground (arith, absent)
  | inr (rest, at) ↦ ground (arith, at, has-update id d es rest at)
]

-- The table, of which 255 marks a free entry, is a map of a fixed size: after the demand `d` of the
-- heater `id` is stored, a lookup of any heater `j` other than 255 gives `d` for `id` itself and the
-- same as before for others, and the number of entries is the same; where `id` has no entry and none is
-- free, nothing is stored and a lookup of `id` gives nothing.
pub store_lookup :
    (id d j : ℕ) (es : List Entry)
    → j ≢ 255
    → (lookup j (waermebedarf_speichern id d es)
        ≡ (if (j == id) && (has id es || has 255 es) then some d else lookup j es))
      × (length (waermebedarf_speichern id d es) ≡ length es)
unfolding waermebedarf_speichern
store_lookup id d j es nf = elim (Option-cases (update id d es)) [
  | inr (new, at) ↦ rw at (ground (arith, update-some id d j es new at, has-update id d es new at))
  | inl absent ↦ elim (Option-cases (create id d es)) [
    | inr (new, at) ↦
        rw (absent, at)
          (ground (arith, create-some id d j es new nf (update-none id d es absent) at))
    | inl full ↦
        rw (absent, full)
          (ground
            (arith, update-none id d es absent, create-none id d es full, lookup_absent id es))
  ]
]
