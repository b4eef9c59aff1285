-- ===== src/Needs/Count.antt =====
-- core/status.c: the count of needed files and the walk to one of them agree.
use vhdb.Base.{
  ℕ, zero, suc, ◌+◌, ◌≤◌, ◌<◌, ◌≡◌, refl, List, [], ◌∷◌, none, some, arith, Option-cases, inl, inr,
  ◌⊎◌,
}
use vhdb.Needs.{
  need_of, fields_loop, no_parts, Need, behind_semicolon, entry_from, entry_at, needs_get,
  semicolons, ends_in_semicolon, needs_count,
}

-- Passing a semicolon takes one entry off.
behind-count :
    (p : List ℕ)
    → (behind_semicolon p ≡ none → needs_count p ≤ 1)
      × ((q : List ℕ) → behind_semicolon p ≡ some q → needs_count p ≡ 1 + needs_count q)
unfolding behind_semicolon needs_count semicolons ends_in_semicolon
behind-count [] = (λ e. omega arith, λ q e. cc)
behind-count (c ∷ []) = (λ e. ground arith, λ q e. ground arith)
behind-count (c ∷ d ∷ cs) =
    let ih = behind-count (d ∷ cs) in (λ e. ground (arith, ih.0), λ q e. ground (arith, ih.1 q))

needs_count-pos : (c : ℕ) (cs : List ℕ) → 1 ≤ needs_count (c ∷ cs)
unfolding needs_count semicolons ends_in_semicolon
needs_count-pos c [] = ground arith
needs_count-pos c (d ∷ cs) = ground (arith, needs_count-pos d cs)

needs_count-nil : needs_count [] ≡ 0
unfolding needs_count
needs_count-nil = refl

entry_from-count :
    (n : ℕ) (p : List ℕ)
    → ((n < needs_count p) × ((start : List ℕ) × (entry_from n p ≡ some start)))
      ⊎ ((needs_count p ≤ n) × (entry_from n p ≡ none))
unfolding entry_from
entry_from-count zero [] = inr (omega (arith, needs_count-nil), refl)
entry_from-count zero (c ∷ cs) = inl (needs_count-pos c cs, (c ∷ cs, refl))
entry_from-count (suc n) p = elim (Option-cases (behind_semicolon p)) [
  | inl last ↦ inr (omega (arith, (behind-count p).0 last), ground (arith, last))
  | inr (q, next) ↦ elim (entry_from-count n q) [
    | inl (below, (start, found)) ↦
        inl (omega (arith, (behind-count p).1 q next), (start, ground (arith, next, found)))
    | inr (above, missing) ↦
        inr (omega (arith, (behind-count p).1 q next), ground (arith, next, missing))
  ]
]

-- `vhdb_needs_get` finds an entry for exactly the indices below `vhdb_needs_count`.
pub needs_get-count :
    (needs : List ℕ) (index : ℕ)
    → ((index < needs_count needs) × (need : Need) × (needs_get needs index ≡ some need))
      ⊎ ((needs_count needs ≤ index) × (needs_get needs index ≡ none))
unfolding needs_get entry_at
needs_get-count [] index = inr (omega (arith, needs_count-nil), refl)
needs_get-count (c ∷ cs) index = elim (entry_from-count index (c ∷ cs)) [
  | inl (below, (start, found)) ↦ inl (below, need_of (fields_loop start 0 [] no_parts), rw found)
  | inr (above, missing) ↦ inr (above, rw missing)
]
