-- ===== src/Installed/Lookup.antt =====
-- core/installed.c: what `vhdb_installed_set` stores is found again, and the array holds it.
use vhdb.Base.{
  ℕ, zero, suc, ◌≤◌, ◌<◌, ◌==◌, ◌≡◌, ◌≢◌, refl, ap, ◌⊎◌, inl, inr, Bool, true, false, List, [], ◌∷◌,
  ◌++◌, none, some, length, length-append, equal, equal_iff, get_elem?, set, arith, Bool-cases,
  Option-cases,
}
use vhdb.Status.{Installed}
use vhdb.Installed.{
  Copies, count, grow, find_first, find_id, find_titleid, find_slot, make_room, set_copy,
}

module _ (test : Installed → Bool) where
  -- A result of the search is in range and passes the test.
  find_first-some :
      (xs : List Installed) (i : ℕ)
      → find_first test xs ≡ some i
      → (x : Installed) × (get_elem? xs i ≡ some x) × (test x ≡ true)
  unfolding find_first
  find_first-some [] i e = cc
  find_first-some (x ∷ xs) zero e = elim (Bool-cases (test x)) [
    | inl here ↦ (x, refl, here)
    | inr other ↦ elim (Option-cases (find_first test xs)) [
      | inl out ↦ absurd (ground arith)
      | inr (k, ek) ↦ absurd (ground arith)
    ]
  ]
  find_first-some (x ∷ xs) (suc i) e = elim (Bool-cases (test x)) [
    | inl here ↦ absurd (ground arith)
    | inr other ↦ elim (Option-cases (find_first test xs)) [
      | inl out ↦ absurd (ground arith)
      | inr (k, ek) ↦ find_first-some xs i (ground arith)
    ]
  ]

  -- Writing an element that passes the test where the search ends leaves the search there.
  find_first-set :
      (xs : List Installed) (i : ℕ) (entry : Installed)
      → find_first test xs ≡ some i
      → test entry ≡ true
      → (find_first test (set xs i entry) ≡ some i) × (get_elem? (set xs i entry) i ≡ some entry)
  unfolding find_first
  find_first-set [] i entry e pass = cc
  find_first-set (x ∷ xs) zero entry e pass = (ground arith, refl)
  find_first-set (x ∷ xs) (suc i) entry e pass = elim (Option-cases (find_first test xs)) [
    | inl out ↦ absurd (ground arith)
    | inr (k, ek) ↦
        let ih = find_first-set xs i entry (ground arith) pass in (ground (arith, ih.0), ih.1)
  ]

  -- Behind a list in which nothing passes, an element that passes is found.
  find_first-append :
      (xs : List Installed) (entry : Installed)
      → find_first test xs ≡ none
      → test entry ≡ true
      → (find_first test (xs ++ (entry ∷ [])) ≡ some (length xs))
        × (get_elem? (xs ++ (entry ∷ [])) (length xs) ≡ some entry)
  unfolding find_first
  find_first-append [] entry e pass = (ground arith, refl)
  find_first-append (x ∷ xs) entry e pass = elim (Option-cases (find_first test xs)) [
    | inl out ↦ let ih = find_first-append xs entry out pass in (ground (arith, ih.0), ih.1)
    | inr (k, ek) ↦ absurd (ground arith)
  ]

  -- Where nothing passes, an element that passes is found where it is written.
  find_first-set_new :
      (xs : List Installed) (i : ℕ) (entry : Installed)
      → find_first test xs ≡ none
      → i < length xs
      → test entry ≡ true
      → (find_first test (set xs i entry) ≡ some i) × (get_elem? (set xs i entry) i ≡ some entry)
  unfolding find_first
  find_first-set_new [] i entry e h pass = absurd (omega arith)
  find_first-set_new (x ∷ xs) zero entry e h pass = (ground arith, refl)
  find_first-set_new (x ∷ xs) (suc i) entry e h pass = elim (Option-cases (find_first test xs)) [
    | inl out ↦
        let ih = find_first-set_new xs i entry out (omega arith) pass in
        (ground (arith, ih.0), ih.1)
    | inr (k, ek) ↦ absurd (ground arith)
  ]

get_elem?-length :
    (xs : List Installed) (i : ℕ) {x : Installed} → get_elem? xs i ≡ some x → i < length xs
get_elem?-length [] i e = cc
get_elem?-length (y ∷ xs) zero e = omega arith
get_elem?-length (y ∷ xs) (suc i) {x} e = omega (arith, get_elem?-length xs i {x = x} e)

abbrev pub has_id : ℕ → Installed → Bool
has_id id e = e.id == id

abbrev has_title : List ℕ → Installed → Bool
has_title t e = equal e.titleid t

-- The copy is the one that a search by its id, or without an id by its title id, now finds.
abbrev pub FoundAgain : Copies → Installed → Type 0
FoundAgain list entry =
    (i : ℕ) × (get_elem? list.items i ≡ some entry)
    × (entry.id ≢ 0 → find_id list entry.id ≡ some i)
    × (entry.id ≡ 0 → entry.titleid ≢ [] → find_titleid list entry.titleid ≡ some i)

module _ (entry : Installed) where
  same_id : has_id entry.id entry ≡ true
  same_id = ground arith

  same_title : has_title entry.titleid entry ≡ true
  same_title = (equal_iff entry.titleid entry.titleid).1 refl

  -- The search by id found the slot.
  id_slot-FoundAgain :
      (list : Copies) (i : ℕ)
      → find_id list entry.id ≡ some i
      → FoundAgain (record list { items = set list.items i entry }) entry
  unfolding find_id
  id_slot-FoundAgain list i e =
      let s = find_first-set (has_id entry.id) list.items i entry (ground arith) same_id in
      (i, s.1, λ ne. ground (arith, s.0), λ z. absurd (ground arith))

  -- The search by title id found the slot, after that by id found nothing.
  title_slot-FoundAgain :
      (list : Copies) (i : ℕ)
      → find_id list entry.id ≡ none
      → find_titleid list entry.titleid ≡ some i
      → FoundAgain (record list { items = set list.items i entry }) entry
  unfolding find_id find_titleid
  title_slot-FoundAgain list i no_id e =
      let found : find_first (has_title entry.titleid) list.items ≡ some i = ground arith in
      let (x, there, pass) = find_first-some (has_title entry.titleid) list.items i found in
      let inside = get_elem?-length list.items i there in
      let s = find_first-set (has_title entry.titleid) list.items i entry found same_title in
      (
        i,
        s.1,
        λ ne. ground (
          arith,
          find_first-set_new (has_id entry.id) list.items i entry (ground arith) inside same_id,
        ),
        λ z full. ground (arith, s.0),
      )

  -- Neither search found anything: the copy stands at the end.
  append-FoundAgain :
      (list : Copies) (capacity : ℕ)
      → find_id list entry.id ≡ none
      → find_titleid list entry.titleid ≡ none
      → FoundAgain (record { items = list.items ++ (entry ∷ []); capacity = capacity }) entry
  unfolding find_id find_titleid
  append-FoundAgain list capacity no_id no_title = (
    length list.items,
    get_elem?-append,
    λ ne.
        ground (arith, find_first-append (has_id entry.id) list.items entry (ground arith) same_id),
    λ z full. ground (
      arith,
      equal_iff entry.titleid [],
      find_first-append (has_title entry.titleid) list.items entry
          (ground (arith, equal_iff entry.titleid [])) same_title,
    ),
  )
    where
      last_elem : (xs : List Installed) → get_elem? (xs ++ (entry ∷ [])) (length xs) ≡ some entry
      last_elem [] = refl
      last_elem (x ∷ xs) = last_elem xs

      get_elem?-append : get_elem? (list.items ++ (entry ∷ [])) (length list.items) ≡ some entry
      get_elem?-append = last_elem list.items

abbrev pub Fits : Copies → Type 0
Fits list = count list ≤ list.capacity

pub make_room-items :
    (realloc : ℕ → Bool) (list roomy : Copies)
    → make_room realloc list ≡ some roomy
    → roomy.items ≡ list.items
unfolding make_room grow
make_room-items realloc list roomy e = ground arith

make_room-Fits :
    (realloc : ℕ → Bool) (list roomy : Copies)
    → Fits list
    → make_room realloc list ≡ some roomy
    → count list < roomy.capacity
unfolding make_room grow
make_room-Fits realloc list roomy fits e = ground arith

module _ (realloc : ℕ → Bool) (list : Copies) (entry : Installed) where
  pub set_copy-slot :
      (i : ℕ)
      → find_slot list entry ≡ some i
      → set_copy realloc list entry ≡ (record list { items = set list.items i entry }, true)
  unfolding set_copy
  set_copy-slot i e = ground arith

  pub set_copy-full :
      find_slot list entry ≡ none
      → make_room realloc list ≡ none
      → set_copy realloc list entry ≡ (list, false)
  unfolding set_copy
  set_copy-full e full = ground arith

  pub set_copy-append :
      (roomy : Copies)
      → find_slot list entry ≡ none
      → make_room realloc list ≡ some roomy
      → roomy.items ≡ list.items
      → set_copy realloc list entry
        ≡ (record { items = list.items ++ (entry ∷ []); capacity = roomy.capacity }, true)
  unfolding set_copy
  set_copy-append roomy e room kept = ground arith

make_room-none :
    (realloc : ℕ → Bool) (list : Copies)
    → make_room realloc list ≡ none
    → (count list ≡ list.capacity) × (grow realloc list ≡ none)
unfolding make_room
make_room-none realloc list e = ground arith

length-set : (xs : List Installed) (i : ℕ) (x : Installed) → length (set xs i x) ≡ length xs
length-set [] i x = refl
length-set (y ∷ xs) zero x = refl
length-set (y ∷ xs) (suc i) x = ap suc (length-set xs i x)

-- `vhdb_installed_set` either works, and then the copy is the one found by its id, or by its title
-- id if it has no id, and the array still holds the items; or it leaves the list alone, which only
-- happens with a full array for which `realloc` gives no more room.
pub set_copy_lem :
    (realloc : ℕ → Bool) (list : Copies) (entry : Installed)
    → Fits list
    → (((set_copy realloc list entry).1 ≡ true)
        × FoundAgain (set_copy realloc list entry).0 entry
        × Fits (set_copy realloc list entry).0)
      ⊎ ((set_copy realloc list entry ≡ (list, false))
          × (count list ≡ list.capacity)
          × (grow realloc list ≡ none))
set_copy_lem realloc list entry fits = elim (Option-cases (find_id list entry.id)) [
  | inr (i, by_id) ↦
      rw (set_copy-slot realloc list entry i (unfold find_slot in ground (arith, by_id))) (
        inl (
          refl,
          id_slot-FoundAgain entry list i by_id,
          omega (arith, length-set list.items i entry),
        ))
  | inl no_id ↦ elim (Option-cases (find_titleid list entry.titleid)) [
    | inr (i, by_title) ↦
        rw
          (set_copy-slot realloc list entry i (unfold find_slot in ground (arith, no_id, by_title)))
          (inl (
            refl,
            title_slot-FoundAgain entry list i no_id by_title,
            omega (arith, length-set list.items i entry),
          ))
    | inl no_title ↦
        let new : find_slot list entry ≡ none =
          unfold find_slot in ground (arith, no_id, no_title) in
        elim (Option-cases (make_room realloc list)) [
          | inl full ↦
              let refused = make_room-none realloc list full in
              rw (set_copy-full realloc list entry new full) (inr (refl, refused.0, refused.1))
          | inr (roomy, room) ↦
              let kept = make_room-Fits realloc list roomy fits room in
              rw
                (set_copy-append realloc list entry roomy new room
                  (make_room-items realloc list roomy room))
                (inl (
                  refl,
                  append-FoundAgain entry list roomy.capacity no_id no_title,
                  omega (arith, kept, length-append list.items (entry ∷ [])),
                ))
        ]
  ]
]
