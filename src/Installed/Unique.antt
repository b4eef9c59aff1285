-- ===== src/Installed/Unique.antt =====
-- core/installed.c: no id other than 0 stands twice in the list.
use vhdb.Base.{
  ℕ, zero, suc, ◌==◌, ◌≡◌, ◌≢◌, refl, sym, subst, ◌⊎◌, inl, inr, if◌then◌else◌, Bool, true, false,
  List, [], ◌∷◌, ◌++◌, Option, none, some, length, set, arith, Bool-cases, Option-cases,
}
use vhdb.Status.{Installed}
use vhdb.Installed.{
  Copies, find_first, find_id, find_titleid, find_slot, make_room, set_copy, remove_first, remove,
  count,
}
use vhdb.Installed.Lookup.{has_id, set_copy-slot, set_copy-full, set_copy-append, make_room-items}

-- The id stands nowhere in the list.
abbrev pub Absent : ℕ → List Installed → Type 0
Absent id [] = Unit
Absent id (x ∷ xs) = (x.id ≢ id) × Absent id xs

-- An id is 0, or does not stand in what follows.
abbrev pub Unique : List Installed → Type 0
Unique [] = Unit
Unique (x ∷ xs) = (x.id ≢ 0 → Absent x.id xs) × Unique xs

find_first-Absent : (id : ℕ) (xs : List Installed) → find_first (has_id id) xs ≡ none → Absent id xs
unfolding find_first
find_first-Absent id [] e = tt
find_first-Absent id (x ∷ xs) e = elim (Option-cases (find_first (has_id id) xs)) [
  | inl out ↦ (ground arith, find_first-Absent id xs out)
  | inr (k, ek) ↦ absurd (ground arith)
]

Absent-set :
    (id : ℕ) (xs : List Installed) (i : ℕ) (entry : Installed)
    → Absent id xs
    → entry.id ≢ id
    → Absent id (set xs i entry)
Absent-set id [] i entry a ne = tt
Absent-set id (x ∷ xs) zero entry a ne = (ne, a.1)
Absent-set id (x ∷ xs) (suc i) entry a ne = (a.0, Absent-set id xs i entry a.1 ne)

Absent-append :
    (id : ℕ) (xs : List Installed) (entry : Installed)
    → Absent id xs
    → entry.id ≢ id
    → Absent id (xs ++ (entry ∷ []))
Absent-append id [] entry a ne = (ne, tt)
Absent-append id (x ∷ xs) entry a ne = (a.0, Absent-append id xs entry a.1 ne)

-- Replacing a copy by one of an id that is new, or 0, keeps the ids unique.
Unique-set_new :
    (xs : List Installed) (i : ℕ) (entry : Installed)
    → Unique xs
    → (entry.id ≢ 0 → Absent entry.id xs)
    → Unique (set xs i entry)
Unique-set_new [] i entry u new = tt
Unique-set_new (x ∷ xs) zero entry u new = (λ ne. (new ne).1, u.1)
Unique-set_new (x ∷ xs) (suc i) entry u new = (
  λ ne. Absent-set x.id xs i entry (u.0 ne) (λ e. clash e ne),
  Unique-set_new xs i entry u.1 (λ ne. (new ne).1),
)
  where
    clash : entry.id ≡ x.id → x.id ≢ 0 → ⊥
    clash e ne = elim (Bool-cases (entry.id == 0)) [
      | inl z ↦ ne (ground arith)
      | inr nz ↦ absurd ((new (ground arith)).0 (ground arith))
    ]

-- Replacing the copy that the search by its id found keeps the ids unique.
Unique-set_same :
    (xs : List Installed) (i : ℕ) (entry : Installed)
    → Unique xs
    → find_first (has_id entry.id) xs ≡ some i
    → Unique (set xs i entry)
unfolding find_first
Unique-set_same [] i entry u e = tt
Unique-set_same (x ∷ xs) zero entry u e = elim (Bool-cases (x.id == entry.id)) [
  | inl here ↦ (λ ne. subst (λ t. Absent t xs) (ground arith) (u.0 (ground arith)), u.1)
  | inr other ↦ elim (Option-cases (find_first (has_id entry.id) xs)) [
    | inl out ↦ absurd (ground arith)
    | inr (k, ek) ↦ absurd (ground arith)
  ]
]
Unique-set_same (x ∷ xs) (suc i) entry u e = elim (Bool-cases (x.id == entry.id)) [
  | inl here ↦ absurd (ground arith)
  | inr other ↦ elim (Option-cases (find_first (has_id entry.id) xs)) [
    | inl out ↦ absurd (ground arith)
    | inr (k, ek) ↦ (
      λ ne. Absent-set x.id xs i entry (u.0 ne) (ground arith),
      Unique-set_same xs i entry u.1 (ground arith),
    )
  ]
]

Unique-append :
    (xs : List Installed) (entry : Installed)
    → Unique xs
    → (entry.id ≢ 0 → Absent entry.id xs)
    → Unique (xs ++ (entry ∷ []))
Unique-append [] entry u new = ((λ ne. tt), tt)
Unique-append (x ∷ xs) entry u new = (
  λ ne. Absent-append x.id xs entry (u.0 ne) (λ e. clash e ne),
  Unique-append xs entry u.1 (λ ne. (new ne).1),
)
  where
    clash : entry.id ≡ x.id → x.id ≢ 0 → ⊥
    clash e ne = elim (Bool-cases (entry.id == 0)) [
      | inl z ↦ ne (ground arith)
      | inr nz ↦ absurd ((new (ground arith)).0 (ground arith))
    ]

-- The first copy of an id.
abbrev pub copy_of : ℕ → List Installed → Option Installed
copy_of id [] = none
copy_of id (x ∷ xs) = if x.id == id then some x else copy_of id xs

-- What taking one copy of an id out does to a list of unique ids.
pub record IsRemoved (id : ℕ) (xs ys : List Installed) : Type 0 where
  pub unique : Unique ys
  fewer : length xs ≡ suc (length ys)
  absent_still : (j : ℕ) → Absent j xs → Absent j ys
  gone : id ≢ 0 → Absent id ys
  others : (j : ℕ) → j ≢ id → copy_of j ys ≡ copy_of j xs

pub remove_first-IsRemoved :
    (id : ℕ) (xs ys : List Installed)
    → remove_first id xs ≡ some ys
    → Unique xs
    → IsRemoved id xs ys
unfolding remove_first
remove_first-IsRemoved id [] ys e u = cc
remove_first-IsRemoved id (x ∷ xs) ys e u = elim (Bool-cases (x.id == id)) [
  | inl here ↦
      let is : ys ≡ xs = ground arith in
      subst (λ t. IsRemoved id (x ∷ xs) t) (sym is)
        (record {
          unique = u.1;
          fewer = refl;
          absent_still = λ j a. a.1;
          gone = λ ne. subst (λ t. Absent t xs) (ground arith) (u.0 (ground arith));
          others = λ j ne. ground arith;
        })
  | inr other ↦ elim (Option-cases (remove_first id xs)) [
    | inl out ↦ absurd (ground arith)
    | inr (zs, ez) ↦
        let is : ys ≡ x ∷ zs = ground arith in
        let ih = remove_first-IsRemoved id xs zs ez u.1 in
        subst (λ t. IsRemoved id (x ∷ xs) t) (sym is)
          (record {
            unique = (λ ne. ih.absent_still x.id (u.0 ne), ih.unique);
            fewer = omega (arith, ih.fewer);
            absent_still = λ j a. (a.0, ih.absent_still j a.1);
            gone = λ ne. (ground arith, ih.gone ne);
            others = λ j ne. ground (arith, ih.others j ne);
          })
  ]
]

remove_first-missing : (id : ℕ) (xs : List Installed) → remove_first id xs ≡ none → Absent id xs
unfolding remove_first
remove_first-missing id [] e = tt
remove_first-missing id (x ∷ xs) e = elim (Option-cases (remove_first id xs)) [
  | inl out ↦ (ground arith, remove_first-missing id xs out)
  | inr (zs, ez) ↦ absurd (ground arith)
]

-- From a list of unique ids `vhdb_installed_remove` takes an id other than 0 out: the list is one
-- shorter, no copy of the id is left, and the copies of all other ids are the same. Where it
-- reports that there was none, the id did not stand in the list, and the list is unchanged.
pub remove_lem :
    (list : Copies) (id : ℕ)
    → Unique list.items
    → id ≢ 0
    → (((remove list id).1 ≡ true)
        × (count list ≡ suc (count (remove list id).0))
        × Unique (remove list id).0.items
        × Absent id (remove list id).0.items
        × ((j : ℕ) → j ≢ id → copy_of j (remove list id).0.items ≡ copy_of j list.items))
      ⊎ ((remove list id ≡ (list, false)) × Absent id list.items)
remove_lem list id u ne = elim (Option-cases (remove_first id list.items)) [
  | inl out ↦ inr (unfold remove in ground arith, remove_first-missing id list.items out)
  | inr (ys, e) ↦
      let r = remove_first-IsRemoved id list.items ys e u in
      let is : remove list id ≡ (record list { items = ys }, true) =
        unfold remove in ground arith in
      rw is (inl (refl, r.fewer, r.unique, r.gone ne, r.others))
]

-- `vhdb_installed_set` keeps the ids other than 0 unique, whether it works or not.
pub set_copy-Unique :
    (realloc : ℕ → Bool) (list : Copies) (entry : Installed)
    → Unique list.items
    → Unique (set_copy realloc list entry).0.items
set_copy-Unique realloc list entry u = elim (Option-cases (find_id list entry.id)) [
  | inr (i, by_id) ↦
      rw (set_copy-slot realloc list entry i (unfold find_slot in ground (arith, by_id)))
        (Unique-set_same list.items i entry u (unfold find_id in ground arith))
  | inl no_id ↦
      let new : (entry.id ≢ 0 → Absent entry.id list.items) =
        λ ne. find_first-Absent entry.id list.items (unfold find_id in ground arith) in
      elim (Option-cases (find_titleid list entry.titleid)) [
        | inr (i, by_title) ↦
            rw
              (set_copy-slot realloc list entry i
                (unfold find_slot in ground (arith, no_id, by_title)))
              (Unique-set_new list.items i entry u new)
        | inl no_title ↦
            let fresh : find_slot list entry ≡ none =
              unfold find_slot in ground (arith, no_id, no_title) in
            elim (Option-cases (make_room realloc list)) [
              | inl full ↦ rw (set_copy-full realloc list entry fresh full) u
              | inr (roomy, room) ↦
                  rw
                    (set_copy-append realloc list entry roomy fresh room
                      (make_room-items realloc list roomy room))
                    (Unique-append list.items entry u new)
            ]
      ]
]

pub same-Unique : (a b : Copies) → a ≡ b → Unique a.items → Unique b.items
same-Unique a b e u = subst (λ (l : Copies). Unique l.items) e u
