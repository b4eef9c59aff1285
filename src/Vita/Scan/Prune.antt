-- ===== src/Vita/Scan/Prune.antt =====
-- vita/scan.c, `vhdb_prune_installed`: it ends, and it takes out exactly what is gone.
use vhdb.Base.Filtered.{Filtered}
use vhdb.Base.Lines.{copied}
use vhdb.Base.{
  equal, codes, ◌⊎◌, true, false, ◌||◌, ℕ, zero, suc, ◌+◌, ◌-◌, ◌≤◌, ◌<◌, ◌≡◌, ◌≢◌, refl, sym, ap,
  ◌∙◌, arith, inl, inr, ◌==◌, if◌then◌else◌, List, [], ◌∷◌, ◌++◌, append-nil, append_assoc, none,
  some, length, length-append, get_elem?, Bool-cases, Option-cases,
}
use vhdb.Installed.{Copies, count, remove, remove_first}
use vhdb.Installed.Unique.{Absent}
use vhdb.Status.{Installed}
use vhdb.Vita.{Files}
use vhdb.Vita.Scan.{app_path, app_installed, stays, prune_loop, prune}

-- Which copies are meant to stay: those without a title id, whose place is not known, and those
-- whose application has its program on the console. The path has an array of 128 bytes.
abbrev pub Remains : Files → Installed → Type 0
Remains files e =
    (e.titleid ≡ [])
    ⊎ (files.exists (copied 128 (codes "ux0:app/" ++ (e.titleid ++ codes "/eboot.bin"))) ≡ true)

-- The test of the code on a title id.
present-Remains :
    (files : Files) (name : List ℕ)
    → (equal name [] || app_installed files name) ≡ true
    → (name ≡ [])
      ⊎ (files.exists (copied 128 (codes "ux0:app/" ++ (name ++ codes "/eboot.bin"))) ≡ true)
unfolding equal app_installed app_path
present-Remains files [] is = inl refl
present-Remains files (c ∷ cs) is = inr is

absent-Remains :
    (files : Files) (name : List ℕ)
    → (equal name [] || app_installed files name) ≡ false
    → ¬ (
        (name ≡ [])
        ⊎ (files.exists (copied 128 (codes "ux0:app/" ++ (name ++ codes "/eboot.bin"))) ≡ true))
unfolding equal app_installed app_path
absent-Remains files [] is r = absurd (ground arith)
absent-Remains files (c ∷ cs) is (inl empty) = absurd (ground arith)
absent-Remains files (c ∷ cs) is (inr there) = absurd (ground arith)

-- The copies that the code keeps, in their order.
abbrev kept : Files → List Installed → List Installed
kept files [] = []
kept files (e ∷ es) = if stays files e then e ∷ kept files es else kept files es

kept-Filtered : (files : Files) (es : List Installed) → Filtered (Remains files) es (kept files es)
unfolding stays
kept-Filtered files [] = refl
kept-Filtered files (e ∷ es) =
    let more = kept-Filtered files es in
    let present = present-Remains files e.titleid in
    let gone = absent-Remains files e.titleid in
    elim (Bool-cases (equal e.titleid [] || app_installed files e.titleid)) [
      | inl stay ↦ inl (present stay, kept files es, rw stay refl, more)
      | inr leaves ↦ inr (gone leaves, rw leaves more)
    ]

-- No two copies have the same id, 0 included.
abbrev pub Distinct : List Installed → Type 0
Distinct [] = Unit
Distinct (e ∷ es) = Absent e.id es × Distinct es

-- The id of a copy is not among those in front of it.
abbrev Ahead : List Installed → List Installed → Type 0
Ahead front [] = Unit
Ahead front (e ∷ es) = Absent e.id front × Ahead front es

remove_first-append :
    (id : ℕ) (front rest : List Installed) (e : Installed)
    → Absent id front
    → e.id ≡ id
    → remove_first id (front ++ (e ∷ rest)) ≡ some (front ++ rest)
unfolding remove_first
remove_first-append id [] rest e a same = ground arith
remove_first-append id (x ∷ front) rest e a same =
    ground (arith, remove_first-append id front rest e a.1 same)

get_elem?-append_length :
    (front rest : List Installed) (e : Installed)
    → get_elem? (front ++ (e ∷ rest)) (length front) ≡ some e
get_elem?-append_length [] rest e = refl
get_elem?-append_length (x ∷ front) rest e = get_elem?-append_length front rest e

get_elem?-length : (xs : List Installed) → get_elem? xs (length xs) ≡ none
get_elem?-length [] = refl
get_elem?-length (x ∷ xs) = get_elem?-length xs

Absent-append_one :
    (id : ℕ) (front : List Installed) (e : Installed)
    → Absent id front
    → e.id ≢ id
    → Absent id (front ++ (e ∷ []))
Absent-append_one id [] e a ne = (ne, tt)
Absent-append_one id (x ∷ front) e a ne = (a.0, Absent-append_one id front e a.1 ne)

Ahead-append_one :
    (front rest : List Installed) (e : Installed)
    → Ahead front rest
    → Absent e.id rest
    → Ahead (front ++ (e ∷ [])) rest
Ahead-append_one front [] e h a = tt
Ahead-append_one front (r ∷ rest) e h a = (
  Absent-append_one r.id front e h.0 (λ same. a.0 (sym same)),
  Ahead-append_one front rest e h.1 a.1,
)

length-kept : (files : Files) (es : List Installed) → length (kept files es) ≤ length es
length-kept files [] = omega arith
length-kept files (e ∷ es) = ground (arith, length-kept files es)

remove-append :
    (list : Copies) (front rest : List Installed) (e : Installed)
    → list.items ≡ front ++ (e ∷ rest)
    → Absent e.id front
    → (remove list e.id).0 ≡ record list { items = front ++ rest }
unfolding remove
remove-append list front rest e is a =
    let found : remove_first e.id list.items ≡ some (front ++ rest) =
      ap (remove_first e.id) is ∙ remove_first-append e.id front rest e a refl in
    ground arith

prune_loop_lem :
    (files : Files) (fuel : ℕ) (list : Copies) (front rest : List Installed) (removed : ℕ)
    → list.items ≡ front ++ rest
    → Ahead front rest
    → Distinct rest
    → length rest < fuel
    → prune_loop files fuel list (length front) removed
      ≡ some (
        record list { items = front ++ kept files rest },
        removed + (length rest - length (kept files rest)),
      )
unfolding prune_loop
prune_loop_lem files zero list front rest removed is h d enough = absurd (omega arith)
prune_loop_lem files (suc fuel) list front [] removed is h d enough =
    let all : list.items ≡ front = is ∙ append-nil front in
    let ends : get_elem? list.items (length front) ≡ none =
      ap (λ xs. get_elem? xs (length front)) all ∙ get_elem?-length front in
    let end : front ++ [] ≡ front = append-nil front in
    let total : removed + 0 ≡ removed = omega arith in ground arith
prune_loop_lem files (suc fuel) list front (e ∷ rest) removed is h d enough =
    let here : get_elem? list.items (length front) ≡ some e =
      ap (λ xs. get_elem? xs (length front)) is ∙ get_elem?-append_length front rest e in
    elim (Bool-cases (stays files e)) [
      | inl stay ↦
          let later =
            prune_loop_lem files fuel list (front ++ (e ∷ [])) rest removed
              (is ∙ sym (append_assoc front (e ∷ []) rest)) (Ahead-append_one front rest e h.1 d.0)
              d.1 (omega arith) in
          let next : length (front ++ (e ∷ [])) ≡ length front + 1 = length-append front (e ∷ []) in
          let joined = append_assoc front (e ∷ []) (kept files rest) in
          let fewer = length-kept files rest in ground arith
      | inr gone ↦
          let later =
            prune_loop_lem files fuel (record list { items = front ++ rest }) front rest
              (removed + 1) refl h.1 d.1 (omega arith) in
          let cut = remove-append list front rest e is h.0 in
          let fewer = length-kept files rest in ground arith
    ]

Ahead-empty : (es : List Installed) → Ahead [] es
Ahead-empty [] = tt
Ahead-empty (e ∷ es) = (tt, Ahead-empty es)

-- `vhdb_prune_installed` ends on a list of distinct ids: the copies that stay are those without a
-- title id or whose `eboot.bin` is on the console, in their order, and its result is the number of
-- the others.
pub prune-kept :
    (files : Files) (list : Copies)
    → Distinct list.items
    → (left : List Installed) × Filtered (Remains files) list.items left
      × (prune files list ≡ some (record list { items = left }, count list - length left))
unfolding prune
prune-kept files list d =
    let all : List Installed = list.items in
    let left : List Installed = kept files all in
    (
      left,
      kept-Filtered files all,
      prune_loop_lem files (suc (count list)) list [] all 0 refl (Ahead-empty all) d (omega arith)
          ∙ ap (λ n. some (record list { items = left }, n)) (omega arith),
    )

remove_first-length :
    (xs : List Installed) (i : ℕ) (e : Installed)
    → get_elem? xs i ≡ some e
    → (ys : List Installed) × (remove_first e.id xs ≡ some ys) × (length xs ≡ suc (length ys))
unfolding remove_first
remove_first-length [] i e at = absurd (ground arith)
remove_first-length (x ∷ xs) zero e at = (xs, ground arith, refl)
remove_first-length (x ∷ xs) (suc i) e at =
    let (ys, found, one) = remove_first-length xs i e at in
    elim (Bool-cases (x.id == e.id)) [
      | inl here ↦ (xs, ground arith, refl)
      | inr other ↦ (x ∷ ys, ground arith, omega (arith, one))
    ]

get_elem?-inside :
    (xs : List Installed) (i : ℕ) (e : Installed) → get_elem? xs i ≡ some e → i < length xs
get_elem?-inside [] i e at = absurd (ground arith)
get_elem?-inside (x ∷ xs) zero e at = omega arith
get_elem?-inside (x ∷ xs) (suc i) e at = omega (arith, get_elem?-inside xs i e at)

prune_loop-ends :
    (files : Files) (fuel : ℕ) (list : Copies) (i removed : ℕ)
    → count list < fuel + i
    → 0 < fuel
    → prune_loop files fuel list i removed ≢ none
unfolding prune_loop remove
prune_loop-ends files zero list i removed enough some_fuel e = absurd (omega arith)
prune_loop-ends files (suc fuel) list i removed enough some_fuel e =
    elim (Option-cases (get_elem? list.items i)) [
      | inl past ↦ ground arith
      | inr (c, here) ↦
          let inside = get_elem?-inside list.items i c here in
          let (ys, found, one) = remove_first-length list.items i c here in
          let on = prune_loop-ends files fuel list (i + 1) removed (omega arith) (omega arith) in
          let out =
            prune_loop-ends files fuel (record list { items = ys }) i (removed + 1) (omega arith)
              (omega arith) in
          ground arith
    ]

-- `vhdb_prune_installed` ends on every list, ids that stand twice included.
pub prune-ends : (files : Files) (list : Copies) → prune files list ≢ none
unfolding prune
prune-ends files list =
    prune_loop-ends files (suc (count list)) list 0 0 (omega arith) (omega arith)
