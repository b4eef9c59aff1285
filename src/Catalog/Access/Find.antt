-- ===== src/Catalog/Access/Find.antt =====
-- core/vhdb.c, `vhdb_find_titleid`: it finds the first record that carries a title id.
use vhdb.Base.{
  ℕ, zero, suc, ◌+◌, ◌*◌, ◌≤◌, ◌<◌, ◌==◌, ◌≡◌, ◌≢◌, refl, sym, subst, ◌⊎◌, inl, inr, true, false,
  List, [], ◌∷◌, Option, none, some, slice, slice-some, length, length-take, length-drop, take,
  drop, get_elem?, get_elem?-lt, arith, Bool-cases, until_nul, IsText,
}
use vhdb.Catalog.{Db}
use vhdb.Catalog.Load.Sound.{Sound}
use vhdb.Catalog.Access.{same_prefix, title_matches, find_loop, find_text, find_titleid}

-- The text in the title field of record `i`.
abbrev pub title_at : List ℕ → Db → ℕ → List ℕ
title_at blob db i = until_nul (take 12 (drop (db.records + i * 160 + 80) blob))

-- A prefix of the text's length is the same, and the field ends there, exactly if the texts agree.
same_prefix-until_nul :
    (field text : List ℕ)
    → IsText text
    → length text < length field
    → same_prefix field text (length text) ≡ true
    → get_elem? field (length text) ≡ some 0
    → until_nul field ≡ text
unfolding same_prefix
same_prefix-until_nul [] text is_text le e stop = absurd (omega arith)
same_prefix-until_nul (x ∷ field) [] is_text le e stop = ground arith
same_prefix-until_nul (x ∷ field) (y ∷ text) is_text le e stop =
    ground (arith, is_text.0, same_prefix-until_nul field text is_text.1 (omega arith))

same_prefix-full :
    (field text : List ℕ)
    → IsText text
    → length text ≡ length field
    → same_prefix field text (length text) ≡ true
    → until_nul field ≡ text
unfolding same_prefix
same_prefix-full [] [] is_text le e = refl
same_prefix-full [] (y ∷ text) is_text le e = absurd (omega arith)
same_prefix-full (x ∷ field) [] is_text le e = absurd (omega arith)
same_prefix-full (x ∷ field) (y ∷ text) is_text le e =
    ground (arith, is_text.0, same_prefix-full field text is_text.1 (omega arith))

until_nul-same_prefix :
    (field text : List ℕ)
    → IsText text
    → until_nul field ≡ text
    → same_prefix field text (length text) ≡ true
unfolding same_prefix
until_nul-same_prefix [] [] is_text e = refl
until_nul-same_prefix [] (y ∷ text) is_text e = absurd (cc e)
until_nul-same_prefix (x ∷ field) [] is_text e = refl
until_nul-same_prefix (x ∷ field) (y ∷ text) is_text e =
    ground (arith, until_nul-same_prefix field text is_text.1)

until_nul-stops :
    (field text : List ℕ)
    → until_nul field ≡ text
    → length text < length field
    → get_elem? field (length text) ≡ some 0
until_nul-stops [] text e le = absurd (omega arith)
until_nul-stops (x ∷ field) [] e le = ground arith
until_nul-stops (x ∷ field) (y ∷ text) e le = ground (arith, until_nul-stops field text)

-- The test of `vhdb_find_titleid` on a field of 12 bytes decides whether its text is the one.
title_matches-decides :
    (field text : List ℕ)
    → IsText text
    → length field ≡ 12
    → length text ≤ 12
    → ((title_matches field text (length text) ≡ some true) × (until_nul field ≡ text))
      ⊎ ((title_matches field text (length text) ≡ some false) × (until_nul field ≢ text))
unfolding title_matches
title_matches-decides field text is_text lf lt =
    elim (Bool-cases (same_prefix field text (length text))) [
      | inr other ↦ inr (ground arith, λ e. cc (until_nul-same_prefix field text is_text e, other))
      | inl same ↦ elim (Bool-cases (length text == 12)) [
        | inl full ↦ inl (ground arith, same_prefix-full field text is_text (ground arith) same)
        | inr short ↦
            let le : length text < length field = ground arith in
            let (c, ec) = get_elem?-lt field (length text) le in
            elim (Bool-cases (c == 0)) [
              | inl nul ↦
                  inl
                    (ground arith, same_prefix-until_nul field text is_text le same (ground arith))
              | inr more ↦
                  inr (ground arith, λ e. absurd (ground (arith, until_nul-stops field text e le)))
            ]
      ]
    ]

-- What a search over the records `lo` to `hi` may answer: the first that carries the text, or
-- NULL if none does.
abbrev pub FirstWith : List ℕ → Db → List ℕ → ℕ → ℕ → Option (Option ℕ) → Type 0
FirstWith blob db text lo hi r =
    ((r ≡ some none) × ((j : ℕ) → lo ≤ j → j < hi → title_at blob db j ≢ text))
    ⊎ ((i : ℕ) × (r ≡ some (some (db.records + i * 160)))
        × (lo ≤ i)
        × (i < hi)
        × (title_at blob db i ≡ text)
        × ((j : ℕ) → lo ≤ j → j < i → title_at blob db j ≢ text))

module _ (blob : List ℕ) (db : Db) (text : List ℕ) (is_text : IsText text)
    (short : length text ≤ 12) where
  find_loop-FirstWith :
      (n i hi : ℕ)
      → i + n ≡ hi
      → db.records + hi * 160 ≤ length blob
      → FirstWith blob db text i hi (find_loop blob db text n i)
  unfolding find_loop
  find_loop-FirstWith zero i hi s fits = inl (refl, λ j p q. absurd (omega arith))
  find_loop-FirstWith (suc n) i hi s fits =
      let p = db.records + i * 160 + 80 in
      let field = take 12 (drop p blob) in
      let read : slice blob p 12 ≡ some field = slice-some blob p 12 (omega arith) in
      let twelve : length field ≡ 12 =
        omega (arith, length-take 12 (drop p blob), length-drop p blob) in
      elim (title_matches-decides field text is_text twelve short) [
        | inl (found, is) ↦
            inr
              (i, ground (arith, read), omega arith, omega arith, is, λ j a b. absurd (omega arith))
        | inr (skipped, other) ↦ elim (find_loop-FirstWith n (i + 1) hi (omega arith) fits) [
          | inl (r, missing) ↦ inl (
            ground (arith, read),
            λ j a b. elim (Bool-cases (j == i)) [
              | inl here ↦ λ e. other (ground arith)
              | inr later ↦ missing j (ground arith) b
            ],
          )
          | inr (k, r, a, b, is, before) ↦ inr (
            k,
            ground (arith, read),
            omega arith,
            b,
            is,
            λ j c d. elim (Bool-cases (j == i)) [
              | inl here ↦ λ e. other (ground arith)
              | inr later ↦ before j (ground arith) d
            ],
          )
        ]
      ]

-- On a sound catalog `vhdb_find_titleid` answers a title id of 1 to 12 characters with the first
-- record that carries it, and with NULL only if no record does. It reads within the file.
pub find_titleid-FirstWith :
    (db : Db) (s : Sound db) (text : List ℕ)
    → IsText text
    → 1 ≤ length text
    → length text ≤ 12
    → FirstWith s.bytes db text 0 db.count (find_titleid db (some text))
unfolding find_titleid find_text
find_titleid-FirstWith db s [] is_text one short = absurd (omega arith)
find_titleid-FirstWith db s (c ∷ cs) is_text one short =
    let blob = s.bytes in
    let text : List ℕ = c ∷ cs in
    let fits : db.records + db.count * 160 ≤ length blob = omega (
      arith, s.has_records, s.has_count, s.layout.records_at, s.layout.strings_at,
      s.layout.names_at, s.layout.dates_at, s.layout.ends,
    ) in
    let loop =
      find_loop-FirstWith blob db text is_text short db.count 0 db.count (omega arith) fits in
    subst (FirstWith blob db text 0 db.count) (sym (ground (arith, s.has_blob))) loop
