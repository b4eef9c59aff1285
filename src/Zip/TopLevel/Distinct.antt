-- ===== src/Zip/TopLevel/Distinct.antt =====
-- core/zip.c: what `vhdb_zip_top_level` keeps in its array.
use vhdb.Base.{
  ℕ, zero, suc, ◌+◌, ◌-◌, ◌≤◌, ◌<◌, leb, subst, ◌≡◌, ◌≢◌, ◌⊎◌, refl, sym, arith, true, false, List,
  [], ◌∷◌, ◌++◌, none, some, length, equal, equal_iff, ltb, if◌then◌else◌, Bool-cases, Option-cases,
  inl, inr, slice, until_nul,
}
use vhdb.Zip.{Host, tail_size, read_u16, begins_at, behind, find_marker, end_at}
use vhdb.Zip.TopLevel.{
  Tops, top_of, is_known, keep, add_name, names_loop, top_directory, top_tail, top_sized, top_level,
}

-- A text is none of a list's, and the texts of a list differ.
abbrev pub Differs : List ℕ → List (List ℕ) → Type 0
Differs top [] = Unit
Differs top (x ∷ xs) = (x ≢ top) × Differs top xs

abbrev pub Distinct : List (List ℕ) → Type 0
Distinct [] = Unit
Distinct (x ∷ xs) = Differs x xs × Distinct xs

-- What holds of the array after each name: its texts differ, they are at most `limit` and at most
-- as many as were found, and one of the two exactly.
pub record Kept (limit : ℕ) (tops : Tops) : Type 0 where
  pub distinct : Distinct tops.names
  pub room : length tops.names ≤ limit
  pub shown : length tops.names ≤ tops.found
  pub full : (length tops.names ≡ tops.found) ⊎ (length tops.names ≡ limit)

is_known-Differs :
    (names : List (List ℕ)) (n : ℕ) (top : List ℕ)
    → length names ≤ n
    → is_known names n top ≡ some false
    → Differs top names
unfolding is_known
is_known-Differs [] n top h e = tt
is_known-Differs (x ∷ xs) zero top h e = absurd (ground arith)
is_known-Differs (x ∷ xs) (suc n) top h e = elim (Bool-cases (equal x top)) [
  | inl same ↦ absurd (ground arith)
  | inr other ↦ (
    λ eq. absurd (ground (arith, (equal_iff x top).1 eq)),
    is_known-Differs xs n top (ground arith) (ground arith),
  )
]

Differs-append :
    (a top : List ℕ) (xs : List (List ℕ)) → Differs a xs → a ≢ top → Differs a (xs ++ (top ∷ []))
Differs-append a top [] d ne = (λ e. ne (sym e), tt)
Differs-append a top (x ∷ xs) (nx, d) ne = (nx, Differs-append a top xs d ne)

Distinct-append :
    (top : List ℕ) (xs : List (List ℕ)) → Distinct xs → Differs top xs → Distinct (xs ++ (top ∷ []))
Distinct-append top [] d new = (tt, tt)
Distinct-append top (x ∷ xs) (dx, d) (ne, new) =
    (Differs-append x top xs dx ne, Distinct-append top xs d new)

length-append_one : (xs : List (List ℕ)) (top : List ℕ) → length (xs ++ (top ∷ [])) ≡ length xs + 1
length-append_one [] top = refl
length-append_one (x ∷ xs) top = ground (arith, length-append_one xs top)

keep-Kept :
    (limit : ℕ) (tops : Tops) (top : List ℕ)
    → Kept limit tops
    → Differs top tops.names
    → Kept limit (keep limit tops top)
unfolding keep
keep-Kept limit tops top kept new = elim (Bool-cases (ltb tops.found limit)) [
  | inl e ↦
      let longer = length-append_one tops.names top in
      let shown = kept.shown in
      let full = kept.full in
      rw e (record {
        distinct = Distinct-append top tops.names kept.distinct new;
        room = ground arith;
        shown = ground arith;
        full = ground (arith, kept.full);
      })
  | inr e ↦ rw e (record {
    distinct = kept.distinct;
    room = kept.room;
    shown = ground (arith, kept.shown);
    full = ground (arith, kept.full, kept.room, kept.shown);
  })
]

add_name-Kept :
    (limit : ℕ) (tops tops' : Tops) (top : List ℕ)
    → Kept limit tops
    → add_name limit tops top ≡ some tops'
    → Kept limit tops'
unfolding add_name
add_name-Kept limit tops tops' [] kept e = subst (Kept limit) (ground arith) kept
add_name-Kept limit tops tops' (c ∷ cs) kept e =
    elim (Option-cases (is_known tops.names tops.found (c ∷ cs))) [
      | inl out ↦ absurd (ground arith)
      | inr (true, known) ↦ subst (Kept limit) (ground arith) kept
      | inr (false, fresh) ↦ subst (Kept limit) (ground arith) (
          keep-Kept limit tops (c ∷ cs) kept
            (is_known-Differs tops.names tops.found (c ∷ cs) kept.shown fresh))
    ]

-- A step of the loop: it ends, or it adds a name and goes on.
names_loop-Kept :
    (limit : ℕ) (directory : List ℕ) (size n position : ℕ) (tops tops' : Tops)
    → Kept limit tops
    → names_loop limit directory size n position tops ≡ some tops'
    → Kept limit tops'
unfolding names_loop
names_loop-Kept limit directory size zero position tops tops' kept e =
    subst (Kept limit) (ground arith) kept
names_loop-Kept limit directory size (suc n) position tops tops' kept e =
    elim (Option-cases (begins_at directory size position)) [
      | inl out ↦ absurd (ground arith)
      | inr (false, ends) ↦ subst (Kept limit) (ground arith) kept
      | inr (true, begins) ↦ elim (Option-cases (read_u16 directory (position + 28))) [
        | inl out ↦ absurd (ground arith)
        | inr (name, en) ↦ elim (Option-cases (read_u16 directory (position + 30))) [
          | inl out ↦ absurd (ground arith)
          | inr (extra, ex) ↦ elim (Option-cases (read_u16 directory (position + 32))) [
            | inl out ↦ absurd (ground arith)
            | inr (comment, ec) ↦ elim (Bool-cases (leb 256 name)) [
              | inl long ↦ subst (Kept limit) (ground arith) kept
              | inr short ↦ elim (Option-cases (slice directory (position + 46) name)) [
                | inl out ↦ absurd (ground arith)
                | inr (bytes, eb) ↦
                    elim (Option-cases (add_name limit tops (top_of 63 (until_nul bytes)))) [
                      | inl out ↦ absurd (ground arith)
                      | inr (next, ea) ↦
                          names_loop-Kept limit directory size n
                            (behind name extra comment position) next tops'
                            (add_name-Kept limit tops next (top_of 63 (until_nul bytes)) kept ea)
                            (ground arith)
                    ]
              ]
            ]
          ]
        ]
      ]
    ]

-- When `vhdb_zip_top_level` returns a count and makes no read outside its buffers, the names in
-- the array differ, and they are as many as were found, or `limit` if more were found.
pub top_level-Kept :
    (host : Host) (limit : ℕ) (tops : Tops)
    → top_level host limit ≡ some (some tops)
    → Kept limit tops
unfolding top_level top_sized top_tail top_directory
top_level-Kept host limit tops e = elim (Option-cases host.open_archive) [
  | inl closed ↦ absurd (ground arith)
  | inr (archive, ea) ↦ elim (Option-cases archive.size) [
    | inl bad ↦ absurd (ground arith)
    | inr (size, es) ↦
        let tail_length = if ltb size tail_size then size else tail_size in
        let tail = archive.read (size - tail_length) tail_length in
        elim (Option-cases (find_marker tail (length tail - 21))) [
          | inl out ↦ absurd (ground arith)
          | inr (none, missing) ↦ absurd (ground arith)
          | inr (some marker, em) ↦ elim (Option-cases (end_at tail marker)) [
            | inl out ↦ absurd (ground arith)
            | inr (found, ef) ↦
                names_loop-Kept limit (archive.read found.directory_offset found.directory_size)
                  found.directory_size found.count 0 (record { names = []; found = 0 }) tops
                  (record {
                    distinct = tt;
                    room = ground arith;
                    shown = ground arith;
                    full = inl refl;
                  })
                  (ground arith)
          ]
        ]
  ]
]

is_known-outside :
    (names : List (List ℕ)) (n : ℕ) (top : List ℕ)
    → length names < n
    → Differs top names
    → is_known names n top ≡ none
unfolding is_known
is_known-outside names zero top h d = absurd (ground arith)
is_known-outside [] (suc n) top h d = refl
is_known-outside (x ∷ xs) (suc n) top h (ne, d) =
    let later = is_known-outside xs n top (ground arith) d in
    elim (Bool-cases (equal x top)) [
      | inl same ↦ absurd (ne ((equal_iff x top).0 same))
      | inr other ↦ ground arith
    ]

-- Once more names were found than the array holds, the next name that is not in it is compared
-- with what lies behind the array: a read outside it.
pub add_name-outside :
    (limit : ℕ) (tops : Tops) (top : List ℕ)
    → length tops.names < tops.found
    → top ≢ []
    → Differs top tops.names
    → add_name limit tops top ≡ none
unfolding add_name
add_name-outside limit tops [] h ne d = absurd (ne refl)
add_name-outside limit tops (c ∷ cs) h ne d =
    let out = is_known-outside tops.names tops.found (c ∷ cs) h d in ground arith
