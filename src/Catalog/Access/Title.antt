-- ===== src/Catalog/Access/Title.antt =====
-- core/vhdb.c, `vhdb_titleid`: the title id as a text of at most 12 bytes.
use vhdb.Base.{
  ℕ, suc, ◌+◌, ◌≤◌, ◌<◌, ◌==◌, ◌≡◌, refl, ap, true, false, List, [], ◌∷◌, ◌++◌, some, append_assoc,
  length, length-append, set-append_length, arith, Bool-cases, inl, inr, until_nul, text_of,
}
use vhdb.Catalog.{Entry}
use vhdb.Catalog.Access.{copy_title, titleid}

-- From index `length before` on the buffer becomes the text of the bytes left.
copy_title-text :
    (cs before rest : List ℕ)
    → length cs < length rest
    → (w : List ℕ) × (copy_title cs (length before) (before ++ rest) ≡ before ++ w)
      × (text_of w ≡ some (until_nul cs))
      × (length w ≡ length rest)
unfolding copy_title text_of
copy_title-text cs before [] h = absurd (omega arith)
copy_title-text [] before (x ∷ rest) h = (0 ∷ rest, set-append_length before rest x 0, refl, refl)
copy_title-text (c ∷ cs) before (x ∷ rest) h = elim (Bool-cases (c == 0)) [
  | inl nul ↦ (c ∷ rest, ground (arith, set-append_length before rest x c), ground arith, refl)
  | inr more ↦
      let (w, copied, reads, same) = copy_title-text cs (before ++ (c ∷ [])) rest (omega arith) in
      let long : length (before ++ (c ∷ [])) ≡ length before + 1 =
        omega (arith, length-append before (c ∷ [])) in
      (
        c ∷ w,
        ground (
          arith,
          set-append_length before rest x c,
          long,
          copied,
          append_assoc before (c ∷ []) rest,
          append_assoc before (c ∷ []) w,
        ),
        ground (arith, reads),
        ap suc same,
      )
]

-- Into a buffer of at least 13 bytes `vhdb_titleid` writes the title id as a text ending in NUL:
-- the field's bytes before its first NUL, or all 12. A smaller buffer it leaves alone.
titleid_lem :
    (rec : Entry) (out : List ℕ)
    → length rec.titleid ≡ 12
    → ((13 ≤ length out)
        → (text_of (titleid rec out).0 ≡ some (until_nul rec.titleid))
          × ((titleid rec out).1 ≡ true)
          × (length (titleid rec out).0 ≡ length out))
      × (length out < 13 → titleid rec out ≡ (out, false))
unfolding titleid
titleid_lem rec out twelve = (
  (λ room.
      let (w, copied, reads, same) = copy_title-text rec.titleid [] out (omega arith) in
      (ground (arith, copied, reads), ground arith, ground (arith, copied, same))),
  λ tight. ground arith,
)
