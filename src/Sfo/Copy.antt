-- ===== src/Sfo/Copy.antt =====
-- core/sfo.c, `copy_string`: a bounded copy that always ends in a NUL.
use vhdb.Base.{
  ℕ, zero, suc, ◌+◌, ◌-◌, ◌≤◌, ◌<◌, ◌==◌, ◌≡◌, refl, ap, ltb, if◌then◌else◌, List, [], ◌∷◌, ◌++◌,
  some, append_assoc, get_elem?, get_elem?-lt, length, length-append, set-append_length, take, drop,
  arith, Bool-cases, inl, inr, until_nul, text_of,
}
use vhdb.Sfo.{copy_loop, copy_string}

get_elem?-drop :
    (xs : List ℕ) (p : ℕ) {x : ℕ} → get_elem? xs p ≡ some x → drop p xs ≡ x ∷ drop (p + 1) xs
get_elem?-drop [] p e = cc
get_elem?-drop (y ∷ xs) zero e = ground arith
get_elem?-drop (y ∷ xs) (suc p) e = ground (arith, get_elem?-drop xs p e)

-- With `n` source bytes left and room for a NUL behind them, the rest of the array becomes their
-- text.
copy_loop-text :
    (bytes : List ℕ) (src n : ℕ) (before rest : List ℕ)
    → n < length rest
    → src + length before + n ≤ length bytes
    → (w : List ℕ) × (copy_loop bytes src n (length before) (before ++ rest) ≡ some (before ++ w))
      × (text_of w ≡ some (until_nul (take n (drop (src + length before) bytes))))
      × (length w ≡ length rest)
unfolding copy_loop text_of
copy_loop-text bytes src zero before [] room fits = absurd (omega arith)
copy_loop-text bytes src zero before (x ∷ rest) room fits =
    (0 ∷ rest, ap some (set-append_length before rest x 0), refl, refl)
copy_loop-text bytes src (suc n) before [] room fits = absurd (omega arith)
copy_loop-text bytes src (suc n) before (x ∷ rest) room fits =
    let p = src + length before in
    let (c, read) = get_elem?-lt bytes p (omega arith) in
    let next = get_elem?-drop bytes p read in
    elim (Bool-cases (c == 0)) [
      | inl nul ↦ (
        0 ∷ rest,
        ground (arith, read, set-append_length before rest x 0),
        ground (arith, next),
        refl,
      )
      | inr more ↦
          let long : length (before ++ (c ∷ [])) ≡ length before + 1 =
            omega (arith, length-append before (c ∷ [])) in
          let (w, copied, reads, same) =
            copy_loop-text bytes src n (before ++ (c ∷ [])) rest (omega arith) (omega arith) in
          (
            c ∷ w,
            ground (
              arith,
              read,
              set-append_length before rest x c,
              long,
              copied,
              append_assoc before (c ∷ []) rest,
              append_assoc before (c ∷ []) w,
            ),
            ground (arith, next, long, reads, regroup src (length before)),
            ap suc same,
          )
    ]
  where
    regroup : (a b : ℕ) → a + (b + 1) ≡ a + b + 1
    regroup a b = omega arith

-- The bytes that fit in front of the NUL.
abbrev pub clip : ℕ → ℕ → ℕ
clip dst_size n = if ltb (dst_size - 1) n then dst_size - 1 else n

-- `copy_string` fills a non-empty array with the text of the source's first bytes: as many as
-- were asked for and fit in front of the NUL, up to the first NUL among them. The source range
-- has to lie in the buffer.
pub copy_string_lem :
    (dst bytes : List ℕ) (src n : ℕ)
    → 1 ≤ length dst
    → src + n ≤ length bytes
    → (out : List ℕ) × (copy_string dst bytes src n ≡ some out)
      × (text_of out ≡ some (until_nul (take (clip (length dst) n) (drop src bytes))))
      × (length out ≡ length dst)
unfolding copy_string
copy_string_lem dst bytes src n pos fits =
    let (w, copied, reads, same) =
      copy_loop-text bytes src (clip (length dst) n) [] dst (ground arith) (ground arith) in
    let start : src + 0 ≡ src = omega arith in
    (w, ground (arith, copied), ground (arith, start, reads), same)
