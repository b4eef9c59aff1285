-- ===== src/Version/Order.antt =====
-- core/status.c, `vhdb_version_compare`: the two sides of the comparison are treated alike.
use vhdb.Base.{
  ℕ, zero, suc, ◌+◌, ◌≡◌, refl, Bool, false, ◌||◌, List, [], Option, none, some, length, equal,
  equal_iff, arith, Bool-cases, Option-cases, inl, inr,
}
use vhdb.Version.{
  Ver, same, older, newer, unknown, Token, end, number, word, skip_prefix, next_token,
  is_blank_version, verdict, is_number, compare_loop, compare_text, version_compare,
}
use vhdb.Version.Total.{compare_loop-returns}

-- The verdict with the two sides exchanged.
abbrev pub flip : Ver → Ver
flip same = same
flip older = newer
flip newer = older
flip unknown = unknown

abbrev flip? : Option Ver → Option Ver
flip? none = none
flip? (some v) = some (flip v)

equal_comm : (a b : List ℕ) → equal a b ≡ equal b a
equal_comm a b = ground (arith, equal_iff a b, equal_iff b a)

verdict-flip : (saw : Bool) (ta tb : Token) → verdict saw tb ta ≡ flip? (verdict saw ta tb)
unfolding verdict
verdict-flip saw end end = ground arith
verdict-flip saw end (number n) = ground arith
verdict-flip saw end (word w) = refl
verdict-flip saw (number n) end = ground arith
verdict-flip saw (number n) (number m) = ground arith
verdict-flip saw (number n) (word w) = refl
verdict-flip saw (word w) end = refl
verdict-flip saw (word w) (number n) = refl
verdict-flip saw (word v) (word w) = ground (arith, equal_comm v w)

-- The loop goes on only on two numbers or on two words.
verdict-alike :
    (saw : Bool) (ta tb : Token) → verdict saw ta tb ≡ none → is_number ta ≡ is_number tb
unfolding verdict is_number
verdict-alike saw end end e = refl
verdict-alike saw end (number n) e = ground arith
verdict-alike saw end (word w) e = refl
verdict-alike saw (number n) end e = ground arith
verdict-alike saw (number n) (number m) e = refl
verdict-alike saw (number n) (word w) e = cc
verdict-alike saw (word w) end e = refl
verdict-alike saw (word w) (number n) e = cc
verdict-alike saw (word v) (word w) e = refl

compare_loop-flip :
    (fuel : ℕ) (a b : List ℕ) (saw : Bool)
    → compare_loop fuel b a saw ≡ flip? (compare_loop fuel a b saw)
unfolding compare_loop
compare_loop-flip zero a b saw = refl
compare_loop-flip (suc fuel) a b saw =
    let ta = next_token a in
    let tb = next_token b in
    elim (Option-cases (verdict saw ta.0 tb.0)) [
      | inr (v, decided) ↦ ground (arith, decided, verdict-flip saw ta.0 tb.0)
      | inl more ↦ ground (
        arith,
        more,
        verdict-flip saw ta.0 tb.0,
        verdict-alike saw ta.0 tb.0,
        compare_loop-flip fuel ta.1 tb.1 (saw || is_number ta.0),
      )
    ]

-- More fuel does not change a result.
compare_loop-more :
    (fuel extra : ℕ) (a b : List ℕ) (saw : Bool) {v : Ver}
    → compare_loop fuel a b saw ≡ some v
    → compare_loop (fuel + extra) a b saw ≡ some v
unfolding compare_loop
compare_loop-more zero extra a b saw e = cc
compare_loop-more (suc fuel) extra a b saw {v} e =
    let ta = next_token a in
    let tb = next_token b in
    let s : suc fuel + extra ≡ suc (fuel + extra) = omega arith in
    rw s (elim (Option-cases (verdict saw ta.0 tb.0)) [
      | inr (w, decided) ↦ ground (arith, decided)
      | inl more ↦
          ground
            (arith, more, compare_loop-more fuel extra ta.1 tb.1 (saw || is_number ta.0) {v = v})
    ])

compare_text-flip :
    (a b : List ℕ) {v : Ver} → compare_text a b ≡ some v → compare_text b a ≡ some (flip v)
unfolding compare_text
compare_text-flip a b {v} e =
    let s = skip_prefix a in
    let t = skip_prefix b in
    let (w, back) = compare_loop-returns (suc (length t)) t s false (omega arith) in
    let m = compare_loop-more (suc (length s)) (length t) s t false e in
    let n = compare_loop-more (suc (length t)) (length s) t s false back in
    let fuels : suc (length t) + length s ≡ suc (length s) + length t = omega arith in
    ground (arith, m, n, back, fuels, compare_loop-flip (suc (length s) + length t) s t false)

-- Exchanging the two versions exchanges "older" and "newer", and keeps "same" and "unknown".
pub version_compare-flip :
    (a b : List ℕ) (v : Ver) → version_compare a b ≡ some v → version_compare b a ≡ some (flip v)
unfolding version_compare
version_compare-flip a b v e = elim (Bool-cases (equal a [] || equal b [])) [
  | inl bare ↦ ground arith
  | inr full ↦ elim (Bool-cases (is_blank_version a || is_blank_version b)) [
    | inl blank ↦ ground arith
    | inr named ↦ ground (arith, equal_comm a b, compare_text-flip a b {v = v})
  ]
]
