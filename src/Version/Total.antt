-- ===== src/Version/Total.antt =====
-- core/status.c, `vhdb_version_compare`: its loop ends, and its numbers fit `unsigned long`.
use vhdb.Base.{
  ℕ, zero, suc, ◌+◌, ◌-◌, ◌*◌, ◌≤◌, ◌<◌, ◌≡◌, ◌≢◌, refl, ltb, if◌then◌else◌, Bool, true, false,
  ◌||◌, List, [], ◌∷◌, Option, none, some, length, arith, Option-cases, inl, inr,
}
use vhdb.Version.{
  Ver, unknown, Token, end, number, word, is_digit, is_alnum, skip_prefix, skip_separators,
  digits_value, skip_digits, skip_letters, token_at, next_token, verdict, is_number, compare_loop,
  compare_text, version_compare, version_compare_ptr,
}

skip_separators-le : (s : List ℕ) → length (skip_separators s) ≤ length s
unfolding skip_separators
skip_separators-le [] = omega arith
skip_separators-le (c ∷ cs) = ground (arith, skip_separators-le cs)

skip_digits-le : (s : List ℕ) → length (skip_digits s) ≤ length s
unfolding skip_digits
skip_digits-le [] = omega arith
skip_digits-le (c ∷ cs) = ground (arith, skip_digits-le cs)

skip_letters-le : (s : List ℕ) → length (skip_letters s) ≤ length s
unfolding skip_letters
skip_letters-le [] = omega arith
skip_letters-le (c ∷ cs) = ground (arith, skip_letters-le cs)

-- Behind the separators stands a letter or a digit, or the end.
skip_separators-alnum :
    (s : List ℕ) {c : ℕ} {cs : List ℕ} → skip_separators s ≡ c ∷ cs → is_alnum c ≡ true
unfolding skip_separators
skip_separators-alnum [] e = cc
skip_separators-alnum (x ∷ s) {c} {cs} e = ground (arith, skip_separators-alnum s {c = c} {cs = cs})

token_at-shorter :
    (s : List ℕ)
    → ((c : ℕ) (cs : List ℕ) → s ≡ c ∷ cs → is_alnum c ≡ true)
    → (token_at s).0 ≢ end
    → length (token_at s).1 < length s
unfolding token_at skip_digits skip_letters is_alnum
token_at-shorter [] start more = absurd (more refl)
token_at-shorter (c ∷ cs) start more =
    ground (arith, start c cs, skip_digits-le cs, skip_letters-le cs)

next_token-shorter : (s : List ℕ) → (next_token s).0 ≢ end → length (next_token s).1 < length s
unfolding next_token
next_token-shorter s more = omega (
  arith,
  token_at-shorter (skip_separators s) (λ c cs e. skip_separators-alnum s {c = c} {cs = cs} e) more,
  skip_separators-le s,
)

verdict-end : (saw : Bool) (tb : Token) → verdict saw end tb ≢ none
unfolding verdict
verdict-end saw end = ground arith
verdict-end saw (number n) = ground arith
verdict-end saw (word w) = ground arith

-- With fuel beyond the text's length the loop returns.
pub compare_loop-returns :
    (fuel : ℕ) (a b : List ℕ) (saw : Bool)
    → length a < fuel
    → (v : Ver) × (compare_loop fuel a b saw ≡ some v)
unfolding compare_loop
compare_loop-returns zero a b saw h = absurd (omega arith)
compare_loop-returns (suc fuel) a b saw h =
    let ta = next_token a in
    let tb = next_token b in
    elim (Option-cases (verdict saw ta.0 tb.0)) [
      | inr (v, decided) ↦ (v, ground (arith, decided))
      | inl more ↦
          let ne : ta.0 ≢ end = λ e. verdict-end saw tb.0 (rw e at more) in
          let (v, later) =
            compare_loop-returns fuel ta.1 tb.1 (saw || is_number ta.0)
              (omega (arith, next_token-shorter a ne)) in
          (v, ground (arith, more, later))
    ]

pub version_compare-some : (a b : List ℕ) → (v : Ver) × (version_compare a b ≡ some v)
unfolding version_compare compare_text
version_compare-some a b =
    let s = skip_prefix a in
    let (v, loop) = compare_loop-returns (suc (length s)) s (skip_prefix b) false (omega arith) in
    elim (Option-cases (version_compare a b)) [
      | inl out ↦ absurd (ground arith)
      | inr found ↦ found
    ]

-- `vhdb_version_compare` returns, for any two texts and for null pointers.
pub version_compare-returns :
    (installed catalogue : Option (List ℕ))
    → (v : Ver) × (version_compare_ptr installed catalogue ≡ some v)
unfolding version_compare_ptr
version_compare-returns none catalogue = (unknown, refl)
version_compare-returns (some a) none = (unknown, refl)
version_compare-returns (some a) (some b) = version_compare-some a b

digits_value-lt :
    (s : List ℕ) (value : ℕ) → value < 1_000_000_000 → digits_value value s < 1_000_000_000
unfolding digits_value is_digit
digits_value-lt [] value h = h
digits_value-lt (c ∷ cs) value h =
    ground
      (arith, digits_value-lt cs (if ltb value 100_000_000 then value * 10 + (c - b'0') else value))

-- Every number that `next_token` reads is below 1000000000, so that the arithmetic on a 32-bit
-- `unsigned long` never wraps around, however many digits there are.
next_token-lt : (s : List ℕ) {n : ℕ} → (next_token s).0 ≡ number n → n < 1_000_000_000
unfolding next_token token_at
next_token-lt s {n} e = go (skip_separators s) e
  where
    go : (s' : List ℕ) → (token_at s').0 ≡ number n → n < 1_000_000_000
    go [] e = cc
    go (c ∷ cs) e = ground (arith, digits_value-lt (c ∷ cs) 0)
