-- ===== src/Version/Padding.antt =====
-- core/status.c, `vhdb_version_compare`: a further number of 0 ends the comparison.
use vhdb.Base.{ℕ, ◌≤◌, ◌≡◌, List, [], ◌∷◌, some, equal, arith}
use vhdb.Version.{
  same, is_digit, is_alnum, skip_prefix, skip_separators, digits_value, skip_digits, token_at,
  next_token, is_blank_version, verdict, is_number, compare_loop, compare_text, version_compare,
}

-- A version that continues the installed one, a single digit from 1 to 9, by ".0." is taken for
-- the same whatever comes behind: 1 and 1.0.5 are no update.
pub version_compare_zero_hides :
    (d : ℕ) (rest : List ℕ)
    → b'1' ≤ d
    → d ≤ b'9'
    → version_compare (d ∷ []) (d ∷ b'.' ∷ b'0' ∷ b'.' ∷ rest) ≡ some same
unfolding version_compare compare_text compare_loop verdict is_number next_token token_at
    skip_separators digits_value skip_digits skip_prefix is_digit is_alnum is_blank_version equal
version_compare_zero_hides d rest lo hi = ground arith
