-- ===== src/Version.antt =====
-- core/status.c: the comparison of version texts, `vhdb_version_compare` and its helpers.
pub mod Total
pub mod Order
pub mod Padding
use vhdb.Base.{
  ℕ, zero, suc, ◌+◌, ◌-◌, ◌*◌, ◌==◌, leb, ltb, if◌then◌else◌, Bool, true, false, not, ◌&&◌, ◌||◌,
  List, [], ◌∷◌, ◌++◌, Option, none, some, length, equal, take,
}

-- `VHDB_VER_*`
pub data Ver : Type 0 where
  same older newer unknown : Ver

-- `isdigit`, `isalpha`, `isalnum` and `tolower` of the C locale.
unfoldable pub is_digit : ℕ → Bool
is_digit c = leb b'0' c && leb c b'9'

unfoldable pub is_alpha : ℕ → Bool
is_alpha c = leb b'a' c && leb c b'z' || leb b'A' c && leb c b'Z'

unfoldable pub is_alnum : ℕ → Bool
unfolding is_digit is_alpha
is_alnum c = is_digit c || is_alpha c

unfoldable pub to_lower : ℕ → ℕ
to_lower c = if leb b'A' c && leb c b'Z' then c + 32 else c

-- The first character that a pointer shows: 0 at the end of the text.
abbrev pub first : List ℕ → ℕ
first [] = 0
first (c ∷ cs) = c

abbrev pub rest_of : List ℕ → List ℕ
rest_of [] = []
rest_of (c ∷ cs) = cs

unfoldable pub skip_blanks : List ℕ → List ℕ
skip_blanks [] = []
skip_blanks (c ∷ cs) = if c == b' ' || c == b'\t' then skip_blanks cs else c ∷ cs

-- What follows a leading `v` or `v.`, if that is a digit.
unfoldable pub after_v : List ℕ → List ℕ → List ℕ
unfolding is_digit
after_v s p =
    let p' = if first p == b'.' then rest_of p else p in if is_digit (first p') then p' else s

unfoldable pub strip_v : List ℕ → List ℕ
unfolding after_v
strip_v s = if first s == b'v' || first s == b'V' then after_v s (rest_of s) else s

-- `skip_prefix`
unfoldable pub skip_prefix : List ℕ → List ℕ
unfolding skip_blanks strip_v
skip_prefix s = strip_v (skip_blanks s)

-- The three results of `next_token`, 0, 1 and 2, with what it stores.
pub data Token : Type 0 where
  end : Token
  number : ℕ → Token
  word : List ℕ → Token

unfoldable pub skip_separators : List ℕ → List ℕ
skip_separators [] = []
skip_separators (c ∷ cs) = if is_alnum c then c ∷ cs else skip_separators cs

-- The digits: the value stops growing once it has reached 100000000.
unfoldable pub digits_value : ℕ → List ℕ → ℕ
digits_value value [] = value
digits_value value (c ∷ cs) =
    if is_digit c
    then digits_value (if ltb value 100_000_000 then value * 10 + (c - b'0') else value) cs
    else value

unfoldable pub skip_digits : List ℕ → List ℕ
skip_digits [] = []
skip_digits (c ∷ cs) = if is_digit c then skip_digits cs else c ∷ cs

-- The letters, in lower case; the array of 32 keeps the first 31.
unfoldable pub letters : List ℕ → List ℕ
letters [] = []
letters (c ∷ cs) = if is_alpha c then to_lower c ∷ letters cs else []

unfoldable pub skip_letters : List ℕ → List ℕ
skip_letters [] = []
skip_letters (c ∷ cs) = if is_alpha c then skip_letters cs else c ∷ cs

-- From the first character that is a letter or a digit.
unfoldable pub token_at : List ℕ → Token × List ℕ
token_at [] = (end, [])
token_at (c ∷ cs) =
    if is_digit c
    then (number (digits_value 0 (c ∷ cs)), skip_digits (c ∷ cs))
    else (word (take 31 (letters (c ∷ cs))), skip_letters (c ∷ cs))

-- `next_token`: the token, and the cursor behind it.
unfoldable pub next_token : List ℕ → Token × List ℕ
next_token s = token_at (skip_separators s)

-- `is_blank_version`
unfoldable pub is_blank_version : List ℕ → Bool
is_blank_version [] = true
is_blank_version (c ∷ cs) =
    let rest = is_blank_version cs in
    if is_alpha c && not (c == b'v') && not (c == b'V')
    then false
    else if is_digit c && not (c == b'0')
    then false
    else rest

-- What the loop of `vhdb_version_compare` returns on two tokens; `none` is to go on.
unfoldable pub verdict : Bool → Token → Token → Option Ver
verdict saw end end = some (if saw then same else unknown)
verdict saw end (number nb) = some (if ltb 0 nb then newer else same)
verdict saw end (word wb) = some unknown
verdict saw (number na) end = some (if ltb 0 na then older else same)
verdict saw (word wa) end = some unknown
verdict saw (number na) (number nb) =
    if ltb na nb then some newer else if ltb nb na then some older else none
verdict saw (number na) (word wb) = some unknown
verdict saw (word wa) (number nb) = some unknown
verdict saw (word wa) (word wb) = if equal wa wb then none else some unknown

unfoldable pub is_number : Token → Bool
is_number (number n) = true
is_number end = false
is_number (word w) = false

-- The loop, on fuel; `none` means that the fuel ran out.
unfoldable pub compare_loop : ℕ → List ℕ → List ℕ → Bool → Option Ver
compare_loop zero a b saw = none
compare_loop (suc fuel) a b saw =
    let ta = next_token a in
    let tb = next_token b in
    let rest = compare_loop fuel ta.1 tb.1 (saw || is_number ta.0) in
    elim (verdict saw ta.0 tb.0) [ some v ↦ some v | none ↦ rest ]

-- From the loop on; a round that goes on moves both cursors, so that the length is fuel enough.
unfoldable pub compare_text : List ℕ → List ℕ → Option Ver
compare_text installed catalogue =
    let a = skip_prefix installed in compare_loop (suc (length a)) a (skip_prefix catalogue) false

-- `vhdb_version_compare` of two texts.
unfoldable pub version_compare : List ℕ → List ℕ → Option Ver
version_compare installed catalogue =
    if equal installed [] || equal catalogue []
    then some unknown
    else if is_blank_version installed || is_blank_version catalogue
    then some unknown
    else if equal installed catalogue
    then some same
    else compare_text installed catalogue

-- The same of two pointers that may be NULL.
pub version_compare_ptr : Option (List ℕ) → Option (List ℕ) → Option Ver
version_compare_ptr (some installed) (some catalogue) = version_compare installed catalogue
version_compare_ptr none _ = some unknown
version_compare_ptr (some installed) none = some unknown
