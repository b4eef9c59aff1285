-- ===== src/Installed/Hash.antt =====
-- core/installed.c: `hex_value`, `parse_hash`, and how `vhdb_installed_save` writes a hash.
use vhdb.Base.{
  ℕ, ◌+◌, ◌-◌, ◌*◌, ◌/◌, ◌%◌, ◌<◌, ◌≡◌, ◌==◌, ◌&&◌, refl, arith, leb, ltb, if◌then◌else◌, Bool,
  true, false, not, List, [], ◌∷◌, Option, none, some, length,
}

-- `hex_value`; `none` is its result -1.
unfoldable pub hex_value : ℕ → Option ℕ
hex_value c =
    if leb b'0' c && leb c b'9'
    then some (c - b'0')
    else if leb b'a' c && leb c b'f'
    then some (c - b'a' + 10)
    else if leb b'A' c && leb c b'F'
    then some (c - b'A' + 10)
    else none

-- The loop of `parse_hash`: the array, whose first bytes are written until a digit is wrong, and
-- the result. A digit is below 16, so that `|` is the sum.
unfoldable pub hash_loop : List ℕ → List ℕ → List ℕ × Bool
hash_loop out [] = (out, true)
hash_loop out (a ∷ []) = (out, true)
hash_loop [] (a ∷ (b ∷ text)) = ([], true)
hash_loop (o ∷ out) (a ∷ (b ∷ text)) =
    let rest = hash_loop out text in
    elim (hex_value a) [
      | none ↦ (o ∷ out, false)
      | some hi ↦ elim (hex_value b) [
        | none ↦ (o ∷ out, false)
        | some lo ↦ ((hi * 16 + lo) ∷ rest.0, rest.1)
      ]
    ]

-- `parse_hash` into an array of 16 bytes.
unfoldable pub parse_hash : List ℕ → List ℕ → List ℕ × Bool
parse_hash out text = if not (length text == 32) then (out, false) else hash_loop out text

-- One hexadecimal digit of `%02x`, and the loop that writes the bytes with it.
unfoldable pub digit : ℕ → ℕ
digit n = if ltb n 10 then b'0' + n else b'a' + (n - 10)

unfoldable pub print_hash : List ℕ → List ℕ
print_hash [] = []
print_hash (x ∷ xs) = digit (x / 16) ∷ digit (x % 16) ∷ print_hash xs

abbrev pub Bytes : List ℕ → Type 0
Bytes [] = Unit
Bytes (x ∷ xs) = (x < 256) × Bytes xs

hex_value-digit : (n : ℕ) → n < 16 → hex_value (digit n) ≡ some n
unfolding hex_value digit
hex_value-digit n h = ground arith

length-print_hash : (xs : List ℕ) → length (print_hash xs) ≡ length xs * 2
unfolding print_hash
length-print_hash [] = refl
length-print_hash (x ∷ xs) = omega (arith, length-print_hash xs)

hash_loop-print_hash :
    (out xs : List ℕ)
    → length out ≡ length xs
    → Bytes xs
    → hash_loop out (print_hash xs) ≡ (xs, true)
unfolding hash_loop print_hash
hash_loop-print_hash [] [] e h = refl
hash_loop-print_hash [] (x ∷ xs) e h = absurd (omega arith)
hash_loop-print_hash (o ∷ out) [] e h = absurd (omega arith)
hash_loop-print_hash (o ∷ out) (x ∷ xs) e (hx, h) =
    let high = hex_value-digit (x / 16) (omega arith) in
    let low = hex_value-digit (x % 16) (omega arith) in
    let rest = hash_loop-print_hash out xs (omega arith) h in ground arith

-- A hash of 16 bytes that `vhdb_installed_save` writes is read back by `parse_hash`, whatever the
-- array held before.
pub parse_hash-print_hash :
    (out xs : List ℕ)
    → length out ≡ 16
    → length xs ≡ 16
    → Bytes xs
    → parse_hash out (print_hash xs) ≡ (xs, true)
unfolding parse_hash
parse_hash-print_hash out xs eo ex h =
    let all = length-print_hash xs in
    let back = hash_loop-print_hash out xs (omega arith) h in ground arith
