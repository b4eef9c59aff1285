-- ===== src/Installed/Writable.antt =====
-- core/installed.c: what a copy must be like to be kept as a line of text.
use vhdb.Base.{
  ℕ, ◌%◌, ◌<◌, ◌≤◌, ◌^◌, ◌+◌, ◌/◌, ◌≡◌, ◌⊎◌, inl, inr, refl, arith, Bool, true, false, List, [],
  ◌∷◌, ◌++◌, length-append, ◌*◌, length,
}
use vhdb.Base.Decimal.{
  IsInt, length-print_int, length-print_unsigned, Digits, print_int, print_unsigned,
  print_unsigned-Digits,
}
use vhdb.Base.Int.{ℤ, pos, negsuc}
use vhdb.Base.Lines.{Lacks, Lacks-append}
use vhdb.Status.{Installed}
use vhdb.Installed.Hash.{parse_hash, print_hash, digit, Bytes, parse_hash-print_hash}
use vhdb.Installed.Text.{no_hash, hash_text, entry_text}

-- No character of a field ends the field, the line or the text.
abbrev pub Plain : List ℕ → Type 0
Plain xs = Lacks 0 xs × Lacks b'\n' xs × Lacks b'\r' xs × Lacks b'|' xs

-- A hash of 16 bytes, which is zero where it is not known.
abbrev pub IsHash : Bool → List ℕ → Type 0
IsHash has hash = (length hash ≡ 16) × Bytes hash × ((has ≡ true) ⊎ (hash ≡ no_hash))

-- What a copy must be like to be written and read back: its texts fit their arrays and hold no
-- character of the format, and its hashes are known or zero.
pub record Writable (e : Installed) : Type 0 where
  pub id : e.id < 2 ^ 32
  pub titleid : Plain e.titleid
  pub titleid_fits : length e.titleid < 13
  pub version : Plain e.version
  pub version_fits : length e.version < 32
  pub hash : IsHash e.has_hash e.hash
  pub eboot : IsHash e.has_eboot e.eboot
  pub aux : IsHash e.has_aux e.aux
  pub console : IsInt e.from_console

abbrev pub AllWritable : List Installed → Type 0
AllWritable [] = Unit
AllWritable (e ∷ es) = Writable e × AllWritable es

Plain-append : (xs ys : List ℕ) → Plain xs → Plain ys → Plain (xs ++ ys)
Plain-append xs ys hx hy = (
  Lacks-append 0 xs ys hx.0 hy.0,
  Lacks-append b'\n' xs ys hx.1 hy.1,
  Lacks-append b'\r' xs ys hx.2 hy.2,
  Lacks-append b'|' xs ys hx.3 hy.3,
)

pub Plain-Digits : (xs : List ℕ) → Digits xs → Plain xs
Plain-Digits [] h = (tt, tt, tt, tt)
Plain-Digits (x ∷ xs) h =
    let rest = Plain-Digits xs h.1 in
    ((omega arith, rest.0), (omega arith, rest.1), (omega arith, rest.2), (omega arith, rest.3))

pub Plain-print_int : (z : ℤ) → Plain (print_int z)
unfolding print_int
Plain-print_int (pos n) = Plain-Digits (print_unsigned n) (print_unsigned-Digits n)
Plain-print_int (negsuc n) =
    let rest = Plain-Digits (print_unsigned (n + 1)) (print_unsigned-Digits (n + 1)) in
    ((omega arith, rest.0), (omega arith, rest.1), (omega arith, rest.2), (omega arith, rest.3))

digit_bounds : (n : ℕ) → n < 16 → (b'0' ≤ digit n) × (digit n ≤ b'f')
unfolding digit
digit_bounds n h = ground arith

Plain-print_hash : (xs : List ℕ) → Bytes xs → Plain (print_hash xs)
unfolding print_hash
Plain-print_hash [] h = (tt, tt, tt, tt)
Plain-print_hash (x ∷ xs) h =
    let high = digit_bounds (x / 16) (omega arith) in
    let low = digit_bounds (x % 16) (omega arith) in
    let rest = Plain-print_hash xs h.1 in
    (
      (omega arith, (omega arith, rest.0)),
      (omega arith, (omega arith, rest.1)),
      (omega arith, (omega arith, rest.2)),
      (omega arith, (omega arith, rest.3)),
    )

pub Plain-hash_text : (has : Bool) (hash : List ℕ) → IsHash has hash → Plain (hash_text has hash)
unfolding hash_text
Plain-hash_text true hash h = Plain-print_hash hash h.1
Plain-hash_text false hash h = (tt, tt, tt, tt)

-- The hash of a field that was printed.
pub parse_hash-hash_text :
    (has : Bool) (hash : List ℕ)
    → IsHash has hash
    → parse_hash no_hash (hash_text has hash) ≡ (hash, has)
unfolding hash_text parse_hash
parse_hash-hash_text true hash h = parse_hash-print_hash no_hash hash refl h.0 h.1
parse_hash-hash_text false hash (n, b, inl e) = absurd (ground arith)
parse_hash-hash_text false hash (n, b, inr e) = rw e refl

length-print_hash : (xs : List ℕ) → length (print_hash xs) ≡ length xs * 2
unfolding print_hash
length-print_hash [] = refl
length-print_hash (x ∷ xs) = omega (arith, length-print_hash xs)

length-hash_text : (has : Bool) (hash : List ℕ) → IsHash has hash → length (hash_text has hash) ≤ 32
unfolding hash_text
length-hash_text true hash h = omega (arith, length-print_hash hash, h.0)
length-hash_text false hash h = omega arith

-- A line fits the buffer of `vhdb_installed_load`.
pub length-entry_text : (e : Installed) → Writable e → length (entry_text e) < 511
unfolding entry_text
length-entry_text e w = omega (
  arith,
  length-append {0},
  length-print_unsigned e.id w.id,
  w.titleid_fits,
  w.version_fits,
  length-hash_text e.has_hash e.hash w.hash,
  length-print_int e.from_console w.console,
  length-hash_text e.has_eboot e.eboot w.eboot,
  length-hash_text e.has_aux e.aux w.aux,
)
