-- ===== src/Base/Decimal.antt =====
-- Numbers in decimal: `%u` and `%d` of `fprintf`, `strtoul` and `atoi` of the C library.
use Prim.Native.Nat.{ℕ, zero, suc, ◌+◌, ◌-◌, ◌*◌, ◌/◌, ◌%◌, ◌^◌, ◌≤◌, ◌<◌}
use mathlib.Core.Path.{◌≡◌, refl, ap, ◌∙◌}
use mathlib.Core.Logic.{inl, inr}
use mathlib.Core.Bool.{◌||◌, ◌&&◌}
use mathlib.Core.List.{List, [], ◌∷◌, ◌++◌}
use native.Mathlib.Omega.{arith, pow_step}
use vhdb.Base.Tests.{ltb→lt, le→leb, ◌==◌, ltb, leb, if◌then◌else◌, Bool-cases}
use vhdb.Base.Lists.{length, length-append}
use vhdb.Base.Int.{ℤ, pos, negsuc}

-- The digits of a number, on fuel: one more than the number suffices.
unfoldable pub digits_loop : ℕ → ℕ → List ℕ
digits_loop zero n = []
digits_loop (suc fuel) n =
    let more = digits_loop fuel (n / 10) in
    if ltb n 10 then (b'0' + n) ∷ [] else more ++ ((b'0' + n % 10) ∷ [])

unfoldable pub print_unsigned : ℕ → List ℕ
print_unsigned n = digits_loop (suc n) n

unfoldable pub print_int : ℤ → List ℕ
print_int (pos n) = print_unsigned n
print_int (negsuc n) = b'-' ∷ print_unsigned (n + 1)

-- The value of the digits that a text begins with, behind digits of a value.
unfoldable pub digits_from : ℕ → List ℕ → ℕ
digits_from value [] = value
digits_from value (c ∷ cs) =
    if leb b'0' c && leb c b'9' then digits_from (value * 10 + (c - b'0')) cs else value

-- `isspace`
unfoldable pub skip_space : List ℕ → List ℕ
skip_space [] = []
skip_space (c ∷ cs) = if c == b' ' || leb 9 c && leb c 13 then skip_space cs else c ∷ cs

abbrev negated : ℕ → ℤ
negated zero = pos 0
negated (suc n) = negsuc n

-- `strtol` with base 10, behind the space, as an integer without bounds.
unfoldable pub read_sign : List ℕ → ℤ
unfolding digits_from
read_sign [] = pos 0
read_sign (c ∷ cs) =
    if c == b'-'
    then negated (digits_from 0 cs)
    else pos (digits_from 0 (if c == b'+' then cs else c ∷ cs))

-- `atoi`, where the value fits an `int`; C leaves the other values open.
unfoldable pub read_int : List ℕ → ℤ
read_int text = read_sign (skip_space text)

-- The value of `strtoul` for an integer, where `max` is the largest `unsigned long`.
unfoldable pub unsigned_of : ℕ → ℤ → ℕ
unsigned_of max (pos n) = if leb n max then n else max
unsigned_of max (negsuc n) = if leb (n + 1) max then max - n else max

-- `strtoul` with base 10.
unfoldable pub read_unsigned : ℕ → List ℕ → ℕ
read_unsigned max text = unsigned_of max (read_int text)

abbrev pub IsDigit : ℕ → Type 0
IsDigit c = (b'0' ≤ c) × (c ≤ b'9')

abbrev pub Digits : List ℕ → Type 0
Digits [] = Unit
Digits (c ∷ cs) = IsDigit c × Digits cs

Digits-append : (xs ys : List ℕ) → Digits xs → Digits ys → Digits (xs ++ ys)
Digits-append [] ys hx hy = hy
Digits-append (x ∷ xs) ys hx hy = (hx.0, Digits-append xs ys hx.1 hy)

digits_loop-Digits : (fuel n : ℕ) → Digits (digits_loop fuel n)
unfolding digits_loop
digits_loop-Digits zero n = tt
digits_loop-Digits (suc fuel) n = elim (Bool-cases (ltb n 10)) [
  | inl e ↦ rw e ((omega arith, ground arith), tt)
  | inr e ↦ rw e (
      Digits-append (digits_loop fuel (n / 10)) ((b'0' + n % 10) ∷ [])
        (digits_loop-Digits fuel (n / 10)) ((omega arith, omega arith), tt))
]

pub print_unsigned-Digits : (n : ℕ) → Digits (print_unsigned n)
unfolding print_unsigned
print_unsigned-Digits n = digits_loop-Digits (suc n) n

digits_from-append :
    (value d : ℕ) (xs : List ℕ)
    → Digits xs
    → d < 10
    → digits_from value (xs ++ ((b'0' + d) ∷ [])) ≡ digits_from value xs * 10 + d
unfolding digits_from
digits_from-append value d [] h hd = ground arith
digits_from-append value d (x ∷ xs) h hd =
    ground (arith, digits_from-append (value * 10 + (x - b'0')) d xs h.1 hd)

digits_from-digits_loop : (fuel n : ℕ) → n < fuel → digits_from 0 (digits_loop fuel n) ≡ n
unfolding digits_loop digits_from
digits_from-digits_loop zero n h = absurd (omega arith)
digits_from-digits_loop (suc fuel) n h = elim (Bool-cases (ltb n 10)) [
  | inl e ↦ rw e (ground (arith, digits_from-append 0 n [] tt (ltb→lt n 10 e)))
  | inr e ↦ rw e (
      omega (
        arith,
        digits_from-append 0 (n % 10) (digits_loop fuel (n / 10)) (digits_loop-Digits fuel (n / 10))
            (omega arith),
        digits_from-digits_loop fuel (n / 10) (ground arith),
      ))
]

read_int-Digits : (xs : List ℕ) → Digits xs → read_int xs ≡ pos (digits_from 0 xs)
unfolding read_int read_sign skip_space
read_int-Digits [] h = refl
read_int-Digits (x ∷ xs) h = ground arith

-- A printed number is read back.
pub read_int-print_int : (z : ℤ) → read_int (print_int z) ≡ z
unfolding read_int print_int print_unsigned read_sign skip_space
read_int-print_int (pos n) =
    read_int-Digits (print_unsigned n) (print_unsigned-Digits n)
    ∙ ap pos (digits_from-digits_loop (suc n) n (omega arith))
read_int-print_int (negsuc n) =
    let next : n + 1 ≡ suc n = omega arith in
    ap negated (digits_from-digits_loop (suc (n + 1)) (n + 1) (omega arith)) ∙ ap negated next

pub read_unsigned-print_unsigned : (max n : ℕ) → n ≤ max → read_unsigned max (print_unsigned n) ≡ n
unfolding read_unsigned print_unsigned unsigned_of
read_unsigned-print_unsigned max n h =
    rw
      (
        read_int-Digits (digits_loop (suc n) n) (print_unsigned-Digits n),
        digits_from-digits_loop (suc n) n (omega arith),
        le→leb n max h,
      )
      refl

length-digits_loop : (k fuel n : ℕ) → n < 10 ^ suc k → length (digits_loop fuel n) ≤ suc k
unfolding digits_loop
length-digits_loop k zero n h = omega arith
length-digits_loop zero (suc fuel) n h = elim (Bool-cases (ltb n 10)) [
  | inl e ↦ rw e (omega arith)
  | inr e ↦ absurd (ground arith)
]
length-digits_loop (suc k) (suc fuel) n h = elim (Bool-cases (ltb n 10)) [
  | inl e ↦ rw e (omega arith)
  | inr e ↦ rw e (
      omega (
        arith,
        length-append (digits_loop fuel (n / 10)) ((b'0' + n % 10) ∷ []),
        length-digits_loop k fuel (n / 10) (omega (arith, h, pow_step 10 (suc k))),
      ))
]

-- A value of an `int` of 32 bits.
abbrev pub IsInt : ℤ → Type 0
IsInt (pos n) = n < 2 ^ 31
IsInt (negsuc n) = n < 2 ^ 31

-- It is printed with eleven characters at most.
pub length-print_int : (z : ℤ) → IsInt z → length (print_int z) ≤ 11
unfolding print_int print_unsigned
length-print_int (pos n) h = omega (arith, length-digits_loop 9 (suc n) n (omega arith))
length-print_int (negsuc n) h =
    omega (arith, length-digits_loop 9 (suc (n + 1)) (n + 1) (omega arith))

-- A number of 32 bits is printed with ten.
pub length-print_unsigned : (n : ℕ) → n < 2 ^ 32 → length (print_unsigned n) ≤ 10
unfolding print_unsigned
length-print_unsigned n h = length-digits_loop 9 (suc n) n (omega arith)
