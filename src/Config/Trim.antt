-- ===== src/Config/Trim.antt =====
-- pc/config.c: what `trim` leaves of the lines that `vhdb_config_save` writes.
use vhdb.Base.{
  ℕ, ◌+◌, ◌<◌, ◌≤◌, ◌≡◌, ◌≢◌, refl, arith, sym, ap, ◌∙◌, List, [], ◌∷◌, ◌++◌, length, until_nul,
}
use vhdb.Base.Decimal.{
  IsInt, length-print_int, print_int, print_unsigned, Digits, print_unsigned-Digits,
}
use vhdb.Base.Int.{ℤ, pos, negsuc}
use vhdb.Base.Lines.{Lacks, Lacks-append}
use vhdb.Config.{is_blank, trim_cons, trim, skip_blanks}

trim-cons : (c : ℕ) (xs : List ℕ) → trim xs ≢ [] → trim (c ∷ xs) ≡ c ∷ trim xs
unfolding trim trim_cons
trim-cons c xs ne =
    elim (trim xs) as (λ ys. ys ≢ [] → trim_cons c ys ≡ c ∷ ys) [
      | [] ↦ λ h. absurd (h refl)
      | d ∷ ds ↦ λ h. refl
    ]
      ne

append_empty : (xs ys : List ℕ) → xs ++ ys ≡ [] → ys ≡ []
append_empty [] ys e = e
append_empty (x ∷ xs) ys e = absurd (ground arith)

-- In front of a text that is not all blank, nothing is trimmed.
pub trim-append : (xs ys : List ℕ) → trim ys ≢ [] → trim (xs ++ ys) ≡ xs ++ trim ys
trim-append [] ys ne = refl
trim-append (x ∷ xs) ys ne =
    let rest = trim-append xs ys ne in
    trim-cons x (xs ++ ys) (λ e. ne (append_empty xs (trim ys) (sym rest ∙ e)))
    ∙ ap (λ zs. x ∷ zs) rest

-- A newline at the end goes.
pub trim_newline : (xs : List ℕ) → trim (xs ++ (b'\n' ∷ [])) ≡ trim xs
unfolding trim trim_cons
trim_newline [] = refl
trim_newline (x ∷ xs) = ap (trim_cons x) (trim_newline xs)

until_nul_lem : (xs : List ℕ) → Lacks 0 xs → until_nul xs ≡ xs
until_nul_lem [] h = refl
until_nul_lem (x ∷ xs) h = ground (arith, until_nul_lem xs h.1)

pub until_nul_newline :
    (xs : List ℕ) → Lacks 0 xs → until_nul (xs ++ (b'\n' ∷ [])) ≡ xs ++ (b'\n' ∷ [])
until_nul_newline xs h =
    until_nul_lem (xs ++ (b'\n' ∷ [])) (Lacks-append 0 xs (b'\n' ∷ []) h (omega arith, tt))

-- A value that survives: no NUL or newline in it, no blank or line end at its ends, and room for
-- it in its array.
pub record Survives (size : ℕ) (value : List ℕ) : Type 0 where
  pub no_nul : Lacks 0 value
  pub no_newline : Lacks b'\n' value
  pub trimmed : trim value ≡ value
  pub starts : skip_blanks value ≡ value
  pub fits : length value < size

-- The key of a line.
pub record IsKey (c : ℕ) (cs : List ℕ) : Type 0 where
  pub no_nul : Lacks 0 (c ∷ cs)
  pub no_newline : Lacks b'\n' (c ∷ cs)
  pub no_equals : Lacks b'=' (c ∷ cs)
  pub bare : trim (skip_blanks ((c ∷ cs) ++ (b' ' ∷ []))) ≡ c ∷ cs
  pub no_comment : c ≢ b'#'
  pub no_section : c ≢ b'['
  pub short : length cs < 6

abbrev pub Letters : List ℕ → Type 0
Letters [] = Unit
Letters (c ∷ cs) = (b'a' ≤ c) × (c ≤ b'z') × Letters cs

Lacks-Letters : (a : ℕ) (xs : List ℕ) → a < b'a' → Letters xs → Lacks a xs
Lacks-Letters a [] h l = tt
Lacks-Letters a (x ∷ xs) h l = (omega arith, Lacks-Letters a xs h l.2)

trim-Letters : (xs : List ℕ) → Letters xs → trim (xs ++ (b' ' ∷ [])) ≡ xs
unfolding trim trim_cons is_blank
trim-Letters [] l = refl
trim-Letters (x ∷ []) l = ground arith
trim-Letters (x ∷ (y ∷ ys)) l = rw (trim-Letters (y ∷ ys) l.2) refl

pub IsKey-Letters : (c : ℕ) (cs : List ℕ) → Letters (c ∷ cs) → length cs < 6 → IsKey c cs
unfolding skip_blanks is_blank
IsKey-Letters c cs l h = record {
  no_nul = Lacks-Letters 0 (c ∷ cs) (omega arith) l;
  no_newline = Lacks-Letters b'\n' (c ∷ cs) (omega arith) l;
  no_equals = Lacks-Letters b'=' (c ∷ cs) (omega arith) l;
  bare =
      let stays : skip_blanks ((c ∷ cs) ++ (b' ' ∷ [])) ≡ (c ∷ cs) ++ (b' ' ∷ []) = ground arith in
      ap trim stays ∙ trim-Letters (c ∷ cs) l;
  no_comment = omega arith;
  no_section = omega arith;
  short = h;
}

pub trim-Digits : (xs : List ℕ) → Digits xs → trim xs ≡ xs
unfolding trim trim_cons is_blank
trim-Digits [] h = refl
trim-Digits (x ∷ []) h = ground arith
trim-Digits (x ∷ (y ∷ ys)) h = rw (trim-Digits (y ∷ ys) h.1) refl

Lacks-Digits : (a : ℕ) (xs : List ℕ) → a < b'0' → Digits xs → Lacks a xs
Lacks-Digits a [] h d = tt
Lacks-Digits a (x ∷ xs) h d = (omega arith, Lacks-Digits a xs h d.1)

Lacks-print_int : (a : ℕ) (z : ℤ) → a < b'-' → Lacks a (print_int z)
unfolding print_int
Lacks-print_int a (pos n) h =
    Lacks-Digits a (print_unsigned n) (omega arith) (print_unsigned-Digits n)
Lacks-print_int a (negsuc n) h = (
  omega arith,
  Lacks-Digits a (print_unsigned (n + 1)) (omega arith) (print_unsigned-Digits (n + 1)),
)

trim-print_int : (z : ℤ) → trim (print_int z) ≡ print_int z
unfolding print_int trim trim_cons is_blank
trim-print_int (pos n) = trim-Digits (print_unsigned n) (print_unsigned-Digits n)
trim-print_int (negsuc n) =
    let rest = trim-Digits (print_unsigned (n + 1)) (print_unsigned-Digits (n + 1)) in ground arith

skip_blanks-Digits : (xs : List ℕ) → Digits xs → skip_blanks xs ≡ xs
unfolding skip_blanks is_blank
skip_blanks-Digits [] h = refl
skip_blanks-Digits (x ∷ xs) h = ground arith

skip_blanks-print_int : (z : ℤ) → skip_blanks (print_int z) ≡ print_int z
unfolding print_int skip_blanks is_blank
skip_blanks-print_int (pos n) = skip_blanks-Digits (print_unsigned n) (print_unsigned-Digits n)
skip_blanks-print_int (negsuc n) = refl

-- A printed number survives.
pub Survives-print_int : (z : ℤ) → IsInt z → Survives 64 (print_int z)
unfolding print_int skip_blanks is_blank
Survives-print_int z h = record {
  no_nul = Lacks-print_int 0 z (omega arith);
  no_newline = Lacks-print_int b'\n' z (omega arith);
  trimmed = trim-print_int z;
  starts = skip_blanks-print_int z;
  fits = omega (arith, length-print_int z h);
}
