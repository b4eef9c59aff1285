-- ===== src/Base/Lines.antt =====
-- The C library on lines of text: `fgets`, `strchr` and `strcspn` on a text, and `snprintf("%s")`.
use Prim.Native.Nat.{ℕ, ◌-◌, ◌<◌}
use mathlib.Core.Path.{◌≡◌, refl}
use mathlib.Core.Logic.{◌≢◌, inl, inr}
use mathlib.Core.Bool.{◌||◌}
use mathlib.Core.Option.{Option, none, some}
use mathlib.Core.List.{List, [], ◌∷◌, ◌++◌}
use native.Mathlib.Omega.{arith}
use vhdb.Base.Tests.{◌==◌, if◌then◌else◌, Bool-cases}
use vhdb.Base.Lists.{length, take, take_all}

-- One more character in front of the first line.
unfoldable pub prepend : ℕ → List (List ℕ) → List (List ℕ)
prepend c [] = (c ∷ []) ∷ []
prepend c (l ∷ ls) = (c ∷ l) ∷ ls

-- What the successive calls `fgets(line, size + 1, file)` give for the rest of a file, where `room`
-- characters are left for the line at hand: a line ends behind its newline, where its room ends,
-- or at the end of the file.
unfoldable pub lines : ℕ → ℕ → List ℕ → List (List ℕ)
lines size room [] = []
lines size room (c ∷ cs) =
    let ends = c == b'\n' || room == 1 in
    let rest = lines size (if ends then size else room - 1) cs in
    if ends then (c ∷ []) ∷ rest else prepend c rest

-- The text before the first character of a set, here one or two characters.
unfoldable pub before_any : ℕ → ℕ → List ℕ → List ℕ
before_any a b [] = []
before_any a b (c ∷ cs) = if c == a || c == b then [] else c ∷ before_any a b cs

-- The text before the first of a character, and what follows it if there is one.
unfoldable pub before : ℕ → List ℕ → List ℕ
before a [] = []
before a (c ∷ cs) = if c == a then [] else c ∷ before a cs

unfoldable pub behind : ℕ → List ℕ → Option (List ℕ)
behind a [] = none
behind a (c ∷ cs) = let later = behind a cs in if c == a then some cs else later

-- `snprintf(array, size, "%s", text)`
unfoldable pub copied : ℕ → List ℕ → List ℕ
copied size text = take (size - 1) text

-- No character of a text is `a`.
abbrev pub Lacks : ℕ → List ℕ → Type 0
Lacks a [] = Unit
Lacks a (c ∷ cs) = (c ≢ a) × Lacks a cs

pub Lacks-append : (a : ℕ) (xs ys : List ℕ) → Lacks a xs → Lacks a ys → Lacks a (xs ++ ys)
Lacks-append a [] ys hx hy = hy
Lacks-append a (x ∷ xs) ys hx hy = (hx.0, Lacks-append a xs ys hx.1 hy)

-- A line that fits is read whole, with its newline.
pub lines_line :
    (size room : ℕ) (line rest : List ℕ)
    → Lacks b'\n' line
    → length line < room
    → lines size room (line ++ (b'\n' ∷ rest)) ≡ (line ++ (b'\n' ∷ [])) ∷ lines size size rest
unfolding lines prepend
lines_line size room [] rest h fits = refl
lines_line size room (c ∷ cs) rest h fits =
    let later = lines_line size (room - 1) cs rest h.1 (omega arith) in
    elim (Bool-cases (c == b'\n' || room == 1)) [
      | inl e ↦ absurd (ground (arith, h.0))
      | inr e ↦ rw e (rw later)
    ]

pub before-append : (a : ℕ) (xs ys : List ℕ) → Lacks a xs → before a (xs ++ (a ∷ ys)) ≡ xs
unfolding before
before-append a [] ys h = ground arith
before-append a (x ∷ xs) ys h = ground (arith, before-append a xs ys h.1)

pub behind-append : (a : ℕ) (xs ys : List ℕ) → Lacks a xs → behind a (xs ++ (a ∷ ys)) ≡ some ys
unfolding behind
behind-append a [] ys h = ground arith
behind-append a (x ∷ xs) ys h = ground (arith, behind-append a xs ys h.1)

pub before_lem : (a : ℕ) (xs : List ℕ) → Lacks a xs → before a xs ≡ xs
unfolding before
before_lem a [] h = refl
before_lem a (x ∷ xs) h = ground (arith, before_lem a xs h.1)

pub behind_lem : (a : ℕ) (xs : List ℕ) → Lacks a xs → behind a xs ≡ none
unfolding behind
behind_lem a [] h = refl
behind_lem a (x ∷ xs) h = ground (arith, behind_lem a xs h.1)

pub before_any-append :
    (a b : ℕ) (xs ys : List ℕ) → Lacks a xs → Lacks b xs → before_any a b (xs ++ (b ∷ ys)) ≡ xs
unfolding before_any
before_any-append a b [] ys ha hb = ground arith
before_any-append a b (x ∷ xs) ys ha hb = ground (arith, before_any-append a b xs ys ha.1 hb.1)

pub copied_lem : (size : ℕ) (text : List ℕ) → length text < size → copied size text ≡ text
unfolding copied
copied_lem size text h = take_all (size - 1) text (omega arith)
