-- ===== src/Base/Memory.antt =====
-- Reads from a byte buffer. `none` is a read outside it, which C leaves undefined.
use Prim.Native.Nat.{ℕ, zero, suc, ◌+◌, ◌*◌, ◌^◌, ◌%◌, ◌≤◌, ◌<◌}
use mathlib.Core.Path.{◌≡◌}
use mathlib.Core.Logic.{inl, inr}
use mathlib.Core.List.{List, [], ◌∷◌}
use mathlib.Core.Option.{Option, none, some}
use native.Mathlib.Omega.{arith}
use vhdb.Base.Tests.{◌>>=◌, ◌==◌, leb, if◌then◌else◌, Bool-cases}
use vhdb.Base.Lists.{length, get_elem?, take, drop, get_elem?-lt}

-- A value cut to a `uint32_t`.
abbrev pub u32 : ℕ → ℕ
u32 n = n % 2 ^ 32

-- A field of a struct laid over the buffer: a little-endian `uint32_t`.
unfoldable pub word_at : List ℕ → ℕ → Option ℕ
word_at bytes p = do
  b0 ← get_elem? bytes p
  b1 ← get_elem? bytes (p + 1)
  b2 ← get_elem? bytes (p + 2)
  b3 ← get_elem? bytes (p + 3)
  some (b0 + b1 * 2 ^ 8 + b2 * 2 ^ 16 + b3 * 2 ^ 24)

-- A run of bytes.
unfoldable pub slice : List ℕ → ℕ → ℕ → Option (List ℕ)
slice bytes p n = if leb (p + n) (length bytes) then some (take n (drop p bytes)) else none

-- The text up to the terminating NUL, which has to stand in the buffer.
unfoldable pub text_of : List ℕ → Option (List ℕ)
text_of [] = none
text_of (b ∷ bs) = let rest = text_of bs in if b == 0 then some [] else rest >>= λ cs. some (b ∷ cs)

unfoldable pub text_at : List ℕ → ℕ → Option (List ℕ)
unfolding text_of
text_at bytes p = text_of (drop p bytes)

pub word_at-some :
    (bytes : List ℕ) (p : ℕ) → p + 4 ≤ length bytes → (w : ℕ) × (word_at bytes p ≡ some w)
unfolding word_at
word_at-some bytes p h =
    let x0 = get_elem?-lt bytes p (omega arith) in
    let x1 = get_elem?-lt bytes (p + 1) (omega arith) in
    let x2 = get_elem?-lt bytes (p + 2) (omega arith) in
    let x3 = get_elem?-lt bytes (p + 3) (omega arith) in
    (x0.0 + x1.0 * 2 ^ 8 + x2.0 * 2 ^ 16 + x3.0 * 2 ^ 24, ground (arith, x0.1, x1.1, x2.1, x3.1))

pub slice-some :
    (bytes : List ℕ) (p n : ℕ)
    → p + n ≤ length bytes
    → slice bytes p n ≡ some (take n (drop p bytes))
unfolding slice
slice-some bytes p n h = ground arith

pub get_elem?-some :
    {A : Type 0} (xs : List A) (i : ℕ) {x : A} → get_elem? xs i ≡ some x → i < length xs
get_elem?-some [] i h = cc
get_elem?-some (x ∷ xs) zero h = omega arith
get_elem?-some (x ∷ xs) (suc i) h = omega (arith, get_elem?-some xs i h)

-- A NUL at or behind `p` ends the text that starts at `p`.
pub text_at-some :
    (bytes : List ℕ) (p q : ℕ)
    → p ≤ q
    → get_elem? bytes q ≡ some 0
    → (t : List ℕ) × (text_at bytes p ≡ some t) × (p + length t ≤ q)
unfolding text_at
text_at-some [] p q h e = cc
text_at-some (b ∷ bs) zero zero h e = ([], ground arith, omega arith)
text_at-some (b ∷ bs) zero (suc q) h e = elim (Bool-cases (b == 0)) [
  | inl nul ↦ ([], ground arith, omega arith)
  | inr more ↦
      let rest = text_at-some bs zero q (omega arith) e in
      (b ∷ rest.0, ground (arith, rest.1), omega (arith, rest.2))
]
text_at-some (b ∷ bs) (suc p) zero h e = absurd (omega arith)
text_at-some (b ∷ bs) (suc p) (suc q) h e =
    let rest = text_at-some bs p q (omega arith) e in (rest.0, rest.1, omega (arith, rest.2))
