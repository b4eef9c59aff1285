-- ===== src/Sfo/Keys.antt =====
-- core/sfo.c: the key of an entry, as strnlen and strcmp read it.
use vhdb.Base.{
  ℕ, zero, suc, ◌+◌, ◌≤◌, ◌<◌, ◌==◌, ◌≡◌, ◌≢◌, refl, inl, inr, List, some, get_elem?-lt,
  get_elem?-some, length, codes, Bool, false, [], ◌∷◌, get_elem?, arith, Bool-cases,
}
use vhdb.Sfo.{key_length, key_is}

-- A key of the source, without a NUL.
abbrev pub IsWord : List ℕ → Type 0
IsWord [] = Unit
IsWord (w ∷ ws) = (w ≢ 0) × IsWord ws

-- The length of a key is read inside the buffer, and below the bound its NUL stands behind it.
pub key_length-some :
    (bytes : List ℕ) (n off : ℕ)
    → off + n ≤ length bytes
    → (k : ℕ) × (key_length bytes off n ≡ some k)
      × (k ≤ n)
      × (k < n → get_elem? bytes (off + k) ≡ some 0)
unfolding key_length
key_length-some bytes zero off h = (0, refl, omega arith, λ less. absurd (omega arith))
key_length-some bytes (suc n) off h =
    let (c, ec) = get_elem?-lt bytes off (omega arith) in
    let (k, ek, le, ends) = key_length-some bytes n (off + 1) (omega arith) in
    elim (Bool-cases (c == 0)) [
      | inl nul ↦
          let is : c ≡ 0 = ground arith in
          let here : off + 0 ≡ off = omega arith in
          (0, rw (ec, nul) refl, omega arith, λ less. rw (here, ec, is) refl)
      | inr on ↦ (
        k + 1,
        rw (ec, on, ek) refl,
        omega arith,
        λ less.
            let there : off + (k + 1) ≡ off + 1 + k = omega arith in rw there (ends (omega arith)),
      )
    ]

-- A key whose NUL is in the buffer is compared inside the buffer.
pub key_is-some :
    (bytes word : List ℕ) (off k : ℕ)
    → IsWord word
    → get_elem? bytes (off + k) ≡ some 0
    → (b : Bool) × (key_is bytes off word ≡ some b)
unfolding key_is
key_is-some bytes [] off k word ends =
    let inside = get_elem?-some bytes (off + k) ends in
    let (c, ec) = get_elem?-lt bytes off (omega arith) in (c == 0, rw ec refl)
key_is-some bytes (w ∷ ws) off zero word ends =
    let here : get_elem? bytes off ≡ some 0 = ground arith in
    let differs : (0 == w) ≡ false = ground (arith, word.0) in (false, rw (here, differs) refl)
key_is-some bytes (w ∷ ws) off (suc k) word ends =
    let inside = get_elem?-some bytes (off + suc k) ends in
    let (c, ec) = get_elem?-lt bytes off (omega arith) in
    let there : off + 1 + k ≡ off + suc k = omega arith in
    let (b, eb) = key_is-some bytes ws (off + 1) k word.1 (rw there ends) in
    elim (Bool-cases (c == w)) [
      | inl same ↦ (b, rw (ec, same, eb) refl)
      | inr other ↦ (false, rw (ec, other) refl)
    ]

pub title_id-IsWord : IsWord (codes "TITLE_ID")
title_id-IsWord = (
  omega arith,
  (
    omega arith,
    (omega arith, (omega arith, (omega arith, (omega arith, (omega arith, (omega arith, tt)))))),
  ),
)

pub app_ver-IsWord : IsWord (codes "APP_VER")
app_ver-IsWord = (
  omega arith,
  (omega arith, (omega arith, (omega arith, (omega arith, (omega arith, (omega arith, tt)))))),
)

pub category-IsWord : IsWord (codes "CATEGORY")
category-IsWord = (
  omega arith,
  (
    omega arith,
    (omega arith, (omega arith, (omega arith, (omega arith, (omega arith, (omega arith, tt)))))),
  ),
)

pub title-IsWord : IsWord (codes "TITLE")
title-IsWord = (omega arith, (omega arith, (omega arith, (omega arith, (omega arith, tt)))))
