-- ===== src/Pc/Install/Names.antt =====
-- pc/install.c: the file's name in a URL, and a name as a part of a URL.
use vhdb.Base.{
  ℕ, zero, suc, ◌+◌, ◌-◌, ◌*◌, ◌/◌, ◌%◌, ◌==◌, ltb, leb, if◌then◌else◌, Bool, true, false, not,
  ◌&&◌, ◌||◌, List, [], ◌∷◌, Option, none, some, equal, until_nul, codes,
}
use vhdb.Base.Lines.{copied}

-- `strrchr(url, '/')`: the text behind the last slash.
unfoldable pub behind_slash : List ℕ → Option (List ℕ)
behind_slash [] = none
behind_slash (c ∷ cs) =
    let later = behind_slash cs in
    elim later [ some rest ↦ some rest | none ↦ if c == b'/' then some cs else none ]

unfoldable pub digit_value : ℕ → Option ℕ
digit_value c =
    if leb b'0' c && leb c b'9'
    then some (c - b'0')
    else if leb b'a' c && leb c b'f'
    then some (c - 87)
    else if leb b'A' c && leb c b'F'
    then some (c - 55)
    else none

-- `strtol` of two characters to the base 16, as a byte: a space or a sign may stand first.
unfoldable pub hex_byte : ℕ → ℕ → ℕ
hex_byte a b =
    let low : ℕ = elim (digit_value b) [ none ↦ 0 | some n ↦ n ] in
    elim (digit_value a) [
      | some high ↦ elim (digit_value b) [ none ↦ high | some n ↦ high * 16 + n ]
      | none ↦
          if a == b'-'
          then (256 - low) % 256
          else if a == b'+' || (a == b' ' || (leb 9 a && leb a 13))
          then low
          else 0
    ]

-- The loop of `url_basename` with room for `k` more bytes.
unfoldable pub name_loop : ℕ → List ℕ → List ℕ
name_loop zero name = []
name_loop (suc k) [] = []
name_loop (suc k) (c ∷ []) = if c == b'?' || c == b'#' then [] else c ∷ []
name_loop (suc k) (c ∷ (d ∷ [])) =
    let rest = name_loop k (d ∷ []) in if c == b'?' || c == b'#' then [] else c ∷ rest
name_loop (suc k) (c ∷ (d ∷ (e ∷ more))) = elim (c == b'%') [
  | true ↦ hex_byte d e ∷ name_loop k more
  | false ↦
      let rest = name_loop k (d ∷ (e ∷ more)) in if c == b'?' || c == b'#' then [] else c ∷ rest
]

-- `url_basename`: the text in an array of a size, which an escaped NUL cuts.
unfoldable pub url_basename : List ℕ → ℕ → List ℕ
url_basename url size =
    let name : List ℕ = elim (behind_slash url) [ none ↦ url | some rest ↦ rest ] in
    let out = name_loop (size - 1) name in
    if equal out [] then copied size (codes "download.bin") else until_nul out

-- Characters that a path of a URL shows as a hexadecimal number.
unfoldable pub is_escaped : ℕ → Bool
is_escaped c = c == b' ' || (c == b'#' || (c == b'?' || (c == b'%' || ltb c 32)))

unfoldable pub upper_digit : ℕ → ℕ
upper_digit n = if ltb n 10 then b'0' + n else b'A' + (n - 10)

-- The loop of `escape_path` behind `n` bytes.
unfoldable pub escape_loop : ℕ → ℕ → List ℕ → List ℕ
escape_loop size n [] = []
escape_loop size n (c ∷ cs) =
    let rest = escape_loop size (n + (if is_escaped c then 3 else 1)) cs in
    if not (ltb (n + 4) size)
    then []
    else if is_escaped c
    then b'%' ∷ (upper_digit (c / 16 % 16) ∷ (upper_digit (c % 16) ∷ rest))
    else c ∷ rest

-- `escape_path`
abbrev pub escape_path : List ℕ → ℕ → List ℕ
escape_path name size = escape_loop size 0 name
