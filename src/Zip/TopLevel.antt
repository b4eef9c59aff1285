-- ===== src/Zip/TopLevel.antt =====
-- core/zip.c: `vhdb_zip_top_level`, the names of an archive's files and folders at the top.
pub mod Distinct
use vhdb.Base.{
  ℕ, zero, suc, ◌+◌, ◌-◌, ◌==◌, ltb, leb, if◌then◌else◌, Bool, true, false, not, ◌||◌, List, [],
  ◌∷◌, ◌++◌, Option, none, some, ◌>>=◌, length, equal, slice, until_nul,
}
use vhdb.Zip.{Archive, Host, tail_size, read_u16, begins_at, behind, find_marker, End, end_at}

-- The array `names`, as far as it is filled, and `found`, which may be larger.
pub record Tops : Type 0 where
  pub names : List (List ℕ)
  pub found : ℕ

-- The part of a name before the first separator, at most `n` characters of it.
unfoldable pub top_of : ℕ → List ℕ → List ℕ
top_of zero name = []
top_of (suc n) [] = []
top_of (suc n) (c ∷ cs) = if c == b'/' || c == 92 then [] else c ∷ top_of n cs

-- The search among the first `n` of the names; `none` is a read behind the filled ones.
unfoldable pub is_known : List (List ℕ) → ℕ → List ℕ → Option Bool
is_known names zero top = some false
is_known [] (suc n) top = none
is_known (x ∷ xs) (suc n) top =
    let later = is_known xs n top in if equal x top then some true else later

-- A name that is not known is counted, and kept while there is room.
unfoldable pub keep : ℕ → Tops → List ℕ → Tops
keep limit tops top = record {
  names = if ltb tops.found limit then tops.names ++ (top ∷ []) else tops.names;
  found = tops.found + 1;
}

unfoldable pub add_name : ℕ → Tops → List ℕ → Option Tops
add_name limit tops [] = some tops
add_name limit tops (c ∷ cs) = is_known tops.names tops.found (c ∷ cs) >>= λ known.
    some (if known then tops else keep limit tops (c ∷ cs))

-- The loop over the directory, by the entries left; `none` is a read outside a buffer.
unfoldable pub names_loop : ℕ → List ℕ → ℕ → ℕ → ℕ → Tops → Option Tops
names_loop limit directory size zero position tops = some tops
names_loop limit directory size (suc n) position tops =
    begins_at directory size position >>= λ begins.
    if not begins
    then some tops
    else (read_u16 directory (position + 28) >>= λ name_length.
        read_u16 directory (position + 30) >>= λ extra_length.
        read_u16 directory (position + 32) >>= λ comment_length.
        if leb 256 name_length
        then some tops
        else (slice directory (position + 46) name_length >>= λ bytes.
            add_name limit tops (top_of 63 (until_nul bytes)) >>= λ tops'.
            names_loop limit directory size n
              (behind name_length extra_length comment_length position) tops'))

-- From the numbers at the end of the directory on. The inner `none` is the result -1.
unfoldable pub top_directory : Host → Archive → ℕ → End → Option (Option Tops)
top_directory host archive limit e =
    let directory = archive.read e.directory_offset e.directory_size in
    if not (host.malloc e.directory_size)
    then some none
    else if not (length directory == e.directory_size)
    then some none
    else (names_loop limit directory e.directory_size e.count 0 (record { names = []; found = 0 })
        >>= λ tops. some (some tops))

unfoldable pub top_tail : Host → Archive → ℕ → List ℕ → Option (Option Tops)
top_tail host archive limit tail = find_marker tail (length tail - 21) >>= λ found. elim found [
  | none ↦ some none
  | some marker ↦ (end_at tail marker >>= λ e. top_directory host archive limit e)
]

unfoldable pub top_sized : Host → Archive → ℕ → ℕ → Option (Option Tops)
top_sized host archive limit size =
    let tail_length = if ltb size tail_size then size else tail_size in
    let tail = archive.read (size - tail_length) tail_length in
    if ltb size 22
    then some none
    else if not (host.malloc tail_length)
    then some none
    else if not (length tail == tail_length)
    then some none
    else top_tail host archive limit tail

-- `vhdb_zip_top_level`
unfoldable pub top_level : Host → ℕ → Option (Option Tops)
top_level host limit = elim host.open_archive [
  | none ↦ some none
  | some archive ↦ elim archive.size [
    | none ↦ some none
    | some size ↦ top_sized host archive limit size
  ]
]
