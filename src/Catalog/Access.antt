-- ===== src/Catalog/Access.antt =====
-- core/vhdb.c: the reads from a loaded catalog. A result `none` is a fault, `some none` is NULL.
pub mod Find
pub mod Laws
pub mod Title
use vhdb.Base.{
  ℕ, zero, suc, ◌+◌, ◌*◌, ◌==◌, leb, ltb, if◌then◌else◌, Bool, true, false, List, [], ◌∷◌, Option,
  none, some, ◌>>=◌, word_at, slice, text_at, get_elem?, length, set,
}
use vhdb.Catalog.{Header, Db, Entry, record_size}

-- `vhdb_at`: a pointer to the record.
unfoldable pub at : Db → ℕ → Option ℕ
at db index = if leb db.count index then none else some (db.records + index * record_size)

-- The record that one of the two orders has at a rank.
unfoldable pub ranked : Db → ℕ → ℕ → Option (Option ℕ)
ranked db order rank =
    if leb db.count rank
    then some none
    else (db.blob >>= λ blob.
        word_at blob (order + rank * 4) >>= λ i. some (some (db.records + i * record_size)))

-- `vhdb_by_name`
unfoldable pub by_name : Db → ℕ → Option (Option ℕ)
unfolding ranked
by_name db rank = ranked db db.order_name rank

-- `vhdb_by_date`
unfoldable pub by_date : Db → ℕ → Option (Option ℕ)
unfolding ranked
by_date db rank = ranked db db.order_date rank

-- `vhdb_str`, with the pointers behind the null tests: the text that the result points at.
unfoldable pub str_in : Db → Option Header → Option ℕ → ℕ → Option (List ℕ)
str_in db (some h) (some strings) offset =
    if leb h.strings_len offset
    then some []
    else (db.blob >>= λ blob. text_at blob (strings + offset))
str_in db (some h) none offset = some []
str_in db none strings offset = some []

unfoldable pub str : Db → ℕ → Option (List ℕ)
unfolding str_in
str db offset = str_in db db.header db.strings offset

-- The loop of `vhdb_titleid` over the bytes left, at index `i`.
pub copy_title : List ℕ → ℕ → List ℕ → List ℕ
copy_title [] i out = set out i 0
copy_title (c ∷ cs) i out =
    let rest = copy_title cs (i + 1) (set out i c) in if c == 0 then set out i c else rest

-- `vhdb_titleid`: the buffer and the result.
unfoldable pub titleid : Entry → List ℕ → List ℕ × Bool
unfolding copy_title
titleid rec out = if ltb (length out) 13 then (out, false) else (copy_title rec.titleid 0 out, true)

-- `strncmp(field, text, n) == 0`, where a text that has run out reads as its NUL.
unfoldable pub same_prefix : List ℕ → List ℕ → ℕ → Bool
same_prefix field text zero = true
same_prefix (x ∷ field) (y ∷ text) (suc n) =
    let rest = same_prefix field text n in if x == y then (if x == 0 then true else rest) else false
same_prefix (x ∷ field) [] (suc n) = x == 0
same_prefix [] (y ∷ text) (suc n) = y == 0
same_prefix [] [] (suc n) = true

-- The test on one record; `rec->titleid[len]` is read only if the text is shorter than 12.
unfoldable pub title_matches : List ℕ → List ℕ → ℕ → Option Bool
title_matches field text len =
    if same_prefix field text len
    then (if len == 12 then some true else (get_elem? field len >>= λ c. some (c == 0)))
    else some false

-- The loop of `vhdb_find_titleid` at index `i`, with `n` rounds left.
unfoldable pub find_loop : List ℕ → Db → List ℕ → ℕ → ℕ → Option (Option ℕ)
find_loop blob db text zero i = some none
find_loop blob db text (suc n) i =
    let rest = find_loop blob db text n (i + 1) in
    slice blob (db.records + i * record_size + 80) 12 >>= λ field.
    title_matches field text (length text) >>= λ same.
    if same then some (some (db.records + i * record_size)) else rest

unfoldable pub find_text : Db → List ℕ → Option (Option ℕ)
find_text db [] = some none
find_text db (c ∷ cs) =
    if ltb 12 (length (c ∷ cs))
    then some none
    else (db.blob >>= λ blob. find_loop blob db (c ∷ cs) db.count 0)

-- `vhdb_find_titleid`, of a pointer that may be NULL.
unfoldable pub find_titleid : Db → Option (List ℕ) → Option (Option ℕ)
find_titleid db none = some none
find_titleid db (some text) = find_text db text
