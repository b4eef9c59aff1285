-- ===== src/Zip.antt =====
-- core/zip.c: the helpers that the two readers of an archive share.
pub mod Entry
pub mod Extract
pub mod Confined
pub mod Safe
pub mod Stored
pub mod TopLevel
use vhdb.Base.{
  ℕ, zero, suc, ◌+◌, ◌-◌, ◌*◌, ◌^◌, ◌==◌, ltb, leb, u32, if◌then◌else◌, Bool, true, false, not,
  ◌&&◌, ◌||◌, List, [], ◌∷◌, ◌++◌, Option, none, some, ◌>>=◌, bit_or, length, take, get_elem?,
  equal,
}

-- What an extraction does to the file system: `mkdir`, `fopen` for writing, and `fwrite`.
pub data Event : Type 0 where
  make_dir : List ℕ → Event
  create : List ℕ → Event
  append : List ℕ → List ℕ → Event

-- The texts of `last_error`; `no_error` is the empty one.
pub data Error : Type 0 where
  no_error cannot_open archive_truncated not_enough_memory cannot_read not_an_archive no_zip64
        cannot_read_index broken_index name_too_long escapes broken_local_header cannot_write
        write_failed unsupported cannot_inflate damaged card_full size_mismatch cancelled :
      Error

-- How a call ends: it returns 1, or 0 with an error; `outside` is a read outside a buffer, and
-- `stuck` means that the fuel of the model ran out.
pub data Outcome : Type 0 where
  done : Outcome
  failed : Error → Outcome
  outside : Outcome
  stuck : Outcome

-- An open archive: what `ftell` says at its end (`none` is -1), whether `fseek` to an offset works,
-- and the bytes that `fread` gives at an offset for a wanted count.
pub record Archive : Type 0 where
  pub size : Option ℕ
  pub seek : ℕ → Bool
  pub read : ℕ → ℕ → List ℕ

-- The C library and the caller's `progress`. What is done so far, the newest first, may decide
-- whether a file opens and whether all the bytes are written.
pub record Host : Type 0 where
  pub open_archive : Option Archive
  pub malloc : ℕ → Bool
  pub open_file : List Event → List ℕ → Bool
  pub write : List Event → List ℕ → List ℕ → Bool
  pub progress : Option (ℕ → ℕ → List ℕ → Bool)

abbrev pub tail_size : ℕ
tail_size = 66000

abbrev pub chunk_size : ℕ
chunk_size = 32768

-- The loop of `make_parents` behind the characters `before`.
unfoldable pub parents_loop : List ℕ → List ℕ → List Event → List Event
parents_loop before [] log = log
parents_loop before (c ∷ cs) log =
    let deeper = parents_loop (before ++ (c ∷ [])) cs (make_dir before ∷ log) in
    let plain = parents_loop (before ++ (c ∷ [])) cs log in
    if c == b'/' && not (equal before []) then deeper else plain

unfoldable pub make_parents : List ℕ → List Event → List Event
make_parents path log = if leb 512 (length path) then log else parents_loop [] path log

unfoldable pub read_u16 : List ℕ → ℕ → Option ℕ
read_u16 bytes p = do
  b0 ← get_elem? bytes p
  b1 ← get_elem? bytes (p + 1)
  some (bit_or b0 (b1 * 2 ^ 8))

unfoldable pub read_u32 : List ℕ → ℕ → Option ℕ
read_u32 bytes p = do
  b0 ← get_elem? bytes p
  b1 ← get_elem? bytes (p + 1)
  b2 ← get_elem? bytes (p + 2)
  b3 ← get_elem? bytes (p + 3)
  some (bit_or (bit_or (bit_or b0 (b1 * 2 ^ 8)) (b2 * 2 ^ 16)) (b3 * 2 ^ 24))

-- The first character of a text, 0 at its end.
abbrev pub first : List ℕ → ℕ
first [] = 0
first (c ∷ cs) = c

-- `strstr(name, "..")` and `strchr(name, ':')`
unfoldable pub has_dots : List ℕ → Bool
has_dots [] = false
has_dots (c ∷ cs) = c == b'.' && first cs == b'.' || has_dots cs

unfoldable pub has_colon : List ℕ → Bool
has_colon [] = false
has_colon (c ∷ cs) = c == b':' || has_colon cs

unfoldable pub safe_name : List ℕ → Bool
safe_name name =
    if first name == b'/' || first name == 92
    then false
    else if has_dots name
    then false
    else not (has_colon name)

-- `snprintf(path, 512, "%s/%s", destination, name)`
unfoldable pub joined : List ℕ → List ℕ → List ℕ
joined destination name = take 511 (destination ++ (b'/' ∷ name))

-- The search for the end of the directory, downwards from offset `n - 1` of the tail.
unfoldable pub find_marker : List ℕ → ℕ → Option (Option ℕ)
find_marker tail zero = some none
find_marker tail (suc p) =
    let rest = find_marker tail p in
    read_u32 tail p >>= λ mark. if mark == 0x0605_4B50 then some (some p) else rest

-- The numbers of the end of the directory.
pub record End : Type 0 where
  pub count : ℕ
  pub directory_size : ℕ
  pub directory_offset : ℕ

unfoldable pub end_at : List ℕ → ℕ → Option End
end_at tail marker = do
  n ← read_u16 tail (marker + 10)
  size ← read_u32 tail (marker + 12)
  offset ← read_u32 tail (marker + 16)
  some (record { count = n; directory_size = size; directory_offset = offset })

-- Whether an entry of the directory begins at a position: not past the directory's end, by sums of
-- `uint32_t`, and with its mark.
unfoldable pub begins_at : List ℕ → ℕ → ℕ → Option Bool
begins_at directory size position =
    if ltb size (u32 (position + 46))
    then some false
    else (read_u32 directory position >>= λ mark. some (mark == 0x0201_4B50))

-- The position behind an entry, from the lengths of its name, its extra field and its comment.
unfoldable pub behind : ℕ → ℕ → ℕ → ℕ → ℕ
behind name extra comment position = u32 (position + (46 + name + extra + comment))
