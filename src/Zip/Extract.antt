-- ===== src/Zip/Extract.antt =====
-- core/zip.c: `vhdb_zip_extract`, over the entries of the archive's directory.
use vhdb.Base.{
  ℕ, zero, suc, ◌+◌, ◌-◌, ◌==◌, ltb, leb, if◌then◌else◌, Bool, true, false, not, List, [], ◌∷◌,
  Option, none, some, ◌>>=◌, length, slice, until_nul,
}
use vhdb.Zip.{
  Event, make_dir, cannot_open, archive_truncated, not_enough_memory, cannot_read, not_an_archive,
  no_zip64, cannot_read_index, broken_index, name_too_long, escapes, cancelled, done, failed,
  outside, Archive, Host, tail_size, make_parents, read_u16, read_u32, safe_name, joined, begins_at,
  behind, find_marker, End, end_at,
}
use vhdb.Zip.Entry.{Zlib, Run, stop, after, extract_one}

-- What the loop of `vhdb_zip_extract` reads of one entry of the directory.
pub record Item : Type 0 where
  pub method : ℕ
  pub compressed : ℕ
  pub uncompressed : ℕ
  pub name_length : ℕ
  pub extra_length : ℕ
  pub comment_length : ℕ
  pub local_offset : ℕ

unfoldable pub item_at : List ℕ → ℕ → Option Item
item_at directory position = do
  method ← read_u16 directory (position + 10)
  compressed ← read_u32 directory (position + 20)
  uncompressed ← read_u32 directory (position + 24)
  name_length ← read_u16 directory (position + 28)
  extra_length ← read_u16 directory (position + 30)
  comment_length ← read_u16 directory (position + 32)
  local_offset ← read_u32 directory (position + 42)
  some (record {
    method = method;
    compressed = compressed;
    uncompressed = uncompressed;
    name_length = name_length;
    extra_length = extra_length;
    comment_length = comment_length;
    local_offset = local_offset;
  })

-- Each `\` of a name becomes `/`.
unfoldable pub slashes : List ℕ → List ℕ
slashes [] = []
slashes (c ∷ cs) = (if c == 92 then b'/' else c) ∷ slashes cs

unfoldable pub ends_in_slash : List ℕ → Bool
ends_in_slash [] = false
ends_in_slash (c ∷ []) = c == b'/'
ends_in_slash (c ∷ (d ∷ ds)) = ends_in_slash (d ∷ ds)

unfoldable pub goes_on : Host → ℕ → ℕ → List ℕ → Bool
goes_on host finished count name = elim host.progress [
  | none ↦ true
  | some progress ↦ progress finished count name
]

module _ {S : Type 0} (zlib : Zlib S) (host : Host) where
  -- One entry, its fields read: a folder is made, a file is extracted, and then the caller may
  -- cancel.
  unfoldable pub place : Archive → ℕ → List ℕ → ℕ → ℕ → Item → List ℕ → List Event → Run × ℕ
  place archive fuel destination count finished item name log =
      let path = joined destination name in
      let one =
        extract_one zlib host archive fuel destination name item.local_offset item.compressed
          item.uncompressed item.method log in
      if not (safe_name name)
      then (stop log (failed escapes), finished)
      else if ends_in_slash name
      then (stop (make_dir path ∷ make_parents path log) done, finished)
      else after one.outcome
          (if goes_on host (finished + 1) count name
            then (one, finished + 1)
            else (stop one.log (failed cancelled), finished + 1))
          (one, finished)

  -- The loop of `vhdb_zip_extract`, by the entries left.
  unfoldable pub items_loop : Archive → ℕ → List ℕ → ℕ → List ℕ → ℕ → ℕ → ℕ → ℕ → List Event → Run
  items_loop archive fuel destination count directory size zero position finished log =
      stop log done
  items_loop archive fuel destination count directory size (suc n) position finished log =
      elim (begins_at directory size position) [
        | none ↦ stop log outside
        | some begins ↦
            if not begins
            then stop log (failed broken_index)
            else elim (item_at directory position) [
              | none ↦ stop log outside
              | some item ↦
                  if leb 256 item.name_length
                  then stop log (failed name_too_long)
                  else elim (slice directory (position + 46) item.name_length) [
                    | none ↦ stop log outside
                    | some bytes ↦
                        let placed =
                          place archive fuel destination count finished item
                            (slashes (until_nul bytes)) log in
                        let rest =
                          items_loop archive fuel destination count directory size n
                            (behind item.name_length item.extra_length item.comment_length position)
                            placed.1 placed.0.log in
                        after placed.0.outcome rest placed.0
                  ]
            ]
      ]

  -- From the numbers at the end of the directory on.
  unfoldable pub extract_directory : Archive → ℕ → List ℕ → End → Run
  extract_directory archive fuel destination e =
      let directory = archive.read e.directory_offset e.directory_size in
      if e.directory_offset == 0xFFFF_FFFF
      then stop [] (failed no_zip64)
      else if not (host.malloc e.directory_size)
      then stop [] (failed not_enough_memory)
      else if not (length directory == e.directory_size)
      then stop [] (failed cannot_read_index)
      else items_loop archive fuel destination e.count directory e.directory_size e.count 0 0
          (make_dir destination ∷ [])

  -- From the end of the archive's bytes on.
  unfoldable pub extract_tail : Archive → ℕ → List ℕ → List ℕ → Run
  extract_tail archive fuel destination tail = elim (find_marker tail (length tail - 21)) [
    | none ↦ stop [] outside
    | some found ↦ elim found [
      | none ↦ stop [] (failed not_an_archive)
      | some marker ↦ elim (end_at tail marker) [
        | none ↦ stop [] outside
        | some e ↦ extract_directory archive fuel destination e
      ]
    ]
  ]

  -- From the size on.
  unfoldable pub extract_sized : Archive → ℕ → List ℕ → ℕ → Run
  extract_sized archive fuel destination size =
      let tail_length = if ltb size tail_size then size else tail_size in
      let tail = archive.read (size - tail_length) tail_length in
      if ltb size 22
      then stop [] (failed archive_truncated)
      else if not (host.malloc tail_length)
      then stop [] (failed not_enough_memory)
      else if not (length tail == tail_length)
      then stop [] (failed cannot_read)
      else extract_tail archive fuel destination tail

  -- `vhdb_zip_extract`
  unfoldable pub extract : ℕ → List ℕ → Run
  extract fuel destination = elim host.open_archive [
    | none ↦ stop [] (failed cannot_open)
    | some archive ↦ elim archive.size [
      | none ↦ stop [] (failed archive_truncated)
      | some size ↦ extract_sized archive fuel destination size
    ]
  ]
