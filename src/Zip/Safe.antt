-- ===== src/Zip/Safe.antt =====
-- core/zip.c: `vhdb_zip_extract` stays in its destination.
use vhdb.Base.{
  ℕ, zero, suc, ◌+◌, ◌-◌, refl, inl, inr, arith, List, [], ◌∷◌, none, some, length, ltb,
  if◌then◌else◌, Bool-cases, Option-cases, slice, until_nul, append-nil,
}
use vhdb.Zip.{
  Event, make_dir, Outcome, done, failed, outside, stuck, cancelled, Host, Archive, End, end_at,
  find_marker, begins_at, behind, tail_size, joined, safe_name, make_parents,
}
use vhdb.Zip.Entry.{Zlib, Run, stop, after, extract_one}
use vhdb.Zip.Extract.{
  Item, item_at, slashes, goes_on, place, items_loop, extract_directory, extract_tail,
  extract_sized, extract,
}
use vhdb.Zip.Confined.{
  Inside, Confined, safe_name-Inside, make_parents-Confined, after-Confined, extract_one-Confined,
}

module _ {S : Type 0} (zlib : Zlib S) (host : Host) (d : List ℕ) where
  folder-Confined :
      (name : List ℕ) (log : List Event)
      → Inside name
      → Confined d log
      → Confined d (make_dir (joined d name) ∷ make_parents (joined d name) log)
  folder-Confined name log inside ok = (
    inr ([], (name, (inside, append-nil (joined d name)))),
    make_parents-Confined d (joined d name) log (name, (inside, refl)) ok,
  )

  after-place :
      (o : Outcome) (x y : Run × ℕ)
      → Confined d x.0.log
      → Confined d y.0.log
      → Confined d (after o x y).0.log
  unfolding after
  after-place done x y hx hy = hx
  after-place (failed e) x y hx hy = hy
  after-place outside x y hx hy = hy
  after-place stuck x y hx hy = hy

  place-Confined :
      (archive : Archive) (fuel count finished : ℕ) (item : Item) (name : List ℕ) (log : List Event)
      → Confined d log
      → Confined d (place zlib host archive fuel d count finished item name log).0.log
  unfolding place
  place-Confined archive fuel count finished item name log ok = elim (Bool-cases (safe_name name)) [
    | inr e ↦ ground arith
    | inl e ↦
        let inside = safe_name-Inside name e in
        let folder = folder-Confined name log inside ok in
        let one =
          extract_one zlib host archive fuel d name item.local_offset item.compressed
            item.uncompressed item.method log in
        let file =
          extract_one-Confined zlib host d name archive fuel item.local_offset item.compressed
            item.uncompressed item.method log inside ok in
        let went : Run × ℕ =
          if goes_on host (finished + 1) count name
          then (one, finished + 1)
          else (stop one.log (failed cancelled), finished + 1) in
        let kept : Confined d went.0.log = ground arith in
        let goes = after-place one.outcome went (one, finished) kept file in ground arith
  ]

  items_loop-Confined :
      (archive : Archive) (fuel count : ℕ) (directory : List ℕ) (size n position finished : ℕ)
      (log : List Event)
      → Confined d log
      → Confined d
          (items_loop zlib host archive fuel d count directory size n position finished log).log
  unfolding items_loop
  items_loop-Confined archive fuel count directory size zero position finished log ok = ok
  items_loop-Confined archive fuel count directory size (suc n) position finished log ok =
      elim (Option-cases (begins_at directory size position)) [
        | inl e ↦ ground arith
        | inr (begins, e) ↦ elim (Option-cases (item_at directory position)) [
          | inl e' ↦ ground arith
          | inr (item, e') ↦
              elim (Option-cases (slice directory (position + 46) item.name_length)) [
                | inl e'' ↦ ground arith
                | inr (bytes, e'') ↦
                    let placed =
                      place zlib host archive fuel d count finished item (slashes (until_nul bytes))
                        log in
                    let now =
                      place-Confined archive fuel count finished item (slashes (until_nul bytes))
                        log ok in
                    let rest =
                      items_loop zlib host archive fuel d count directory size n
                        (behind item.name_length item.extra_length item.comment_length position)
                        placed.1 placed.0.log in
                    let later =
                      items_loop-Confined archive fuel count directory size n
                        (behind item.name_length item.extra_length item.comment_length position)
                        placed.1 placed.0.log now in
                    let goes = after-Confined d placed.0.outcome rest placed.0 later now in
                    ground arith
              ]
        ]
      ]

  extract_directory-Confined :
      (archive : Archive) (fuel : ℕ) (e : End)
      → Confined d (extract_directory zlib host archive fuel d e).log
  unfolding extract_directory
  extract_directory-Confined archive fuel e =
      let none_yet : Confined d [] = tt in
      let made : Confined d (make_dir d ∷ []) = (inl refl, tt) in
      let items =
        items_loop-Confined archive fuel e.count (archive.read e.directory_offset e.directory_size)
          e.directory_size e.count 0 0 (make_dir d ∷ []) made in
      ground arith

  extract_tail-Confined :
      (archive : Archive) (fuel : ℕ) (tail : List ℕ)
      → Confined d (extract_tail zlib host archive fuel d tail).log
  unfolding extract_tail
  extract_tail-Confined archive fuel tail =
      let none_yet : Confined d [] = tt in
      elim (Option-cases (find_marker tail (length tail - 21))) [
        | inl e ↦ ground arith
        | inr (none, e) ↦ ground arith
        | inr (some marker, e) ↦ elim (Option-cases (end_at tail marker)) [
          | inl e' ↦ ground arith
          | inr (found, e') ↦
              let run = extract_directory-Confined archive fuel found in ground arith
        ]
      ]

  extract_sized-Confined :
      (archive : Archive) (fuel size : ℕ)
      → Confined d (extract_sized zlib host archive fuel d size).log
  unfolding extract_sized
  extract_sized-Confined archive fuel size =
      let none_yet : Confined d [] = tt in
      let tail_length = if ltb size tail_size then size else tail_size in
      let run =
        extract_tail-Confined archive fuel (archive.read (size - tail_length) tail_length) in
      ground arith

-- Whatever the archive, zlib, the file system and the caller answer, and however the extraction
-- ends, every folder that `vhdb_zip_extract` makes is the destination or a part of a path to a
-- checked name below it, and every file it opens or writes is at such a path, cut at 511
-- characters. A checked name does not begin with `/`, has no two dots side by side, and no colon.
pub extract-Confined :
    {S : Type 0} (zlib : Zlib S) (host : Host) (fuel : ℕ) (destination : List ℕ)
    → Confined destination (extract zlib host fuel destination).log
unfolding extract
extract-Confined zlib host fuel destination =
    let none_yet : Confined destination [] = tt in
    elim (Option-cases host.open_archive) [
      | inl e ↦ ground arith
      | inr (archive, e) ↦ elim (Option-cases archive.size) [
        | inl e' ↦ ground arith
        | inr (size, e') ↦
            let run = extract_sized-Confined zlib host destination archive fuel size in ground arith
      ]
    ]
