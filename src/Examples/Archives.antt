-- ===== src/Examples/Archives.antt =====
-- A small archive with one stored file, extracted and listed.
use vhdb.Base.{
  ℕ, ◌+◌, ◌≡◌, refl, arith, true, List, [], ◌∷◌, ◌++◌, none, some, length, replicate, take, drop,
  equal, codes, slice,
}
use vhdb.Zip
use vhdb.Zip.{Event, make_dir, create, append, Outcome, done, stuck, Archive, Host}
use vhdb.Zip.Entry
use vhdb.Zip.Entry.{Zlib, stream_end, stored_entry}
use vhdb.Zip.Extract
use vhdb.Zip.Extract.{extract}
use vhdb.Zip.Confined.{Confined}
use vhdb.Zip.Safe.{extract-Confined}
use vhdb.Zip.Stored.{IsReadOf, Writes, stored_entry-done}
use vhdb.Zip.TopLevel
use vhdb.Zip.TopLevel.{Tops, add_name, top_level}
use vhdb.Zip.TopLevel.Distinct.{Kept, top_level-Kept, add_name-outside}

-- The local header and the bytes of `d/f`, then its entry in the directory, then the end.
abbrev archive_bytes : List ℕ
archive_bytes =
    (80 ∷ 75 ∷ 3 ∷ 4 ∷ [])
    ++ replicate 22 0
    ++ (3 ∷ 0 ∷ 0 ∷ 0 ∷ [])
    ++ codes "d/f"
    ++ codes "hi"
    ++ (80 ∷ 75 ∷ 1 ∷ 2 ∷ [])
    ++ replicate 16 0
    ++ (2 ∷ 0 ∷ 0 ∷ 0 ∷ 2 ∷ 0 ∷ 0 ∷ 0 ∷ 3 ∷ 0 ∷ [])
    ++ replicate 16 0
    ++ codes "d/f"
    ++ (80 ∷ 75 ∷ 5 ∷ 6 ∷ 0 ∷ 0 ∷ 0 ∷ 0 ∷ 0 ∷ 0 ∷ 1 ∷ 0 ∷ 49 ∷ 0 ∷ 0 ∷ 0 ∷ 35 ∷ 0 ∷ 0 ∷ 0 ∷ 0 ∷ 0
        ∷ [])

abbrev demo_archive : Archive
demo_archive = record {
  size = some 106;
  seek = λ p. true;
  read = λ p n. take n (drop p archive_bytes);
}

abbrev demo_host : Host
demo_host = record {
  open_archive = some demo_archive;
  malloc = λ n. true;
  open_file = λ log path. true;
  write = λ log path bytes. true;
  progress = none;
}

abbrev demo_zlib : Zlib ℕ
demo_zlib = record {
  start = some 0;
  feed = λ s bytes. s + length bytes;
  inflate = λ s. (s, ([], stream_end));
  total_out = λ s. s;
}

extract_demo : (extract demo_zlib demo_host 9 (codes "x")).log ≡ (
    append (codes "x/d/f") (codes "hi")
    ∷ create (codes "x/d/f")
    ∷ make_dir (codes "x/d")
    ∷ make_dir (codes "x")
    ∷ make_dir (codes "x")
    ∷ [])
unfolding extract Extract.extract_sized Extract.extract_tail Extract.extract_directory
    Extract.items_loop Extract.place Extract.item_at Extract.slashes Extract.ends_in_slash
    Extract.goes_on Entry.extract_one Entry.local_extra Entry.write_entry Entry.stored_entry
    Entry.stored_loop Entry.wanted Entry.less Entry.after Zip.find_marker Zip.end_at Zip.begins_at
    Zip.behind Zip.read_u16 Zip.read_u32 Zip.safe_name Zip.has_dots Zip.has_colon Zip.joined
    Zip.make_parents Zip.parents_loop slice equal
extract_demo = refl

extract-Confined_example : Confined (codes "x") (extract demo_zlib demo_host 9 (codes "x")).log
extract-Confined_example = extract-Confined demo_zlib demo_host 9 (codes "x")

-- `fread` gives all that is asked for, up to the end.
demo_reads : IsReadOf archive_bytes demo_archive
demo_reads p n = (n, omega arith, refl, λ asked inside. asked)

stored_entry-done_example :
    let run = stored_entry demo_host demo_archive (codes "x/d/f") 2 33 [] in
    (run.outcome ≡ done) × Writes (codes "x/d/f") [] (codes "hi") run.log
stored_entry-done_example =
    stored_entry-done demo_host demo_archive (codes "x/d/f") archive_bytes 2 33 [] demo_reads
      (omega arith) (λ log bytes. refl) refl (omega arith)

abbrev top_names : Tops
top_names = record { names = codes "d" ∷ []; found = 1 }

top_level_demo : top_level demo_host 6 ≡ some (some top_names)
unfolding top_level TopLevel.top_sized TopLevel.top_tail TopLevel.top_directory TopLevel.names_loop
    TopLevel.add_name TopLevel.keep TopLevel.is_known TopLevel.top_of Zip.find_marker Zip.end_at
    Zip.begins_at Zip.behind Zip.read_u16 Zip.read_u32 slice
top_level_demo = refl

top_level-Kept_example : Kept 6 top_names
top_level-Kept_example = top_level-Kept demo_host 6 top_names top_level_demo

-- Two names were found, of which the array of one holds the first.
abbrev full_names : Tops
full_names = record { names = codes "d" ∷ []; found = 2 }

add_name-outside_example : add_name 1 full_names (codes "e") ≡ none
add_name-outside_example =
    add_name-outside 1 full_names (codes "e") (omega arith) (λ e. absurd (ground (arith, e)))
      ((λ e. absurd (ground (arith, e))), tt)
