-- ===== src/Examples/Clients.antt =====
-- The client on the computer at concrete inputs.
use vhdb.Base.{
  ℕ, ◌+◌, ◌<◌, ◌≤◌, ◌^◌, ◌≡◌, ◌≢◌, refl, ◌⊎◌, inl, inr, if◌then◌else◌, Bool, true, false, List, [],
  ◌∷◌, ◌++◌, Option, none, some, length, take, replicate, arith, codes, equal, equal_iff, word_at,
  slice, text_at,
}
use vhdb.Base
use vhdb.Base.Decimal
use vhdb.Base.Int.{pos}
use vhdb.Base.Lines.{copied, prepend}
use vhdb.Catalog.{Entry}
use vhdb.Catalog
use vhdb.Catalog.Access
use vhdb.Catalog.Access.{find_text, find_loop, title_matches, same_prefix, str, str_in, at, by_name}
use vhdb.Config.{
  Config, Env, no_target, ftp, home_dir, set_value, config_dir, file_in_dir, config_file,
  catalog_file, printed, config_text, save, load, trim, trim_cons, skip_blanks, is_blank,
}
use vhdb.Config.RoundTrip.{Writable, load-save_config}
use vhdb.Config.Trim.{Survives}
use vhdb.Examples.Catalog.{demo_db, demo_blob}
use vhdb.Examples.Copies.{one_copy, yes_realloc}
use vhdb.Examples.Texts.{demo_entry, small_sfo}
use vhdb.Installed.{set_copy}
use vhdb.Base.Filtered.{Filtered}
use vhdb.Blocks.{blocks_loop}
use vhdb.Pc.Listing.Wanted.{Picks}
use vhdb.Md5
use vhdb.Pc.Commands
use vhdb.Pc.Commands.{Progress, install_loop}
use vhdb.Pc.Commands.Counts.{named_count, Counted, install_loop-Counted}
use vhdb.Pc.Install
use vhdb.Pc.Install.{Machine, Outcome, copy_file, copy_of, md5_file, install}
use vhdb.Pc.Install.Copying.{copy_file-Copied}
use vhdb.Pc.Install.Recorded.{Verified}
use vhdb.Pc.Install.Names.{url_basename, behind_slash, name_loop, hex_byte, digit_value}
use vhdb.Pc.Net
use vhdb.Pc.Net.{
  Curl, Transfer, Request, Reply, ok, MemorySink, receive, perform, deliver, write_memory, Disk,
  FileSystem, put, download, temp_of,
}
use vhdb.Pc.Net.Download.{Left, plain, download-Left}
use vhdb.Pc.Net.Sink.{joined, receive_lem}
use vhdb.Pc.Listing
use vhdb.Pc.Listing.{Shown, Options, default_options, parse_options, list_entries}
use vhdb.Pc.Listing.Picked.{entries_from, room, list_entries-Listed}
use vhdb.Pc.Sync
use vhdb.Pc.Sync.{Computer, sync}
use vhdb.Pc.Sync.Verified.{Synced, sync-Synced}
use vhdb.Pc.Scan
use vhdb.Pc.Scan.{scan}
use vhdb.Pc.Scan.Counts.{Tally, scan-Tally}
use vhdb.Sfo.{
  parse, parse_tables, entries_loop, entry_step, place, store, key_length, key_is, copy_string,
  copy_loop, read_u32, read_u16,
}
use vhdb.Status.{has_flag}
use vhdb.Version.{to_lower}
use vhdb.Status.Labels.{install_kind, has_data_file}

abbrev letter : List ℕ
letter = codes "A"

-- Settings of one letter each.
abbrev settings : Config
settings = record {
  catalog_url = letter;
  target = ftp;
  host = letter;
  port = pos 1337;
  user = letter;
  pass = letter;
  vpk = letter;
  data_dir = letter;
  pspemu = letter;
  keep = letter;
}

letter-Survives : (size : ℕ) → 1 < size → Survives size letter
unfolding trim trim_cons skip_blanks is_blank
letter-Survives size wide = record {
  no_nul = (omega arith, tt);
  no_newline = (omega arith, tt);
  trimmed = refl;
  starts = refl;
  fits = wide;
}

settings-Writable : Writable settings
settings-Writable = record {
  catalog_url = letter-Survives 256 (omega arith);
  host = letter-Survives 64 (omega arith);
  port = omega arith;
  user = letter-Survives 64 (omega arith);
  pass = letter-Survives 64 (omega arith);
  vpk = letter-Survives 160 (omega arith);
  data_dir = letter-Survives 160 (omega arith);
  pspemu = letter-Survives 160 (omega arith);
  keep = letter-Survives 256 (omega arith);
}

abbrev home : Env
home = record { home = some (codes "/h"); config_home = none }

abbrev settings_file : List ℕ
settings_file = codes "/h/.config/vhdb/config.txt"

save-settings :
    (save home (λ path. true) settings).file ≡ some (settings_file, config_text settings)
unfolding save config_file file_in_dir config_dir printed home_dir set_value copied
save-settings = refl

load-save_config_example : load home (λ path. some (config_text settings)) ≡ (settings, true)
load-save_config_example =
    load-save_config home (λ path. true) (λ path. some (config_text settings)) settings
      settings_file (config_text settings) settings-Writable save-settings refl

-- Two blocks that arrive from every server.
abbrev two_blocks : Transfer
two_blocks = record {
  blocks = (1 ∷ 2 ∷ 3 ∷ []) ∷ (4 ∷ 5 ∷ []) ∷ [];
  completes = true;
  message = [];
  strerror = [];
  downloaded = 5;
}

abbrev server : Curl
server = record { init = true; transfer = λ request. two_blocks }

abbrev full_sink : MemorySink
full_sink = record { size = 4; stored = 1 ∷ 2 ∷ 3 ∷ 4 ∷ [] }

receive-two_blocks : receive server 4 (plain letter) ≡ ok full_sink
unfolding receive perform deliver write_memory
receive-two_blocks = refl

receive_lem_example :
    (full_sink.stored ≡ take 4 (joined two_blocks.blocks)) × (length full_sink.stored ≤ 4)
receive_lem_example = receive_lem server 4 (plain letter) full_sink receive-two_blocks

abbrev sound_disk : Disk
sound_disk = record { opens = λ path. true; writes = λ before block. true; renames = true }

abbrev old_file : FileSystem
old_file = λ path. some (9 ∷ [])

temp_of-letter : temp_of letter ≢ letter
unfolding copied
temp_of-letter e = absurd (ground (arith, e))

download-Left_example :
    Left server sound_disk
      (codes "u")
      letter
      old_file
      (download server sound_disk (codes "u") letter old_file)
download-Left_example = download-Left server sound_disk (codes "u") letter old_file temp_of-letter

abbrev machine : Machine
machine = record {
  curl = server;
  disk = sound_disk;
  takes = λ before block. length block;
  realloc = yes_realloc;
}

copies-file : (copy_file machine letter (codes "B") old_file).0 ≡ true
unfolding copy_file put Install.write_blocks Install.blocks_loop Base.equal
copies-file = refl

copy_file-Copied_example :
    ((letter ≢ codes "B")
        × ((copy_file machine letter (codes "B") old_file).1 (codes "B") ≡ old_file letter)
      ⊎ ((letter ≡ codes "B")
          × ((copy_file machine letter (codes "B") old_file).1 (codes "B") ≡ some [])))
    × ((other : List ℕ)
        → other ≢ codes "B"
        → (copy_file machine letter (codes "B") old_file).1 other ≡ old_file other)
copy_file-Copied_example = copy_file-Copied machine letter (codes "B") old_file copies-file

-- An entry with a link and the digest of what the server sends, for a console with FTP.
abbrev sent_digest : List ℕ
sent_digest =
    0x7c ∷ 0xfd ∷ 0xd0 ∷ 0x78 ∷ 0x89 ∷ 0xb3 ∷ 0x29 ∷ 0x5d ∷ 0x6a ∷ 0x55 ∷ 0x09 ∷ 0x14 ∷ 0xab ∷ 0x35
    ∷ 0xe0 ∷ 0x68 ∷ []

abbrev linked : Entry
linked = record demo_entry { id = 9; hash = sent_digest }

abbrev kept_here : Config
kept_here = record settings { target = no_target }

abbrev kept_path : List ℕ
kept_path = codes "A/A"

abbrev fetched : FileSystem
fetched = (download server sound_disk letter kept_path old_file).1

abbrev installed : Outcome
installed = record {
  files = fetched;
  list = (set_copy yes_realloc one_copy (copy_of linked letter (some sent_digest))).0;
  result = true;
}

-- A console with one folder, whose param.sfo has a title id that the catalog does not know.
abbrev console : Curl
console = record {
  init = true;
  transfer = λ request. record two_blocks {
    blocks =
        (if equal request.url (codes "ftp://A:1337/ux0:/app/") then codes "d x F\n" else small_sfo)
        ∷ [];
  };
}

abbrev tallied : Scan.State
tallied = record { list = one_copy; found = 1; matched = 0; unknown = 1; retail = 0; hashed = 0 }

scan-console : scan demo_db console settings yes_realloc false one_copy ≡ some (tallied, true)
unfolding scan Scan.scan_target Scan.scan_listing Scan.scan_lines Scan.scan_line Scan.scan_folder
    Scan.scan_parsed Scan.scan_sfo Scan.count_other Scan.is_retail Scan.split_lines Scan.trim_end
    Scan.trim_cons Scan.is_directory_line Scan.last_field Scan.last_word Scan.console_url is_blank
    Net.ftp_get Net.ftp_list Net.stored_of receive perform deliver write_memory Net.login prepend
    copied Decimal.print_int Decimal.print_unsigned Decimal.digits_loop parse parse_tables
    entries_loop entry_step place store key_length key_is copy_string copy_loop read_u32 read_u16
    Access.find_titleid find_text find_loop title_matches same_prefix Base.equal slice
scan-console = refl

scan-Tally_example : Tally tallied
scan-Tally_example =
    scan-Tally demo_db console settings yes_realloc false one_copy tallied true ((λ ne. tt), tt)
      scan-console

-- A server that has the catalog that is kept.
abbrev same_server : Curl
same_server = record {
  init = true;
  transfer = λ request. record two_blocks { blocks = take 64 demo_blob ∷ [] };
}

abbrev catalog_path : List ℕ
catalog_path = codes "/h/.config/vhdb/vhdb.bin"

abbrev with_catalog : FileSystem
with_catalog path = if equal path catalog_path then some demo_blob else none

abbrev computer : Computer
computer = record { starts = true; curl = same_server; disk = sound_disk; malloc = λ n. true }

catalog_file-home : catalog_file home 512 ≡ some catalog_path
unfolding catalog_file file_in_dir config_dir printed home_dir set_value copied
catalog_file-home = refl

temp_of-catalog : temp_of catalog_path ≢ catalog_path
unfolding copied
temp_of-catalog e = absurd (ground (arith, e))

sync-current : sync computer home false with_catalog ≡ some (true, with_catalog)
unfolding sync Sync.sync_to Sync.is_current Sync.is_current_reply Sync.same_hash Sync.is_catalog
    Sync.header_hash Sync.local_hash Sync.hash_of_file Net.head_bytes Net.all_of receive perform
    deliver write_memory catalog_file file_in_dir config_dir printed home_dir set_value copied
    word_at Decimal.print_unsigned Decimal.digits_loop Base.equal
sync-current = refl

sync-Synced_example :
    Synced computer
      (load home with_catalog).0.catalog_url
      catalog_path
      with_catalog
      (true, with_catalog)
sync-Synced_example =
    sync-Synced computer home false with_catalog catalog_path (true, with_catalog) catalog_file-home
      temp_of-catalog sync-current

-- The one entry of the catalog, which the words pick.
abbrev arguments : List (List ℕ)
arguments = codes "-n" ∷ codes "3" ∷ codes "a" ∷ []

abbrev catalog_entry : Entry
catalog_entry = record demo_entry { version = 2; id = 9 }

abbrev listed : Shown
listed = record { rows = catalog_entry ∷ []; shown = 1; total = 1 }

abbrev limited : Options
limited = record default_options { limit = pos 3; words = codes "a" ∷ []; word_count = 1 }

parse-arguments : parse_options default_options arguments ≡ limited
unfolding parse_options Listing.flag_option Listing.value_option Decimal.read_int Decimal.skip_space
    Decimal.read_sign Decimal.digits_from Base.equal
parse-arguments = refl

list-demo : list_entries demo_db arguments ≡ some listed
unfolding list_entries Listing.list_loop Listing.entry_of_rank Listing.is_picked Listing.unwanted
    Listing.matches Listing.contains Listing.starts_with Listing.count_row Listing.has_room
    parse_options Listing.flag_option Listing.value_option Decimal.read_int Decimal.skip_space
    Decimal.read_sign Decimal.digits_from to_lower by_name Access.ranked Catalog.entry_at word_at
    slice str str_in text_at Base.equal
list-demo = refl

list_entries-Listed_example :
    let o = parse_options default_options arguments in
    (es : List Entry) × (ps : List Entry) × (entries_from demo_db o.by_date demo_db.count 0
      ≡ some es)
    × Filtered (Picks demo_db o) es ps
    × (listed.rows ≡ take (room o.limit) ps)
    × (listed.shown ≡ length listed.rows)
    × (listed.total ≡ length ps)
list_entries-Listed_example = list_entries-Listed demo_db arguments listed list-demo

-- One entry by its number, an option, and a name that the catalog does not have.
abbrev requested : List (List ℕ)
requested = codes "9" ∷ codes "-x" ∷ codes "zz" ∷ []

abbrev begun : Progress
begun = record { files = old_file; list = one_copy; failed = 0; finished = 0 }

abbrev ended : Progress
ended = record {
  files = fetched;
  list =
      (set_copy yes_realloc one_copy
        (copy_of catalog_entry (codes "1") (md5_file fetched kept_path))).0;
  failed = 1;
  finished = 1;
}

install_loop-requested :
    install_loop machine kept_here demo_db (2 ^ 32) false requested begun ≡ some ended
unfolding install_loop Commands.is_option Commands.install_named Commands.find_entry
    Commands.is_entry_number Commands.find_number Commands.find_name Commands.record_of
    Listing.same_word to_lower Catalog.entry_at word_at slice at by_name Decimal.read_unsigned
    Decimal.unsigned_of Decimal.read_int Decimal.skip_space Decimal.read_sign Decimal.digits_from
    install Install.downloaded Install.checked Install.check_digest Install.has_checksum
    Install.by_kind Install.record_copy Install.hand_over Install.finish Install.fetch_data md5_file
    copy_of Install.is_file install_kind has_data_file url_basename behind_slash name_loop has_flag
    str str_in text_at download Net.after_transfer Net.into_place put perform deliver Net.write_file
    copied Base.equal
install_loop-requested = refl

install_loop-Counted_example : Counted (named_count requested) begun ended
install_loop-Counted_example =
    install_loop-Counted machine kept_here demo_db (2 ^ 32) false requested begun ended
      install_loop-requested ((λ ne. tt), tt)

-- A name of which an escape makes a path: the slash is cut before it is decoded.
url_basename-escape : url_basename (codes "http://h/..%2Fx") 512 ≡ codes "../x"
unfolding url_basename behind_slash name_loop hex_byte digit_value Base.equal
url_basename-escape = refl
