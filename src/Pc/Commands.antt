-- ===== src/Pc/Commands.antt =====
-- pc/main.c: `vhdb install` and `vhdb scan`, which work on the catalog and the list that are kept.
pub mod Counts
use vhdb.Base.{
  ℕ, zero, suc, ◌+◌, ◌*◌, ◌%◌, ◌^◌, ◌==◌, ltb, leb, if◌then◌else◌, Bool, true, false, not, ◌&&◌,
  ◌||◌, List, [], ◌∷◌, ◌++◌, Option, none, some, ◌>>=◌, equal, codes,
}
use vhdb.Base.Decimal.{read_unsigned}
use vhdb.Catalog.{Db, Entry, entry_at}
use vhdb.Catalog.Access.{at, by_name, str}
use vhdb.Catalog.Load
use vhdb.Catalog.Load.{
  Code, err_open, err_read, err_magic, err_version, err_layout, err_crc, err_memory,
}
use vhdb.Config
use vhdb.Config.{Config, Env, catalog_file, file_in_dir}
use vhdb.Installed.{Copies}
use vhdb.Installed.Text
use vhdb.Pc.Install.{Machine, install}
use vhdb.Pc.Listing.{same_word}
use vhdb.Pc.Net.{FileSystem, put}
use vhdb.Pc.Scan
use vhdb.Pc.Sync.{Computer, host_of}

-- `installed_path`
unfoldable pub installed_path : Env → ℕ → Option (List ℕ)
installed_path env size = file_in_dir (codes "/installed.txt") env size

-- The record behind a pointer; a NULL that is read is a fault too.
unfoldable pub record_of : Db → Option ℕ → Option Entry
record_of db found = found >>= λ p. db.blob >>= λ blob. entry_at blob p

-- The two loops of `find_entry` from an index on, with `k` left. The outer `none` is a fault.
unfoldable pub find_number : Db → ℕ → ℕ → ℕ → Option (Option Entry)
find_number db id zero i = some none
find_number db id (suc k) i = record_of db (at db i) >>= λ rec.
    let rest = find_number db id k (i + 1) in if rec.id == id then some (some rec) else rest

unfoldable pub find_name : Db → List ℕ → ℕ → ℕ → Option (Option Entry)
find_name db wanted zero i = some none
find_name db wanted (suc k) i = by_name db i >>= λ found. record_of db found >>= λ rec.
    str db rec.name >>= λ name.
    let rest = find_name db wanted k (i + 1) in
    if same_word name wanted then some (some rec) else rest

unfoldable pub is_entry_number : List ℕ → Bool
is_entry_number [] = false
is_entry_number (c ∷ cs) = leb b'0' c && leb c b'9'

-- `find_entry`, where `max` is the largest `unsigned long`.
unfoldable pub find_entry : ℕ → Db → List ℕ → Option (Option Entry)
find_entry max db wanted =
    let named = find_name db wanted db.count 0 in
    (if is_entry_number wanted
      then find_number db (read_unsigned max wanted % 2 ^ 32) db.count 0
      else some none)
    >>= λ found. elim found [ none ↦ named | some rec ↦ some (some rec) ]

-- What the loop of `command_install` keeps.
pub record Progress : Type 0 where
  pub files : FileSystem
  pub list : Copies
  pub failed : ℕ
  pub finished : ℕ

unfoldable pub is_option : List ℕ → Bool
is_option [] = false
is_option (c ∷ cs) = c == b'-'

-- The body of the loop for an argument that is none of the options.
unfoldable pub install_named :
    Machine → Config → Db → ℕ → Bool → List ℕ → Progress → Option Progress
install_named m cfg db max with_data arg st = find_entry max db arg >>= λ found. elim found [
  | none ↦ some (record st { failed = st.failed + 1 })
  | some rec ↦
      (install m cfg db rec st.list with_data st.files >>= λ out. some (
        if out.result
        then record {
          files = out.files;
          list = out.list;
          failed = st.failed;
          finished = st.finished + 1;
        }
        else record {
          files = out.files;
          list = out.list;
          failed = st.failed + 1;
          finished = st.finished;
        }))
]

unfoldable pub install_loop :
    Machine → Config → Db → ℕ → Bool → List (List ℕ) → Progress → Option Progress
install_loop m cfg db max with_data [] st = some st
install_loop m cfg db max with_data (arg ∷ args) st =
    (if is_option arg then some st else install_named m cfg db max with_data arg st) >>= λ next.
    install_loop m cfg db max with_data args next

unfoldable pub has_data_option : List (List ℕ) → Bool
has_data_option [] = false
has_data_option (arg ∷ args) = equal arg (codes "--data") || has_data_option args

-- `vhdb_installed_save` to a path, whose result is not looked at.
unfoldable pub save_list : Computer → List ℕ → Copies → FileSystem → FileSystem
save_list computer path list fs = elim (Text.save (computer.disk.opens path) list) [
  | none ↦ fs
  | some text ↦ put path (some text) fs
]

-- What `command_install` does once the catalog is open. The flag says that it returns 0.
unfoldable pub install_end : Computer → List ℕ → Progress → Bool × FileSystem
install_end computer path st = (
  st.failed == 0,
  if ltb 0 st.finished then save_list computer path st.list st.files else st.files,
)

unfoldable pub install_open :
    Computer
    → Machine
    → Config
    → ℕ
    → List (List ℕ)
    → List ℕ
    → FileSystem
    → Db
    → Option (Bool × FileSystem)
install_open computer m cfg max args path fs db =
    let list = (Text.load m.realloc max (fs path)).0 in
    let done =
      install_loop m cfg db max (has_data_option args) args
        (record { files = fs; list = list; failed = 0; finished = 0 })
      >>= λ st. some (install_end computer path st) in
    if not computer.starts then some (false, fs) else done

-- `open_catalog`: what is done with the catalog, if it opens.
unfoldable pub on_catalog :
    (Db → Option (Bool × FileSystem)) → FileSystem → Db × Code → Option (Bool × FileSystem)
on_catalog next fs (db, Load.ok) = next db
on_catalog next fs (db, err_open) = some (false, fs)
on_catalog next fs (db, err_read) = some (false, fs)
on_catalog next fs (db, err_magic) = some (false, fs)
on_catalog next fs (db, err_version) = some (false, fs)
on_catalog next fs (db, err_layout) = some (false, fs)
on_catalog next fs (db, err_crc) = some (false, fs)
on_catalog next fs (db, err_memory) = some (false, fs)

unfoldable pub open_catalog :
    Computer → Env → (Db → Option (Bool × FileSystem)) → FileSystem → Option (Bool × FileSystem)
open_catalog computer env next fs = elim (catalog_file env 512) [
  | none ↦ some (false, fs)
  | some path ↦ (Load.load false (host_of computer fs path) >>= λ loaded. on_catalog next fs loaded)
]

-- `command_install` and `command_scan`. The path of the list, which they read without a look at
-- whether it fits, is `none` where it does not.
unfoldable pub command_install :
    Computer → Machine → Env → ℕ → List (List ℕ) → FileSystem → Option (Bool × FileSystem)
command_install computer m env max args fs =
    open_catalog computer env
      (λ db. installed_path env 512 >>= λ path.
        install_open computer m (Config.load env fs).0 max args path fs db)
      fs

unfoldable pub scan_open :
    Computer → Machine → Config → ℕ → Bool → List ℕ → FileSystem → Db → Option (Bool × FileSystem)
scan_open computer m cfg max rehash path fs db =
    let list = (Text.load m.realloc max (fs path)).0 in
    let done = Scan.scan db m.curl cfg m.realloc rehash list >>= λ out.
    some (out.1, if out.1 then save_list computer path out.0.list fs else fs) in
    if not computer.starts then some (false, fs) else done

unfoldable pub command_scan :
    Computer → Machine → Env → ℕ → Bool → FileSystem → Option (Bool × FileSystem)
command_scan computer m env max rehash fs =
    open_catalog computer env
      (λ db. installed_path env 512 >>= λ path.
        scan_open computer m (Config.load env fs).0 max rehash path fs db)
      fs
