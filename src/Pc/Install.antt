-- ===== src/Pc/Install.antt =====
-- pc/install.c: an entry is downloaded, checked, sent to the console or a folder, and recorded.
pub mod Names
pub mod Copying
pub mod Arrived
pub mod Recorded
use vhdb.Base.{
  ℕ, zero, suc, ◌+◌, ◌-◌, ◌*◌, ◌/◌, ◌%◌, ◌==◌, ltb, leb, if◌then◌else◌, Bool, true, false, not,
  ◌&&◌, ◌||◌, List, [], ◌∷◌, ◌++◌, Option, none, some, ◌>>=◌, length, take, drop, equal, until_nul,
  codes, replicate,
}
use vhdb.Base.Decimal.{print_int}
use vhdb.Base.Int.{pos}
use vhdb.Base.Lines.{copied}
use vhdb.Catalog.{Db, Entry}
use vhdb.Catalog.Access
use vhdb.Catalog.Access.{str}
use vhdb.Config.{Config, Target, no_target, ftp, folder}
use vhdb.Installed.{Copies, set_copy}
use vhdb.Installed.Text.{no_hash}
use vhdb.Md5.{file_digest}
use vhdb.Pc.Net.{Curl, Reply, ok, err, Disk, FileSystem, put, download, ftp_upload}
use vhdb.Pc.Install.Names.{url_basename, escape_path}
use vhdb.Status.{Installed, has_flag, rolling_flag}
use vhdb.Status.Labels.{InstallKind, vpk, psp, manual, pc, install_kind, has_data_file}

-- The blocks that `fread` gives of a file, on fuel: each takes a byte at least.
unfoldable pub blocks_loop : ℕ → List ℕ → List (List ℕ)
blocks_loop zero bytes = []
blocks_loop (suc fuel) [] = []
blocks_loop (suc fuel) (c ∷ cs) = take 32768 (c ∷ cs) ∷ blocks_loop fuel (drop 32768 (c ∷ cs))

abbrev pub file_blocks : List ℕ → List (List ℕ)
file_blocks bytes = blocks_loop (length bytes) bytes

-- `vhdb_md5_file`
unfoldable pub md5_file : FileSystem → List ℕ → Option (List ℕ)
md5_file fs path = fs path >>= λ bytes. some (file_digest (file_blocks bytes))

-- What the program runs on: libcurl, the answers to the C library's file functions, how many bytes
-- `fwrite` takes of a block behind those written, and `realloc`.
pub record Machine : Type 0 where
  pub curl : Curl
  pub disk : Disk
  pub takes : List ℕ → List ℕ → ℕ
  pub realloc : ℕ → Bool

-- The loop of `copy_file`.
unfoldable pub write_blocks : (List ℕ → List ℕ → ℕ) → List ℕ → List (List ℕ) → List ℕ × Bool
write_blocks takes written [] = (written, true)
write_blocks takes written (block ∷ blocks) =
    let n = takes written block in
    let rest = write_blocks takes (written ++ block) blocks in
    if n == length block then rest else (written ++ take n block, false)

-- `copy_file`: opening the second file empties it, and the first where they are the same.
unfoldable pub copy_file : Machine → List ℕ → List ℕ → FileSystem → Bool × FileSystem
copy_file m source target fs = elim (fs source) [
  | none ↦ (false, fs)
  | some before ↦
      let opened = put target (some []) fs in
      let now : List ℕ = elim (opened source) [ none ↦ [] | some bytes ↦ bytes ] in
      let copy = write_blocks m.takes [] (file_blocks now) in
      if not (m.disk.opens target) then (false, fs) else (copy.1, put target (some copy.0) opened)
]

-- The slashes at the end of a folder go.
unfoldable pub slash_cons : ℕ → List ℕ → List ℕ
slash_cons c [] = if c == b'/' then [] else c ∷ []
slash_cons c (d ∷ ds) = c ∷ (d ∷ ds)

unfoldable pub trim_slashes : List ℕ → List ℕ
trim_slashes [] = []
trim_slashes (c ∷ cs) = slash_cons c (trim_slashes cs)

-- The URL of a file on the console, and its path in a folder.
unfoldable pub upload_url : Config → List ℕ → List ℕ → List ℕ
upload_url cfg trimmed filename = copied 1024 (
    codes "ftp://"
    ++ (cfg.host
        ++ (b':'
            ∷ (print_int cfg.port ++ (b'/' ∷ (trimmed ++ (b'/' ∷ escape_path filename 512)))))))

abbrev pub path_in : List ℕ → List ℕ → List ℕ
path_in dir filename = copied 1024 (dir ++ (b'/' ∷ filename))

unfoldable pub is_sent : Reply (Unit {0}) → Bool
is_sent (ok u) = true
is_sent (err message) = false

unfoldable pub is_file : Option (List ℕ) → Bool
is_file none = false
is_file (some bytes) = true

-- `send_to_target`, which only says 1 where no target is set. The folders that it makes are no part
-- of the file system of the model.
unfoldable pub send_to :
    Target → Machine → Config → List ℕ → List ℕ → List ℕ → FileSystem → Bool × FileSystem
send_to no_target m cfg trimmed local filename fs = (true, fs)
send_to ftp m cfg trimmed local filename fs = (
  is_sent
      (ftp_upload m.curl (is_file (fs local)) (upload_url cfg trimmed filename) cfg.user cfg.pass),
  fs,
)
send_to folder m cfg trimmed local filename fs = copy_file m local (path_in trimmed filename) fs

unfoldable pub send_to_target :
    Machine → Config → List ℕ → List ℕ → List ℕ → FileSystem → Bool × FileSystem
send_to_target m cfg dir local filename fs =
    send_to cfg.target m cfg (trim_slashes (copied 192 dir)) local filename fs

-- What the comparison with the catalog's checksum says; a download that passes has a digest unless
-- it cannot be read back.
pub data Checked : Type 0 where
  unreadable mismatch : Checked
  passed : Option (List ℕ) → Checked

-- Whether the catalog has a checksum for the entry.
unfoldable pub has_checksum : Entry → Bool
has_checksum rec = not (has_flag rec.flags rolling_flag) && not (equal rec.hash no_hash)

unfoldable pub check_digest : Entry → Option (List ℕ) → Checked
check_digest rec digest =
    if has_checksum rec
    then elim digest [
      | none ↦ unreadable
      | some found ↦ if equal found rec.hash then passed (some found) else mismatch
    ]
    else passed digest

-- What `vhdb_pc_install` leaves, and its result.
pub record Outcome : Type 0 where
  pub files : FileSystem
  pub list : Copies
  pub result : Bool

-- The copy that is recorded.
unfoldable pub copy_of : Entry → List ℕ → Option (List ℕ) → Installed
copy_of rec version digest = record {
  id = rec.id;
  titleid = until_nul (Access.titleid rec (replicate 13 0)).0;
  version = copied 32 version;
  hash = elim digest [ none ↦ no_hash | some found ↦ found ];
  has_hash = is_file digest;
  eboot = no_hash;
  has_eboot = false;
  aux = no_hash;
  has_aux = false;
  from_console = pos 0;
}

-- The engine data file, whose failure changes nothing of the result.
unfoldable pub fetch_data : Machine → Config → Db → Entry → Bool → FileSystem → Option FileSystem
fetch_data m cfg db rec with_data fs =
    if with_data && has_data_file rec
    then (str db rec.data_url >>= λ url.
        some (download m.curl m.disk url (path_in cfg.keep (url_basename url 512)) fs).1)
    else some fs

-- The transfer to the target, or `none` where no target is set: no transfer is made then.
unfoldable pub hand_over :
    Target → Machine → Config → List ℕ → List ℕ → List ℕ → FileSystem → Option (Bool × FileSystem)
hand_over no_target m cfg dir local filename fs = none
hand_over ftp m cfg dir local filename fs = some (send_to_target m cfg dir local filename fs)
hand_over folder m cfg dir local filename fs = some (send_to_target m cfg dir local filename fs)

-- From the engine data file on.
unfoldable pub finish :
    Machine → Config → Db → Entry → Copies → Bool → Option (List ℕ) → FileSystem → Option Outcome
finish m cfg db rec list with_data digest fs = fetch_data m cfg db rec with_data fs >>= λ files.
    str db rec.version >>= λ version. some (record {
      files = files;
      list = (set_copy m.realloc list (copy_of rec version digest)).0;
      result = true;
    })

-- From the answer of the transfer on, if one was made.
unfoldable pub record_copy :
    Machine
    → Config
    → Db
    → Entry
    → Copies
    → Bool
    → Option (List ℕ)
    → FileSystem
    → Option (Bool × FileSystem)
    → Option Outcome
record_copy m cfg db rec list with_data digest fs none =
    finish m cfg db rec list with_data digest fs
record_copy m cfg db rec list with_data digest fs (some (sent, now)) =
    if not sent
    then some (record { files = now; list = list; result = false })
    else finish m cfg db rec list with_data digest now

abbrev pub unchanged : Copies → FileSystem → Bool → Option Outcome
unchanged list fs result = some (record { files = fs; list = list; result = result })

-- From the kind of the entry on.
unfoldable pub by_kind :
    InstallKind
    → Machine
    → Config
    → Db
    → Entry
    → Copies
    → Bool
    → List ℕ
    → List ℕ
    → Option (List ℕ)
    → FileSystem
    → Option Outcome
by_kind manual m cfg db rec list with_data local filename digest fs = unchanged list fs true
by_kind pc m cfg db rec list with_data local filename digest fs = unchanged list fs true
by_kind psp m cfg db rec list with_data local filename digest fs =
    record_copy m cfg db rec list with_data digest fs
      (hand_over cfg.target m cfg cfg.pspemu local filename fs)
by_kind vpk m cfg db rec list with_data local filename digest fs =
    record_copy m cfg db rec list with_data digest fs
      (hand_over cfg.target m cfg cfg.vpk local filename fs)

-- From the checksum on.
unfoldable pub checked :
    Machine
    → Config
    → Db
    → Entry
    → Copies
    → Bool
    → List ℕ
    → List ℕ
    → FileSystem
    → Checked
    → Option Outcome
checked m cfg db rec list with_data local filename fs unreadable = unchanged list fs false
checked m cfg db rec list with_data local filename fs mismatch =
    unchanged list (put local none fs) false
checked m cfg db rec list with_data local filename fs (passed digest) =
    by_kind (install_kind rec) m cfg db rec list with_data local filename digest fs

-- From the download on.
unfoldable pub downloaded :
    Machine
    → Config
    → Db
    → Entry
    → Copies
    → Bool
    → List ℕ
    → List ℕ
    → Reply (Unit {0}) × FileSystem
    → Option Outcome
downloaded m cfg db rec list with_data local filename (err message, fs) = unchanged list fs false
downloaded m cfg db rec list with_data local filename (ok u, fs) =
    checked m cfg db rec list with_data local filename fs (check_digest rec (md5_file fs local))

-- `vhdb_pc_install`; `none` is a read outside the catalog's bytes.
unfoldable pub install : Machine → Config → Db → Entry → Copies → Bool → FileSystem → Option Outcome
install m cfg db rec list with_data fs = str db rec.url >>= λ url.
    let filename = url_basename url 512 in
    let local = path_in cfg.keep filename in
    if equal url []
    then unchanged list fs false
    else (str db rec.name >>= λ name. str db rec.version >>= λ version.
        downloaded m cfg db rec list with_data local filename (download m.curl m.disk url local fs))
