-- ===== src/Pc/Sync.antt =====
-- pc/main.c: `vhdb sync`, which fetches the catalog if it changed.
pub mod Verified
use vhdb.Base.{
  ℕ, zero, suc, ◌+◌, ◌*◌, ◌==◌, if◌then◌else◌, Bool, true, false, not, ◌&&◌, List, [], ◌∷◌, Option,
  none, some, ◌>>=◌, length, take, word_at,
}
use vhdb.Catalog.{Db, magic_number, header_size}
use vhdb.Catalog.Load
use vhdb.Catalog.Load.{
  Host, OpenFile, Code, err_open, err_read, err_magic, err_version, err_layout, err_crc, err_memory,
}
use vhdb.Config
use vhdb.Config.{Config, Env, catalog_file}
use vhdb.Pc.Net.{Curl, Reply, ok, err, Disk, FileSystem, put, head_bytes, download}

-- What the command runs on: whether `curl_global_init` works, libcurl, the C library's file
-- functions, and `malloc`.
pub record Computer : Type 0 where
  pub starts : Bool
  pub curl : Curl
  pub disk : Disk
  pub malloc : ℕ → Bool

-- A file of the computer, as `vhdb_load` reads it.
unfoldable pub host_of : Computer → FileSystem → List ℕ → Host
host_of computer fs path = record {
  open_file =
      (fs path >>= λ bytes.
      some (record { seek_end = true; tell = some (length bytes); read = λ n. take n bytes }));
  malloc = computer.malloc;
}

-- `read_u32` of a header at its start and at byte 40: the number of the format, and the hash.
unfoldable pub is_catalog : List ℕ → Option Bool
is_catalog header = word_at header 0 >>= λ magic. some (magic == magic_number)

unfoldable pub header_hash : List ℕ → Option ℕ
header_hash header = word_at header 40

-- `local_hash` of a file's bytes; the outer `none` is a read outside the header.
unfoldable pub hash_of_file : List ℕ → Option (Option ℕ)
hash_of_file bytes =
    let header = take header_size bytes in
    if not (length header == header_size)
    then some none
    else (is_catalog header >>= λ ours.
        if ours then (header_hash header >>= λ hash. some (some hash)) else some none)

unfoldable pub local_hash : FileSystem → List ℕ → Option (Option ℕ)
local_hash fs path = elim (fs path) [ none ↦ some none | some bytes ↦ hash_of_file bytes ]

-- Whether the file has the hash of a remote header, which need not be one of a catalog.
unfoldable pub same_hash : FileSystem → List ℕ → List ℕ → Option Bool
same_hash fs path header = is_catalog header >>= λ ours.
    if ours
    then (header_hash header >>= λ remote. local_hash fs path >>= λ found.
        some (elim found [ none ↦ false | some hash ↦ hash == remote ]))
    else some false

-- Whether the catalog is current: the header that the server sends is asked for if nothing is
-- forced.
unfoldable pub is_current_reply : FileSystem → List ℕ → Reply (List ℕ) → Option Bool
is_current_reply fs path (ok header) = same_hash fs path header
is_current_reply fs path (err message) = some false

unfoldable pub is_current : Computer → FileSystem → List ℕ → List ℕ → Bool → Option Bool
is_current computer fs url path force =
    let asked = is_current_reply fs path (head_bytes computer.curl url header_size) in
    if force then some false else asked

-- After the download: a file that `vhdb_load` does not accept goes. The flag says that the command
-- returns 0.
unfoldable pub after_load : FileSystem → List ℕ → Code → Bool × FileSystem
after_load fs path Load.ok = (true, fs)
after_load fs path err_open = (false, put path none fs)
after_load fs path err_read = (false, put path none fs)
after_load fs path err_magic = (false, put path none fs)
after_load fs path err_version = (false, put path none fs)
after_load fs path err_layout = (false, put path none fs)
after_load fs path err_crc = (false, put path none fs)
after_load fs path err_memory = (false, put path none fs)

unfoldable pub after_download :
    Computer → List ℕ → Reply (Unit {0}) × FileSystem → Option (Bool × FileSystem)
after_download computer path (err message, fs) = some (false, fs)
after_download computer path (ok u, fs) =
    Load.load true (host_of computer fs path) >>= λ loaded. some (after_load fs path loaded.1)

-- `command_sync` for a URL and a path.
unfoldable pub sync_to : Computer → Bool → List ℕ → List ℕ → FileSystem → Option (Bool × FileSystem)
sync_to computer force url path fs =
    let fetched = after_download computer path (download computer.curl computer.disk url path fs) in
    if not computer.starts
    then some (false, fs)
    else (is_current computer fs url path force >>= λ current.
        if current then some (true, fs) else fetched)

-- `command_sync`. The path that it reads without a look at whether it fits is `none` where it does
-- not.
unfoldable pub sync : Computer → Env → Bool → FileSystem → Option (Bool × FileSystem)
sync computer env force fs = catalog_file env 512 >>= λ path.
    sync_to computer force (Config.load env fs).0.catalog_url path fs
