-- ===== src/Pc/Scan.antt =====
-- pc/scan.c: the list of installed copies is brought in line with a console, over FTP.
pub mod Counts
use vhdb.Base.{
  ℕ, zero, suc, ◌+◌, ◌==◌, if◌then◌else◌, Bool, true, false, not, ◌&&◌, ◌||◌, List, [], ◌∷◌, ◌++◌,
  Option, none, some, ◌>>=◌, get_elem?, set, take, equal, until_nul, codes,
}
use vhdb.Base.Decimal.{print_int}
use vhdb.Base.Int.{pos}
use vhdb.Base.Lines.{copied, prepend}
use vhdb.Catalog.{Db, Entry, entry_at}
use vhdb.Catalog.Access
use vhdb.Catalog.Names.{aux_path}
use vhdb.Config.{Config, Target, no_target, ftp, folder, is_blank}
use vhdb.Installed.{Copies, set_copy, find_titleid}
use vhdb.Installed.Text.{no_hash}
use vhdb.Pc.Net.{Curl, Reply, ok, err, ftp_get, ftp_list, ftp_md5}
use vhdb.Sfo.{Sfo, Code, err_size, err_magic, err_layout, parse}
use vhdb.Sfo
use vhdb.Status.{Installed, has_flag, eboot_flag, aux_flag}

-- The lines of a listing, without their newlines.
unfoldable pub split_lines : List ℕ → List (List ℕ)
split_lines [] = []
split_lines (c ∷ cs) = let rest = split_lines cs in if c == b'\n' then [] ∷ rest else prepend c rest

-- The carriage returns and spaces at the end of a line go.
unfoldable pub trim_cons : ℕ → List ℕ → List ℕ
trim_cons c [] = if c == b'\r' || c == b' ' then [] else c ∷ []
trim_cons c (d ∷ ds) = c ∷ (d ∷ ds)

unfoldable pub trim_end : List ℕ → List ℕ
trim_end [] = []
trim_end (c ∷ cs) = trim_cons c (trim_end cs)

unfoldable pub is_directory_line : List ℕ → Bool
is_directory_line [] = false
is_directory_line (c ∷ cs) = c == b'd'

-- The text from the start of its last word on, where the flag says that a word may start here.
unfoldable pub last_word : Bool → List ℕ → Option (List ℕ)
last_word starts [] = none
last_word starts (c ∷ cs) =
    let later = last_word (is_blank c) cs in
    elim later [
      | some s ↦ some s
      | none ↦ if starts && not (is_blank c) then some (c ∷ cs) else none
    ]

-- `last_field`
unfoldable pub last_field : List ℕ → List ℕ
last_field line = elim (last_word true line) [ none ↦ line | some word ↦ word ]

-- A path on the console, in the array of 512 characters.
unfoldable pub console_url : Config → List ℕ → List ℕ
console_url cfg path =
    copied 512 (
      codes "ftp://" ++ (cfg.host ++ (b':' ∷ (print_int cfg.port ++ (codes "/ux0:/app/" ++ path)))))

-- The two halves of `hash_app`.
unfoldable pub hash_eboot : Curl → Config → Entry → List ℕ → Installed → Installed
hash_eboot curl cfg rec titleid e =
    if has_flag rec.flags eboot_flag
    then elim (ftp_md5 curl (console_url cfg (titleid ++ codes "/eboot.bin")) cfg.user cfg.pass) [
      | ok found ↦ record e { eboot = found.0; has_eboot = true }
      | err message ↦ e
    ]
    else e

unfoldable pub hash_aux : Curl → Config → Entry → List ℕ → Installed → Installed
hash_aux curl cfg rec titleid e =
    if has_flag rec.flags aux_flag
    then elim (ftp_md5 curl (console_url cfg (titleid ++ (b'/' ∷ aux_path rec.aux_kind))) cfg.user
        cfg.pass) [ ok found ↦ record e { aux = found.0; has_aux = true } | err message ↦ e ]
    else e

unfoldable pub hash_app : Curl → Config → Entry → List ℕ → Installed → Installed
hash_app curl cfg rec titleid e = hash_aux curl cfg rec titleid (hash_eboot curl cfg rec titleid e)

-- The list, and the five counters.
pub record State : Type 0 where
  pub list : Copies
  pub found : ℕ
  pub matched : ℕ
  pub unknown : ℕ
  pub retail : ℕ
  pub hashed : ℕ

unfoldable pub has_content : Installed → Bool
has_content e = e.has_eboot || e.has_aux

-- `hashed++` for a copy whose content is known.
unfoldable pub count_hashed : Installed → State → State
count_hashed e st = if has_content e then record st { hashed = st.hashed + 1 } else st

-- A copy that is in the list already.
unfoldable pub refreshed : Curl → Config → Bool → Entry → Sfo → List ℕ → Installed → Installed
refreshed curl cfg rehash rec sfo titleid e =
    let here = record e {
      from_console = pos 1;
      version = if e.has_hash then e.version else copied 32 (until_nul sfo.app_ver);
    } in
    if rehash || not (has_content e) then hash_app curl cfg rec titleid here else here

-- A copy that is new.
unfoldable pub fresh : Curl → Config → Entry → Sfo → List ℕ → Installed
fresh curl cfg rec sfo titleid = hash_app curl cfg rec titleid (record {
  id = rec.id;
  titleid = copied 13 (take 12 titleid);
  version = copied 32 (until_nul sfo.app_ver);
  hash = no_hash;
  has_hash = false;
  eboot = no_hash;
  has_eboot = false;
  aux = no_hash;
  has_aux = false;
  from_console = pos 1;
})

-- An application of the catalog.
unfoldable pub record_app : Curl → Config → (ℕ → Bool) → Bool → Entry → Sfo → List ℕ → State → State
record_app curl cfg realloc rehash rec sfo titleid st =
    let new = fresh curl cfg rec sfo titleid in
    elim (find_titleid st.list titleid) [
      | some i ↦ elim (get_elem? st.list.items i) [
        | none ↦ st
        | some e ↦
            let e' = refreshed curl cfg rehash rec sfo titleid e in
            count_hashed e' (record st { list = record st.list { items = set st.list.items i e' } })
      ]
      | none ↦ count_hashed new (record st { list = (set_copy realloc st.list new).0 })
    ]

-- An application that the catalog does not have: a game bought in a shop, or an unknown one.
unfoldable pub is_retail : List ℕ → Bool
is_retail titleid = equal (take 3 titleid) (codes "PCS") || equal (take 3 titleid) (codes "NPX")

unfoldable pub count_other : List ℕ → State → State
count_other titleid st =
    if is_retail titleid
    then record st { retail = st.retail + 1 }
    else record st { unknown = st.unknown + 1 }

-- From the parsed param.sfo of the folder `name` on; `none` is a read outside a buffer.
unfoldable pub scan_sfo :
    Db → Curl → Config → (ℕ → Bool) → Bool → List ℕ → Sfo → State → Option State
scan_sfo db curl cfg realloc rehash name sfo st =
    let own = until_nul sfo.title_id in
    let titleid = if equal own [] then copied 16 name else own in
    Access.find_titleid db (some titleid) >>= λ found. elim found [
      | none ↦ some (count_other titleid st)
      | some p ↦
          (db.blob >>= λ blob. entry_at blob p >>= λ rec. some (
            record_app curl cfg realloc rehash rec sfo titleid
              (record st { matched = st.matched + 1 })))
    ]

unfoldable pub scan_parsed :
    Db → Curl → Config → (ℕ → Bool) → Bool → List ℕ → Sfo → Code → State → Option State
scan_parsed db curl cfg realloc rehash name sfo Sfo.ok st =
    scan_sfo db curl cfg realloc rehash name sfo st
scan_parsed db curl cfg realloc rehash name sfo err_size st = some st
scan_parsed db curl cfg realloc rehash name sfo err_magic st = some st
scan_parsed db curl cfg realloc rehash name sfo err_layout st = some st

-- A folder of the listing.
unfoldable pub scan_folder : Db → Curl → Config → (ℕ → Bool) → Bool → List ℕ → State → Option State
scan_folder db curl cfg realloc rehash name st =
    elim (ftp_get curl (console_url cfg (name ++ codes "/sce_sys/param.sfo")) cfg.user cfg.pass
      65536) [
        | err message ↦ some st
        | ok bytes ↦
            (parse bytes >>= λ parsed.
            scan_parsed db curl cfg realloc rehash name parsed.0 parsed.1 st)
      ]

-- The body of the loop for a line of the listing.
unfoldable pub scan_line : Db → Curl → Config → (ℕ → Bool) → Bool → List ℕ → State → Option State
scan_line db curl cfg realloc rehash text st =
    let line = trim_end text in
    let name = last_field line in
    if not (is_directory_line line)
    then some st
    else if equal name [] || (equal name (codes ".") || equal name (codes ".."))
    then some st
    else scan_folder db curl cfg realloc rehash name (record st { found = st.found + 1 })

unfoldable pub scan_lines :
    Db → Curl → Config → (ℕ → Bool) → Bool → List (List ℕ) → State → Option State
scan_lines db curl cfg realloc rehash [] st = some st
scan_lines db curl cfg realloc rehash (line ∷ more) st =
    scan_line db curl cfg realloc rehash line st >>= λ st'.
    scan_lines db curl cfg realloc rehash more st'

abbrev pub start : Copies → State
start list = record { list = list; found = 0; matched = 0; unknown = 0; retail = 0; hashed = 0 }

unfoldable pub scan_listing :
    Db → Curl → Config → (ℕ → Bool) → Bool → Copies → Reply (List ℕ) → Option (State × Bool)
scan_listing db curl cfg realloc rehash list (err message) = some (start list, false)
scan_listing db curl cfg realloc rehash list (ok listing) =
    scan_lines db curl cfg realloc rehash (split_lines (until_nul listing)) (start list) >>= λ st.
    some (st, true)

-- `vhdb_pc_scan`: what it leaves and its result.
unfoldable pub scan_target :
    Target → Db → Curl → Config → (ℕ → Bool) → Bool → Copies → Option (State × Bool)
scan_target no_target db curl cfg realloc rehash list = some (start list, false)
scan_target folder db curl cfg realloc rehash list = some (start list, false)
scan_target ftp db curl cfg realloc rehash list =
    scan_listing db curl cfg realloc rehash list
      (ftp_list curl (console_url cfg []) cfg.user cfg.pass 262144)

unfoldable pub scan : Db → Curl → Config → (ℕ → Bool) → Bool → Copies → Option (State × Bool)
scan db curl cfg realloc rehash list = scan_target cfg.target db curl cfg realloc rehash list
