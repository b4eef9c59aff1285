-- ===== src/Vita/Scan.antt =====
-- vita/scan.c: the list of installed copies is brought in line with the console.
pub mod Prune
pub mod Keeps
use vhdb.Base.{
  ℕ, zero, suc, ◌+◌, ◌==◌, if◌then◌else◌, Bool, true, false, not, ◌&&◌, ◌||◌, List, [], ◌∷◌, ◌++◌,
  Option, none, some, ◌>>=◌, get_elem?, set, take, equal, until_nul, codes, replicate,
}
use vhdb.Base.Int.{pos}
use vhdb.Base.Lines.{copied}
use vhdb.Catalog.{Db, Entry, entry_at}
use vhdb.Catalog.Access.{str}
use vhdb.Catalog.Access
use vhdb.Catalog.Names.{aux_path}
use vhdb.Installed.{Copies, count, remove, set_copy, find_titleid}
use vhdb.Installed.Text.{no_hash}
use vhdb.Md5.{file_digest}
use vhdb.Sfo.{Sfo, Code, ok, err_size, err_magic, err_layout, parse_file}
use vhdb.Status.{Installed, has_flag, eboot_flag, aux_flag}
use vhdb.Vita.{DirEntry, Files}

-- The path of a file of an application, in an array of a size.
unfoldable pub app_path : ℕ → List ℕ → List ℕ → List ℕ
app_path size name file = copied size (codes "ux0:app/" ++ (name ++ (b'/' ∷ file)))

-- `vhdb_app_installed`; an empty text stands for NULL too.
unfoldable pub app_installed : Files → List ℕ → Bool
app_installed files [] = false
app_installed files (c ∷ cs) = files.exists (app_path 128 (c ∷ cs) (codes "eboot.bin"))

-- Whether the loop of `vhdb_prune_installed` keeps a copy.
unfoldable pub stays : Files → Installed → Bool
stays files e = equal e.titleid [] || app_installed files e.titleid

-- The loop, on fuel; `none` means that the fuel ran out.
unfoldable pub prune_loop : Files → ℕ → Copies → ℕ → ℕ → Option (Copies × ℕ)
prune_loop files zero list i removed = none
prune_loop files (suc fuel) list i removed = elim (get_elem? list.items i) [
  | none ↦ some (list, removed)
  | some e ↦
      let on = prune_loop files fuel list (i + 1) removed in
      let out = prune_loop files fuel (remove list e.id).0 i (removed + 1) in
      if stays files e then on else out
]

-- `vhdb_prune_installed`: each round goes on or takes a copy out.
unfoldable pub prune : Files → Copies → Option (Copies × ℕ)
prune files list = prune_loop files (suc (count list)) list 0 0

-- `vhdb_md5_file`
unfoldable pub md5_file : Files → List ℕ → Option (List ℕ)
md5_file files path = files.blocks path >>= λ blocks. some (file_digest blocks)

-- The two halves of `hash_files`.
unfoldable pub hash_eboot : Files → Entry → List ℕ → Installed → Installed
hash_eboot files rec name e =
    if has_flag rec.flags eboot_flag
    then elim (md5_file files (app_path 256 name (codes "eboot.bin"))) [
      | none ↦ e
      | some digest ↦ record e { eboot = digest; has_eboot = true }
    ]
    else e

unfoldable pub hash_aux : Files → Entry → List ℕ → Installed → Installed
hash_aux files rec name e =
    if has_flag rec.flags aux_flag
    then elim (md5_file files (app_path 256 name (aux_path rec.aux_kind))) [
      | none ↦ e
      | some digest ↦ record e { aux = digest; has_aux = true }
    ]
    else e

unfoldable pub hash_files : Files → Entry → List ℕ → Installed → Installed
hash_files files rec name e = hash_aux files rec name (hash_eboot files rec name e)

-- The title id of an application: that of its param.sfo, if it has one, or its folder's name.
unfoldable pub title_of : Code → Sfo → List ℕ → List ℕ
title_of ok sfo name = if equal (until_nul sfo.title_id) [] then name else until_nul sfo.title_id
title_of err_size sfo name = name
title_of err_magic sfo name = name
title_of err_layout sfo name = name

-- A copy that is in the list already.
unfoldable pub refreshed : Files → Entry → Sfo → List ℕ → Installed → Installed
refreshed files rec sfo name e = hash_files files rec name (record e {
  from_console = pos 1;
  version = if equal e.version [] then copied 32 (until_nul sfo.app_ver) else e.version;
  has_eboot = false;
  has_aux = false;
})

-- A copy that is new.
unfoldable pub fresh : Files → Entry → Sfo → List ℕ → List ℕ → Installed
fresh files rec sfo name titleid = hash_files files rec name (record {
  id = rec.id;
  titleid = copied 13 (take 12 titleid);
  version = copied 32 (until_nul sfo.app_ver);
  hash = no_hash;
  has_hash = false;
  eboot = no_hash;
  has_eboot = false;
  aux = no_hash;
  has_aux = false;
  from_console = pos 1;
})

-- What the copies become for an application of the catalog. The result of `vhdb_installed_set` is
-- not looked at.
unfoldable pub record_app : Files → (ℕ → Bool) → Entry → Sfo → List ℕ → List ℕ → Copies → Copies
record_app files realloc rec sfo name titleid list = elim (find_titleid list titleid) [
  | some i ↦ elim (get_elem? list.items i) [
    | some e ↦ record list { items = set list.items i (refreshed files rec sfo name e) }
    | none ↦ list
  ]
  | none ↦ (set_copy realloc list (fresh files rec sfo name titleid)).0
]

-- The list, the number of matches, and the calls of `progress`, the last one first.
pub record State : Type 0 where
  pub list : Copies
  pub matched : ℕ
  pub reported : List (ℕ × List ℕ)

-- The name that `progress` is called with, if there is a callback.
unfoldable pub report : Bool → Db → Entry → State → Option State
report progress db rec st =
    if progress
    then (str db rec.name >>= λ name.
        some (record st { reported = (st.matched, name) ∷ st.reported }))
    else some st

-- The body of the loop for an entry of the folder; `none` is a read outside a buffer.
unfoldable pub scan_app : Db → Files → (ℕ → Bool) → Bool → DirEntry → State → Option State
scan_app db files realloc progress app st =
    parse_file (files.sfo (app_path 256 app.name (codes "sce_sys/param.sfo"))) >>= λ parsed.
    let titleid = title_of parsed.1 parsed.0 app.name in
    Access.find_titleid db (some titleid) >>= λ found. elim found [
      | none ↦ some st
      | some p ↦
          (db.blob >>= λ blob. entry_at blob p >>= λ rec.
          report progress db rec (record st { matched = st.matched + 1 }) >>= λ st'.
          some
            (record st' { list = record_app files realloc rec parsed.0 app.name titleid st'.list }))
    ]

unfoldable pub is_hidden : List ℕ → Bool
is_hidden [] = false
is_hidden (c ∷ cs) = c == b'.'

unfoldable pub scan_loop : Db → Files → (ℕ → Bool) → Bool → List DirEntry → State → Option State
scan_loop db files realloc progress [] st = some st
scan_loop db files realloc progress (app ∷ apps) st =
    (if not app.is_dir || is_hidden app.name
      then some st
      else scan_app db files realloc progress app st)
    >>= λ st'. scan_loop db files realloc progress apps st'

-- `vhdb_vita_scan`: the list that it leaves, and its result, where `none` is -1.
unfoldable pub scan : Db → Files → (ℕ → Bool) → Bool → Copies → Option (Copies × Option State)
scan db files realloc progress list = prune files list >>= λ pruned. elim files.apps [
  | none ↦ some (pruned.0, none)
  | some apps ↦
      (scan_loop db files realloc progress apps
          (record { list = pruned.0; matched = 0; reported = [] })
        >>= λ st. some (st.list, some st))
]
