-- ===== src/Pc/Scan/Counts.antt =====
-- pc/scan.c: what the counters of a scan say, and that no id is added twice.
use vhdb.Base.{
  ℕ, suc, ◌+◌, ◌≤◌, ◌≡◌, subst, arith, inl, inr, Bool, List, [], ◌∷◌, ◌++◌, none, some, get_elem?,
  set, equal, until_nul, codes, not, ◌||◌, if◌then◌else◌, Bool-cases, Option-cases,
}
use vhdb.Base.Int.{pos}
use vhdb.Base.Lines.{copied}
use vhdb.Catalog.{Db, Entry, entry_at}
use vhdb.Catalog.Access
use vhdb.Config.{Config, Target, no_target, ftp, folder}
use vhdb.Installed.{Copies, set_copy, find_titleid}
use vhdb.Installed.Unique.{Unique, set_copy-Unique}
use vhdb.Pc.Net.{Curl, Reply, ok, err, ftp_get, ftp_list}
use vhdb.Pc.Net.Download.{Reply-cases}
use vhdb.Pc.Scan.{
  State, hash_eboot, hash_aux, hash_app, has_content, count_hashed, count_other, is_retail,
  refreshed, fresh, record_app, scan_sfo, scan_parsed, scan_folder, scan_line, scan_lines, start,
  scan_listing, scan_target, scan, console_url, split_lines, trim_end, last_field,
  is_directory_line,
}
use vhdb.Sfo.{Sfo, Code, err_size, err_magic, err_layout, parse}
use vhdb.Sfo
use vhdb.Status.{Installed}
use vhdb.Vita.Scan.Keeps.{Unique-set_id}

-- Every folder with a param.sfo is counted once at most, as an application of the catalog, as a
-- retail game or as unknown; only applications of the catalog are counted as hashed; and the ids
-- other than 0 are unique.
pub record Tally (st : State) : Type 0 where
  pub sorted : st.matched + (st.unknown + st.retail) ≤ st.found
  pub hashed : st.hashed ≤ st.matched
  pub unique : Unique st.list.items

hash_app-id :
    (curl : Curl) (cfg : Config) (rec : Entry) (titleid : List ℕ) (e : Installed)
    → (hash_app curl cfg rec titleid e).id ≡ e.id
unfolding hash_app hash_eboot hash_aux
hash_app-id curl cfg rec titleid e = ground arith

refreshed-id :
    (curl : Curl) (cfg : Config) (rehash : Bool) (rec : Entry) (sfo : Sfo) (titleid : List ℕ)
    (e : Installed)
    → (refreshed curl cfg rehash rec sfo titleid e).id ≡ e.id
unfolding refreshed
refreshed-id curl cfg rehash rec sfo titleid e =
    let here : Installed = record e {
      from_console = pos 1;
      version = if e.has_hash then e.version else copied 32 (until_nul sfo.app_ver);
    } in
    ground (arith, hash_app-id curl cfg rec titleid here)

-- A match has room for one more hash.
count_hashed-Tally :
    (e : Installed) (st : State)
    → st.matched + (st.unknown + st.retail) ≤ st.found
    → suc st.hashed ≤ st.matched
    → Unique st.list.items
    → Tally (count_hashed e st)
unfolding count_hashed
count_hashed-Tally e st sorted hashed unique = elim (Bool-cases (has_content e)) [
  | inl content ↦ rw content (record { sorted = sorted; hashed = omega arith; unique = unique })
  | inr bare ↦ rw bare (record { sorted = sorted; hashed = omega arith; unique = unique })
]

same-Tally : (a b : State) → a ≡ b → Tally a → Tally b
same-Tally a b e t = subst Tally e t

record_app-Tally :
    (curl : Curl) (cfg : Config) (realloc : ℕ → Bool) (rehash : Bool) (rec : Entry) (sfo : Sfo)
    (titleid : List ℕ) (st : State)
    → st.matched + (st.unknown + st.retail) ≤ st.found
    → suc st.hashed ≤ st.matched
    → Unique st.list.items
    → Tally (record_app curl cfg realloc rehash rec sfo titleid st)
unfolding record_app
record_app-Tally curl cfg realloc rehash rec sfo titleid st sorted hashed unique =
    let new = fresh curl cfg rec sfo titleid in
    elim (Option-cases (find_titleid st.list titleid)) [
      | inl missing ↦
          let set_new =
            count_hashed-Tally new (record st { list = (set_copy realloc st.list new).0 }) sorted
              hashed (set_copy-Unique realloc st.list new unique) in
          same-Tally _ (record_app curl cfg realloc rehash rec sfo titleid st) (ground arith)
            set_new
      | inr (i, known) ↦ elim (Option-cases (get_elem? st.list.items i)) [
        | inl out ↦
            same-Tally st (record_app curl cfg realloc rehash rec sfo titleid st) (ground arith)
              (record { sorted = sorted; hashed = omega arith; unique = unique })
        | inr (e, here) ↦
            let e' = refreshed curl cfg rehash rec sfo titleid e in
            let kept =
              Unique-set_id st.list.items i e e' here
                (refreshed-id curl cfg rehash rec sfo titleid e) unique in
            let renewed =
              count_hashed-Tally e'
                (record st { list = record st.list { items = set st.list.items i e' } }) sorted
                hashed kept in
            same-Tally _ (record_app curl cfg realloc rehash rec sfo titleid st) (ground arith)
              renewed
      ]
    ]

count_other-Tally :
    (titleid : List ℕ) (st : State)
    → suc (st.matched + (st.unknown + st.retail)) ≤ st.found
    → st.hashed ≤ st.matched
    → Unique st.list.items
    → Tally (count_other titleid st)
unfolding count_other
count_other-Tally titleid st sorted hashed unique = elim (Bool-cases (is_retail titleid)) [
  | inl shop ↦ rw shop (record { sorted = omega arith; hashed = hashed; unique = unique })
  | inr other ↦ rw other (record { sorted = omega arith; hashed = hashed; unique = unique })
]

module _ (db : Db) (curl : Curl) (cfg : Config) (realloc : ℕ → Bool) (rehash : Bool) where
  scan_sfo-Tally :
      (name : List ℕ) (sfo : Sfo) (st st' : State)
      → suc (st.matched + (st.unknown + st.retail)) ≤ st.found
      → st.hashed ≤ st.matched
      → Unique st.list.items
      → scan_sfo db curl cfg realloc rehash name sfo st ≡ some st'
      → Tally st'
  unfolding scan_sfo
  scan_sfo-Tally name sfo st st' sorted hashed unique e =
      let own = until_nul sfo.title_id in
      let titleid = if equal own [] then copied 16 name else own in
      elim (Option-cases (Access.find_titleid db (some titleid))) [
        | inl out ↦ absurd (ground arith)
        | inr (none, missing) ↦
            same-Tally (count_other titleid st) st' (ground arith)
              (count_other-Tally titleid st sorted hashed unique)
        | inr (some p, ef) ↦ elim (Option-cases db.blob) [
          | inl out ↦ absurd (ground arith)
          | inr (blob, eb) ↦ elim (Option-cases (entry_at blob p)) [
            | inl out ↦ absurd (ground arith)
            | inr (rec, er) ↦
                let counted = record st { matched = st.matched + 1 } in
                same-Tally (record_app curl cfg realloc rehash rec sfo titleid counted) st'
                  (ground arith)
                  (record_app-Tally curl cfg realloc rehash rec sfo titleid counted (omega arith)
                    (omega arith) unique)
          ]
        ]
      ]

  scan_parsed-Tally :
      (name : List ℕ) (sfo : Sfo) (code : Code) (st st' : State)
      → suc (st.matched + (st.unknown + st.retail)) ≤ st.found
      → st.hashed ≤ st.matched
      → Unique st.list.items
      → scan_parsed db curl cfg realloc rehash name sfo code st ≡ some st'
      → Tally st'
  unfolding scan_parsed
  scan_parsed-Tally name sfo Sfo.ok st st' sorted hashed unique e =
      scan_sfo-Tally name sfo st st' sorted hashed unique e
  scan_parsed-Tally name sfo err_size st st' sorted hashed unique e =
      same-Tally st st' (ground arith)
        (record { sorted = omega arith; hashed = hashed; unique = unique })
  scan_parsed-Tally name sfo err_magic st st' sorted hashed unique e =
      same-Tally st st' (ground arith)
        (record { sorted = omega arith; hashed = hashed; unique = unique })
  scan_parsed-Tally name sfo err_layout st st' sorted hashed unique e =
      same-Tally st st' (ground arith)
        (record { sorted = omega arith; hashed = hashed; unique = unique })

  scan_folder-Tally :
      (name : List ℕ) (st st' : State)
      → suc (st.matched + (st.unknown + st.retail)) ≤ st.found
      → st.hashed ≤ st.matched
      → Unique st.list.items
      → scan_folder db curl cfg realloc rehash name st ≡ some st'
      → Tally st'
  unfolding scan_folder
  scan_folder-Tally name st st' sorted hashed unique e =
      elim (Reply-cases (
        ftp_get curl (console_url cfg (name ++ codes "/sce_sys/param.sfo")) cfg.user cfg.pass
          65536)) [
            | inr (message, failed) ↦
                same-Tally st st' (ground arith)
                  (record { sorted = omega arith; hashed = hashed; unique = unique })
            | inl (bytes, got) ↦ elim (Option-cases (parse bytes)) [
              | inl out ↦ absurd (ground arith)
              | inr (parsed, ep) ↦
                  scan_parsed-Tally name parsed.0 parsed.1 st st' sorted hashed unique
                    (ground arith)
            ]
          ]

  scan_line-Tally :
      (text : List ℕ) (st st' : State)
      → Tally st
      → scan_line db curl cfg realloc rehash text st ≡ some st'
      → Tally st'
  unfolding scan_line
  scan_line-Tally text st st' t e =
      let line = trim_end text in
      let name = last_field line in
      elim (Bool-cases (not (is_directory_line line))) [
        | inl file ↦ same-Tally st st' (ground arith) t
        | inr folder_line ↦
            elim (Bool-cases
              (equal name [] || (equal name (codes ".") || equal name (codes "..")))) [
                | inl skipped ↦ same-Tally st st' (ground arith) t
                | inr used ↦
                    scan_folder-Tally name (record st { found = st.found + 1 }) st'
                      (omega (arith, t.sorted)) t.hashed t.unique (ground arith)
              ]
      ]

  scan_lines-Tally :
      (lines : List (List ℕ)) (st st' : State)
      → Tally st
      → scan_lines db curl cfg realloc rehash lines st ≡ some st'
      → Tally st'
  unfolding scan_lines
  scan_lines-Tally [] st st' t e = same-Tally st st' (ground arith) t
  scan_lines-Tally (line ∷ more) st st' t e =
      elim (Option-cases (scan_line db curl cfg realloc rehash line st)) [
        | inl out ↦ absurd (ground arith)
        | inr (next, en) ↦
            scan_lines-Tally more next st' (scan_line-Tally line st next t en) (ground arith)
      ]

none_yet-Tally : (list : Copies) → Unique list.items → Tally (start list)
none_yet-Tally list unique = record { sorted = omega arith; hashed = omega arith; unique = unique }

module _ (db : Db) (curl : Curl) (cfg : Config) (realloc : ℕ → Bool) (rehash : Bool) where
  scan_listing-Tally :
      (list : Copies) (reply : Reply (List ℕ)) (st : State) (done : Bool)
      → Unique list.items
      → scan_listing db curl cfg realloc rehash list reply ≡ some (st, done)
      → Tally st
  unfolding scan_listing
  scan_listing-Tally list (err message) st done unique e =
      same-Tally (start list) st (ground arith) (none_yet-Tally list unique)
  scan_listing-Tally list (ok listing) st done unique e =
      elim (Option-cases
        (scan_lines db curl cfg realloc rehash (split_lines (until_nul listing)) (start list))) [
          | inl out ↦ absurd (ground arith)
          | inr (last, el) ↦ same-Tally last st (ground arith) (
              scan_lines-Tally db curl cfg realloc rehash (split_lines (until_nul listing))
                (start list) last (none_yet-Tally list unique) el)
        ]

  scan_target-Tally :
      (target : Target) (list : Copies) (st : State) (done : Bool)
      → Unique list.items
      → scan_target target db curl cfg realloc rehash list ≡ some (st, done)
      → Tally st
  unfolding scan_target
  scan_target-Tally no_target list st done unique e =
      same-Tally (start list) st (ground arith) (none_yet-Tally list unique)
  scan_target-Tally folder list st done unique e =
      same-Tally (start list) st (ground arith) (none_yet-Tally list unique)
  scan_target-Tally ftp list st done unique e =
      scan_listing-Tally list (ftp_list curl (console_url cfg []) cfg.user cfg.pass 262144) st done
        unique e

-- After a scan from the PC, a folder that was found is counted once at most as an application of
-- the catalog, as a retail game or as unknown; no more applications are hashed than match; and the
-- ids other than 0 are unique if they were before. This holds for every console and catalog, also
-- where the scan is refused.
pub scan-Tally :
    (db : Db) (curl : Curl) (cfg : Config) (realloc : ℕ → Bool) (rehash : Bool) (list : Copies)
    (st : State) (done : Bool)
    → Unique list.items
    → scan db curl cfg realloc rehash list ≡ some (st, done)
    → Tally st
unfolding scan
scan-Tally db curl cfg realloc rehash list st done unique e =
    scan_target-Tally db curl cfg realloc rehash cfg.target list st done unique e
