-- ===== src/Vita/Scan/Keeps.antt =====
-- vita/scan.c: after a scan no id stands twice in the list.
use vhdb.Base.{
  ℕ, zero, suc, ◌≡◌, sym, ◌∙◌, subst, arith, inl, inr, Bool, List, [], ◌∷◌, Option, none, some, ◌+◌,
  not, ◌||◌, get_elem?, set, codes, Bool-cases, Option-cases,
}
use vhdb.Catalog.{Db, Entry, entry_at}
use vhdb.Catalog.Access
use vhdb.Catalog.Access.{str}
use vhdb.Installed.{Copies, count, remove, remove_first, set_copy, find_titleid}
use vhdb.Installed.Unique.{same-Unique, Absent, Unique, remove_first-IsRemoved, set_copy-Unique}
use vhdb.Sfo.{Sfo, parse_file}
use vhdb.Status.{Installed}
use vhdb.Vita.{DirEntry, Files}
use vhdb.Vita.Scan.{
  stays, prune_loop, prune, hash_eboot, hash_aux, hash_files, refreshed, fresh, record_app, State,
  report, scan_app, is_hidden, scan_loop, scan, title_of, app_path,
}

remove-Unique : (list : Copies) (id : ℕ) → Unique list.items → Unique (remove list id).0.items
unfolding remove
remove-Unique list id u = elim (Option-cases (remove_first id list.items)) [
  | inl out ↦ subst Unique (ground arith) u
  | inr (ys, e) ↦ subst Unique (ground arith) (remove_first-IsRemoved id list.items ys e u).unique
]

prune_loop-Unique :
    (files : Files) (fuel : ℕ) (list list' : Copies) (i removed removed' : ℕ)
    → prune_loop files fuel list i removed ≡ some (list', removed')
    → Unique list.items
    → Unique list'.items
unfolding prune_loop
prune_loop-Unique files zero list list' i removed removed' e u = absurd (ground arith)
prune_loop-Unique files (suc fuel) list list' i removed removed' e u =
    elim (Option-cases (get_elem? list.items i)) [
      | inl past ↦ subst Unique (ground arith) u
      | inr (c, here) ↦ elim (Bool-cases (stays files c)) [
        | inl stay ↦
            prune_loop-Unique files fuel list list' (i + 1) removed removed' (ground arith) u
        | inr gone ↦
            prune_loop-Unique files fuel (remove list c.id).0 list' i (removed + 1) removed'
              (ground arith) (remove-Unique list c.id u)
      ]
    ]

-- The hashes leave the id as it is.
hash_files-id :
    (files : Files) (rec : Entry) (name : List ℕ) (e : Installed)
    → (hash_files files rec name e).id ≡ e.id
unfolding hash_files hash_eboot hash_aux
hash_files-id files rec name e = ground arith

refreshed-id :
    (files : Files) (rec : Entry) (sfo : Sfo) (name : List ℕ) (e : Installed)
    → (refreshed files rec sfo name e).id ≡ e.id
unfolding refreshed
refreshed-id files rec sfo name e = hash_files-id files rec name _

Absent-set_id :
    (id : ℕ) (xs : List Installed) (i : ℕ) (e e' : Installed)
    → get_elem? xs i ≡ some e
    → e'.id ≡ e.id
    → Absent id xs
    → Absent id (set xs i e')
Absent-set_id id [] i e e' here same a = tt
Absent-set_id id (x ∷ xs) zero e e' here same a = (λ eq. a.0 (ground arith), a.1)
Absent-set_id id (x ∷ xs) (suc i) e e' here same a = (a.0, Absent-set_id id xs i e e' here same a.1)

-- A copy may be replaced by one of the same id.
pub Unique-set_id :
    (xs : List Installed) (i : ℕ) (e e' : Installed)
    → get_elem? xs i ≡ some e
    → e'.id ≡ e.id
    → Unique xs
    → Unique (set xs i e')
Unique-set_id [] i e e' here same u = tt
Unique-set_id (x ∷ xs) zero e e' here same u =
    let is : e'.id ≡ x.id = ground arith in
    (λ ne. subst (λ n. Absent n xs) (sym is) (u.0 (λ z. ne (is ∙ z))), u.1)
Unique-set_id (x ∷ xs) (suc i) e e' here same u =
    (λ ne. Absent-set_id x.id xs i e e' here same (u.0 ne), Unique-set_id xs i e e' here same u.1)

record_app-Unique :
    (files : Files) (realloc : ℕ → Bool) (rec : Entry) (sfo : Sfo) (name titleid : List ℕ)
    (list : Copies)
    → Unique list.items
    → Unique (record_app files realloc rec sfo name titleid list).items
unfolding record_app
record_app-Unique files realloc rec sfo name titleid list u =
    elim (Option-cases (find_titleid list titleid)) [
      | inl new ↦
          same-Unique (set_copy realloc list (fresh files rec sfo name titleid)).0
            (record_app files realloc rec sfo name titleid list) (ground arith)
            (set_copy-Unique realloc list (fresh files rec sfo name titleid) u)
      | inr (i, known) ↦ elim (Option-cases (get_elem? list.items i)) [
        | inl out ↦
            same-Unique list (record_app files realloc rec sfo name titleid list) (ground arith) u
        | inr (e, here) ↦
            let renewed : Copies = record list {
              items = set list.items i (refreshed files rec sfo name e);
            } in
            let kept : Unique renewed.items =
              Unique-set_id list.items i e (refreshed files rec sfo name e) here
                (refreshed-id files rec sfo name e) u in
            same-Unique renewed (record_app files realloc rec sfo name titleid list) (ground arith)
              kept
      ]
    ]

report-list :
    (progress : Bool) (db : Db) (rec : Entry) (st st' : State)
    → report progress db rec st ≡ some st'
    → st'.list ≡ st.list
unfolding report
report-list progress db rec st st' e = elim (Option-cases (str db rec.name)) [
  | inl out ↦ ground arith
  | inr (name, en) ↦ ground arith
]

scan_app-Unique :
    (db : Db) (files : Files) (realloc : ℕ → Bool) (progress : Bool) (app : DirEntry)
    (st st' : State)
    → scan_app db files realloc progress app st ≡ some st'
    → Unique st.list.items
    → Unique st'.list.items
unfolding scan_app
scan_app-Unique db files realloc progress app st st' e u =
    elim (Option-cases
      (parse_file (files.sfo (app_path 256 app.name (codes "sce_sys/param.sfo"))))) [
        | inl out ↦ absurd (ground arith)
        | inr (parsed, ep) ↦
            let titleid = title_of parsed.1 parsed.0 app.name in
            elim (Option-cases (Access.find_titleid db (some titleid))) [
              | inl out ↦ absurd (ground arith)
              | inr (none, missing) ↦ same-Unique st.list st'.list (ground arith) u
              | inr (some p, ef) ↦ elim (Option-cases db.blob) [
                | inl out ↦ absurd (ground arith)
                | inr (blob, eb) ↦ elim (Option-cases (entry_at blob p)) [
                  | inl out ↦ absurd (ground arith)
                  | inr (rec, er) ↦
                      elim (Option-cases
                        (report progress db rec (record st { matched = st.matched + 1 }))) [
                          | inl out ↦ absurd (ground arith)
                          | inr (st1, e1) ↦
                              let same = report-list progress db rec _ st1 e1 in
                              let kept =
                                record_app-Unique files realloc rec parsed.0 app.name titleid
                                  st1.list (subst (λ (l : Copies). Unique l.items) (sym same) u) in
                              same-Unique
                                (record_app files realloc rec parsed.0 app.name titleid st1.list)
                                st'.list (ground arith) kept
                        ]
                ]
              ]
            ]
      ]

scan_loop-Unique :
    (db : Db) (files : Files) (realloc : ℕ → Bool) (progress : Bool) (apps : List DirEntry)
    (st st' : State)
    → scan_loop db files realloc progress apps st ≡ some st'
    → Unique st.list.items
    → Unique st'.list.items
unfolding scan_loop
scan_loop-Unique db files realloc progress [] st st' e u =
    same-Unique st.list st'.list (ground arith) u
scan_loop-Unique db files realloc progress (app ∷ apps) st st' e u =
    elim (Bool-cases (not app.is_dir || is_hidden app.name)) [
      | inl skipped ↦ scan_loop-Unique db files realloc progress apps st st' (ground arith) u
      | inr used ↦ elim (Option-cases (scan_app db files realloc progress app st)) [
        | inl out ↦ absurd (ground arith)
        | inr (st1, e1) ↦
            scan_loop-Unique db files realloc progress apps st1 st' (ground arith)
              (scan_app-Unique db files realloc progress app st st1 e1 u)
      ]
    ]

-- A scan of the console keeps the ids other than 0 unique, whatever it finds, also when the folder
-- of the applications does not open.
pub scan-Unique :
    (db : Db) (files : Files) (realloc : ℕ → Bool) (progress : Bool) (list list' : Copies)
    (result : Option State)
    → scan db files realloc progress list ≡ some (list', result)
    → Unique list.items
    → Unique list'.items
unfolding scan prune
scan-Unique db files realloc progress list list' result e u =
    elim (Option-cases (prune files list)) [
      | inl out ↦ absurd (ground arith)
      | inr (pruned, ep) ↦
          let start = prune_loop-Unique files (suc (count list)) list pruned.0 0 0 pruned.1 ep u in
          elim (Option-cases files.apps) [
            | inl closed ↦ same-Unique pruned.0 list' (ground arith) start
            | inr (apps, ea) ↦
                elim (Option-cases (
                  scan_loop db files realloc progress apps
                    (record { list = pruned.0; matched = 0; reported = [] }))) [
                      | inl out ↦ absurd (ground arith)
                      | inr (st, es) ↦ same-Unique st.list list' (ground arith) (
                          scan_loop-Unique db files realloc progress apps
                            (record { list = pruned.0; matched = 0; reported = [] }) st es start)
                    ]
          ]
    ]
