-- ===== src/Pc/Commands/Counts.antt =====
-- pc/main.c: what `vhdb install` counts, and the list that it leaves.
use vhdb.Base.{
  ℕ, suc, ◌+◌, ◌≡◌, sym, subst, arith, inl, inr, if◌then◌else◌, Bool, List, [], ◌∷◌, none, some,
  Bool-cases, Option-cases,
}
use vhdb.Catalog.{Db, Entry}
use vhdb.Config.{Config}
use vhdb.Installed.{Copies}
use vhdb.Installed.Unique.{same-Unique, Unique, set_copy-Unique}
use vhdb.Pc.Install.{Machine, Outcome, install}
use vhdb.Pc.Install.Recorded.{install-Verified}
use vhdb.Pc.Net.{FileSystem}
use vhdb.Pc.Commands.{Progress, is_option, find_entry, install_named, install_loop}

-- The number of arguments that are none of the options.
pub named_count : List (List ℕ) → ℕ
named_count [] = 0
named_count (arg ∷ args) = if is_option arg then named_count args else suc (named_count args)

-- `vhdb_pc_install` keeps the ids unique.
install-Unique :
    (m : Machine) (cfg : Config) (db : Db) (rec : Entry) (list : Copies) (with_data : Bool)
    (fs : FileSystem) (out : Outcome)
    → install m cfg db rec list with_data fs ≡ some out
    → Unique list.items
    → Unique out.list.items
install-Unique m cfg db rec list with_data fs out e u =
    elim (install-Verified m cfg db rec list with_data fs out e) [
      | inl plain ↦ same-Unique list out.list (sym plain.0) u
      | inr v ↦ same-Unique _ out.list (sym v.sent.listed) (set_copy-Unique m.realloc list _ u)
    ]

-- One more argument is counted, as finished or as failed, and the ids stay unique.
pub record Counted (n : ℕ) (before after : Progress) : Type 0 where
  pub all : after.failed + after.finished ≡ n + (before.failed + before.finished)
  pub unique : Unique after.list.items

same-Counted : (n : ℕ) (st a b : Progress) → a ≡ b → Counted n st a → Counted n st b
same-Counted n st a b e c = subst (λ (x : Progress). Counted n st x) e c

module _ (m : Machine) (cfg : Config) (db : Db) (max : ℕ) (with_data : Bool) where
  install_named-Counted :
      (arg : List ℕ) (st next : Progress)
      → install_named m cfg db max with_data arg st ≡ some next
      → Unique st.list.items
      → Counted 1 st next
  unfolding install_named
  install_named-Counted arg st next e u = elim (Option-cases (find_entry max db arg)) [
    | inl out_of ↦ absurd (ground arith)
    | inr (none, ef) ↦
        same-Counted 1 st (record st { failed = st.failed + 1 }) next (ground arith)
          (record { all = omega arith; unique = u })
    | inr (some rec, ef) ↦ elim (Option-cases (install m cfg db rec st.list with_data st.files)) [
      | inl out_of ↦ absurd (ground arith)
      | inr (out, ei) ↦
          let kept = install-Unique m cfg db rec st.list with_data st.files out ei u in
          elim (Bool-cases out.result) [
            | inl works ↦
                same-Counted 1 st
                  (record {
                    files = out.files;
                    list = out.list;
                    failed = st.failed;
                    finished = st.finished + 1;
                  })
                  next (ground arith) (record { all = omega arith; unique = kept })
            | inr fails ↦
                same-Counted 1 st
                  (record {
                    files = out.files;
                    list = out.list;
                    failed = st.failed + 1;
                    finished = st.finished;
                  })
                  next (ground arith) (record { all = omega arith; unique = kept })
          ]
    ]
  ]

  -- The loop of `vhdb install` counts each argument that is none of the options once, as finished
  -- or as failed, and keeps the ids other than 0 unique.
  pub install_loop-Counted :
      (args : List (List ℕ)) (st out : Progress)
      → install_loop m cfg db max with_data args st ≡ some out
      → Unique st.list.items
      → Counted (named_count args) st out
  unfolding install_loop named_count
  install_loop-Counted [] st out e u =
      same-Counted 0 st st out (ground arith) (record { all = omega arith; unique = u })
  install_loop-Counted (arg ∷ args) st out e u = elim (Bool-cases (is_option arg)) [
    | inl option ↦ let rest = install_loop-Counted args st out (ground arith) u in rw option rest
    | inr name ↦ elim (Option-cases (install_named m cfg db max with_data arg st)) [
      | inl out_of ↦ absurd (ground arith)
      | inr (next, en) ↦
          let one = install_named-Counted arg st next en u in
          let rest = install_loop-Counted args next out (ground arith) one.unique in
          rw name (record { all = omega (arith, one.all, rest.all); unique = rest.unique })
    ]
  ]
