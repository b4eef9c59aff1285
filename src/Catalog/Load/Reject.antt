-- ===== src/Catalog/Load/Reject.antt =====
-- core/vhdb.c, `vhdb_load`: what a refusal leaves behind, and when no read leaves the file.
use vhdb.Base.{ℕ, ◌≡◌, ◌≢◌, Bool, List, Option, some, u32, arith, Option-cases, inl, inr}
use vhdb.Catalog.{Header, header_at, Db, freed}
use vhdb.Catalog.Load.{
  OpenFile, Host, Code, ok, pointers, check_orders, load_orders, load_blob, load_length, load_file,
  load,
}

-- A refused catalog is freed: no pointer into the file is left.
abbrev CleanFailure : Option (Db × Code) → Type 0
CleanFailure r = (db : Db) (c : Code) → r ≡ some (db, c) → c ≢ ok → db ≡ freed

load_orders-freed : (h : Header) (blob : List ℕ) (size : ℕ) → CleanFailure (load_orders h blob size)
unfolding load_orders
load_orders-freed h blob size db c e ne =
    elim (Option-cases (check_orders blob (pointers h blob size) h.entry_count 0)) [
      | inl out ↦ absurd (ground arith)
      | inr (good, eg) ↦ ground arith
    ]

load_blob-freed :
    (verify : Bool) (blob : List ℕ) (size : ℕ) → CleanFailure (load_blob verify blob size)
unfolding load_blob
load_blob-freed verify blob size db c e ne = elim (Option-cases (header_at blob)) [
  | inl out ↦ absurd (ground arith)
  | inr (h, eh) ↦ ground (arith, load_orders-freed h blob size db c)
]

load_length-freed :
    (verify : Bool) (host : Host) (f : OpenFile) (len : ℕ)
    → CleanFailure (load_length verify host f len)
unfolding load_length
load_length-freed verify host f len db c e ne =
    ground (arith, load_blob-freed verify (f.read len) (u32 len) db c)

load_file-freed :
    (verify : Bool) (host : Host) (f : OpenFile) → CleanFailure (load_file verify host f)
unfolding load_file
load_file-freed verify host f db c e ne = elim (Option-cases f.tell) [
  | inl bad ↦ ground arith
  | inr (len, el) ↦ ground (arith, load_length-freed verify host f len db c)
]

-- Whatever goes wrong in `vhdb_load`, the catalog it leaves behind is all zero: no count, no
-- pointer into the freed bytes.
pub load-freed :
    (verify : Bool) (host : Host) (db : Db) (c : Code)
    → load verify host ≡ some (db, c)
    → c ≢ ok
    → db ≡ freed
unfolding load
load-freed verify host db c e ne = elim (Option-cases host.open_file) [
  | inl closed ↦ ground arith
  | inr (f, ef) ↦ ground (arith, load_file-freed verify host f db c)
]
