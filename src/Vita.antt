-- ===== src/Vita.antt =====
-- vita/: the client on the console, and what it asks of the system.
pub mod Install
pub mod Net
pub mod Scan
use vhdb.Base.{ℕ, Bool, List, Option}
use vhdb.Catalog.Load.{Host}

-- An entry that `sceIoDread` gives: its name, and whether it is a folder.
pub record DirEntry : Type 0 where
  pub name : List ℕ
  pub is_dir : Bool

-- The files of the console: whether `sceIoGetstat` finds a path, the blocks that `fread` gives of
-- a file that opens, what the C library answers for a path of param.sfo, and the entries of
-- `ux0:app` if it opens.
pub record Files : Type 0 where
  pub exists : List ℕ → Bool
  pub blocks : List ℕ → Option (List (List ℕ))
  pub sfo : List ℕ → Host
  pub apps : Option (List DirEntry)
