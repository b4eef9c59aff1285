-- ===== src/Pc/Sync/Verified.antt =====
-- pc/main.c: which catalog `vhdb sync` leaves.
use vhdb.Base.{
  ℕ, ◌≡◌, ◌≢◌, refl, ap, ◌∙◌, subst, arith, inl, inr, ◌⊎◌, Bool, true, false, List, none, some,
  Bool-cases, Option-cases,
}
use vhdb.Catalog.{Db, header_size}
use vhdb.Catalog.Load
use vhdb.Catalog.Load.{
  Code, err_open, err_read, err_magic, err_version, err_layout, err_crc, err_memory,
}
use vhdb.Config
use vhdb.Config.{Env, catalog_file}
use vhdb.Pc.Net.{Reply, ok, err, FileSystem, head_bytes, download, temp_of}
use vhdb.Pc.Net.Download.{Left, plain, put_self, download-Left, Reply-cases}
use vhdb.Pc.Net.Sink.{joined}
use vhdb.Pc.Sync.{
  Computer, host_of, is_catalog, header_hash, local_hash, same_hash, is_current_reply, is_current,
  after_load, after_download, sync_to, sync,
}

-- The server sent a header whose hash is that of the file.
abbrev pub Current : Computer → List ℕ → List ℕ → FileSystem → Type 0
Current computer url path fs =
    (header : List ℕ) × (hash : ℕ) × (head_bytes computer.curl url header_size ≡ ok header)
    × (header_hash header ≡ some hash)
    × (local_hash fs path ≡ some (some hash))

-- The file is the whole of what the server sent, and `vhdb_load` accepts it with its checksum.
abbrev pub Fetched : Computer → List ℕ → List ℕ → FileSystem → Type 0
Fetched computer url path fs =
    (db : Db) × (Load.load true (host_of computer fs path) ≡ some (db, Load.ok))
    × (fs path ≡ some (joined (computer.curl.transfer (plain url)).blocks))

-- What a run may leave: on success a current or a verified catalog, otherwise the old file or none.
abbrev pub Synced : Computer → List ℕ → List ℕ → FileSystem → Bool × FileSystem → Type 0
Synced computer url path fs (true, fs') =
    (Current computer url path fs × (fs' ≡ fs)) ⊎ Fetched computer url path fs'
Synced computer url path fs (false, fs') = (fs' path ≡ fs path) ⊎ (fs' path ≡ none)

same_hash-Current :
    (computer : Computer) (fs : FileSystem) (url path header : List ℕ)
    → head_bytes computer.curl url header_size ≡ ok header
    → same_hash fs path header ≡ some true
    → Current computer url path fs
unfolding same_hash
same_hash-Current computer fs url path header sent e = elim (Option-cases (is_catalog header)) [
  | inl out ↦ absurd (ground arith)
  | inr (ours, eo) ↦ elim (Option-cases (header_hash header)) [
    | inl out ↦ absurd (ground arith)
    | inr (remote, er) ↦ elim (Option-cases (local_hash fs path)) [
      | inl out ↦ absurd (ground arith)
      | inr (none, el) ↦ absurd (ground arith)
      | inr (some hash, el) ↦
          let same : hash ≡ remote = ground arith in
          (header, remote, sent, er, el ∙ ap (λ (h : ℕ). some (some h)) same)
    ]
  ]
]

is_current-Current :
    (computer : Computer) (fs : FileSystem) (url path : List ℕ) (force : Bool)
    → is_current computer fs url path force ≡ some true
    → Current computer url path fs
unfolding is_current is_current_reply
is_current-Current computer fs url path force e =
    elim (Reply-cases (head_bytes computer.curl url header_size)) [
      | inl (header, sent) ↦ same_hash-Current computer fs url path header sent (ground arith)
      | inr (message, failed) ↦ absurd (ground arith)
    ]

-- A file that is not accepted goes.
after_load-Synced :
    (computer : Computer) (url path : List ℕ) (fs fs' : FileSystem) (db : Db) (code : Code)
    → Load.load true (host_of computer fs' path) ≡ some (db, code)
    → fs' path ≡ some (joined (computer.curl.transfer (plain url)).blocks)
    → Synced computer url path fs (after_load fs' path code)
unfolding after_load
after_load-Synced computer url path fs fs' db Load.ok e whole = inr (db, e, whole)
after_load-Synced computer url path fs fs' db err_open e whole = inr (put_self path none fs')
after_load-Synced computer url path fs fs' db err_read e whole = inr (put_self path none fs')
after_load-Synced computer url path fs fs' db err_magic e whole = inr (put_self path none fs')
after_load-Synced computer url path fs fs' db err_version e whole = inr (put_self path none fs')
after_load-Synced computer url path fs fs' db err_layout e whole = inr (put_self path none fs')
after_load-Synced computer url path fs fs' db err_crc e whole = inr (put_self path none fs')
after_load-Synced computer url path fs fs' db err_memory e whole = inr (put_self path none fs')

same-Synced :
    (computer : Computer) (url path : List ℕ) (fs : FileSystem) (a b : Bool × FileSystem)
    → a ≡ b
    → Synced computer url path fs a
    → Synced computer url path fs b
same-Synced computer url path fs a b e s = subst (λ x. Synced computer url path fs x) e s

after_download-Synced :
    (computer : Computer) (url path : List ℕ) (fs : FileSystem)
    (reply : Reply (Unit {0}) × FileSystem) (out : Bool × FileSystem)
    → Left computer.curl computer.disk url path fs reply
    → after_download computer path reply ≡ some out
    → Synced computer url path fs out
unfolding after_download
after_download-Synced computer url path fs (err message, fs') out left e =
    same-Synced computer url path fs (false, fs') out (ground arith)
      (elim left.0 [ inl same ↦ inl same | inr (gone, fails) ↦ inr gone ])
after_download-Synced computer url path fs (ok u, fs') out left e =
    elim (Option-cases (Load.load true (host_of computer fs' path))) [
      | inl out_of ↦ absurd (ground arith)
      | inr (loaded, el) ↦
          same-Synced computer url path fs (after_load fs' path loaded.1) out (ground arith)
            (after_load-Synced computer url path fs fs' loaded.0 loaded.1 el left.0)
    ]

sync_to-Synced :
    (computer : Computer) (force : Bool) (url path : List ℕ) (fs : FileSystem)
    (out : Bool × FileSystem)
    → temp_of path ≢ path
    → sync_to computer force url path fs ≡ some out
    → Synced computer url path fs out
unfolding sync_to
sync_to-Synced computer force url path fs out apart e = elim (Bool-cases computer.starts) [
  | inr dead ↦ same-Synced computer url path fs (false, fs) out (ground arith) (inl refl)
  | inl alive ↦ elim (Option-cases (is_current computer fs url path force)) [
    | inl out_of ↦ absurd (ground arith)
    | inr (true, ec) ↦
        same-Synced computer url path fs (true, fs) out (ground arith)
          (inl (is_current-Current computer fs url path force ec, refl))
    | inr (false, ec) ↦
        after_download-Synced computer url path fs
          (download computer.curl computer.disk url path fs) out
          (download-Left computer.curl computer.disk url path fs apart) (ground arith)
  ]
]

-- `vhdb sync` that succeeds leaves the catalog as it was, where the header that the server sent has
-- the hash of that file, or the whole file that the server sent, which `vhdb_load` accepts with
-- its checksum. One that fails leaves the old file or none. It is assumed that the temporary
-- file's name, which is cut at 1023 characters, is not the catalog's path.
pub sync-Synced :
    (computer : Computer) (env : Env) (force : Bool) (fs : FileSystem) (path : List ℕ)
    (out : Bool × FileSystem)
    → catalog_file env 512 ≡ some path
    → temp_of path ≢ path
    → sync computer env force fs ≡ some out
    → Synced computer (Config.load env fs).0.catalog_url path fs out
unfolding sync
sync-Synced computer env force fs path out at apart e =
    sync_to-Synced computer force (Config.load env fs).0.catalog_url path fs out apart
      (ground arith)
