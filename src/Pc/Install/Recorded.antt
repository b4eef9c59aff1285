-- ===== src/Pc/Install/Recorded.antt =====
-- pc/install.c: when an installation adds a copy to the list.
use vhdb.Base.{
  ℕ, ◌≡◌, refl, sym, ap, ◌∙◌, arith, inl, inr, Bool, true, false, List, [], Option, none, some, ◌⊎◌,
  Bool-cases, Option-cases, equal, equal_iff,
}
use vhdb.Catalog.{Db, Entry}
use vhdb.Catalog.Access.{str}
use vhdb.Config.{Config}
use vhdb.Installed.{Copies, set_copy}
use vhdb.Pc.Install.{
  Machine, Outcome, Checked, unreadable, mismatch, passed, has_checksum, check_digest, md5_file,
  copy_of, fetch_data, record_copy, by_kind, checked, downloaded, install, path_in, hand_over,
  finish,
}
use vhdb.Pc.Install.Arrived.{Arrived, hand_over-none, hand_over-some}
use vhdb.Pc.Install.Names.{url_basename}
use vhdb.Pc.Net.{Reply, ok, err, FileSystem, download}
use vhdb.Status.Labels.{InstallKind, vpk, psp, manual, pc, install_kind, on_console}

-- The folder on the console that a kind of package goes to.
pub target_dir : InstallKind → Config → List ℕ
target_dir vpk cfg = cfg.vpk
target_dir psp cfg = cfg.pspemu
target_dir manual cfg = cfg.vpk
target_dir pc cfg = cfg.vpk

-- The list is as it was, and the installation failed or the entry is none for the console.
abbrev pub Unrecorded : Entry → Copies → Outcome → Type 0
Unrecorded rec list out =
    (out.list ≡ list) × ((out.result ≡ false) ⊎ (on_console (install_kind rec) ≡ false))

-- The file at `local` was sent, if there is a target, and the copy recorded with the file's digest.
pub record Sent (m : Machine) (cfg : Config) (db : Db) (rec : Entry) (list : Copies)
    (with_data : Bool) (local filename : List ℕ) (fs : FileSystem) (digest : Option (List ℕ))
    (out : Outcome) : Type 0 where
  pub console : on_console (install_kind rec) ≡ true
  pub now : FileSystem
  pub arrived : Arrived cfg.target m cfg (target_dir (install_kind rec) cfg) local filename fs now
  pub with_data_file : fetch_data m cfg db rec with_data now ≡ some out.files
  pub version : List ℕ
  pub has_version : str db rec.version ≡ some version
  pub listed : out.list ≡ (set_copy m.realloc list (copy_of rec version digest)).0
  pub result : out.result ≡ true

module _ (m : Machine) (cfg : Config) (db : Db) (rec : Entry) (list : Copies)
    (with_data : Bool) where
  -- Behind the transfer the copy is recorded.
  finish-Sent :
      (local filename : List ℕ) (fs now : FileSystem) (digest : Option (List ℕ)) (out : Outcome)
      → on_console (install_kind rec) ≡ true
      → Arrived cfg.target m cfg (target_dir (install_kind rec) cfg) local filename fs now
      → finish m cfg db rec list with_data digest now ≡ some out
      → Sent m cfg db rec list with_data local filename fs digest out
  unfolding finish
  finish-Sent local filename fs now digest out console arrived e =
      elim (Option-cases (fetch_data m cfg db rec with_data now)) [
        | inl out_of ↦ absurd (ground arith)
        | inr (files, ef) ↦ elim (Option-cases (str db rec.version)) [
          | inl out_of ↦ absurd (ground arith)
          | inr (version, ev) ↦ record {
            console = console;
            now = now;
            arrived = arrived;
            with_data_file = ground arith;
            version = version;
            has_version = ev;
            listed = ground arith;
            result = ground arith;
          }
        ]
      ]

  record_copy-Sent :
      (local filename : List ℕ) (fs : FileSystem) (digest : Option (List ℕ)) (out : Outcome)
      (handed : Option (Bool × FileSystem))
      → on_console (install_kind rec) ≡ true
      → hand_over cfg.target m cfg (target_dir (install_kind rec) cfg) local filename fs ≡ handed
      → record_copy m cfg db rec list with_data digest fs handed ≡ some out
      → Unrecorded rec list out ⊎ Sent m cfg db rec list with_data local filename fs digest out
  unfolding record_copy
  record_copy-Sent local filename fs digest out none console h e = inr (
      finish-Sent local filename fs fs digest out console
        (hand_over-none m cfg (target_dir (install_kind rec) cfg) local filename fs cfg.target h) e)
  record_copy-Sent local filename fs digest out (some (false, now)) console h e =
      inl (ground arith, inl (ground arith))
  record_copy-Sent local filename fs digest out (some (true, now)) console h e = inr (
      finish-Sent local filename fs now digest out console
        (hand_over-some m cfg (target_dir (install_kind rec) cfg) local filename fs cfg.target now
          refl h)
        e)

  by_kind-Sent :
      (kind : InstallKind) (local filename : List ℕ) (fs : FileSystem) (digest : Option (List ℕ))
      (out : Outcome)
      → install_kind rec ≡ kind
      → by_kind kind m cfg db rec list with_data local filename digest fs ≡ some out
      → Unrecorded rec list out ⊎ Sent m cfg db rec list with_data local filename fs digest out
  unfolding by_kind target_dir on_console
  by_kind-Sent manual local filename fs digest out k e = inl (ground arith, inr (ap on_console k))
  by_kind-Sent pc local filename fs digest out k e = inl (ground arith, inr (ap on_console k))
  by_kind-Sent psp local filename fs digest out k e =
      record_copy-Sent local filename fs digest out
        (hand_over cfg.target m cfg cfg.pspemu local filename fs) (ap on_console k)
        (ap (λ kind. hand_over cfg.target m cfg (target_dir kind cfg) local filename fs) k) e
  by_kind-Sent vpk local filename fs digest out k e =
      record_copy-Sent local filename fs digest out
        (hand_over cfg.target m cfg cfg.vpk local filename fs) (ap on_console k)
        (ap (λ kind. hand_over cfg.target m cfg (target_dir kind cfg) local filename fs) k) e

-- A digest that passes is the catalog's, where the catalog has one.
check_digest-passed :
    (rec : Entry) (found digest : Option (List ℕ))
    → check_digest rec found ≡ passed digest
    → (digest ≡ found) × ((has_checksum rec ≡ false) ⊎ (found ≡ some rec.hash))
unfolding check_digest
check_digest-passed rec found digest e = elim (Bool-cases (has_checksum rec)) [
  | inr unlisted ↦ (ground arith, inl unlisted)
  | inl listed ↦ elim (Option-cases found) [
    | inl unread ↦ absurd (ground arith)
    | inr (bytes, ef) ↦ elim (Bool-cases (equal bytes rec.hash)) [
      | inr differ ↦ absurd (ground arith)
      | inl alike ↦ (ground arith, inr (ef ∙ ap some ((equal_iff bytes rec.hash).0 alike)))
    ]
  ]
]

-- The download came whole, its digest is the catalog's where the catalog has one, it reached the
-- target where one is set, and the copy was recorded with the digest.
pub record Verified (m : Machine) (cfg : Config) (db : Db) (rec : Entry) (list : Copies)
    (with_data : Bool) (fs : FileSystem) (out : Outcome) : Type 0 where
  pub url : List ℕ
  pub has_url : str db rec.url ≡ some url
  pub files : FileSystem
  pub fetched :
      download m.curl m.disk url (path_in cfg.keep (url_basename url 512)) fs ≡ (ok tt, files)
  pub genuine :
      (has_checksum rec ≡ false)
      ⊎ (md5_file files (path_in cfg.keep (url_basename url 512)) ≡ some rec.hash)
  pub sent :
      Sent m cfg db rec list with_data
        (path_in cfg.keep (url_basename url 512))
        (url_basename url 512)
        files
        (md5_file files (path_in cfg.keep (url_basename url 512)))
        out

module _ (m : Machine) (cfg : Config) (db : Db) (rec : Entry) (list : Copies)
    (with_data : Bool) where
  checked-Verified :
      (url : List ℕ) (fs files : FileSystem) (code : Checked) (out : Outcome)
      → str db rec.url ≡ some url
      → download m.curl m.disk url (path_in cfg.keep (url_basename url 512)) fs ≡ (ok tt, files)
      → check_digest rec (md5_file files (path_in cfg.keep (url_basename url 512))) ≡ code
      → checked m cfg db rec list with_data
          (path_in cfg.keep (url_basename url 512))
          (url_basename url 512)
          files
          code
        ≡ some out
      → Unrecorded rec list out ⊎ Verified m cfg db rec list with_data fs out
  unfolding checked
  checked-Verified url fs files unreadable out eu ed ec e = inl (ground arith, inl (ground arith))
  checked-Verified url fs files mismatch out eu ed ec e = inl (ground arith, inl (ground arith))
  checked-Verified url fs files (passed digest) out eu ed ec e =
      let local = path_in cfg.keep (url_basename url 512) in
      let found = check_digest-passed rec (md5_file files local) digest ec in
      elim (by_kind-Sent m cfg db rec list with_data (install_kind rec) local (url_basename url 512)
        files (md5_file files local) out refl (rw (sym found.0) e)) [
          | inl plain ↦ inl plain
          | inr sent ↦ inr (record {
            url = url;
            has_url = eu;
            files = files;
            fetched = ed;
            genuine = found.1;
            sent = sent;
          })
        ]

  downloaded-Verified :
      (url : List ℕ) (fs : FileSystem) (reply : Reply (Unit {0}) × FileSystem) (out : Outcome)
      → str db rec.url ≡ some url
      → download m.curl m.disk url (path_in cfg.keep (url_basename url 512)) fs ≡ reply
      → downloaded m cfg db rec list with_data
          (path_in cfg.keep (url_basename url 512))
          (url_basename url 512)
          reply
        ≡ some out
      → Unrecorded rec list out ⊎ Verified m cfg db rec list with_data fs out
  unfolding downloaded
  downloaded-Verified url fs (err message, files) out eu ed e =
      inl (ground arith, inl (ground arith))
  downloaded-Verified url fs (ok u, files) out eu ed e =
      checked-Verified url fs files
        (check_digest rec (md5_file files (path_in cfg.keep (url_basename url 512)))) out eu ed refl
        e

pub install-Verified :
    (m : Machine) (cfg : Config) (db : Db) (rec : Entry) (list : Copies) (with_data : Bool)
    (fs : FileSystem) (out : Outcome)
    → install m cfg db rec list with_data fs ≡ some out
    → Unrecorded rec list out ⊎ Verified m cfg db rec list with_data fs out
unfolding install
install-Verified m cfg db rec list with_data fs out e = elim (Option-cases (str db rec.url)) [
  | inl out_of ↦ absurd (ground arith)
  | inr (url, eu) ↦ elim (Bool-cases (equal url [])) [
    | inl empty ↦ inl (ground arith, inl (ground arith))
    | inr link ↦ elim (Option-cases (str db rec.name)) [
      | inl out_of ↦ absurd (ground arith)
      | inr (name, en) ↦ elim (Option-cases (str db rec.version)) [
        | inl out_of ↦ absurd (ground arith)
        | inr (version, ev) ↦
            downloaded-Verified m cfg db rec list with_data url fs
              (download m.curl m.disk url (path_in cfg.keep (url_basename url 512)) fs) out eu refl
              (ground arith)
      ]
    ]
  ]
]
