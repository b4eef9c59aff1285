-- ===== src/Pc/Install/Arrived.antt =====
-- pc/install.c: what the transfer of a file to the target leaves.
use vhdb.Base.{ℕ, ◌≡◌, refl, sym, ap, arith, true, List, none, some}
use vhdb.Base.Lines.{copied}
use vhdb.Config.{Config, Target, no_target, ftp, folder}
use vhdb.Pc.Install.{
  Machine, send_to_target, path_in, hand_over, send_to, is_sent, is_file, upload_url, trim_slashes,
  copy_file,
}
use vhdb.Pc.Net.{Reply, ok, err, FileSystem, ftp_upload}

-- What the chosen target has to say of the file: nothing is sent where none is set, the upload
-- reported success, or all of it was written to the folder.
pub Arrived :
    Target → Machine → Config → List ℕ → List ℕ → List ℕ → FileSystem → FileSystem → Type 0
Arrived no_target m cfg dir local filename fs now = now ≡ fs
Arrived ftp m cfg dir local filename fs now =
    (ftp_upload m.curl (is_file (fs local))
        (upload_url cfg (trim_slashes (copied 192 dir)) filename) cfg.user cfg.pass
      ≡ ok tt)
    × (now ≡ fs)
Arrived folder m cfg dir local filename fs now =
    copy_file m local (path_in (trim_slashes (copied 192 dir)) filename) fs ≡ (true, now)

is_sent-ok : (r : Reply (Unit {0})) → is_sent r ≡ true → r ≡ ok tt
unfolding is_sent
is_sent-ok (ok u) h = refl
is_sent-ok (err message) h = absurd (ground arith)

module _ (m : Machine) (cfg : Config) (dir local filename : List ℕ) (fs : FileSystem) where
  pub hand_over-none :
      (target : Target)
      → hand_over target m cfg dir local filename fs ≡ none
      → Arrived target m cfg dir local filename fs fs
  unfolding hand_over Arrived
  hand_over-none no_target e = refl
  hand_over-none ftp e = absurd (ground arith)
  hand_over-none folder e = absurd (ground arith)

  send_to_target-Arrived :
      (target : Target) (now : FileSystem)
      → cfg.target ≡ target
      → send_to_target m cfg dir local filename fs ≡ (true, now)
      → Arrived target m cfg dir local filename fs now
  unfolding send_to_target send_to Arrived upload_url
  send_to_target-Arrived no_target now t e = sym (ap (λ r. r.1) (rw t at e))
  send_to_target-Arrived ftp now t e =
      (is_sent-ok _ (ap (λ r. r.0) (rw t at e)), sym (ap (λ r. r.1) (rw t at e)))
  send_to_target-Arrived folder now t e = rw t at e

  pub hand_over-some :
      (target : Target) (now : FileSystem)
      → cfg.target ≡ target
      → hand_over target m cfg dir local filename fs ≡ some (true, now)
      → Arrived target m cfg dir local filename fs now
  unfolding hand_over
  hand_over-some no_target now t e = absurd (ground arith)
  hand_over-some ftp now t e = send_to_target-Arrived ftp now t (ground (arith, e))
  hand_over-some folder now t e = send_to_target-Arrived folder now t (ground (arith, e))
