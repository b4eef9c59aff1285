-- ===== src/Vita/Install/Order.antt =====
-- vita/install.c: its functions keep to the protocol.
use vhdb.Base.{
  ℕ, ◌≡◌, ◌≢◌, ap, ◌∙◌, if◌then◌else◌, Bool, true, false, not, List, [], ◌∷◌, ◌++◌, Option, some,
  ◌>>=◌, ◌⊎◌, append_assoc,
}
use vhdb.Base
use vhdb.Vita.Install.{Event, removed_folder, promoted, State, temp_dir}
use vhdb.Vita.Install.Protocol.{Download, gone, Folder, absent, whole, Disk, replay}

abbrev disk_of : Download → Folder → Disk
disk_of download folder = record { download = download; folder = folder }

-- Where an unpacking may end: with the whole package, or with no folder or the one before.
pub record Staged (hash : Option (List ℕ)) (d0 : Disk) (folder : Folder) (out : State × Bool)
    : Type 0 where
  pub after : Folder
  pub replayed : replay hash d0 out.0.log ≡ some (disk_of gone after)
  pub ends :
      ((out.1 ≡ true) × (after ≡ whole)) ⊎ ((out.1 ≡ false) × ((after ≡ absent) ⊎ (after ≡ folder)))

-- Where an installation may end; a success ends in a promotion that works.
pub record Finished (hash : Option (List ℕ)) (d0 : Disk) (folder : Folder) (out : State × Bool)
    : Type 0 where
  pub after : Folder
  pub replayed : replay hash d0 out.0.log ≡ some (disk_of gone after)
  pub ends :
      ((out.1 ≡ true)
        × (after ≡ absent)
        × ((earlier : List Event) × (out.0.log
              ≡ (earlier ++ (promoted temp_dir true ∷ [])) ++ (removed_folder ∷ []))))
      ⊎ ((out.1 ≡ false) × ((after ≡ absent) ⊎ (after ≡ folder)))
