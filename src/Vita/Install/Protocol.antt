-- ===== src/Vita/Install/Protocol.antt =====
-- The order in which the steps of an installation of vita/install.c may be done.
use vhdb.Base.{ℕ, if◌then◌else◌, Bool, true, false, List, [], ◌∷◌, Option, none, some, ◌>>=◌, equal}
use vhdb.Vita.Install.{
  Event, fetched, read_back, removed_download, removed_folder, made_folder, unpacked, promoted,
  temp_dir,
}

-- What is known of the download: there is none, it is not to be used yet, or it may be unpacked.
pub data Download : Type 0 where
  gone unchecked genuine : Download

-- What is in the folder: there is none, whatever an earlier call left or a failed unpacking, nothing,
-- or the whole package.
pub data Folder : Type 0 where
  absent leftover empty whole : Folder

pub record Disk : Type 0 where
  pub download : Download
  pub folder : Folder

-- The effect of a removal and of a making of the folder.
unfoldable pub made : Folder → Folder
made absent = empty
made leftover = leftover
made empty = empty
made whole = whole

-- The unpacking of a genuine download into an empty folder; all else is forbidden.
unfoldable pub after_unpacking : Bool → Download → Folder → Option Folder
after_unpacking true genuine empty = some whole
after_unpacking false genuine empty = some leftover
after_unpacking answer genuine absent = none
after_unpacking answer genuine leftover = none
after_unpacking answer genuine whole = none
after_unpacking answer gone folder = none
after_unpacking answer unchecked folder = none

-- A promotion of the whole package.
unfoldable pub after_promotion : Folder → Option Folder
after_promotion whole = some whole
after_promotion absent = none
after_promotion leftover = none
after_promotion empty = none

-- The digest of a download that is expected to have one.
unfoldable pub after_reading : Option (List ℕ) → Option (List ℕ) → Download
after_reading none found = genuine
after_reading (some hash) none = unchecked
after_reading (some hash) (some found) = if equal found hash then genuine else unchecked

unfoldable pub fresh_download : Option (List ℕ) → Download
fresh_download none = genuine
fresh_download (some hash) = unchecked

-- The protocol: what an event does to the disk, or that it is forbidden there. A failed download
-- leaves the file that was there or none.
unfoldable pub step : Option (List ℕ) → Disk → Event → Option Disk
step hash disk (fetched url true) = some (record disk { download = fresh_download hash })
step hash disk (fetched url false) = some disk
step hash disk (read_back found) = some (record disk { download = after_reading hash found })
step hash disk removed_download = some (record disk { download = gone })
step hash disk removed_folder = some (record disk { folder = absent })
step hash disk made_folder = some (record disk { folder = made disk.folder })
step hash disk (unpacked answer) = after_unpacking answer disk.download disk.folder >>= λ folder.
    some (record disk { folder = folder })
step hash disk (promoted directory answer) =
    if equal directory temp_dir
    then (after_promotion disk.folder >>= λ folder. some (record disk { folder = folder }))
    else none

unfoldable pub replay : Option (List ℕ) → Disk → List Event → Option Disk
replay hash disk [] = some disk
replay hash disk (event ∷ events) = step hash disk event >>= λ next. replay hash next events
