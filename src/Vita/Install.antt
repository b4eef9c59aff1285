-- ===== src/Vita/Install.antt =====
-- vita/install.c: the sequence of steps that installs a package on the console. What the steps of
-- vita/net.c, core/md5.c, core/zip.c and vita/promote.c answer is a parameter.
pub mod Protocol
pub mod Order
use vhdb.Base.{
  ℕ, if◌then◌else◌, Bool, true, false, not, List, [], ◌∷◌, ◌++◌, Option, none, some, equal, codes,
}
use vhdb.Base.Lines.{copied}
use vhdb.Installed.Text.{no_hash}

-- What is done, in order, with its answer: a download to `TEMP_VPK`, its digest, its removal, the
-- removal and the making of `TEMP_DIR`, the unpacking into it, and a promotion.
pub data Event : Type 0 where
  fetched : List ℕ → Bool → Event
  read_back : Option (List ℕ) → Event
  removed_download removed_folder made_folder : Event
  unpacked : Bool → Event
  promoted : List ℕ → Bool → Event

-- What the other modules answer after the events so far, and the texts of their errors.
pub record Device : Type 0 where
  pub fetches : List Event → List ℕ → Bool
  pub digest : List Event → Option (List ℕ)
  pub unpacks : List Event → Bool
  pub promotes : List Event → List ℕ → Bool
  pub net_error : List Event → List ℕ
  pub zip_error : List Event → List ℕ
  pub promote_error : List Event → List ℕ

-- The events, and the two static variables.
pub record State : Type 0 where
  pub log : List Event
  pub error : List ℕ
  pub mismatched : Bool

abbrev pub temp_dir : List ℕ
temp_dir = codes "ux0:data/vhdb/pkg"

-- `vhdb_install_error`
unfoldable pub install_error : State → List ℕ
install_error st = if equal st.error [] then codes "no error" else st.error

abbrev pub with_event : Event → State → State
with_event event st = record st { log = st.log ++ (event ∷ []) }

-- `snprintf` into `last_error`
abbrev pub noted : List ℕ → State → State
noted text st = record st { error = copied 192 text }

-- The unpacking of a download that has passed.
unfoldable pub unpack : Device → State → State × Bool
unpack device st =
    let ready = with_event made_folder (with_event removed_folder st) in
    if device.unpacks ready.log
    then (with_event removed_download (with_event (unpacked true) ready), true)
    else (
      with_event removed_folder (
          with_event removed_download
            (noted (device.zip_error ready.log) (with_event (unpacked false) ready))),
      false,
    )

-- The comparison of the download with the digest that is expected.
unfoldable pub compare : Device → List ℕ → State → State × Bool
compare device hash st = elim (device.digest st.log) [
  | none ↦ (
    with_event removed_download
        (noted (codes "cannot read the download back") (with_event (read_back none) st)),
    false,
  )
  | some found ↦
      let on = unpack device (with_event (read_back (some found)) st) in
      if not (equal found hash)
      then (
        with_event removed_download
            (record (noted (codes "the download does not match the catalog")
              (with_event (read_back (some found)) st)) { mismatched = true }),
        false,
      )
      else on
]

-- The digest to compare with, where the caller gives one that is not zero.
unfoldable pub expected_hash : Option (List ℕ) → Option (List ℕ)
expected_hash none = none
expected_hash (some hash) = if equal hash no_hash then none else some hash

unfoldable pub compare_wanted : Device → Option (List ℕ) → State → State × Bool
compare_wanted device none st = unpack device st
compare_wanted device (some hash) st = compare device hash st

-- `download_and_unpack`, which is `vhdb_stage_update` too.
unfoldable pub download_and_unpack : Device → List ℕ → Option (List ℕ) → State → State × Bool
download_and_unpack device url expected st =
    let reset = record st { error = []; mismatched = false } in
    let on = compare_wanted device (expected_hash expected) (with_event (fetched url true) reset) in
    if device.fetches st.log url
    then on
    else (noted (device.net_error st.log) (with_event (fetched url false) reset), false)

abbrev pub stage_update : Device → List ℕ → Option (List ℕ) → State → State × Bool
stage_update = download_and_unpack

-- `vhdb_install_package`
unfoldable pub install_package : Device → List ℕ → State → State × Bool
install_package device directory st =
    if device.promotes st.log directory
    then (with_event (promoted directory true) st, true)
    else (noted (device.promote_error st.log) (with_event (promoted directory false) st), false)

-- The steps of `vhdb_install_from_url` behind the unpacking: the folder goes on both branches.
unfoldable pub promote_unpacked : Device → State × Bool → State × Bool
promote_unpacked device (st, false) = (st, false)
promote_unpacked device (st, true) =
    let done = install_package device temp_dir st in (with_event removed_folder done.0, done.1)

-- `vhdb_install_from_url`
unfoldable pub install_from_url : Device → List ℕ → Option (List ℕ) → State → State × Bool
install_from_url device url expected st =
    promote_unpacked device (download_and_unpack device url expected st)
