-- ===== src/Status/Labels.antt =====
-- core/status.c: how an entry is installed, and the words that the lists show.
use vhdb.Base.{
  ℕ, ◌<◌, ◌==◌, ◌≡◌, ◌≢◌, ltb, if◌then◌else◌, Bool, true, false, not, ◌&&◌, List, codes, ◌⊎◌, ◌↔◌,
  arith,
}
use vhdb.Catalog.{Entry}
use vhdb.Status.{
  State, not_installed, installed, update, unknown_version, rolling, Status, has_flag,
}

-- `VHDB_INSTALL_*`
pub data InstallKind : Type 0 where
  vpk psp manual pc : InstallKind

-- `VHDB_CLIENT_*`
pub data Client : Type 0 where
  vita_client pc_client : Client

-- `vhdb_state_name`
pub state_name : State → List ℕ
state_name not_installed = codes "NOT INSTALLED"
state_name installed = codes "INSTALLED"
state_name update = codes "UPDATE"
state_name unknown_version = codes "UNKNOWN VERSION"
state_name rolling = codes "ROLLING BUILD"

-- `vhdb_install_kind`
unfoldable pub install_kind : Entry → InstallKind
install_kind rec =
    if rec.platform == 0
    then vpk
    else if rec.platform == 1
    then psp
    else if rec.platform == 2
    then manual
    else pc

unfoldable pub on_console : InstallKind → Bool
on_console vpk = true
on_console psp = true
on_console manual = false
on_console pc = false

-- `vhdb_can_install`
pub can_install : Entry → Client → Bool
can_install rec pc_client = true
can_install rec vita_client = on_console (install_kind rec)

-- `vhdb_has_data_file`
unfoldable pub has_data_file : Entry → Bool
has_data_file rec = has_flag rec.flags 0x02

-- `vhdb_install_label`
pub install_label : InstallKind → List ℕ
install_label vpk = codes "VPK"
install_label psp = codes "PSP"
install_label manual = codes "PLUGIN"
install_label pc = codes "PC TOOL"

pub is_update : State → Bool
is_update update = true
is_update not_installed = false
is_update installed = false
is_update unknown_version = false
is_update rolling = false

pub is_not_installed : State → Bool
is_not_installed not_installed = true
is_not_installed update = false
is_not_installed installed = false
is_not_installed unknown_version = false
is_not_installed rolling = false

-- `vhdb_list_label`
pub list_label : Entry → Status → Client → List ℕ
list_label rec status device =
    if not (can_install rec device)
    then codes "PC ONLY"
    else if is_update status.state
    then codes "UPDATE"
    else if not (is_not_installed status.state)
        && (ltb 0 status.needs_checked && ltb status.needs_met status.needs_checked)
    then codes "NEEDS FILES"
    else state_name status.state

-- The list asks for files exactly if the entry can be installed here, an installed copy is up to
-- date, and at least one needed file was looked for and is missing.
list_label_needs_files :
    (rec : Entry) (status : Status) (device : Client)
    → (list_label rec status device ≡ codes "NEEDS FILES") ↔ (
        (can_install rec device ≡ true)
        × (status.state ≢ update)
        × (status.state ≢ not_installed)
        × (status.needs_met < status.needs_checked))
unfolding list_label is_update is_not_installed state_name
list_label_needs_files rec status device = ground arith

-- On the console an entry can be installed exactly if its platform is the Vita or the PSP; on a
-- computer always.
can_install_iff :
    (rec : Entry) (device : Client)
    → (can_install rec device ≡ true)
      ↔ ((device ≡ pc_client) ⊎ ((rec.platform ≡ 0) ⊎ (rec.platform ≡ 1)))
unfolding can_install on_console install_kind
can_install_iff rec device = ground arith
