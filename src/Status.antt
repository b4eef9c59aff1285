-- ===== src/Status.antt =====
-- include/vhdb_status.h and core/status.c: what the screens say of an entry, from the record, the
-- installed copy and the needed files.
pub mod Labels
pub mod Laws
use vhdb.Base.{
  ℕ, zero, suc, ◌+◌, ◌==◌, if◌then◌else◌, Bool, true, false, not, ◌&&◌, ◌||◌, List, [], Option,
  none, some, ◌>>=◌, bit_and, equal,
}
use vhdb.Base.Int.{ℤ}
use vhdb.Catalog.{Entry, Db}
use vhdb.Catalog.Access.{str}
use vhdb.Needs.{Need, unchecked, met, missing, needs_check, needs_count}
use vhdb.Needs
use vhdb.Version.{Ver, same, older, newer, unknown, version_compare}

-- `VHDB_STATE_*`
pub data State : Type 0 where
  not_installed installed update unknown_version rolling : State

-- `vhdb_status`
pub record Status : Type 0 where
  pub state : State
  pub needs_total : ℕ
  pub needs_met : ℕ
  pub needs_checked : ℕ
  pub trusted : Bool
  pub by_content : Bool

-- `vhdb_installed`; the two character arrays as the texts that they hold, the flags as Booleans.
pub record Installed : Type 0 where
  pub id : ℕ
  pub titleid : List ℕ
  pub version : List ℕ
  pub hash : List ℕ
  pub has_hash : Bool
  pub eboot : List ℕ
  pub has_eboot : Bool
  pub aux : List ℕ
  pub has_aux : Bool
  pub from_console : ℤ

unfoldable pub has_flag : ℕ → ℕ → Bool
has_flag flags mask = not (bit_and flags mask == 0)

abbrev pub rolling_flag : ℕ
rolling_flag = 0x80

abbrev pub aux_flag : ℕ
aux_flag = 0x40

abbrev pub eboot_flag : ℕ
eboot_flag = 0x20

-- The first three fields that `vhdb_status_of` sets together.
pub record Found : Type 0 where
  pub state : State
  pub trusted : Bool
  pub by_content : Bool

-- The comparison of engine data files, and of the eboots where both sides have one.
pub aux_same : Entry → Installed → Bool
aux_same rec inst =
    let same_aux = equal inst.aux rec.aux in
    if same_aux && (inst.has_eboot && has_flag rec.flags eboot_flag)
    then equal inst.eboot rec.eboot
    else same_aux

-- Whether a content comparison is an update.
unfoldable pub by_bytes : Bool → Found
by_bytes agree = record {
  state = if agree then installed else update;
  trusted = true;
  by_content = true;
}

pub state_of_version : Ver → State
state_of_version newer = update
state_of_version unknown = unknown_version
state_of_version same = installed
state_of_version older = installed

-- The last branch: the version texts. The comparison's own fuel never runs out.
pub by_version : Db → Entry → Installed → Option Found
by_version db rec inst = str db rec.version >>= λ catalogue.
    version_compare inst.version catalogue >>= λ v.
    some (record { state = state_of_version v; trusted = inst.has_hash; by_content = false })

-- The branches of `vhdb_status_of` for an installed copy.
unfoldable pub found_installed : Db → Entry → Installed → Option Found
found_installed db rec inst =
    if has_flag rec.flags rolling_flag
    then some (record { state = rolling; trusted = false; by_content = false })
    else if inst.has_hash && equal inst.hash rec.hash
    then some (record { state = installed; trusted = true; by_content = false })
    else if inst.has_aux && has_flag rec.flags aux_flag
    then some (by_bytes (aux_same rec inst))
    else if inst.has_eboot && has_flag rec.flags eboot_flag
    then some (by_bytes (equal inst.eboot rec.eboot))
    else by_version db rec inst

abbrev pub absent : Found
absent = record { state = not_installed; trusted = false; by_content = false }

-- An entry that has no installed copy, or one about which nothing is known.
unfoldable pub is_bare : Installed → Bool
is_bare inst = equal inst.version [] && not inst.has_eboot && not inst.has_aux

unfoldable pub found_of : Db → Entry → Option Installed → Option Found
found_of db rec none = some absent
found_of db rec (some inst) = if is_bare inst then some absent else found_installed db rec inst

-- The counters of the loop over the needed files.
pub record Counts : Type 0 where
  pub checked : ℕ
  pub met : ℕ

pub count_state : Needs.State → Counts → Counts
count_state unchecked n = n
count_state met n = record { checked = n.checked + 1; met = n.met + 1 }
count_state missing n = record n { checked = n.checked + 1 }

pub count_need : Option Need → Counts → Counts
count_need none n = n
count_need (some need) n = count_state need.state n

-- The loop at entry `i`, with `k` rounds left.
unfoldable pub count_needs : List ℕ → Option (List ℕ → Bool) → ℕ → ℕ → Counts → Counts
count_needs needs exists zero i n = n
count_needs needs exists (suc k) i n =
    count_needs needs exists k (i + 1) (count_need (needs_check needs i exists) n)

-- `vhdb_status_of`; `none` is a read outside the catalog's bytes.
unfoldable pub status_of : Db → Entry → Option Installed → Option (List ℕ → Bool) → Option Status
status_of db rec inst exists = do
  found ← found_of db rec inst
  needs ← str db rec.needs
  let total = needs_count needs
  let n = count_needs needs exists total 0 (record { checked = 0; met = 0 })
  some (record {
    state = found.state;
    needs_total = total;
    needs_met = n.met;
    needs_checked = n.checked;
    trusted = found.trusted;
    by_content = found.by_content;
  })
