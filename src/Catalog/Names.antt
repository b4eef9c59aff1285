-- ===== src/Catalog/Names.antt =====
-- core/vhdb.c: the texts of error codes, entry types and engine data files.
use vhdb.Base.{ℕ, ◌==◌, if◌then◌else◌, List, codes}
use vhdb.Catalog.Load.{
  Code, ok, err_open, err_read, err_magic, err_version, err_layout, err_crc, err_memory,
}

-- `vhdb_error`, of the codes that `vhdb_load` returns.
pub error_text : Code → List ℕ
error_text ok = codes "ok"
error_text err_open = codes "cannot open file"
error_text err_read = codes "short read"
error_text err_magic = codes "not a VHDB file"
error_text err_version = codes "unsupported format version"
error_text err_layout = codes "corrupt layout"
error_text err_crc = codes "checksum mismatch"
error_text err_memory = codes "out of memory"

-- `vhdb_aux_name`
pub aux_name : ℕ → List ℕ
aux_name kind =
    if kind == 1
    then codes "Unity"
    else if kind == 2
    then codes "GameMaker"
    else if kind == 3
    then codes "Lua Player Plus"
    else if kind == 4
    then codes "LifeLua"
    else if kind == 5
    then codes "YoYo Loader"
    else if kind == 6
    then codes "Godot"
    else codes ""

-- `vhdb_aux_path`
unfoldable pub aux_path : ℕ → List ℕ
aux_path kind =
    if kind == 1
    then codes "Media/sharedassets0.assets.resS"
    else if kind == 2
    then codes "games/game.win"
    else if kind == 3
    then codes "index.lua"
    else if kind == 4
    then codes "main.lua"
    else if kind == 5
    then codes "game.apk"
    else if kind == 6
    then codes "game_data/game.pck"
    else codes ""

-- `vhdb_type_name`
pub type_name : ℕ → List ℕ
type_name type =
    if type == 1
    then codes "Games"
    else if type == 2
    then codes "Ports"
    else if type == 4
    then codes "Utilities"
    else if type == 5
    then codes "Emulators"
    else codes "Other"
