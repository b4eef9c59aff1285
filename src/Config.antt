-- ===== src/Config.antt =====
-- pc/config.c: the settings of the PC client, their file and its folder.
pub mod Trim
pub mod RoundTrip
use vhdb.Base.{
  ℕ, zero, suc, ◌+◌, ◌-◌, ◌==◌, ltb, leb, if◌then◌else◌, Bool, true, false, not, ◌&&◌, ◌||◌, List,
  [], ◌∷◌, ◌++◌, Option, none, some, length, take, equal, until_nul, codes,
}
use vhdb.Base.Decimal.{read_int, print_int}
use vhdb.Base.Int.{ℤ, pos}
use vhdb.Base.Lines.{lines, before, behind, copied}

-- `VHDB_TARGET_*`
pub data Target : Type 0 where
  no_target ftp folder : Target

-- `vhdb_config`, its arrays as the texts that they hold.
pub record Config : Type 0 where
  pub catalog_url : List ℕ
  pub target : Target
  pub host : List ℕ
  pub port : ℤ
  pub user : List ℕ
  pub pass : List ℕ
  pub vpk : List ℕ
  pub data_dir : List ℕ
  pub pspemu : List ℕ
  pub keep : List ℕ

-- `getenv` of HOME and of XDG_CONFIG_HOME.
pub record Env : Type 0 where
  pub home : Option (List ℕ)
  pub config_home : Option (List ℕ)

-- The value of a variable that is set and not empty.
unfoldable pub set_value : Option (List ℕ) → Option (List ℕ)
set_value none = none
set_value (some []) = none
set_value (some (c ∷ cs)) = some (c ∷ cs)

unfoldable pub home_dir : Env → List ℕ
home_dir env = elim (set_value env.home) [ none ↦ codes "." | some home ↦ home ]

-- `snprintf(out, size, ...) < size`: what stands in the array, and whether the text fits it.
unfoldable pub printed : ℕ → List ℕ → List ℕ × Bool
printed size text = (copied size text, ltb (length text) size)

unfoldable pub config_dir : Env → ℕ → List ℕ × Bool
config_dir env size = printed size (elim (set_value env.config_home) [
  | none ↦ home_dir env ++ codes "/.config/vhdb"
  | some dir ↦ dir ++ codes "/vhdb"
])

-- A file of the folder; `none` where a text does not fit.
unfoldable pub file_in_dir : List ℕ → Env → ℕ → Option (List ℕ)
file_in_dir name env size =
    let dir = config_dir env 256 in
    let path = printed size (dir.0 ++ name) in
    if not dir.1 then none else if not path.1 then none else some path.0

-- `vhdb_config_file` and `vhdb_catalog_file`
unfoldable pub config_file : Env → ℕ → Option (List ℕ)
config_file env size = file_in_dir (codes "/config.txt") env size

unfoldable pub catalog_file : Env → ℕ → Option (List ℕ)
catalog_file env size = file_in_dir (codes "/vhdb.bin") env size

-- The loop of `vhdb_make_dirs` behind the characters `done`: the folders made, in order.
unfoldable pub dirs_loop : List ℕ → List ℕ → List (List ℕ)
dirs_loop done [] = done ∷ []
dirs_loop done (c ∷ cs) =
    let rest = dirs_loop (done ++ (c ∷ [])) cs in
    if c == b'/' && not (equal done []) then done ∷ rest else rest

-- `vhdb_make_dirs`: the calls of `mkdir`, whose results it does not look at, and its result.
unfoldable pub make_dirs : List ℕ → List (List ℕ) × Bool
make_dirs path =
    if length path == 0 || leb 512 (length path) then ([], false) else (dirs_loop [] path, true)

abbrev pub default_url : List ℕ
default_url = codes "https://github.com/DrDecki/VHDB/releases/download/catalog/vhdb.bin"

unfoldable pub defaults : Env → Config
defaults env = record {
  catalog_url = copied 256 default_url;
  target = no_target;
  host = [];
  port = pos 1337;
  user = [];
  pass = [];
  vpk = codes "ux0:/VPK";
  data_dir = codes "ux0:/data";
  pspemu = codes "ux0:/pspemu/PSP/GAME";
  keep = copied 256 (home_dir env ++ codes "/vhdb-downloads");
}

unfoldable pub target_name : Target → List ℕ
target_name no_target = codes "none"
target_name ftp = codes "ftp"
target_name folder = codes "folder"

unfoldable pub is_blank : ℕ → Bool
is_blank c = c == b' ' || c == b'\t'

-- `trim`: the blanks and line ends at the end of a text go.
unfoldable pub trim_cons : ℕ → List ℕ → List ℕ
trim_cons c [] = if c == b'\n' || c == b'\r' || is_blank c then [] else c ∷ []
trim_cons c (d ∷ ds) = c ∷ (d ∷ ds)

unfoldable pub trim : List ℕ → List ℕ
trim [] = []
trim (c ∷ cs) = trim_cons c (trim cs)

unfoldable pub skip_blanks : List ℕ → List ℕ
skip_blanks [] = []
skip_blanks (c ∷ cs) = if is_blank c then skip_blanks cs else c ∷ cs

unfoldable pub target_of : List ℕ → Target
target_of value =
    if equal value (codes "ftp")
    then ftp
    else if equal value (codes "folder")
    then folder
    else no_target

unfoldable pub assign : Config → List ℕ → List ℕ → Config
assign cfg key value =
    if equal key (codes "url")
    then record cfg { catalog_url = copied 256 value }
    else if equal key (codes "kind")
    then record cfg { target = target_of value }
    else if equal key (codes "host")
    then record cfg { host = copied 64 value }
    else if equal key (codes "port")
    then record cfg { port = read_int value }
    else if equal key (codes "user")
    then record cfg { user = copied 64 value }
    else if equal key (codes "pass")
    then record cfg { pass = copied 64 value }
    else if equal key (codes "vpk")
    then record cfg { vpk = copied 160 value }
    else if equal key (codes "data")
    then record cfg { data_dir = copied 160 value }
    else if equal key (codes "pspemu")
    then record cfg { pspemu = copied 160 value }
    else if equal key (codes "keep")
    then record cfg { keep = copied 256 value }
    else cfg

-- The body of the loop of `vhdb_config_load`, from the trimmed line on.
unfoldable pub load_text : Config → List ℕ → Config
load_text cfg [] = cfg
load_text cfg (c ∷ cs) = if c == b'#' || c == b'[' then cfg else elim (behind b'=' (c ∷ cs)) [
  | none ↦ cfg
  | some value ↦ assign cfg (trim (skip_blanks (before b'=' (c ∷ cs)))) (skip_blanks value)
]

unfoldable pub load_lines : Config → List (List ℕ) → Config
load_lines cfg [] = cfg
load_lines cfg (line ∷ more) = load_lines (load_text cfg (trim (until_nul line))) more

-- `vhdb_config_load`, where `files` gives the bytes of a file that opens.
unfoldable pub load : Env → (List ℕ → Option (List ℕ)) → Config × Bool
load env files = elim (config_file env 512) [
  | none ↦ (defaults env, false)
  | some path ↦ elim (files path) [
    | none ↦ (defaults env, false)
    | some bytes ↦ (load_lines (defaults env) (lines 639 639 bytes), true)
  ]
]

-- One line of the file, and what follows it.
unfoldable pub setting : List ℕ → List ℕ → List ℕ → List ℕ
setting key value rest = (key ++ (b' ' ∷ b'=' ∷ b' ' ∷ value)) ++ (b'\n' ∷ rest)

unfoldable pub config_text : Config → List ℕ
config_text cfg = setting (codes "url") cfg.catalog_url (
    b'\n'
    ∷ (codes "[target]"
        ++ (b'\n'
            ∷ setting (codes "kind") (target_name cfg.target) (
                setting (codes "host") cfg.host (
                  setting (codes "port") (print_int cfg.port) (
                    setting (codes "user") cfg.user (
                      setting (codes "pass") cfg.pass (
                        setting (codes "vpk") cfg.vpk (
                          setting (codes "data") cfg.data_dir (
                            setting (codes "pspemu") cfg.pspemu
                              (setting (codes "keep") cfg.keep [])))))))))))

-- What `vhdb_config_save` leaves: the folders it made, and the file if it wrote one; without a
-- file it returns 0.
pub record Saved : Type 0 where
  pub folders : List (List ℕ)
  pub file : Option (List ℕ × List ℕ)

-- `vhdb_config_save`, where `opens` says whether a path opens for writing.
unfoldable pub save : Env → (List ℕ → Bool) → Config → Saved
save env opens cfg =
    let dir = config_dir env 256 in
    let folders = (make_dirs dir.0).0 in
    if not dir.1 then record { folders = []; file = none } else elim (config_file env 512) [
      | none ↦ record { folders = folders; file = none }
      | some path ↦
          if opens path
          then record { folders = folders; file = some (path, config_text cfg) }
          else record { folders = folders; file = none }
    ]
