-- ===== src/Examples/Console.antt =====
-- The file of installed copies, and the client on the console, at concrete inputs.
use vhdb.Base.{
  ℕ, ◌+◌, ◌-◌, ◌<◌, ◌≤◌, ◌^◌, ◌≡◌, ◌≢◌, refl, inl, inr, Bool, true, false, List, [], ◌∷◌, ◌++◌,
  Option, none, some, length, replicate, arith, codes, word_at, slice,
}
use vhdb.Base
use vhdb.Base.Lines.{copied}
use vhdb.Catalog.{entry_at}
use vhdb.Catalog.Access
use vhdb.Catalog.Access.{find_text, find_loop, title_matches, same_prefix}
use vhdb.Catalog.Load.{Host}
use vhdb.Examples.Catalog.{demo_db}
use vhdb.Examples.Copies.{old_copy, one_copy, yes_realloc}
use vhdb.Installed.{
  Copies, count, remove, remove_first, find_titleid, find_first, set_copy, find_slot, find_id,
  make_room, grow,
}
use vhdb.Installed.RoundTrip.{load-save}
use vhdb.Installed.Text.{load, save, no_hash}
use vhdb.Installed.Unique.{Unique}
use vhdb.Installed.Writable.{Writable}
use vhdb.Sfo.{parse_file, parse_open}
use vhdb.Status.{Installed, has_flag}
use vhdb.Vita.{Files}
use vhdb.Vita.Install.{Device, State}
use vhdb.Vita.Install.Protocol.{Disk, gone, leftover}
use vhdb.Vita.Net.{System, temp_path, fetch}
use vhdb.Vita.Net.Fetched.{Settled, fetch-Settled}
use vhdb.Base.Filtered.{Filtered}
use vhdb.Vita.Scan
use vhdb.Vita.Scan.{prune, scan}
use vhdb.Vita.Scan.Keeps.{scan-Unique}
use vhdb.Vita.Scan.Prune.{Remains, prune-kept, prune-ends}

-- Two copies with short texts; the eboot of the first is known.
abbrev short_copy : Installed
short_copy = record old_copy { titleid = codes "A"; version = codes "1" }

abbrev plain_copy : Installed
plain_copy = record short_copy { id = 10; eboot = replicate 16 0; has_eboot = false }

abbrev short_copies : Copies
short_copies = record { items = short_copy ∷ plain_copy ∷ []; capacity = 2 }

short_copy-Writable : Writable short_copy
short_copy-Writable = record {
  id = omega arith;
  titleid = ((omega arith, tt), (omega arith, tt), (omega arith, tt), (omega arith, tt));
  titleid_fits = omega arith;
  version = ((omega arith, tt), (omega arith, tt), (omega arith, tt), (omega arith, tt));
  version_fits = omega arith;
  hash = (refl, ground arith, inr refl);
  eboot = (refl, ground arith, inl refl);
  aux = (refl, ground arith, inr refl);
  console = omega arith;
}

plain_copy-Writable : Writable plain_copy
plain_copy-Writable = record {
  id = omega arith;
  titleid = ((omega arith, tt), (omega arith, tt), (omega arith, tt), (omega arith, tt));
  titleid_fits = omega arith;
  version = ((omega arith, tt), (omega arith, tt), (omega arith, tt), (omega arith, tt));
  version_fits = omega arith;
  hash = (refl, ground arith, inr refl);
  eboot = (refl, ground arith, inr refl);
  aux = (refl, ground arith, inr refl);
  console = omega arith;
}

load-save_example :
    (load (λ n. true) (2 ^ 32) (save true short_copies)).0.items ≡ short_copies.items
load-save_example =
    load-save (2 ^ 32) short_copies (omega arith) (short_copy-Writable, (plain_copy-Writable, tt))

-- A console on which no application is left; its folder has one, without a param.sfo.
abbrev bare_host : Host
bare_host = record { open_file = none; malloc = λ n. true }

abbrev bare_console : Files
bare_console = record {
  exists = λ path. false;
  blocks = λ path. none;
  sfo = λ path. bare_host;
  apps = some (record { name = codes "EFGH00002"; is_dir = true } ∷ []);
}

-- The application of the second copy is on the console.
abbrev half_console : Files
half_console = record bare_console {
  exists = λ path. Base.equal path (codes "ux0:app/B/eboot.bin");
}

abbrev two_apps : Copies
two_apps = record {
  items =
      short_copy
      ∷ record plain_copy { titleid = codes "B" }
      ∷ record plain_copy { id = 11; titleid = [] }
      ∷ [];
  capacity = 3;
}

prune-kept_example :
    (left : List Installed) × Filtered (Remains half_console) two_apps.items left
    × (prune half_console two_apps
        ≡ some (record two_apps { items = left }, count two_apps - length left))
prune-kept_example =
    prune-kept half_console two_apps
      ((omega arith, (omega arith, tt)), ((omega arith, tt), (tt, tt)))

prune-ends_example : prune bare_console short_copies ≢ none
prune-ends_example = prune-ends bare_console short_copies

-- Two hashes, a device that does all that it is asked, and a folder of an earlier call.
abbrev some_digest : List ℕ
some_digest = replicate 16 7

abbrev willing : Device
willing = record {
  fetches = λ log url. true;
  digest = λ log. some some_digest;
  unpacks = λ log. true;
  promotes = λ log directory. true;
  net_error = λ log. [];
  zip_error = λ log. [];
  promote_error = λ log. [];
}

abbrev idle : State
idle = record { log = []; error = []; mismatched = false }

abbrev before : Disk
before = record { download = gone; folder = leftover }

-- A console whose folder has the application of the catalog, without a param.sfo.
abbrev console : Files
console = record bare_console {
  apps = some (record { name = codes "ABCD00001"; is_dir = true } ∷ []);
}

abbrev seen_copy : Installed
seen_copy = record old_copy {
  titleid = codes "ABCD00001";
  version = [];
  eboot = no_hash;
  has_eboot = false;
}

abbrev seen : Copies
seen = record one_copy { items = seen_copy ∷ [] }

scan-console :
    scan demo_db console yes_realloc false one_copy
    ≡ some (seen, some (record { list = seen; matched = 1; reported = [] }))
unfolding scan prune Scan.prune_loop Scan.stays Scan.app_installed Scan.app_path Scan.scan_loop
    Scan.is_hidden Scan.scan_app Scan.title_of Scan.record_app Scan.fresh Scan.hash_files
    Scan.hash_eboot Scan.hash_aux Scan.report remove remove_first find_titleid find_first set_copy
    find_slot find_id make_room grow has_flag copied parse_file parse_open Access.find_titleid
    find_text find_loop title_matches same_prefix entry_at word_at slice Base.equal
scan-console = refl

scan-Unique_example : Unique seen.items
scan-Unique_example =
    scan-Unique demo_db console yes_realloc false one_copy seen
      (some (record { list = seen; matched = 1; reported = [] })) scan-console ((λ ne. tt), tt)

-- A network whose server sends two blocks, and a memory card that takes them.
abbrev console_system : System
console_system = record {
  start_error = none;
  curl = record {
    init = true;
    transfer = λ request. record {
      blocks = (1 ∷ 2 ∷ []) ∷ (3 ∷ []) ∷ [];
      completes = true;
      message = [];
      strerror = [];
      downloaded = 3;
    };
  };
  disk = record { opens = λ path. true; writes = λ written block. true; renames = true };
  cancels = false;
}

temp_path-letter : temp_path (codes "A") ≢ codes "A"
unfolding copied
temp_path-letter e = absurd (ground (arith, e))

fetch-Settled_example :
    Settled console_system
      (codes "u")
      (codes "A")
      (λ path. none)
      (fetch console_system (codes "u") (codes "A") (λ path. none))
fetch-Settled_example =
    fetch-Settled console_system (codes "u") (codes "A") (λ path. none) temp_path-letter
