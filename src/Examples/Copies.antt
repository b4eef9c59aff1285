-- ===== src/Examples/Copies.antt =====
-- Installed copies and their status at concrete inputs.
use vhdb.Base.{
  ℕ, suc, ◌+◌, ◌≤◌, ◌<◌, ◌≡◌, ◌≢◌, refl, ◌⊎◌, ◌↔◌, Bool, true, false, List, [], ◌∷◌, ◌++◌, Option,
  none, some, length, replicate, arith, codes, text_at,
}
use vhdb.Base
use vhdb.Base.Int.{pos}
use vhdb.Catalog.{Entry}
use vhdb.Catalog.Access.{str, str_in}
use vhdb.Examples.Catalog.{demo_db, demo_sound}
use vhdb.Examples.Texts.{demo_entry}
use vhdb.Needs.{needs_count}
use vhdb.Status.{
  update, Status, Installed, status_of, is_bare, found_of, found_installed, has_flag, by_bytes,
  count_needs,
}
use vhdb.Status.Laws.{UpdateReason, status_of-update, status_of-returns}
use vhdb.Installed.{Copies, count, grow, set_copy, remove}
use vhdb.Installed.Hash.{parse_hash, print_hash, parse_hash-print_hash}
use vhdb.Installed.Lookup.{FoundAgain, Fits, set_copy_lem}
use vhdb.Installed.Unique.{Unique, Absent, copy_of, remove_lem}

-- A copy whose eboot is known, of an entry with another eboot; offset 1 of the texts is empty.
abbrev pub old_copy : Installed
old_copy = record {
  id = 9;
  titleid = codes "ABCD00001";
  version = codes "1";
  hash = replicate 16 0;
  has_hash = false;
  eboot = replicate 16 1;
  has_eboot = true;
  aux = replicate 16 0;
  has_aux = false;
  from_console = pos 1;
}

abbrev new_entry : Entry
new_entry = record demo_entry { needs = 1; flags = 0x20; id = 9 }

abbrev outdated : Status
outdated = record {
  state = update;
  needs_total = 0;
  needs_met = 0;
  needs_checked = 0;
  trusted = true;
  by_content = true;
}

status_of-old_copy : status_of demo_db new_entry (some old_copy) none ≡ some outdated
unfolding status_of found_of found_installed is_bare has_flag by_bytes str str_in text_at
    needs_count count_needs Base.equal
status_of-old_copy = refl

status_of-update_example :
    (copy : Installed) × (some old_copy ≡ some copy)
    × (is_bare copy ≡ false)
    × UpdateReason demo_db new_entry copy true true
status_of-update_example =
    status_of-update demo_db new_entry (some old_copy) none outdated status_of-old_copy refl

status_of-returns_example : (s : Status) × (status_of demo_db new_entry none none ≡ some s)
status_of-returns_example = status_of-returns demo_db demo_sound new_entry none none

abbrev pub yes_realloc : ℕ → Bool
yes_realloc n = true

abbrev pub one_copy : Copies
one_copy = record { items = old_copy ∷ []; capacity = 1 }

abbrev pub other_copy : Installed
other_copy = record old_copy { id = 10; titleid = codes "EFGH00002" }

set_copy_lem_example :
    (((set_copy yes_realloc one_copy other_copy).1 ≡ true)
      × FoundAgain (set_copy yes_realloc one_copy other_copy).0 other_copy
      × Fits (set_copy yes_realloc one_copy other_copy).0)
    ⊎ ((set_copy yes_realloc one_copy other_copy ≡ (one_copy, false))
        × (count one_copy ≡ one_copy.capacity)
        × (grow yes_realloc one_copy ≡ none))
set_copy_lem_example = set_copy_lem yes_realloc one_copy other_copy (omega arith)

remove_lem_example :
    (((remove one_copy 9).1 ≡ true)
      × (count one_copy ≡ suc (count (remove one_copy 9).0))
      × Unique (remove one_copy 9).0.items
      × Absent 9 (remove one_copy 9).0.items
      × ((j : ℕ) → j ≢ 9 → copy_of j (remove one_copy 9).0.items ≡ copy_of j one_copy.items))
    ⊎ ((remove one_copy 9 ≡ (one_copy, false)) × Absent 9 one_copy.items)
remove_lem_example = remove_lem one_copy 9 ((λ ne. tt), tt) (omega arith)

abbrev some_hash : List ℕ
some_hash = 0 ∷ 255 ∷ 171 ∷ replicate 13 16

parse_hash-print_hash_example :
    parse_hash (replicate 16 0) (print_hash some_hash) ≡ (some_hash, true)
parse_hash-print_hash_example =
    parse_hash-print_hash (replicate 16 0) some_hash refl refl (ground arith)
