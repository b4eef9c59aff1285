-- ===== src/Installed.antt =====
-- core/installed.c: the list of installed copies in memory.
pub mod Hash
pub mod Text
pub mod Writable
pub mod RoundTrip
pub mod Lookup
pub mod Unique
use vhdb.Base.{
  ℕ, zero, suc, ◌+◌, ◌*◌, ◌==◌, if◌then◌else◌, Bool, true, false, List, [], ◌∷◌, ◌++◌, Option, none,
  some, ◌>>=◌, length, equal, set,
}
use vhdb.Status.{Installed}

-- `vhdb_installed_list`: the items in use and the size of their array.
pub record Copies : Type 0 where
  pub items : List Installed
  pub capacity : ℕ

-- `vhdb_installed_free`, and the list that `vhdb_installed_load` starts from.
abbrev pub emptied : Copies
emptied = record { items = []; capacity = 0 }

abbrev pub count : Copies → ℕ
count list = length list.items

-- `grow`, where `realloc` may refuse a size: `none` is its result 0.
unfoldable pub grow : (ℕ → Bool) → Copies → Option Copies
grow realloc list =
    let capacity = if list.capacity == 0 then 32 else list.capacity * 2 in
    if realloc capacity then some (record list { capacity = capacity }) else none

-- The index of the first copy that passes a test.
unfoldable pub find_first : (Installed → Bool) → List Installed → Option ℕ
find_first test [] = none
find_first test (x ∷ xs) =
    let later = find_first test xs >>= λ i. some (suc i) in if test x then some zero else later

-- `vhdb_installed_find_id`: an index for the pointer into the array.
unfoldable pub find_id : Copies → ℕ → Option ℕ
find_id list id = if id == 0 then none else find_first (λ e. e.id == id) list.items

-- `vhdb_installed_find_titleid`; an empty text stands for NULL too.
unfoldable pub find_titleid : Copies → List ℕ → Option ℕ
find_titleid list titleid =
    if equal titleid [] then none else find_first (λ e. equal e.titleid titleid) list.items

-- The first search of `vhdb_installed_set`, and the second if that finds nothing.
unfoldable pub find_slot : Copies → Installed → Option ℕ
find_slot list entry = elim (find_id list entry.id) [
  | some i ↦ some i
  | none ↦ find_titleid list entry.titleid
]

-- A full array grows first.
unfoldable pub make_room : (ℕ → Bool) → Copies → Option Copies
make_room realloc list = if count list == list.capacity then grow realloc list else some list

-- `vhdb_installed_set`: the list and whether it worked.
unfoldable pub set_copy : (ℕ → Bool) → Copies → Installed → Copies × Bool
set_copy realloc list entry = elim (find_slot list entry) [
  | some i ↦ (record list { items = set list.items i entry }, true)
  | none ↦ elim (make_room realloc list) [
    | none ↦ (list, false)
    | some roomy ↦ (record roomy { items = roomy.items ++ (entry ∷ []) }, true)
  ]
]

-- The loop of `vhdb_installed_remove`: the first copy of the id is taken out.
unfoldable pub remove_first : ℕ → List Installed → Option (List Installed)
remove_first id [] = none
remove_first id (x ∷ xs) =
    let later = remove_first id xs >>= λ ys. some (x ∷ ys) in if x.id == id then some xs else later

-- `vhdb_installed_remove`
unfoldable pub remove : Copies → ℕ → Copies × Bool
remove list id = elim (remove_first id list.items) [
  | none ↦ (list, false)
  | some items ↦ (record list { items = items }, true)
]
