-- ===== src/Pc/Listing.antt =====
-- pc/main.c: `vhdb list`, which picks entries by words, a category and a platform.
pub mod Wanted
pub mod Picked
use vhdb.Base.{
  ℕ, zero, suc, ◌+◌, ◌==◌, ltb, leb, if◌then◌else◌, Bool, true, false, not, ◌&&◌, ◌||◌, List, [],
  ◌∷◌, ◌++◌, Option, none, some, ◌>>=◌, equal, codes,
}
use vhdb.Base.Decimal.{read_int}
use vhdb.Base.Int.{ℤ, pos, negsuc}
use vhdb.Catalog.{Db, Entry, entry_at}
use vhdb.Catalog.Access.{by_name, by_date, str}
use vhdb.Version.{to_lower}

-- `strcasecmp(...) == 0`
unfoldable pub same_word : List ℕ → List ℕ → Bool
same_word [] [] = true
same_word [] (y ∷ ys) = false
same_word (x ∷ xs) [] = false
same_word (x ∷ xs) (y ∷ ys) = to_lower x == to_lower y && same_word xs ys

-- `strcasestr`: whether the text has the word in it.
unfoldable pub starts_with : List ℕ → List ℕ → Bool
starts_with xs [] = true
starts_with [] (y ∷ ys) = false
starts_with (x ∷ xs) (y ∷ ys) = to_lower x == to_lower y && starts_with xs ys

unfoldable pub contains : List ℕ → List ℕ → Bool
contains [] word = starts_with [] word
contains (x ∷ xs) word = starts_with (x ∷ xs) word || contains xs word

-- `platform_from_word`, where `none` is -1.
unfoldable pub platform_from_word : List ℕ → Option ℕ
platform_from_word word =
    if same_word word (codes "vita")
    then some 0
    else if same_word word (codes "psp")
    then some 1
    else if same_word word (codes "plugin")
    then some 2
    else if same_word word (codes "tool")
    then some 3
    else none

-- `type_from_word`
unfoldable pub type_from_word : List ℕ → Option ℕ
type_from_word word =
    if same_word word (codes "games")
    then some 1
    else if same_word word (codes "ports")
    then some 2
    else if same_word word (codes "utilities")
    then some 4
    else if same_word word (codes "emulators")
    then some 5
    else none

-- `matches`; `none` is a read outside the catalog's bytes.
unfoldable pub matches : Db → Entry → List (List ℕ) → Option Bool
matches db rec [] = some true
matches db rec (word ∷ words) = str db rec.name >>= λ name. str db rec.author >>= λ author.
    let rest = matches db rec words in
    if not (contains name word) && not (contains author word) then some false else rest

-- The options of `command_list`.
pub record Options : Type 0 where
  pub limit : ℤ
  pub by_date : Bool
  pub want_type : Option ℕ
  pub want_platform : Option ℕ
  pub words : List (List ℕ)
  pub word_count : ℕ

abbrev pub default_options : Options
default_options = record {
  limit = pos 25;
  by_date = false;
  want_type = none;
  want_platform = none;
  words = [];
  word_count = 0;
}

-- An argument that takes no value.
unfoldable pub flag_option : Options → List ℕ → Options
flag_option o arg =
    if equal arg (codes "-u")
    then record o { by_date = true }
    else if ltb o.word_count 8
    then record o { words = o.words ++ (arg ∷ []); word_count = o.word_count + 1 }
    else o

-- An argument that takes the next one as its value.
unfoldable pub value_option : Options → List ℕ → List ℕ → Option Options
value_option o arg value =
    if equal arg (codes "-n")
    then some (record o { limit = read_int value })
    else if equal arg (codes "-c")
    then some (record o { want_type = type_from_word value })
    else if equal arg (codes "-p")
    then some (record o { want_platform = platform_from_word value })
    else none

-- The loop over the arguments.
unfoldable pub parse_options : Options → List (List ℕ) → Options
parse_options o [] = o
parse_options o (arg ∷ []) = flag_option o arg
parse_options o (arg ∷ (value ∷ args)) = elim (value_option o arg value) [
  | some o' ↦ parse_options o' args
  | none ↦ parse_options (flag_option o arg) (value ∷ args)
]

-- Whether a wanted number is another one.
unfoldable pub unwanted : Option ℕ → ℕ → Bool
unwanted none n = false
unwanted (some wanted) n = not (n == wanted)

-- Whether the loop goes on to count an entry.
unfoldable pub is_picked : Db → Options → Entry → Option Bool
is_picked db o rec =
    if unwanted o.want_platform rec.platform
    then some false
    else if unwanted o.want_type rec.type
    then some false
    else matches db rec o.words

-- The entries that are printed, and the two counters.
pub record Shown : Type 0 where
  pub rows : List Entry
  pub shown : ℕ
  pub total : ℕ

unfoldable pub has_room : ℕ → ℤ → Bool
has_room shown (pos limit) = ltb shown limit
has_room shown (negsuc n) = false

unfoldable pub count_row : Options → Entry → Shown → Shown
count_row o rec st =
    if has_room st.shown o.limit
    then record { rows = st.rows ++ (rec ∷ []); shown = st.shown + 1; total = st.total + 1 }
    else record st { total = st.total + 1 }

-- The record at a rank of the chosen order; a NULL that is read is a fault too.
unfoldable pub entry_of_rank : Db → Bool → ℕ → Option Entry
entry_of_rank db dated rank = (if dated then by_date db rank else by_name db rank) >>= λ found.
    found >>= λ p. db.blob >>= λ blob. entry_at blob p

-- The loop of `command_list` from a rank on, with `k` ranks left.
unfoldable pub list_loop : Db → Options → ℕ → ℕ → Shown → Option Shown
list_loop db o zero rank st = some st
list_loop db o (suc k) rank st = entry_of_rank db o.by_date rank >>= λ rec.
    is_picked db o rec >>= λ picked.
    list_loop db o k (rank + 1) (if picked then count_row o rec st else st)

-- `command_list` on a catalog that is open.
unfoldable pub list_entries : Db → List (List ℕ) → Option Shown
list_entries db args =
    list_loop db (parse_options default_options args) db.count 0
      (record { rows = []; shown = 0; total = 0 })
