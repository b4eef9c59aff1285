-- ===== src/Installed/Text.antt =====
-- core/installed.c: `vhdb_installed_load` and `vhdb_installed_save`.
use vhdb.Base.{
  ℕ, zero, suc, ◌%◌, ◌^◌, ◌==◌, if◌then◌else◌, Bool, true, false, List, [], ◌∷◌, ◌++◌, Option, none,
  some, replicate, until_nul, codes,
}
use vhdb.Base.Decimal.{read_int, read_unsigned, print_int, print_unsigned}
use vhdb.Base.Int.{pos}
use vhdb.Base.Lines.{lines, before, behind, before_any, copied}
use vhdb.Status.{Installed}
use vhdb.Installed.{Copies, emptied, make_room}
use vhdb.Installed.Hash.{parse_hash, print_hash}

-- The texts between the `|` of a line, at most `n` of them; the rest of the line is dropped.
unfoldable pub fields : ℕ → List ℕ → List (List ℕ)
fields zero text = []
fields (suc n) text =
    before b'|' text ∷ elim (behind b'|' text) [ none ↦ [] | some rest ↦ fields n rest ]

abbrev pub no_hash : List ℕ
no_hash = replicate 16 0

-- The fields from the fifth on: `from_console`, and the hashes of the eboot and the data file.
unfoldable pub with_more : Installed → List (List ℕ) → Installed
with_more entry [] = entry
with_more entry (console ∷ []) = record entry { from_console = read_int console }
with_more entry (console ∷ (eboot ∷ [])) = record entry {
  from_console = read_int console;
  eboot = (parse_hash no_hash eboot).0;
  has_eboot = (parse_hash no_hash eboot).1;
}
with_more entry (console ∷ (eboot ∷ (aux ∷ more))) = record entry {
  from_console = read_int console;
  eboot = (parse_hash no_hash eboot).0;
  has_eboot = (parse_hash no_hash eboot).1;
  aux = (parse_hash no_hash aux).0;
  has_aux = (parse_hash no_hash aux).1;
}

-- The entry of a line's fields, if there are four at least. `max` is the largest `unsigned long`.
unfoldable pub entry_of : ℕ → List (List ℕ) → Option Installed
entry_of max [] = none
entry_of max (id ∷ []) = none
entry_of max (id ∷ (titleid ∷ [])) = none
entry_of max (id ∷ (titleid ∷ (version ∷ []))) = none
entry_of max (id ∷ (titleid ∷ (version ∷ (hash ∷ more)))) = some (
    with_more
      (record {
        id = read_unsigned max id % 2 ^ 32;
        titleid = copied 13 titleid;
        version = copied 32 version;
        hash = (parse_hash no_hash hash).0;
        has_hash = (parse_hash no_hash hash).1;
        eboot = no_hash;
        has_eboot = false;
        aux = no_hash;
        has_aux = false;
        from_console = pos 0;
      })
      more)

-- A line without its end; an empty one and a comment have no entry.
unfoldable pub parse_text : ℕ → List ℕ → Option Installed
parse_text max [] = none
parse_text max (c ∷ cs) = if c == b'#' then none else entry_of max (fields 7 (c ∷ cs))

unfoldable pub parse_line : ℕ → List ℕ → Option Installed
parse_line max line = parse_text max (before_any b'\r' b'\n' (until_nul line))

-- The loop over the lines; it ends early where the array cannot grow.
unfoldable pub load_loop : (ℕ → Bool) → ℕ → List (List ℕ) → Copies → Copies
load_loop realloc max [] list = list
load_loop realloc max (line ∷ more) list = elim (parse_line max line) [
  | none ↦ load_loop realloc max more list
  | some entry ↦ elim (make_room realloc list) [
    | none ↦ list
    | some roomy ↦ load_loop realloc max more (record roomy { items = roomy.items ++ (entry ∷ []) })
  ]
]

-- `vhdb_installed_load` of a file's bytes, or of a file that does not open.
unfoldable pub load : (ℕ → Bool) → ℕ → Option (List ℕ) → Copies × Bool
load realloc max none = (emptied, false)
load realloc max (some bytes) = (load_loop realloc max (lines 511 511 bytes) emptied, true)

-- A hash, if there is one.
unfoldable pub hash_text : Bool → List ℕ → List ℕ
hash_text has hash = if has then print_hash hash else []

-- What is written for one copy, without the newline.
unfoldable pub entry_text : Installed → List ℕ
entry_text e =
    print_unsigned e.id
    ++ (b'|'
        ∷ (e.titleid
            ++ (b'|'
                ∷ (e.version
                    ++ (b'|'
                        ∷ (hash_text e.has_hash e.hash
                            ++ (b'|'
                                ∷ (print_int e.from_console
                                    ++ (b'|'
                                        ∷ (hash_text e.has_eboot e.eboot
                                            ++ (b'|' ∷ hash_text e.has_aux e.aux)))))))))))

unfoldable pub entries_text : List Installed → List ℕ
entries_text [] = []
entries_text (e ∷ es) = entry_text e ++ (b'\n' ∷ entries_text es)

abbrev pub heading : List ℕ
heading = codes "# id|titleid|version|md5|from_console|eboot|aux"

-- `vhdb_installed_save` on a path that opens for writing or not: the bytes of the file.
unfoldable pub save : Bool → Copies → Option (List ℕ)
save opens list = if opens then some (heading ++ (b'\n' ∷ entries_text list.items)) else none
