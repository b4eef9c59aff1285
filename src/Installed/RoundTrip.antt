-- ===== src/Installed/RoundTrip.antt =====
-- core/installed.c: a list that `vhdb_installed_save` writes is read back by `vhdb_installed_load`.
use vhdb.Base.{
  ℕ, suc, ◌%◌, ◌≤◌, ◌^◌, ◌≡◌, ◌≢◌, inl, inr, refl, arith, ◌==◌, Bool-cases, ◌*◌, if◌then◌else◌,
  true, List, [], ◌∷◌, ◌++◌, append-nil, append_assoc, none, some, length, until_nul, ap, sym, ◌∙◌,
}
use vhdb.Base.Decimal.{
  Digits, print_int, print_unsigned, print_unsigned-Digits, read_int-print_int,
  read_unsigned-print_unsigned,
}
use vhdb.Base.Lines.{
  lines, lines_line, before_any, copied_lem, Lacks, Lacks-append, before-append, behind-append,
  before_lem, behind_lem, before_any-append,
}
use vhdb.Status.{Installed}
use vhdb.Installed.{Copies, emptied, make_room, grow}
use vhdb.Installed.Text.{
  fields, with_more, entry_of, parse_text, parse_line, load_loop, load, hash_text, entry_text,
  entries_text, heading, save,
}
use vhdb.Installed.Writable.{
  length-entry_text, Plain, Writable, AllWritable, Plain-Digits, Plain-print_int, Plain-hash_text,
  parse_hash-hash_text,
}

fields-append :
    (n : ℕ) (xs ys : List ℕ) → Plain xs → fields (suc n) (xs ++ (b'|' ∷ ys)) ≡ xs ∷ fields n ys
unfolding fields
fields-append n xs ys h = rw (before-append b'|' xs ys h.3, behind-append b'|' xs ys h.3) refl

fields_last : (n : ℕ) (xs : List ℕ) → Plain xs → fields (suc n) xs ≡ xs ∷ []
unfolding fields
fields_last n xs h = rw (before_lem b'|' xs h.3, behind_lem b'|' xs h.3) refl

-- The fields of a written line are those that were written.
fields-entry_text :
    (e : Installed)
    → Writable e
    → fields 7 (entry_text e) ≡ (
        print_unsigned e.id
        ∷ e.titleid
        ∷ e.version
        ∷ hash_text e.has_hash e.hash
        ∷ print_int e.from_console
        ∷ hash_text e.has_eboot e.eboot
        ∷ hash_text e.has_aux e.aux
        ∷ [])
unfolding entry_text
fields-entry_text e w =
    rw
      (
        fields-append 6 (print_unsigned e.id) _
            (Plain-Digits (print_unsigned e.id) (print_unsigned-Digits e.id)),
        fields-append 5 e.titleid _ w.titleid,
        fields-append 4 e.version _ w.version,
        fields-append 3 (hash_text e.has_hash e.hash) _ (Plain-hash_text e.has_hash e.hash w.hash),
        fields-append 2 (print_int e.from_console) _ (Plain-print_int e.from_console),
        fields-append 1 (hash_text e.has_eboot e.eboot) _
            (Plain-hash_text e.has_eboot e.eboot w.eboot),
        fields_last 0 (hash_text e.has_aux e.aux) (Plain-hash_text e.has_aux e.aux w.aux),
      )
      refl

-- A character that is in no field and is no separator is not in the line.
Lacks-entry_text :
    (a : ℕ) (e : Installed)
    → b'|' ≢ a
    → ((xs : List ℕ) → Plain xs → Lacks a xs)
    → Writable e
    → Lacks a (entry_text e)
unfolding entry_text
Lacks-entry_text a e ne pick w =
    let join : (xs ys : List ℕ) → Plain xs → Lacks a ys → Lacks a (xs ++ (b'|' ∷ ys)) =
      λ xs ys hx hy. Lacks-append a xs (b'|' ∷ ys) (pick xs hx) (ne, hy) in
    join (print_unsigned e.id) _ (Plain-Digits (print_unsigned e.id) (print_unsigned-Digits e.id)) (
      join e.titleid _ w.titleid (
        join e.version _ w.version (
          join (hash_text e.has_hash e.hash) _ (Plain-hash_text e.has_hash e.hash w.hash) (
            join (print_int e.from_console) _ (Plain-print_int e.from_console) (
              join (hash_text e.has_eboot e.eboot) _ (Plain-hash_text e.has_eboot e.eboot w.eboot)
                (pick (hash_text e.has_aux e.aux) (Plain-hash_text e.has_aux e.aux w.aux)))))))

until_nul-append : (xs ys : List ℕ) → Lacks 0 xs → until_nul (xs ++ ys) ≡ xs ++ until_nul ys
until_nul-append [] ys h = refl
until_nul-append (x ∷ xs) ys h = ground (arith, until_nul-append xs ys h.1)

entry_of-fields :
    (max : ℕ) (e : Installed)
    → 2 ^ 32 ≤ max
    → Writable e
    → entry_of max (fields 7 (entry_text e)) ≡ some e
unfolding entry_of with_more
entry_of-fields max e wide w =
    rw
      (
        fields-entry_text e w,
        read_unsigned-print_unsigned max e.id (omega (arith, w.id)),
        copied_lem 13 e.titleid w.titleid_fits,
        copied_lem 32 e.version w.version_fits,
        parse_hash-hash_text e.has_hash e.hash w.hash,
        parse_hash-hash_text e.has_eboot e.eboot w.eboot,
        parse_hash-hash_text e.has_aux e.aux w.aux,
        read_int-print_int e.from_console,
      )
      (let small : e.id % 2 ^ 32 ≡ e.id = omega (arith, w.id) in
        ap (λ n. some (record e { id = n })) small)

-- A number does not begin with the character of a comment.
parse_text-number :
    (max n : ℕ) (rest : List ℕ)
    → parse_text max (print_unsigned n ++ (b'|' ∷ rest))
      ≡ entry_of max (fields 7 (print_unsigned n ++ (b'|' ∷ rest)))
unfolding parse_text
parse_text-number max n rest = go (print_unsigned n) (print_unsigned-Digits n)
  where
    go :
        (xs : List ℕ)
        → Digits xs
        → parse_text max (xs ++ (b'|' ∷ rest)) ≡ entry_of max (fields 7 (xs ++ (b'|' ∷ rest)))
    go [] d = refl
    go (x ∷ xs) d = ground arith

parse_line-entry_text :
    (max : ℕ) (e : Installed)
    → 2 ^ 32 ≤ max
    → Writable e
    → parse_line max (entry_text e ++ (b'\n' ∷ [])) ≡ some e
unfolding parse_line
parse_line-entry_text max e wide w =
    let no_nul = Lacks-entry_text 0 e (omega arith) (λ xs h. h.0) w in
    let no_newline = Lacks-entry_text b'\n' e (omega arith) (λ xs h. h.1) w in
    let no_return = Lacks-entry_text b'\r' e (omega arith) (λ xs h. h.2) w in
    rw
      (
        until_nul-append (entry_text e) (b'\n' ∷ []) no_nul,
        before_any-append b'\r' b'\n' (entry_text e) [] no_return no_newline,
      )
      (unfold entry_text in parse_text-number max e.id _ ∙ entry_of-fields max e wide w)

-- With memory for every size there is room.
make_room-some :
    (list : Copies)
    → (roomy : Copies) × (make_room (λ n. true) list ≡ some roomy) × (roomy.items ≡ list.items)
unfolding make_room grow
make_room-some list = elim (Bool-cases (length list.items == list.capacity)) [
  | inl e ↦ (
    record list { capacity = if list.capacity == 0 then 32 else list.capacity * 2 },
    rw e refl,
    refl,
  )
  | inr e ↦ (list, rw e refl, refl)
]

load_loop-some :
    (max : ℕ) (line : List ℕ) (more : List (List ℕ)) (list roomy : Copies) (e : Installed)
    → parse_line max line ≡ some e
    → make_room (λ n. true) list ≡ some roomy
    → load_loop (λ n. true) max (line ∷ more) list
      ≡ load_loop (λ n. true) max more (record roomy { items = roomy.items ++ (e ∷ []) })
unfolding load_loop
load_loop-some max line more list roomy e parsed made = ground arith

load_loop-none :
    (max : ℕ) (line : List ℕ) (more : List (List ℕ)) (list : Copies)
    → parse_line max line ≡ none
    → load_loop (λ n. true) max (line ∷ more) list ≡ load_loop (λ n. true) max more list
unfolding load_loop
load_loop-none max line more list skipped = ground arith

-- With memory for every size, the loop adds the copies of the lines one after the other.
load_loop-entries_text :
    (max : ℕ) (es : List Installed) (list : Copies)
    → 2 ^ 32 ≤ max
    → AllWritable es
    → (load_loop (λ n. true) max (lines 511 511 (entries_text es)) list).items ≡ list.items ++ es
unfolding entries_text load_loop lines
load_loop-entries_text max [] list wide w = sym (append-nil list.items)
load_loop-entries_text max (e ∷ es) list wide w =
    let no_newline = Lacks-entry_text b'\n' e (omega arith) (λ xs h. h.1) w.0 in
    let (roomy, made, same) = make_room-some list in
    rw
      (
        lines_line 511 511 (entry_text e) (entries_text es) no_newline (length-entry_text e w.0),
        load_loop-some max (entry_text e ++ (b'\n' ∷ [])) (lines 511 511 (entries_text es)) list
            roomy e (parse_line-entry_text max e wide w.0) made,
      )
      (load_loop-entries_text max es (record roomy { items = roomy.items ++ (e ∷ []) }) wide w.1
        ∙ (append_assoc roomy.items (e ∷ []) es ∙ ap (λ xs. xs ++ (e ∷ es)) same))

heading_skipped : (max : ℕ) → parse_line max (heading ++ (b'\n' ∷ [])) ≡ none
unfolding parse_line parse_text before_any
heading_skipped max = refl

-- What `vhdb_installed_save` writes, `vhdb_installed_load` reads back as the same copies in the
-- same order, if every copy can be written: its id is below 2 ^ 32, its texts fit their arrays
-- and hold no `|`, line end or NUL, its hashes are of 16 bytes and zero where they are not known,
-- and its `from_console` is a 32-bit integer. It is assumed that memory suffices and that an
-- unsigned long holds 2 ^ 32.
pub load-save :
    (max : ℕ) (list : Copies)
    → 2 ^ 32 ≤ max
    → AllWritable list.items
    → (load (λ n. true) max (save true list)).0.items ≡ list.items
unfolding load save
load-save max list wide w =
    rw
      (
        lines_line 511 511 heading (entries_text list.items) (omega arith) (omega arith),
        load_loop-none max (heading ++ (b'\n' ∷ [])) (lines 511 511 (entries_text list.items))
            emptied (heading_skipped max),
      )
      (load_loop-entries_text max list.items emptied wide w)
