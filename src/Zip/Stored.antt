-- ===== src/Zip/Stored.antt =====
-- core/zip.c, `extract_one`: the loop over a stored entry, and what it writes.
use vhdb.Base.{
  ℕ, zero, suc, ◌+◌, ◌≤◌, ◌<◌, ◌^◌, ◌≡◌, ◌≢◌, inl, inr, ◌-◌, ◌==◌, Bool-cases, arith, true, List,
  ◌∷◌, length, refl, sym, ap, ◌∙◌, false, [], ◌++◌, append-nil, append_assoc, Option, none, some,
  ◌>>=◌, if◌then◌else◌, take, drop, take_nothing, length-take, length-drop, equal, equal_iff,
  Option-cases,
}
use vhdb.Zip.{Event, make_dir, create, append, done, stuck, Archive, Host, chunk_size}
use vhdb.Zip.Entry.{wanted, less, stored_loop, stored_entry}

-- `fread` gives no more bytes than it is asked for.
abbrev pub ReadsAtMost : Archive → Type 0
ReadsAtMost archive = (pos n : ℕ) → length (archive.read pos n) ≤ n

-- What `fseek` and `fread` give of a file: the bytes at the position, no more than are asked for,
-- and before the file's end at least one if any is asked for.
abbrev pub IsReadOf : List ℕ → Archive → Type 0
IsReadOf file archive =
    (pos n : ℕ)
    → (k : ℕ) × (k ≤ n)
      × (archive.read pos n ≡ take k (drop pos file))
      × (0 < n → pos < length file → 0 < k)

-- What a list of events, the newest first, writes to a file, if it does nothing else.
abbrev pub content : List ℕ → List Event → Option (List ℕ)
content path [] = some []
content path (append p b ∷ es) =
    let before = content path es in
    if equal path p then (before >>= λ bytes. some (bytes ++ b)) else none
content path (make_dir p ∷ es) = none
content path (create p ∷ es) = none

-- The events of a piece of a loop, in front of those before, write the bytes.
abbrev pub Writes : List ℕ → List Event → List ℕ → List Event → Type 0
Writes path log bytes log' =
    (new : List Event) × (log' ≡ new ++ log) × (content path new ≡ some bytes)

content-append :
    (path b bytes : List ℕ) (new : List Event)
    → content path new ≡ some bytes
    → content path (new ++ (append path b ∷ [])) ≡ some (b ++ bytes)
content-append path b bytes [] e =
    let same = (equal_iff path path).1 refl in
    let empty : bytes ≡ [] = ground arith in rw (same, empty) (ap some (sym (append-nil b)))
content-append path b bytes (append p c ∷ es) e = elim (Bool-cases (equal path p)) [
  | inr other ↦ absurd (ground arith)
  | inl same ↦ elim (Option-cases (content path es)) [
    | inl bad ↦ absurd (ground arith)
    | inr (old, before) ↦
        let whole : bytes ≡ old ++ c = ground arith in
        let more = content-append path b old es before in
        rw (same, more, whole) (ap some (append_assoc b old c))
  ]
]
content-append path b bytes (make_dir p ∷ es) e = absurd (ground arith)
content-append path b bytes (create p ∷ es) e = absurd (ground arith)

-- A block in front of the bytes that follow.
Writes-step :
    (path b bytes : List ℕ) (log log' : List Event)
    → Writes path (append path b ∷ log) bytes log'
    → Writes path log (b ++ bytes) log'
Writes-step path b bytes log log' (new, is, made) = (
  new ++ (append path b ∷ []),
  is ∙ sym (append_assoc new (append path b ∷ []) log),
  content-append path b bytes new made,
)

take-split : (k j : ℕ) (xs : List ℕ) → take (k + j) xs ≡ take k xs ++ take j (drop k xs)
take-split zero j xs = ap (λ (i : ℕ). take i xs) (omega arith)
take-split (suc k) j [] =
    let one : suc k + j ≡ suc (k + j) = omega arith in rw one (sym (take_nothing j))
take-split (suc k) j (x ∷ xs) =
    let one : suc k + j ≡ suc (k + j) = omega arith in rw one (ap (λ t. x ∷ t) (take-split k j xs))

drop_nothing : (j : ℕ) → drop {A = ℕ} j [] ≡ []
drop_nothing zero = refl
drop_nothing (suc j) = refl

drop-drop : (k j : ℕ) (xs : List ℕ) → drop k (drop j xs) ≡ drop (j + k) xs
drop-drop k zero xs = ap (λ (i : ℕ). drop i xs) (omega arith)
drop-drop k (suc j) [] = let one : suc j + k ≡ suc (j + k) = omega arith in rw one (drop_nothing k)
drop-drop k (suc j) (x ∷ xs) =
    let one : suc j + k ≡ suc (j + k) = omega arith in rw one (drop-drop k j xs)

wanted-le : (left : ℕ) → wanted left ≤ left
unfolding wanted
wanted-le left = ground arith

wanted-pos : (left : ℕ) → 0 < left → 0 < wanted left
unfolding wanted
wanted-pos left h = ground arith

less-value : (left got : ℕ) → left < 2 ^ 32 → got ≤ left → less left got ≡ left - got
unfolding less
less-value left got small h = omega arith

stored_loop-ends :
    (host : Host) (archive : Archive) (path : List ℕ) (n pos left : ℕ) (log : List Event)
    → ReadsAtMost archive
    → left < n
    → left < 2 ^ 32
    → (stored_loop host archive path n pos left log).outcome ≢ stuck
unfolding stored_loop
stored_loop-ends host archive path zero pos left log reads h small e = absurd (omega arith)
stored_loop-ends host archive path (suc n) pos left log reads h small e =
    let got = length (archive.read pos (wanted left)) in
    let few : got ≤ wanted left = reads pos (wanted left) in
    let le = wanted-le left in
    let rest = less-value left got small (omega arith) in
    let later =
      stored_loop-ends host archive path n (pos + got) (less left got)
        (append path (archive.read pos (wanted left)) ∷ log) reads in
    elim (Bool-cases (left == 0)) [
      | inl zero_left ↦ ground arith
      | inr more ↦ elim (Bool-cases (got == 0)) [
        | inl no_byte ↦ ground arith
        | inr some_byte ↦ let go = later (ground arith) (omega arith) in ground arith
      ]
    ]

stored_loop-done :
    (host : Host) (archive : Archive) (path file : List ℕ) (n pos left : ℕ) (log : List Event)
    → IsReadOf file archive
    → pos + left ≤ length file
    → ((before : List Event) (bytes : List ℕ) → host.write before path bytes ≡ true)
    → left < n
    → left < 2 ^ 32
    → let run = stored_loop host archive path n pos left log in
      (run.outcome ≡ done) × Writes path log (take left (drop pos file)) run.log
unfolding stored_loop
stored_loop-done host archive path file zero pos left log reads inside writes h small =
    absurd (omega arith)
stored_loop-done host archive path file (suc n) pos left log reads inside writes h small =
    let bytes = archive.read pos (wanted left) in
    let (k, few, is, gives) = reads pos (wanted left) in
    let le = wanted-le left in
    let got : length bytes ≡ k =
      ap length is ∙ omega (arith, length-take k (drop pos file), length-drop pos file) in
    let rest = less-value left k small (omega arith) in
    let written = writes log bytes in
    elim (Bool-cases (left == 0)) [
      | inl zero_left ↦
          let none_left : left ≡ 0 = ground arith in rw none_left (refl, ([], refl, refl))
      | inr more ↦
          let some_byte : 0 < k = gives (wanted-pos left (ground arith)) (ground arith) in
          let (ends, later) =
            stored_loop-done host archive path file n (pos + k) (left - k) (append path bytes ∷ log)
              reads (omega arith) writes (omega arith) (omega arith) in
          let split : bytes ++ take (left - k) (drop (pos + k) file) ≡ take left (drop pos file) =
            ap (λ b. b ++ take (left - k) (drop (pos + k) file)) is
            ∙ ap (λ t. take k (drop pos file) ++ take (left - k) t) (sym (drop-drop k pos file))
            ∙ sym (take-split k (left - k) (drop pos file))
            ∙ ap (λ (i : ℕ). take i (drop pos file)) (omega arith) in
          let on = stored_loop host archive path n (pos + k) (left - k) (append path bytes ∷ log) in
          let step =
            Writes-step path bytes (take (left - k) (drop (pos + k) file)) log on.log later in
          let not_none : (length bytes == 0) ≡ false = ground arith in
          rw (more, not_none, written, got, rest) (ends, rw (← split) step)
    ]

-- The copy of a stored entry of fewer than 2 ^ 32 bytes ends, if `fread` gives no more bytes than
-- it is asked for: the fuel of the loop suffices.
stored_entry-ends :
    (host : Host) (archive : Archive) (path : List ℕ) (compressed pos : ℕ) (log : List Event)
    → ReadsAtMost archive
    → compressed < 2 ^ 32
    → (stored_entry host archive path compressed pos log).outcome ≢ stuck
unfolding stored_entry
stored_entry-ends host archive path compressed pos log reads small e =
    let ends =
      stored_loop-ends host archive path (suc compressed) pos compressed log reads (omega arith)
        small in
    ground arith

-- A stored entry of fewer than 2 ^ 32 bytes is copied: the call is done, and what it has written
-- behind the events before are the entry's bytes, in their order, to its path and nothing else. It
-- is assumed that the bytes lie in the archive, `fread` gives the bytes of the archive at its
-- position, one at least, every write works and the chunk can be allocated.
pub stored_entry-done :
    (host : Host) (archive : Archive) (path file : List ℕ) (compressed pos : ℕ) (log : List Event)
    → IsReadOf file archive
    → pos + compressed ≤ length file
    → ((before : List Event) (bytes : List ℕ) → host.write before path bytes ≡ true)
    → host.malloc chunk_size ≡ true
    → compressed < 2 ^ 32
    → let run = stored_entry host archive path compressed pos log in
      (run.outcome ≡ done) × Writes path log (take compressed (drop pos file)) run.log
unfolding stored_entry
stored_entry-done host archive path file compressed pos log reads inside writes room small =
    rw room (
      stored_loop-done host archive path file (suc compressed) pos compressed log reads inside
        writes (omega arith) small)
