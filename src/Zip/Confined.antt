-- ===== src/Zip/Confined.antt =====
-- core/zip.c: where `vhdb_zip_extract` makes folders and files.
use vhdb.Base.{
  ℕ, zero, suc, ◌+◌, ◌==◌, ◌≡◌, ◌≢◌, refl, ap, ◌⊎◌, inl, inr, arith, true, not, ◌&&◌, List, [], ◌∷◌,
  ◌++◌, append_assoc, none, some, length, equal, Bool-cases, Option-cases,
}
use vhdb.Zip.{
  Event, make_dir, create, append, Outcome, done, failed, outside, stuck, Archive, Host,
  make_parents, parents_loop, first, has_dots, has_colon, safe_name, joined,
}
use vhdb.Zip.Entry.{
  Zlib, Run, after, stored_loop, logged, output_loop, check_size, input_loop, inflate_entry,
  stored_entry, write_entry, extract_one, wanted, less, local_extra,
}

-- A name that stays below its folder: it does not begin with `/`, no two dots stand side by side
-- in it, and it has no colon.
abbrev pub Inside : List ℕ → Type 0
Inside name =
    (first name ≢ b'/')
    × ((before behind : List ℕ) → name ≢ before ++ (b'.' ∷ b'.' ∷ behind))
    × ((before behind : List ℕ) → name ≢ before ++ (b':' ∷ behind))

-- The path of such a name in the destination.
abbrev pub Below : List ℕ → List ℕ → Type 0
Below destination path = (name : List ℕ) × (Inside name × (path ≡ joined destination name))

-- A folder is the destination, or leads to such a path; a file is at such a path.
abbrev pub Allowed : List ℕ → Event → Type 0
Allowed destination (make_dir path) =
    (path ≡ destination) ⊎ ((rest : List ℕ) × Below destination (path ++ rest))
Allowed destination (create path) = Below destination path
Allowed destination (append path bytes) = Below destination path

abbrev pub Confined : List ℕ → List Event → Type 0
Confined destination [] = Unit
Confined destination (e ∷ log) = Allowed destination e × Confined destination log

has_dots-append : (a b : List ℕ) → has_dots (a ++ (b'.' ∷ b'.' ∷ b)) ≡ true
unfolding has_dots
has_dots-append [] b = refl
has_dots-append (c ∷ cs) b = ground (arith, has_dots-append cs b)

has_colon-append : (a b : List ℕ) → has_colon (a ++ (b':' ∷ b)) ≡ true
unfolding has_colon
has_colon-append [] b = refl
has_colon-append (c ∷ cs) b = ground (arith, has_colon-append cs b)

pub safe_name-Inside : (name : List ℕ) → safe_name name ≡ true → Inside name
unfolding safe_name
safe_name-Inside name safe = (
  λ e. absurd (ground (arith, e)),
  λ a b e. absurd (ground (arith, ap has_dots e, has_dots-append a b)),
  λ a b e. absurd (ground (arith, ap has_colon e, has_colon-append a b)),
)

parents_loop-Confined :
    (d before rest : List ℕ) (log : List Event)
    → Below d (before ++ rest)
    → Confined d log
    → Confined d (parents_loop before rest log)
unfolding parents_loop
parents_loop-Confined d before [] log below ok = ok
parents_loop-Confined d before (c ∷ cs) log below ok =
    let below' : Below d ((before ++ (c ∷ [])) ++ cs) =
      rw (append_assoc before (c ∷ []) cs) below in
    elim (Bool-cases (c == b'/' && not (equal before []))) [
      | inl e ↦ rw e (
          parents_loop-Confined d (before ++ (c ∷ [])) cs (make_dir before ∷ log) below'
            (inr (c ∷ cs, below), ok))
      | inr e ↦ rw e (parents_loop-Confined d (before ++ (c ∷ [])) cs log below' ok)
    ]

pub make_parents-Confined :
    (d path : List ℕ) (log : List Event)
    → Below d path
    → Confined d log
    → Confined d (make_parents path log)
unfolding make_parents
make_parents-Confined d path log below ok =
    ground (arith, parents_loop-Confined d [] path log below ok)

pub after-Confined :
    (d : List ℕ) (o : Outcome) (x y : Run)
    → Confined d x.log
    → Confined d y.log
    → Confined d (after o x y).log
unfolding after
after-Confined d done x y hx hy = hx
after-Confined d (failed e) x y hx hy = hy
after-Confined d outside x y hx hy = hy
after-Confined d stuck x y hx hy = hy

stored_loop-Confined :
    (d : List ℕ) (host : Host) (archive : Archive) (path : List ℕ) (n pos left : ℕ)
    (log : List Event)
    → Below d path
    → Confined d log
    → Confined d (stored_loop host archive path n pos left log).log
unfolding stored_loop
stored_loop-Confined d host archive path zero pos left log below ok = ok
stored_loop-Confined d host archive path (suc n) pos left log below ok =
    let bytes = archive.read pos (wanted left) in
    let later =
      stored_loop-Confined d host archive path n (pos + length bytes) (less left (length bytes))
        (append path bytes ∷ log) below (below, ok) in
    let once : Confined d (append path bytes ∷ log) = (below, ok) in ground arith

logged-Confined :
    (d path bytes : List ℕ) (log : List Event)
    → Below d path
    → Confined d log
    → Confined d (logged path bytes log)
unfolding logged
logged-Confined d path [] log below ok = ok
logged-Confined d path (b ∷ bs) log below ok = (below, ok)

module _ {S : Type 0} (zlib : Zlib S) (host : Host) (d : List ℕ) (path : List ℕ)
    (below : Below d path) where
  output_loop-Confined :
      (n : ℕ) (s : S) (log : List Event)
      → Confined d log
      → Confined d (output_loop zlib host path n s log).1.log
  unfolding output_loop
  output_loop-Confined zero s log ok = ok
  output_loop-Confined (suc n) s log ok =
      let more = logged-Confined d path (zlib.inflate s).1.0 log below ok in
      let later = output_loop-Confined n (zlib.inflate s).0 _ more in ground arith

  check_size-Confined :
      (uncompressed : ℕ) (s : S) (log : List Event)
      → Confined d log
      → Confined d (check_size zlib host uncompressed s log).log
  unfolding check_size
  check_size-Confined uncompressed s log ok = ground arith

  input_loop-Confined :
      (archive : Archive) (fuel uncompressed n pos left : ℕ) (s : S) (log : List Event)
      → Confined d log
      → Confined d (input_loop zlib host archive path fuel uncompressed n pos left s log).log
  unfolding input_loop
  input_loop-Confined archive fuel uncompressed zero pos left s log ok = ok
  input_loop-Confined archive fuel uncompressed (suc n) pos left s log ok =
      let bytes = archive.read pos (wanted left) in
      let inner = output_loop zlib host path fuel (zlib.feed s bytes) log in
      let now = output_loop-Confined fuel (zlib.feed s bytes) log ok in
      let later =
        input_loop-Confined archive fuel uncompressed n (pos + length bytes)
          (less left (length bytes)) inner.0 inner.1.log now in
      let ends = check_size-Confined uncompressed s log ok in
      let rest =
        input_loop zlib host archive path fuel uncompressed n (pos + length bytes)
          (less left (length bytes)) inner.0 inner.1.log in
      let goes = after-Confined d inner.1.outcome rest inner.1 later now in ground arith

  inflate_entry-Confined :
      (archive : Archive) (fuel compressed uncompressed pos : ℕ) (log : List Event)
      → Confined d log
      → Confined d (inflate_entry zlib host archive path fuel compressed uncompressed pos log).log
  unfolding inflate_entry
  inflate_entry-Confined archive fuel compressed uncompressed pos log ok =
      elim (Option-cases zlib.start) [
        | inl e ↦ rw e (ground arith)
        | inr (s, e) ↦
            let run =
              input_loop-Confined archive fuel uncompressed (suc compressed) pos compressed s log
                ok in
            rw e (ground arith)
      ]

  write_entry-Confined :
      (archive : Archive) (fuel compressed uncompressed method pos : ℕ) (log : List Event)
      → Confined d log
      → Confined d
          (write_entry zlib host archive fuel path compressed uncompressed method pos log).log
  unfolding write_entry stored_entry
  write_entry-Confined archive fuel compressed uncompressed method pos log ok =
      let parents = make_parents-Confined d path log below ok in
      let made : Confined d (create path ∷ make_parents path log) = (below, parents) in
      let stored =
        stored_loop-Confined d host archive path (suc compressed) pos compressed
          (create path ∷ make_parents path log) below made in
      let inflated =
        inflate_entry-Confined archive fuel compressed uncompressed pos
          (create path ∷ make_parents path log) made in
      ground arith

pub extract_one-Confined :
    {S : Type 0} (zlib : Zlib S) (host : Host) (d name : List ℕ) (archive : Archive)
    (fuel offset compressed uncompressed method : ℕ) (log : List Event)
    → Inside name
    → Confined d log
    → Confined d
        (extract_one zlib host archive fuel d name offset compressed uncompressed method log).log
unfolding extract_one
extract_one-Confined zlib host d name archive fuel offset compressed uncompressed method log inside
      ok =
    elim (Option-cases (local_extra (archive.read offset 30))) [
      | inl e ↦ rw e (ground arith)
      | inr (none, e) ↦ rw e (ground arith)
      | inr (some extra, e) ↦
          let written =
            write_entry-Confined zlib host d (joined d name) (name, (inside, refl)) archive fuel
              compressed uncompressed method (offset + 30 + extra) log ok in
          rw e (ground arith)
    ]
