-- ===== src/Pc/Net/Download.antt =====
-- pc/net.c, `vhdb_net_download`: a file is replaced as a whole, or left alone.
use vhdb.Base.{
  ℕ, ◌≡◌, ◌≢◌, ◌⊎◌, inl, inr, refl, sym, ◌∙◌, arith, true, false, List, [], ◌∷◌, ◌++◌, append-nil,
  append_assoc, Option, none, some, equal_iff, Bool-cases,
}
use vhdb.Pc.Net.{
  Reply, ok, err, Request, Transfer, Curl, deliver, perform, FileSystem, put, Disk, write_file,
  temp_of, into_place, after_transfer, download,
}
use vhdb.Pc.Net.Sink.{joined}

pub put_self :
    (path : List ℕ) (content : Option (List ℕ)) (fs : FileSystem)
    → put path content fs path ≡ content
unfolding put
put_self path content fs = ground (arith, equal_iff path path)

pub put_other :
    (path other : List ℕ) (content : Option (List ℕ)) (fs : FileSystem)
    → other ≢ path
    → put path content fs other ≡ fs other
unfolding put
put_other path other content fs ne = ground (arith, equal_iff other path)

-- The file that took all blocks holds them.
deliver-file :
    (disk : Disk) (before : List ℕ) (blocks : List (List ℕ))
    → (deliver (write_file disk) before blocks).1 ≡ true
    → (deliver (write_file disk) before blocks).0 ≡ before ++ joined blocks
unfolding deliver write_file
deliver-file disk before [] e = sym (append-nil before)
deliver-file disk before (block ∷ blocks) e = elim (Bool-cases (disk.writes before block)) [
  | inl taken ↦
      let later = deliver-file disk (before ++ block) blocks (ground arith) in
      rw taken (later ∙ append_assoc before block (joined blocks))
  | inr refused ↦ absurd (ground arith)
]

-- The request of a download.
abbrev pub plain : List ℕ → Request
plain url = record { url = url; range = none; login = none }

-- What a download may leave. A success: the whole data at the path. An error: the file that was
-- there, or none where the last step removed it and could not rename. The temporary file is gone
-- if it was made, and no other file changes.
abbrev pub Left :
    Curl → Disk → List ℕ → List ℕ → FileSystem → Reply (Unit {0}) × FileSystem → Type 0
Left curl disk url path fs (ok done, fs') =
    (fs' path ≡ some (joined (curl.transfer (plain url)).blocks))
    × (fs' (temp_of path) ≡ none)
    × ((other : List ℕ) → other ≢ path → other ≢ temp_of path → fs' other ≡ fs other)
Left curl disk url path fs (err message, fs') =
    ((fs' path ≡ fs path) ⊎ ((fs' path ≡ none) × (disk.renames ≡ false)))
    × ((fs' (temp_of path) ≡ none) ⊎ (fs' (temp_of path) ≡ fs (temp_of path)))
    × ((other : List ℕ) → other ≢ path → other ≢ temp_of path → fs' other ≡ fs other)

into_place-Left :
    (curl : Curl) (disk : Disk) (url path : List ℕ) (fs fs' : FileSystem)
    → temp_of path ≢ path
    → ((other : List ℕ) → other ≢ temp_of path → fs' other ≡ fs other)
    → Left curl disk url path fs
        (into_place disk path (joined (curl.transfer (plain url)).blocks) fs')
unfolding into_place
into_place-Left curl disk url path fs fs' apart same =
    let temp = temp_of path in
    let bytes = joined (curl.transfer (plain url)).blocks in
    let bare = put path none fs' in
    let rest = λ (other : List ℕ) (ne : other ≢ path) (net : other ≢ temp).
      put_other path other none fs' ne ∙ same other net in
    elim (Bool-cases disk.renames) [
      | inl renamed ↦ rw renamed (
        put_other temp path none _ (λ e. apart (sym e)) ∙ put_self path (some bytes) bare,
        put_self temp none _,
        λ other ne net.
            put_other temp other none _ net
            ∙ (put_other path other (some bytes) bare ne ∙ rest other ne net),
      )
      | inr refused ↦ rw refused (
        inr (put_other temp path none bare (λ e. apart (sym e)) ∙ put_self path none fs', refl),
        inl (put_self temp none bare),
        λ other ne net. put_other temp other none bare net ∙ rest other ne net,
      )
    ]

-- What happens to the temporary file alone, an error leaves.
temp-Left :
    (curl : Curl) (disk : Disk) (url path message : List ℕ) (fs fs' : FileSystem)
    → temp_of path ≢ path
    → ((other : List ℕ) → other ≢ temp_of path → fs' other ≡ fs other)
    → Left curl disk url path fs (err message, put (temp_of path) none fs')
temp-Left curl disk url path message fs fs' apart same = (
  inl (
      put_other (temp_of path) path none fs' (λ e. apart (sym e)) ∙ same path (λ e. apart (sym e))),
  inl (put_self (temp_of path) none fs'),
  λ other ne net. put_other (temp_of path) other none fs' net ∙ same other net,
)

perform-ok :
    (disk : Disk) (t : Transfer) (bytes : List ℕ)
    → perform (write_file disk) [] t ≡ ok bytes
    → bytes ≡ joined t.blocks
unfolding perform
perform-ok disk t bytes e = elim (Bool-cases (deliver (write_file disk) [] t.blocks).1) [
  | inl taken ↦
      let all = deliver-file disk [] t.blocks taken in
      elim (Bool-cases t.completes) [
        | inl complete ↦ ground arith
        | inr broken ↦ absurd (ground arith)
      ]
  | inr refused ↦ absurd (ground arith)
]

pub Reply-cases :
    {A : Type 0} (r : Reply A) → ((a : A) × (r ≡ ok a)) ⊎ ((message : List ℕ) × (r ≡ err message))
Reply-cases (ok a) = inl (a, refl)
Reply-cases (err message) = inr (message, refl)

-- `vhdb_net_download` leaves the whole data at the path or, with an error, the file that was there;
-- only where the rename fails, an error leaves no file there. The temporary file is gone, or was
-- never opened, and no other file changes. It is assumed that the temporary file's name, which is
-- cut at 1023 characters, is not the path itself.
pub download-Left :
    (curl : Curl) (disk : Disk) (url path : List ℕ) (fs : FileSystem)
    → temp_of path ≢ path
    → Left curl disk url path fs (download curl disk url path fs)
unfolding download after_transfer
download-Left curl disk url path fs apart =
    let temp = temp_of path in
    let opened = put temp (some []) fs in
    let same = λ (other : List ℕ) (ne : other ≢ temp). put_other temp other (some []) fs ne in
    elim (Bool-cases (disk.opens temp)) [
      | inr closed ↦ rw closed (inl refl, inr refl, λ other ne net. refl)
      | inl opens ↦ elim (Bool-cases curl.init) [
        | inr dead ↦ rw (opens, dead) (temp-Left curl disk url path [] fs opened apart same)
        | inl alive ↦
            elim (Reply-cases (perform (write_file disk) [] (curl.transfer (plain url)))) [
              | inr (message, e) ↦
                  rw (opens, alive, e) (temp-Left curl disk url path message fs opened apart same)
              | inl (bytes, e) ↦
                  let whole = perform-ok disk (curl.transfer (plain url)) bytes e in
                  rw (opens, alive, e, whole)
                    (into_place-Left curl disk url path fs
                      (put temp (some (joined (curl.transfer (plain url)).blocks)) opened) apart
                      (λ other ne. put_other temp other _ opened ne ∙ same other ne))
            ]
      ]
    ]
