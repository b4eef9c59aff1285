-- ===== src/Vita/Net/Fetched.antt =====
-- vita/net.c: what a download leaves.
use vhdb.Base.{
  ℕ, ◌≡◌, ◌≢◌, refl, sym, ap, ◌∙◌, subst, arith, inl, inr, ◌⊎◌, Bool, true, false, not, ◌&&◌, List,
  [], ◌∷◌, ◌++◌, none, some, append-nil, append_assoc, Bool-cases, Option-cases, codes,
}
use vhdb.Pc.Net.{Reply, ok, err, Disk, FileSystem, put, deliver}
use vhdb.Pc.Net.Download.{plain, put_self, put_other}
use vhdb.Pc.Net.Sink.{joined}
use vhdb.Vita.Net.{System, FileSink, write_to_file, temp_path, fetch_error, after_fetch, fetch}

-- What a fetch may leave, as for a download of the computer: the whole data, or the old file, which
-- is lost where the rename fails. The temporary file is gone, and no other file changes.
abbrev pub Settled : System → List ℕ → List ℕ → FileSystem → Reply (Unit {0}) × FileSystem → Type 0
Settled system url path fs (ok done, fs') =
    (system.cancels ≡ false)
    × (fs' path ≡ some (joined (system.curl.transfer (plain url)).blocks))
    × (fs' (temp_path path) ≡ none)
    × ((other : List ℕ) → other ≢ path → other ≢ temp_path path → fs' other ≡ fs other)
Settled system url path fs (err message, fs') =
    ((fs' path ≡ fs path) ⊎ ((fs' path ≡ none) × (system.disk.renames ≡ false)))
    × ((fs' (temp_path path) ≡ none) ⊎ (fs' (temp_path path) ≡ fs (temp_path path)))
    × ((other : List ℕ) → other ≢ path → other ≢ temp_path path → fs' other ≡ fs other)

-- The file that took all blocks holds them.
deliver-written :
    (disk : Disk) (sink : FileSink) (blocks : List (List ℕ))
    → (deliver (write_to_file disk) sink blocks).1 ≡ true
    → (deliver (write_to_file disk) sink blocks).0.written ≡ sink.written ++ joined blocks
unfolding deliver write_to_file
deliver-written disk sink [] e = sym (append-nil sink.written)
deliver-written disk sink (block ∷ blocks) e = elim (Bool-cases (disk.writes sink.written block)) [
  | inl taken ↦
      let next : FileSink = record sink { written = sink.written ++ block } in
      let later = deliver-written disk next blocks (ground arith) in
      let here : (deliver (write_to_file disk) sink (block ∷ blocks)).0.written
          ≡ (deliver (write_to_file disk) next blocks).0.written =
        ground arith in
      here ∙ later ∙ append_assoc sink.written block (joined blocks)
  | inr refused ↦ absurd (ground arith)
]

-- A temporary file that is put and taken away again.
cleared-Settled :
    (system : System) (url path message : List ℕ) (fs fs' : FileSystem)
    → temp_path path ≢ path
    → ((other : List ℕ) → other ≢ temp_path path → fs' other ≡ fs other)
    → Settled system url path fs (err message, put (temp_path path) none fs')
cleared-Settled system url path message fs fs' apart same =
    let temp = temp_path path in
    (
      inl (put_other temp path none fs' (λ e. apart (sym e)) ∙ same path (λ e. apart (sym e))),
      inl (put_self temp none fs'),
      λ other ne net. put_other temp other none fs' net ∙ same other net,
    )

after_fetch-Settled :
    (system : System) (url path : List ℕ) (fs fs' : FileSystem) (end : FileSink × Bool)
    → temp_path path ≢ path
    → ((other : List ℕ) → other ≢ temp_path path → fs' other ≡ fs other)
    → (end.1 ≡ true → end.0.written ≡ joined (system.curl.transfer (plain url)).blocks)
    → Settled system url path fs
        (after_fetch system (system.curl.transfer (plain url)) path fs' end)
unfolding after_fetch
after_fetch-Settled system url path fs fs' end apart same whole =
    let temp = temp_path path in
    let t = system.curl.transfer (plain url) in
    let bare = put path none fs' in
    let here = λ (e : path ≡ temp). apart (sym e) in
    elim (Bool-cases (end.1 && (t.completes && not system.cancels))) [
      | inr failed ↦
          rw failed
            (cleared-Settled system url path (fetch_error system.cancels end.0 t) fs fs' apart same)
      | inl worked ↦
          let full : put path (some end.0.written) bare path ≡ some (joined t.blocks) =
            put_self path (some end.0.written) bare ∙ ap some (whole (ground arith)) in
          elim (Bool-cases system.disk.renames) [
            | inl moves ↦
                rw (worked, moves)
                  (
                    ground arith,
                    put_other temp path none (put path (some end.0.written) bare) here ∙ full,
                    put_self temp none (put path (some end.0.written) bare),
                    λ other ne net.
                        put_other temp other none (put path (some end.0.written) bare) net
                        ∙ put_other path other (some end.0.written) bare ne
                        ∙ put_other path other none fs' ne
                        ∙ same other net,
                  )
            | inr stuck ↦
                rw (worked, stuck)
                  (
                    inr (put_other temp path none bare here ∙ put_self path none fs', refl),
                    inl (put_self temp none bare),
                    λ other ne net.
                        put_other temp other none bare net
                        ∙ put_other path other none fs' ne
                        ∙ same other net,
                  )
          ]
    ]

same-Settled :
    (system : System) (url path : List ℕ) (fs : FileSystem) (a b : Reply (Unit {0}) × FileSystem)
    → a ≡ b
    → Settled system url path fs a
    → Settled system url path fs b
same-Settled system url path fs a b e s = subst (λ x. Settled system url path fs x) e s

-- `vhdb_net_fetch` leaves the whole data at the path, and was not cancelled, or, with an error, the
-- file that was there; only where the rename fails, an error leaves no file there. The temporary
-- file is gone, or was never made, and no other file changes. It is assumed that the temporary
-- file's name, which is cut at 255 characters, is not the path itself.
pub fetch-Settled :
    (system : System) (url path : List ℕ) (fs : FileSystem)
    → temp_path path ≢ path
    → Settled system url path fs (fetch system url path fs)
unfolding fetch
fetch-Settled system url path fs apart =
    let temp = temp_path path in
    let bare = put temp none fs in
    let empty : FileSink = record { written = []; write_failed = false } in
    let end = deliver (write_to_file system.disk) empty (system.curl.transfer (plain url)).blocks in
    elim (Option-cases system.start_error) [
      | inr (message, off) ↦ rw off (inl refl, inr refl, λ other ne net. refl)
      | inl ready ↦ elim (Bool-cases (system.disk.opens temp)) [
        | inr shut ↦
            rw (ready, shut)
              (cleared-Settled system url path (codes "cannot write to the memory card") fs fs apart
                (λ other ne. refl))
        | inl opens ↦ elim (Bool-cases system.curl.init) [
          | inr dead ↦
              rw (ready, opens, dead)
                (cleared-Settled system url path [] fs (put temp (some []) bare) apart (λ other ne.
                  put_other temp other (some []) bare ne ∙ put_other temp other none fs ne))
          | inl alive ↦
              let fs' = put temp (some end.0.written) bare in
              same-Settled system url path fs
                (after_fetch system (system.curl.transfer (plain url)) path fs' end) _
                (ground arith)
                (after_fetch-Settled system url path fs fs' end apart
                  (λ other ne.
                    put_other temp other (some end.0.written) bare ne
                    ∙ put_other temp other none fs ne)
                  (λ taken.
                    deliver-written system.disk empty (system.curl.transfer (plain url)).blocks
                      taken))
        ]
      ]
    ]
