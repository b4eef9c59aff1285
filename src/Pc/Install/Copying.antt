-- ===== src/Pc/Install/Copying.antt =====
-- pc/install.c: what `copy_file` leaves, and the blocks of a file.
use vhdb.Base.{
  ℕ, zero, suc, ◌≤◌, ◌≡◌, ◌≢◌, refl, sym, ◌∙◌, arith, inl, inr, ◌==◌, true, List, [], ◌∷◌, ◌++◌,
  none, some, append-nil, append_assoc, length, drop, length-drop, take-append-drop, ◌⊎◌,
  Bool-cases, Option-cases, equal, equal_iff,
}
use vhdb.Pc.Install.{Machine, blocks_loop, file_blocks, write_blocks, copy_file}
use vhdb.Pc.Net.{FileSystem, put}
use vhdb.Pc.Net.Download.{put_self, put_other}
use vhdb.Pc.Net.Sink.{joined}

-- Fuel for each byte is enough for all blocks.
blocks_loop-joined :
    (fuel : ℕ) (bytes : List ℕ) → length bytes ≤ fuel → joined (blocks_loop fuel bytes) ≡ bytes
unfolding blocks_loop
blocks_loop-joined zero [] enough = refl
blocks_loop-joined zero (c ∷ cs) enough = absurd (omega arith)
blocks_loop-joined (suc fuel) [] enough = refl
blocks_loop-joined (suc fuel) (c ∷ cs) enough =
    let left = length-drop 32768 (c ∷ cs) in
    rw (blocks_loop-joined fuel (drop 32768 (c ∷ cs)) (omega (arith, left)))
      (take-append-drop 32768 (c ∷ cs))

joined-file_blocks : (bytes : List ℕ) → joined (file_blocks bytes) ≡ bytes
joined-file_blocks bytes = blocks_loop-joined (length bytes) bytes (omega arith)

-- Where `fwrite` took every block, all of them stand behind the bytes before.
write_blocks_lem :
    (takes : List ℕ → List ℕ → ℕ) (written : List ℕ) (blocks : List (List ℕ))
    → (write_blocks takes written blocks).1 ≡ true
    → (write_blocks takes written blocks).0 ≡ written ++ joined blocks
unfolding write_blocks
write_blocks_lem takes written [] e = sym (append-nil written)
write_blocks_lem takes written (block ∷ blocks) e =
    elim (Bool-cases (takes written block == length block)) [
      | inl whole ↦
          let later = write_blocks_lem takes (written ++ block) blocks (ground arith) in
          let here : (write_blocks takes written (block ∷ blocks)).0
              ≡ (write_blocks takes (written ++ block) blocks).0 =
            ground arith in
          here ∙ later ∙ append_assoc written block (joined blocks)
      | inr short ↦ absurd (ground arith)
    ]

-- The bytes that the loop copies from a file.
copied_all :
    (takes : List ℕ → List ℕ → ℕ) (bytes : List ℕ)
    → (write_blocks takes [] (file_blocks bytes)).1 ≡ true
    → (write_blocks takes [] (file_blocks bytes)).0 ≡ bytes
copied_all takes bytes e =
    write_blocks_lem takes [] (file_blocks bytes) e ∙ joined-file_blocks bytes

-- A copy that reports success holds what the first file held once the second was opened.
copied_now :
    (m : Machine) (source target before now : List ℕ) (fs : FileSystem)
    → fs source ≡ some before
    → put target (some []) fs source ≡ some now
    → (copy_file m source target fs).0 ≡ true
    → ((copy_file m source target fs).1 target ≡ some now)
      × ((other : List ℕ) → other ≢ target → (copy_file m source target fs).1 other ≡ fs other)
unfolding copy_file
copied_now m source target before now fs here left e =
    let opened = put target (some []) fs in
    let copy = write_blocks m.takes [] (file_blocks now) in
    elim (Bool-cases (m.disk.opens target)) [
      | inr shut ↦ absurd (ground arith)
      | inl opens ↦
          let all : copy.0 ≡ now = copied_all m.takes now (ground arith) in
          let result : (copy_file m source target fs).1 ≡ put target (some now) opened =
            ground (arith, all) in
          rw result (
            put_self target (some now) opened,
            λ other ne.
                put_other target other (some now) opened ne
                ∙ put_other target other (some []) fs ne,
          )
    ]

copy_file-missing :
    (m : Machine) (source target : List ℕ) (fs : FileSystem)
    → fs source ≡ none
    → (copy_file m source target fs).0 ≢ true
unfolding copy_file
copy_file-missing m source target fs missing e = ground arith

equal_cases : (a b : List ℕ) → (a ≡ b) ⊎ (a ≢ b)
equal_cases a b = elim (Bool-cases (equal a b)) [
  | inl alike ↦ inl ((equal_iff a b).0 alike)
  | inr apart ↦
      let back : (a ≡ b) → equal a b ≡ true = (equal_iff a b).1 in
      inr (λ p. absurd (ground (arith, back p)))
]

-- `copy_file` that reports success leaves the file's bytes at the target; but a file that is copied
-- onto itself is left empty. No other file changes.
pub copy_file-Copied :
    (m : Machine) (source target : List ℕ) (fs : FileSystem)
    → (copy_file m source target fs).0 ≡ true
    → ((source ≢ target) × ((copy_file m source target fs).1 target ≡ fs source)
        ⊎ ((source ≡ target) × ((copy_file m source target fs).1 target ≡ some [])))
      × ((other : List ℕ) → other ≢ target → (copy_file m source target fs).1 other ≡ fs other)
copy_file-Copied m source target fs e = elim (Option-cases (fs source)) [
  | inl missing ↦ absurd (copy_file-missing m source target fs missing e)
  | inr (before, here) ↦ elim (equal_cases source target) [
    | inl same ↦
        let emptied : put target (some []) fs source ≡ some [] =
          rw same (put_self target (some []) fs) in
        let now = copied_now m source target before [] fs here emptied e in
        (inr (same, now.0), now.1)
    | inr differ ↦
        let intact = put_other target source (some []) fs differ ∙ here in
        let now = copied_now m source target before before fs here intact e in
        (inl (differ, now.0 ∙ sym here), now.1)
  ]
]
