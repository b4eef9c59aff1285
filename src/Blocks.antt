-- ===== src/Blocks.antt =====
-- What core/md5.c and core/sha1.c share: a message is taken in blocks of 64 bytes, and what does
-- not fill a block waits in a buffer.
use vhdb.Base.{
  ℕ, zero, suc, ◌+◌, ◌%◌, ◌≤◌, ◌<◌, ◌≡◌, refl, sym, ap, ◌∙◌, leb, le→leb, lt→leb, leb→le, leb→lt,
  if◌then◌else◌, List, ◌++◌, append_assoc, length, length-append, length-take, length-drop, take,
  drop, take-append, drop-append, take-length, take-append-drop, drop-length, arith, Bool-cases,
  inl, inr,
}

-- `memcpy(buffer + i, bytes, n)`
abbrev pub copy_at : List ℕ → ℕ → List ℕ → List ℕ
copy_at buffer i bytes = take i buffer ++ (bytes ++ drop (i + length bytes) buffer)

module _ {S : Type 0} (transform : S → List ℕ → S) where
  -- The loop over the whole blocks: the state, and the bytes that are left. The fuel is the
  -- number of bytes, of which each round takes 64.
  unfoldable pub blocks_loop : ℕ → S → List ℕ → S × List ℕ
  blocks_loop zero s bytes = (s, bytes)
  blocks_loop (suc fuel) s bytes =
      let rest = blocks_loop fuel (transform s (take 64 bytes)) (drop 64 bytes) in
      if leb 64 (length bytes) then rest else (s, bytes)

  abbrev pub process : S → List ℕ → S × List ℕ
  process s bytes = blocks_loop (length bytes) s bytes

  blocks_loop-short :
      (fuel : ℕ) (s : S) (bytes : List ℕ)
      → length bytes < 64
      → blocks_loop fuel s bytes ≡ (s, bytes)
  unfolding blocks_loop
  blocks_loop-short zero s bytes h = refl
  blocks_loop-short (suc fuel) s bytes h = rw (lt→leb 64 (length bytes) h)

  blocks_loop-long :
      (fuel : ℕ) (s : S) (bytes : List ℕ)
      → 64 ≤ length bytes
      → blocks_loop (suc fuel) s bytes
        ≡ blocks_loop fuel (transform s (take 64 bytes)) (drop 64 bytes)
  unfolding blocks_loop
  blocks_loop-long fuel s bytes h = rw (le→leb 64 (length bytes) h)

  -- Any fuel from the number of bytes on gives the same result.
  pub blocks_loop-fuel :
      (f g : ℕ) (s : S) (bytes : List ℕ)
      → length bytes ≤ f
      → length bytes ≤ g
      → blocks_loop f s bytes ≡ blocks_loop g s bytes
  blocks_loop-fuel zero g s bytes p q =
      blocks_loop-short zero s bytes (omega arith) ∙ sym (blocks_loop-short g s bytes (omega arith))
  blocks_loop-fuel (suc f) zero s bytes p q =
      blocks_loop-short (suc f) s bytes (omega arith)
      ∙ sym (blocks_loop-short zero s bytes (omega arith))
  blocks_loop-fuel (suc f) (suc g) s bytes p q = elim (Bool-cases (leb 64 (length bytes))) [
    | inl long ↦
        blocks_loop-long f s bytes (ground arith)
        ∙ blocks_loop-fuel f g (transform s (take 64 bytes)) (drop 64 bytes)
            (ground (arith, length-drop 64 bytes)) (ground (arith, length-drop 64 bytes))
        ∙ sym (blocks_loop-long g s bytes (ground arith))
    | inr short ↦
        blocks_loop-short (suc f) s bytes (ground arith)
        ∙ sym (blocks_loop-short (suc g) s bytes (ground arith))
  ]

  -- Less than a block waits.
  pub process-short : (s : S) (bytes : List ℕ) → length bytes < 64 → process s bytes ≡ (s, bytes)
  process-short s bytes h = blocks_loop-short (length bytes) s bytes h

  -- A first block is transformed.
  pub process-block :
      (s : S) (block bytes : List ℕ)
      → length block ≡ 64
      → process s (block ++ bytes) ≡ process (transform s block) bytes
  process-block s block bytes h =
      let n = length bytes in
      let total : length (block ++ bytes) ≡ suc (63 + n) =
        omega (arith, length-append block bytes) in
      let cut : take 64 (block ++ bytes) ≡ block =
        take-append 64 block bytes (omega arith) ∙ take-length 64 block (omega arith) in
      let left : drop 64 (block ++ bytes) ≡ bytes =
        drop-append 64 block bytes (omega arith)
        ∙ ap (λ t. t ++ bytes) (drop-length 64 block (omega arith)) in
      ap (λ (k : ℕ). blocks_loop k s (block ++ bytes)) total
      ∙ blocks_loop-long (63 + n) s (block ++ bytes) (omega (arith, total))
      ∙ ap (λ t. blocks_loop (63 + n) (transform s t) (drop 64 (block ++ bytes))) cut
      ∙ ap (λ t. blocks_loop (63 + n) (transform s block) t) left
      ∙ blocks_loop-fuel (63 + n) n (transform s block) bytes (omega arith) (omega arith)

  -- Bytes can be processed in two parts.
  blocks_loop-append :
      (fuel : ℕ) (s : S) (m d : List ℕ)
      → length m ≤ fuel
      → process s (m ++ d) ≡ process (blocks_loop fuel s m).0 ((blocks_loop fuel s m).1 ++ d)
  blocks_loop-append zero s m d h = rw (blocks_loop-short zero s m (omega arith))
  blocks_loop-append (suc fuel) s m d h = elim (Bool-cases (leb 64 (length m))) [
    | inr short ↦ rw (blocks_loop-short (suc fuel) s m (leb→lt 64 (length m) short))
    | inl long ↦
        let parts : m ++ d ≡ take 64 m ++ (drop 64 m ++ d) =
          ap (λ t. t ++ d) (sym (take-append-drop 64 m)) ∙ append_assoc (take 64 m) (drop 64 m) d in
        rw (blocks_loop-long fuel s m (leb→le 64 (length m) long)) (
          ap (λ t. process s t) parts
          ∙ process-block s (take 64 m) (drop 64 m ++ d)
              (omega (arith, length-take 64 m, leb→le 64 (length m) long))
          ∙ blocks_loop-append fuel (transform s (take 64 m)) (drop 64 m) d
              (omega (arith, length-drop 64 m, leb→le 64 (length m) long)))
  ]

  pub process-append :
      (s : S) (m d : List ℕ) → process s (m ++ d) ≡ process (process s m).0 ((process s m).1 ++ d)
  process-append s m d = blocks_loop-append (length m) s m d (omega arith)

  -- Less than a block is left over.
  blocks_loop-left :
      (fuel : ℕ) (s : S) (m : List ℕ)
      → length m ≤ fuel
      → length (blocks_loop fuel s m).1 ≡ length m % 64
  blocks_loop-left zero s m h = rw (blocks_loop-short zero s m (omega arith)) (omega arith)
  blocks_loop-left (suc fuel) s m h = elim (Bool-cases (leb 64 (length m))) [
    | inr short ↦
        rw (blocks_loop-short (suc fuel) s m (leb→lt 64 (length m) short))
          (omega (arith, leb→lt 64 (length m) short))
    | inl long ↦
        let le = leb→le 64 (length m) long in
        rw (blocks_loop-long fuel s m le) (
          omega (
            arith,
            length-drop 64 m,
            blocks_loop-left fuel (transform s (take 64 m)) (drop 64 m)
                (omega (arith, length-drop 64 m)),
          ))
  ]

  pub process-left : (s : S) (m : List ℕ) → length (process s m).1 ≡ length m % 64
  process-left s m = blocks_loop-left (length m) s m (omega arith)

-- The bytes that a copy leaves in front of its end.
pub take-copy_at :
    (i : ℕ) (buffer bytes : List ℕ)
    → i ≤ length buffer
    → take (i + length bytes) (copy_at buffer i bytes) ≡ take i buffer ++ bytes
take-copy_at i buffer bytes h =
    let front = take i buffer ++ bytes in
    let behind = drop (i + length bytes) buffer in
    let size : i + length bytes ≡ length front =
      omega (arith, length-append (take i buffer) bytes, length-take i buffer) in
    ap (λ t. take (i + length bytes) t) (sym (append_assoc (take i buffer) bytes behind))
    ∙ take-append (i + length bytes) front behind (omega arith)
    ∙ take-length (i + length bytes) front (omega arith)

pub length-copy_at :
    (i : ℕ) (buffer bytes : List ℕ)
    → i + length bytes ≤ length buffer
    → length (copy_at buffer i bytes) ≡ length buffer
length-copy_at i buffer bytes h = omega (
  arith,
  length-append (take i buffer) (bytes ++ drop (i + length bytes) buffer),
  length-append bytes (drop (i + length bytes) buffer),
  length-take i buffer,
  length-drop (i + length bytes) buffer,
)
