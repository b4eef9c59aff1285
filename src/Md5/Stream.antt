-- ===== src/Md5/Stream.antt =====
-- core/md5.c: however a message is cut into calls of `vhdb_md5_update`, the digest is that of the
-- padded message.
use vhdb.Base.{
  ℕ, suc, if◌then◌else◌, ltb, replicate, take-replicate, ◌+◌, ◌-◌, ◌*◌, ◌/◌, ◌%◌, ◌^◌, ◌≤◌, ◌<◌,
  ◌≡◌, refl, sym, subst, ap, ◌∙◌, leb, le→leb, lt→leb, leb→le, leb→lt, List, [], ◌∷◌, ◌++◌,
  append_assoc, append-nil, length, length-append, length-take, take, drop, drop-length,
  take-append-drop, arith, Bool-cases, inl, inr,
}
use vhdb.Blocks.{
  copy_at, take-copy_at, length-copy_at, process-left, blocks_loop, process, process-short,
  process-block, process-append,
}
use vhdb.Md5.{
  Words, transform, Context, start, init, low_count, high_count, waiting, fill, update, word_bytes,
  digest_bytes, padding, final, updates, file_digest,
}

-- The specification: the message, 0x80, as few zeros as leave eight bytes of the last block, and
-- the length in bits, in one piece.
pub padded : List ℕ → List ℕ
padded m =
    let bits = 8 * length m % 2 ^ 64 in
    m
    ++ (0x80
        ∷ (replicate ((119 - length m % 64) % 64) 0
            ++ (word_bytes (bits % 2 ^ 32) ++ word_bytes (bits / 2 ^ 32))))

pub digest : List ℕ → List ℕ
digest m = digest_bytes (process transform start (padded m)).0

-- The context stands for a message: the count is its length in bits, the state has taken its
-- whole blocks, and the rest waits in the buffer.
pub record Holds (ctx : Context) (m : List ℕ) : Type 0 where
  pub counted : ctx.count0 + ctx.count1 * 2 ^ 32 ≡ 8 * length m % 2 ^ 64
  pub low_fits : ctx.count0 < 2 ^ 32
  pub size : length ctx.buffer ≡ 64
  pub taken : process transform start m ≡ (ctx.state, take (waiting ctx) ctx.buffer)

waiting_lem : (ctx : Context) (m : List ℕ) → Holds ctx m → waiting ctx ≡ length m % 64
unfolding waiting
waiting_lem ctx m h = omega arith

init-Holds : Holds init []
unfolding blocks_loop waiting
init-Holds = record { counted = refl; low_fits = omega arith; size = refl; taken = refl }

-- The two words of the count are those of a 64-bit sum.
counts_lem :
    (ctx : Context) (m : List ℕ) (n : ℕ)
    → Holds ctx m
    → (low_count ctx n + high_count ctx n * 2 ^ 32 ≡ 8 * (length m + n) % 2 ^ 64)
      × (low_count ctx n < 2 ^ 32)
unfolding low_count high_count
counts_lem ctx m n h = ground arith

module _ (ctx : Context) (m bytes : List ℕ) (h : Holds ctx m) where
  abbrev index : ℕ
  index = waiting ctx

  index_lt : index < 64
  index_lt = omega (arith, waiting_lem ctx m h)

  -- The message so far and the new bytes, from the context's state on.
  resumed :
      process transform start (m ++ bytes)
      ≡ process transform ctx.state (take index ctx.buffer ++ bytes)
  resumed =
      process-append transform start m bytes
      ∙ ap (λ r. process transform r.0 (r.1 ++ bytes)) h.taken

  total : length (m ++ bytes) ≡ length m + length bytes
  total = length-append m bytes

  kept_size : length (take index ctx.buffer) ≡ index
  kept_size = omega (arith, length-take index ctx.buffer, h.size, index_lt)

  -- The bytes fit the buffer with room to spare.
  update_short : length bytes < 64 - index → Holds (update ctx bytes) (m ++ bytes)
  update_short short =
      subst (λ c. Holds c (m ++ bytes)) (sym is)
        (record {
          counted = rw total (counts_lem ctx m (length bytes) h).0;
          low_fits = (counts_lem ctx m (length bytes) h).1;
          size = length-copy_at index ctx.buffer bytes (omega (arith, h.size)) ∙ h.size;
          taken =
              resumed
              ∙ process-short transform ctx.state (take index ctx.buffer ++ bytes)
                  (omega (arith, length-append (take index ctx.buffer) bytes, kept_size))
              ∙ ap (λ t. (ctx.state, t))
                  (sym (
                    ap (λ (k : ℕ). take k (copy_at ctx.buffer index bytes)) now
                    ∙ take-copy_at index ctx.buffer bytes (omega (arith, h.size, index_lt))));
        })
    where
      low : ℕ
      low = low_count ctx (length bytes)

      after : Context
      after = record ctx {
        count0 = low_count ctx (length bytes);
        count1 = high_count ctx (length bytes);
        buffer = copy_at ctx.buffer index bytes;
      }

      is : update ctx bytes ≡ after
      is = unfold update in rw (lt→leb (64 - index) (length bytes) short)

      now : waiting after ≡ index + length bytes
      now =
          unfold waiting in
          omega (
            arith,
            (counts_lem ctx m (length bytes) h).0,
            (counts_lem ctx m (length bytes) h).1,
            waiting_lem ctx m h,
            h.size,
          )

  abbrev partial : ℕ
  partial = 64 - index

  abbrev full : List ℕ
  full = copy_at ctx.buffer index (take partial bytes)

  abbrev after_block : Words × List ℕ
  after_block = process transform (transform ctx.state full) (drop partial bytes)

  -- The buffer is filled up to a whole block, which the rest of the new bytes follow.
  filled : partial ≤ length bytes → take index ctx.buffer ++ bytes ≡ full ++ drop partial bytes
  filled long =
      let front = take index ctx.buffer in
      let block = take partial bytes in
      let none_left : drop (index + length block) ctx.buffer ≡ [] =
        drop-length (index + length block) ctx.buffer
          (omega (arith, h.size, length-take partial bytes)) in
      ap (λ t. front ++ t) (sym (take-append-drop partial bytes))
      ∙ sym (append_assoc front block (drop partial bytes))
      ∙ ap (λ t. t ++ drop partial bytes)
          (ap (λ t. front ++ t) (sym (append-nil block))
            ∙ ap (λ t. front ++ (block ++ t)) (sym none_left))

  full_size : partial ≤ length bytes → length full ≡ 64
  full_size long =
      length-copy_at index ctx.buffer (take partial bytes)
        (omega (arith, h.size, length-take partial bytes, index_lt))
      ∙ h.size

  taken_long : partial ≤ length bytes → process transform start (m ++ bytes) ≡ after_block
  taken_long long =
      resumed
      ∙ ap (λ t. process transform ctx.state t) (filled long)
      ∙ process-block transform ctx.state full (drop partial bytes) (full_size long)

  update_long : partial ≤ length bytes → Holds (update ctx bytes) (m ++ bytes)
  update_long long =
      subst (λ c. Holds c (m ++ bytes)) (sym is)
        (record {
          counted = rw total (counts_lem ctx m (length bytes) h).0;
          low_fits = (counts_lem ctx m (length bytes) h).1;
          size =
              length-copy_at 0 full after_block.1 (omega (arith, full_size long, left_size))
              ∙ full_size long;
          taken =
              taken_long long
              ∙ ap (λ t. (after_block.0, t))
                  (sym (
                    ap (λ (k : ℕ). take k (copy_at full 0 after_block.1)) now
                    ∙ take-copy_at 0 full after_block.1 (omega arith)));
        })
    where
      after : Context
      after = record {
        state = after_block.0;
        count0 = low_count ctx (length bytes);
        count1 = high_count ctx (length bytes);
        buffer = copy_at full 0 after_block.1;
      }

      is : update ctx bytes ≡ after
      is = unfold update fill in rw (le→leb (64 - index) (length bytes) long)

      left_size : length after_block.1 ≡ length (m ++ bytes) % 64
      left_size =
          ap (λ r. length r.1) (sym (taken_long long)) ∙ process-left transform start (m ++ bytes)

      now : waiting after ≡ 0 + length after_block.1
      now =
          unfold waiting in
          omega (
            arith,
            (counts_lem ctx m (length bytes) h).0,
            (counts_lem ctx m (length bytes) h).1,
            total,
            left_size,
          )

  pub update-Holds : Holds (update ctx bytes) (m ++ bytes)
  update-Holds = elim (Bool-cases (leb partial (length bytes))) [
    | inl long ↦ update_long (leb→le partial (length bytes) long)
    | inr short ↦ update_short (leb→lt partial (length bytes) short)
  ]

-- The padding of the code is the mark and the zeros that fill the block.
padding-zeros : (index : ℕ) → index < 64 → padding index ≡ 0x80 ∷ replicate ((119 - index) % 64) 0
unfolding padding
padding-zeros index h =
    let k = (119 - index) % 64 in
    let n : (if ltb index 56 then 56 - index else 120 - index) ≡ suc k = ground arith in
    ap (λ (j : ℕ). take j (0x80 ∷ replicate 63 0)) n
    ∙ ap (λ t. 0x80 ∷ t) (take-replicate k 63 0 (omega arith))

length-word_bytes : (w : ℕ) → length (word_bytes w) ≡ 4
unfolding word_bytes
length-word_bytes w = refl

-- A context that stands for a message ends in the digest of the padded message.
pub final-digest : (ctx : Context) (m : List ℕ) → Holds ctx m → final ctx ≡ digest m
unfolding final digest padded
final-digest ctx m h =
    let w = waiting_lem ctx m h in
    let pad = padding (waiting ctx) in
    let tail = word_bytes ctx.count0 ++ word_bytes ctx.count1 in
    let h1 = update-Holds ctx m pad h in
    let h2 = update-Holds (update ctx pad) (m ++ pad) tail h1 in
    let low : 8 * length m % 2 ^ 64 % 2 ^ 32 ≡ ctx.count0 = omega (arith, h.counted, h.low_fits) in
    let high : 8 * length m % 2 ^ 64 / 2 ^ 32 ≡ ctx.count1 = omega (arith, h.counted, h.low_fits) in
    let zeros : List ℕ = replicate ((119 - length m % 64) % 64) 0 in
    let filled : padding (waiting ctx) ≡ 0x80 ∷ zeros =
      ap padding w ∙ padding-zeros (length m % 64) (omega arith) in
    ap digest_bytes (
      sym (ap (λ r. r.0) h2.taken)
      ∙ ap (λ t. (process transform start t).0)
          (append_assoc m pad tail
            ∙ ap (λ t. m ++ (t ++ tail)) filled
            ∙ ap (λ (k : ℕ). m ++ (0x80 ∷ (zeros ++ (word_bytes k ++ word_bytes ctx.count1))))
                (sym low)
            ∙ ap
                (λ (k : ℕ).
                  m
                  ++ (0x80
                      ∷ (zeros ++ (word_bytes (8 * length m % 2 ^ 64 % 2 ^ 32) ++ word_bytes k))))
                (sym high)))

abbrev pub joined : List (List ℕ) → List ℕ
joined [] = []
joined (c ∷ cs) = c ++ joined cs

updates-Holds :
    (chunks : List (List ℕ)) (ctx : Context) (m : List ℕ)
    → Holds ctx m
    → Holds (updates ctx chunks) (m ++ joined chunks)
unfolding updates
updates-Holds [] ctx m h = rw (append-nil m) h
updates-Holds (c ∷ cs) ctx m h =
    rw (← append_assoc m c (joined cs))
      (updates-Holds cs (update ctx c) (m ++ c) (update-Holds ctx m c h))

-- The digest of a file is what the compression of `transform` makes of its bytes, 0x80, the zeros
-- up to eight bytes before the end of a block and the length in bits, in one piece, however
-- `fread` cuts them.
pub file_digest-joined : (chunks : List (List ℕ)) → file_digest chunks ≡ digest (joined chunks)
unfolding file_digest
file_digest-joined chunks =
    final-digest (updates init chunks) (joined chunks) (updates-Holds chunks init [] init-Holds)
