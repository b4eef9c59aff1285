-- ===== src/Sha1/Stream.antt =====
-- core/sha1.c: however a message is cut into calls of `vhdb_sha1_update`, the digest is that of
-- the padded message.
use vhdb.Base.{
  ℕ, ◌+◌, ◌-◌, ◌%◌, ◌^◌, ◌≤◌, ◌<◌, ◌==◌, ◌≡◌, refl, sym, subst, ap, ◌∙◌, leb, leb→le, leb→lt, ltb,
  true, false, List, [], ◌++◌, append_assoc, append-nil, length, length-append, length-take, take,
  drop, drop-length, take-append-drop, arith, Bool-cases, inl, inr,
}
use vhdb.Blocks.{
  copy_at, take-copy_at, length-copy_at, process-left, blocks_loop, process, process-short,
  process-block, process-append,
}
use vhdb.Sha1.{Words, transform, Context, start, init, waiting, absorb, update_waiting, update}

-- The context stands for a message: the count is its length, the state has taken its whole
-- blocks, and the rest waits in the buffer.
pub record Holds (ctx : Context) (m : List ℕ) : Type 0 where
  pub counted : ctx.count ≡ length m % 2 ^ 64
  pub size : length ctx.buffer ≡ 64
  pub taken : process transform start m ≡ (ctx.state, take (waiting ctx) ctx.buffer)

pub waiting_lem : (ctx : Context) (m : List ℕ) → Holds ctx m → waiting ctx ≡ length m % 64
unfolding waiting
waiting_lem ctx m h = omega arith

pub init-Holds : Holds init []
unfolding blocks_loop waiting
init-Holds = record { counted = refl; size = refl; taken = refl }

module _ (ctx : Context) (m bytes : List ℕ) (h : Holds ctx m) where
  abbrev index : ℕ
  index = waiting ctx

  abbrev count : ℕ
  count = (ctx.count + length bytes) % 2 ^ 64

  index_lt : index < 64
  index_lt = omega (arith, waiting_lem ctx m h)

  -- The message so far and the new bytes, from the context's state on.
  resumed :
      process transform start (m ++ bytes)
      ≡ process transform ctx.state (take index ctx.buffer ++ bytes)
  resumed =
      process-append transform start m bytes
      ∙ ap (λ r. process transform r.0 (r.1 ++ bytes)) h.taken

  total : length (m ++ bytes) ≡ length m + length bytes
  total = length-append m bytes

  counts : count ≡ length (m ++ bytes) % 2 ^ 64
  counts = omega (arith, total, h.counted)

  -- A context with the new count that has taken the whole message.
  absorb-Holds :
      (s : Words) (buffer rest : List ℕ)
      → length buffer ≡ 64
      → process transform start (m ++ bytes) ≡ process transform s rest
      → Holds (absorb s count buffer rest) (m ++ bytes)
  unfolding absorb
  absorb-Holds s buffer rest full e = record {
    counted = counts;
    size = length-copy_at 0 buffer left.1 (omega (arith, full, left_size)) ∙ full;
    taken =
        e
        ∙ ap (λ t. (left.0, t))
            (sym (
              ap (λ (k : ℕ). take k (copy_at buffer 0 left.1)) now
              ∙ take-copy_at 0 buffer left.1 (omega arith)));
  }
    where
      left : Words × List ℕ
      left = process transform s rest

      left_size : length left.1 ≡ length (m ++ bytes) % 64
      left_size = ap (λ r. length r.1) (sym e) ∙ process-left transform start (m ++ bytes)

      now : waiting (absorb s count buffer rest) ≡ 0 + length left.1
      now = unfold waiting in omega (arith, left_size, counts)

  abbrev room : ℕ
  room = 64 - index

  abbrev full : List ℕ
  full = copy_at ctx.buffer index (take room bytes)

  filled : room ≤ length bytes → take index ctx.buffer ++ bytes ≡ full ++ drop room bytes
  filled long =
      let front = take index ctx.buffer in
      let block = take room bytes in
      let none_left : drop (index + length block) ctx.buffer ≡ [] =
        drop-length (index + length block) ctx.buffer
          (omega (arith, h.size, length-take room bytes)) in
      ap (λ t. front ++ t) (sym (take-append-drop room bytes))
      ∙ sym (append_assoc front block (drop room bytes))
      ∙ ap (λ t. t ++ drop room bytes)
          (ap (λ t. front ++ t) (sym (append-nil block))
            ∙ ap (λ t. front ++ (block ++ t)) (sym none_left))

  full_size : room ≤ length bytes → length full ≡ 64
  full_size long =
      length-copy_at index ctx.buffer (take room bytes)
        (omega (arith, h.size, length-take room bytes, index_lt))
      ∙ h.size

  update_long : room ≤ length bytes → Holds (update_waiting ctx index count bytes) (m ++ bytes)
  unfolding update_waiting
  update_long long =
      let test : ltb (length bytes) room ≡ false = ground arith in
      rw test (
        absorb-Holds (transform ctx.state full) full (drop room bytes) (full_size long) (
          resumed
          ∙ ap (λ t. process transform ctx.state t) (filled long)
          ∙ process-block transform ctx.state full (drop room bytes) (full_size long)))

  update_short : length bytes < room → Holds (update_waiting ctx index count bytes) (m ++ bytes)
  update_short short =
      subst (λ c. Holds c (m ++ bytes)) (sym is)
        (record {
          counted = counts;
          size = length-copy_at index ctx.buffer bytes (omega (arith, h.size)) ∙ h.size;
          taken =
              resumed
              ∙ process-short transform ctx.state (take index ctx.buffer ++ bytes) (
                  omega (
                    arith,
                    length-append (take index ctx.buffer) bytes,
                    length-take index ctx.buffer,
                    h.size,
                  ))
              ∙ ap (λ t. (ctx.state, t))
                  (sym (
                    ap (λ (k : ℕ). take k (copy_at ctx.buffer index bytes)) now
                    ∙ take-copy_at index ctx.buffer bytes (omega (arith, h.size, index_lt))));
        })
    where
      after : Context
      after = record ctx {
        count = (ctx.count + length bytes) % 2 ^ 64;
        buffer = copy_at ctx.buffer index bytes;
      }

      is : update_waiting ctx index count bytes ≡ after
      is =
          unfold update_waiting in
          let test : ltb (length bytes) room ≡ true = ground arith in rw test

      now : waiting after ≡ index + length bytes
      now = unfold waiting in omega (arith, counts, total, waiting_lem ctx m h, h.counted)

  pub update-Holds : Holds (update ctx bytes) (m ++ bytes)
  unfolding update
  update-Holds = elim (Bool-cases (index == 0)) [
    | inl aligned ↦
        let z : index ≡ 0 = ground arith in
        rw aligned (
          absorb-Holds ctx.state ctx.buffer bytes h.size
            (resumed ∙ ap (λ (k : ℕ). process transform ctx.state (take k ctx.buffer ++ bytes)) z))
    | inr inside ↦ rw inside (elim (Bool-cases (leb room (length bytes))) [
      | inl long ↦ update_long (leb→le room (length bytes) long)
      | inr short ↦ update_short (leb→lt room (length bytes) short)
    ])
  ]
