-- ===== src/Sha1/Final.antt =====
-- core/sha1.c, `vhdb_sha1_final`: the padding, and the digest of a stream.
use vhdb.Base.{
  ℕ, zero, suc, ◌+◌, ◌-◌, ◌*◌, ◌%◌, ◌^◌, ◌<◌, ◌==◌, ◌≡◌, sym, subst, ap, ◌∙◌, List, [], ◌∷◌, ◌++◌,
  append_assoc, append-nil, length, length-append, replicate, arith, Bool-cases, inl, inr, some,
}
use vhdb.Blocks.{process}
use vhdb.Sha1.{
  transform, Context, start, waiting, update, pad_loop, count_bytes, digest_bytes, final,
}
use vhdb.Sha1.Stream.{Holds, waiting_lem, update-Holds}

-- The zeros up to 56 bytes in a block.
abbrev pub zeros : ℕ → ℕ
zeros n = (120 - n % 64) % 64

-- The specification: the padded message, in one piece.
pub padded : List ℕ → List ℕ
padded m = m ++ (0x80 ∷ (replicate (zeros (length m + 1)) 0 ++ count_bytes (length m * 8 % 2 ^ 64)))

pub digest : List ℕ → List ℕ
digest m = digest_bytes (process transform start (padded m)).0

pad_loop-Holds :
    (fuel : ℕ) (ctx : Context) (m : List ℕ)
    → Holds ctx m
    → zeros (length m) < fuel
    → (c : Context) × (pad_loop fuel ctx ≡ some c) × Holds c (m ++ replicate (zeros (length m)) 0)
unfolding pad_loop
pad_loop-Holds zero ctx m h enough = absurd (omega arith)
pad_loop-Holds (suc fuel) ctx m h enough = elim (Bool-cases (waiting ctx == 56)) [
  | inl full ↦
      let none_left : zeros (length m) ≡ 0 = ground (arith, waiting_lem ctx m h) in
      (ctx, rw full, rw none_left (rw (append-nil m) h))
  | inr more ↦
      let one : List ℕ = 0 ∷ [] in
      let longer = length-append m one in
      let fewer : zeros (length m) ≡ suc (zeros (length (m ++ one))) =
        ground (arith, waiting_lem ctx m h, longer) in
      let (c, run, held) =
        pad_loop-Holds fuel (update ctx one) (m ++ one) (update-Holds ctx m one h)
          (omega (arith, fewer)) in
      (
        c,
        rw more run,
        rw fewer
            (subst (Holds c) (append_assoc m one (replicate (zeros (length (m ++ one))) 0)) held),
      )
]

-- `vhdb_sha1_final` returns, and on a context that stands for a message it gives the digest of the
-- padded message.
pub final-digest : (ctx : Context) (m : List ℕ) → Holds ctx m → final ctx ≡ some (digest m)
unfolding final digest padded
final-digest ctx m h =
    let mark : List ℕ = 0x80 ∷ [] in
    let longer = length-append m mark in
    let h1 = update-Holds ctx m mark h in
    let (c, run, h2) = pad_loop-Holds 64 (update ctx mark) (m ++ mark) h1 (omega arith) in
    let tail = count_bytes (ctx.count * 8 % 2 ^ 64) in
    let h3 = update-Holds c ((m ++ mark) ++ replicate (zeros (length (m ++ mark))) 0) tail h2 in
    let bits : ctx.count * 8 % 2 ^ 64 ≡ length m * 8 % 2 ^ 64 = omega (arith, h.counted) in
    rw run (
      ap (λ t. some (digest_bytes t))
        (sym (ap (λ r. r.0) h3.taken)
          ∙ ap (λ t. (process transform start t).0)
              (append_assoc (m ++ mark) (replicate (zeros (length (m ++ mark))) 0) tail
                ∙ append_assoc m mark (replicate (zeros (length (m ++ mark))) 0 ++ tail)
                ∙ ap (λ (k : ℕ). m ++ (0x80 ∷ (replicate (zeros k) 0 ++ tail))) longer
                ∙ ap
                    (λ (k : ℕ). m ++ (0x80 ∷ (replicate (zeros (length m + 1)) 0 ++ count_bytes k)))
                    bits)))

-- Successive calls of `vhdb_sha1_update`.
unfoldable pub updates : Context → List (List ℕ) → Context
updates ctx [] = ctx
updates ctx (chunk ∷ chunks) = updates (update ctx chunk) chunks

abbrev pub joined : List (List ℕ) → List ℕ
joined [] = []
joined (c ∷ cs) = c ++ joined cs
