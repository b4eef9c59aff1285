-- ===== src/Pc/Net/Sink.antt =====
-- pc/net.c: what a transfer into memory stores.
use vhdb.Base.{
  take_nothing, ℕ, zero, suc, ◌-◌, ◌≤◌, ◌≡◌, refl, sym, ap, ◌∙◌, arith, inl, inr, ◌==◌, ltb, Bool,
  true, List, [], ◌∷◌, ◌++◌, append-nil, append_assoc, length, length-append, length-take, take_all,
  ◌⊎◌, take, Bool-cases,
}
use vhdb.Pc.Net.{ok, Curl, Request, deliver, perform, MemorySink, write_memory, empty_sink, receive}

-- The bytes of the blocks.
abbrev pub joined : List (List ℕ) → List ℕ
joined [] = []
joined (block ∷ blocks) = block ++ joined blocks

take-append : (n : ℕ) (xs ys : List ℕ) → take n (xs ++ ys) ≡ take n xs ++ take (n - length xs) ys
take-append n [] ys = let less : n - 0 ≡ n = omega arith in rw (take_nothing n, less) refl
take-append zero (x ∷ xs) ys =
    let none_left : 0 - suc (length xs) ≡ 0 = omega arith in rw none_left refl
take-append (suc n) (x ∷ xs) ys =
    let less : suc n - suc (length xs) ≡ n - length xs = omega arith in
    rw (less, take-append n xs ys) refl

-- A block leaves what fits behind the bytes before it; one that is refused met a full sink.
record Wrote (sink : MemorySink) (block : List ℕ) (sink' : MemorySink) (taken : Bool) : Type 0 where
  size : sink'.size ≡ sink.size
  stored : sink'.stored ≡ sink.stored ++ take (sink.size - length sink.stored) block
  full : (taken ≡ true) ⊎ (sink.size - length sink.stored ≡ 0)

write_memory-Wrote :
    (sink : MemorySink) (block : List ℕ)
    → Wrote sink block (write_memory sink block).0 (write_memory sink block).1
unfolding write_memory
write_memory-Wrote sink block =
    let room = sink.size - length sink.stored in
    elim (Bool-cases (ltb room (length block))) [
      | inl long ↦ elim (Bool-cases (room == 0)) [
        | inl none_left ↦
            let no_room : room ≡ 0 = ground arith in
            let same : sink.stored ++ take room block ≡ sink.stored =
              ap (λ k. sink.stored ++ take k block) no_room ∙ append-nil sink.stored in
            record { size = ground arith; stored = ground arith; full = inr no_room }
        | inr some_left ↦ record {
          size = ground arith;
          stored = ground arith;
          full = inl (ground arith);
        }
      ]
      | inr short ↦
          let whole : take room block ≡ block = take_all room block (ground arith) in
          let own : take (length block) block ≡ block =
            take_all (length block) block (omega arith) in
          elim (Bool-cases (length block == 0)) [
            | inl no_block ↦
                let same : sink.stored ++ take room block ≡ sink.stored =
                  ap (λ b. sink.stored ++ b) (whole ∙ nil_of block (ground arith))
                  ∙ append-nil sink.stored in
                record { size = ground arith; stored = ground arith; full = inl (ground arith) }
            | inr some_block ↦ record {
              size = ground arith;
              stored = ground arith;
              full = inl (ground arith);
            }
          ]
    ]
  where
    nil_of : (xs : List ℕ) → length xs ≡ 0 → xs ≡ []
    nil_of [] h = refl
    nil_of (x ∷ xs) h = absurd (omega arith)

-- The sink holds what fits of all blocks, also where one was refused.
deliver-stored :
    (sink : MemorySink) (blocks : List (List ℕ))
    → (deliver write_memory sink blocks).0.stored
      ≡ sink.stored ++ take (sink.size - length sink.stored) (joined blocks)
unfolding deliver
deliver-stored sink [] =
    sym (append-nil sink.stored)
    ∙ ap (λ xs. sink.stored ++ xs) (sym (take_nothing (sink.size - length sink.stored)))
deliver-stored sink (block ∷ blocks) =
    let w = write_memory-Wrote sink block in
    let next = (write_memory sink block).0 in
    let room = sink.size - length sink.stored in
    let split = take-append room block (joined blocks) in
    let later = deliver-stored next blocks in
    elim (Bool-cases (write_memory sink block).1) [
      | inl taken ↦
          let left : next.size - length next.stored ≡ room - length block = omega (
            arith,
            w.size,
            ap (λ (xs : List ℕ). length xs) w.stored,
            length-append sink.stored (take room block),
            length-take room block,
          ) in
          rw taken (
            later
            ∙ (ap (λ k. next.stored ++ take k (joined blocks)) left
                ∙ (ap (λ xs. xs ++ take (room - length block) (joined blocks)) w.stored
                    ∙ (append_assoc sink.stored (take room block)
                          (take (room - length block) (joined blocks))
                        ∙ ap (λ xs. sink.stored ++ xs) (sym split)))))
      | inr refused ↦
          let none_left : room ≡ 0 = ground (arith, w.full) in
          rw refused (
            w.stored
            ∙ (ap (λ k. sink.stored ++ take k block) none_left
                ∙ ap (λ k. sink.stored ++ take k (block ++ joined blocks)) (sym none_left)))
    ]

-- What a transfer into memory reports as received is the data that came over the network, cut at
-- the size of the buffer: nothing is written past it.
pub receive_lem :
    (curl : Curl) (size : ℕ) (request : Request) (sink : MemorySink)
    → receive curl size request ≡ ok sink
    → (sink.stored ≡ take size (joined (curl.transfer request).blocks))
      × (length sink.stored ≤ size)
unfolding receive perform
receive_lem curl size request sink got =
    let blocks = (curl.transfer request).blocks in
    let full : size - 0 ≡ size = omega arith in
    let whole : (deliver write_memory (empty_sink size) blocks).0.stored
        ≡ take size (joined blocks) =
      deliver-stored (empty_sink size) blocks ∙ ap (λ k. take k (joined blocks)) full in
    let is : sink.stored ≡ take size (joined blocks) = ground arith in
    (is, omega (arith, ap (λ (xs : List ℕ). length xs) is, length-take size (joined blocks)))
