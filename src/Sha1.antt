-- ===== src/Sha1.antt =====
-- core/sha1.c: SHA-1 over byte streams.
pub mod Stream
pub mod Final
use vhdb.Base.{
  ℕ, zero, suc, ◌+◌, ◌-◌, ◌*◌, ◌/◌, ◌%◌, ◌^◌, ◌==◌, leb, ltb, if◌then◌else◌, Option, none, some,
  ◌>>=◌, List, [], ◌∷◌, ◌++◌, get_or, length, take, drop, replicate, u32, bit_and, bit_or, bit_xor,
}
use vhdb.Blocks.{copy_at, blocks_loop}

unfoldable pub rotate : ℕ → ℕ → ℕ
rotate value bits = bit_or (u32 (value * 2 ^ bits)) (value / 2 ^ (32 - bits))

abbrev pub not32 : ℕ → ℕ
not32 x = 2 ^ 32 - 1 - x

-- The five words of the state.
pub record Words : Type 0 where
  pub a : ℕ
  pub b : ℕ
  pub c : ℕ
  pub d : ℕ
  pub e : ℕ

-- Word `i` of a block of 64 bytes, the highest byte first.
unfoldable pub block_word : List ℕ → ℕ → ℕ
block_word block i =
    bit_or
      (bit_or (bit_or (get_or block (i * 4) 0 * 2 ^ 24) (get_or block (i * 4 + 1) 0 * 2 ^ 16))
        (get_or block (i * 4 + 2) 0 * 2 ^ 8))
      (get_or block (i * 4 + 3) 0)

-- The first 16 words of the schedule, by the words left.
unfoldable pub first_words : List ℕ → ℕ → ℕ → List ℕ
first_words block zero i = []
first_words block (suc n) i = block_word block i ∷ first_words block n (i + 1)

-- The words from number `i` on, by the words left.
unfoldable pub more_words : ℕ → ℕ → List ℕ → List ℕ
more_words zero i w = w
more_words (suc n) i w =
    let x =
      bit_xor (bit_xor (bit_xor (get_or w (i - 3) 0) (get_or w (i - 8) 0)) (get_or w (i - 14) 0))
        (get_or w (i - 16) 0) in
    more_words n (i + 1) (w ++ (rotate x 1 ∷ []))

unfoldable pub schedule : List ℕ → List ℕ
schedule block = more_words 64 16 (first_words block 16 0)

unfoldable pub mix : ℕ → Words → ℕ
mix i w =
    if ltb i 20
    then bit_or (bit_and w.b w.c) (bit_and (not32 w.b) w.d)
    else if ltb i 40
    then bit_xor (bit_xor w.b w.c) w.d
    else if ltb i 60
    then bit_or (bit_or (bit_and w.b w.c) (bit_and w.b w.d)) (bit_and w.c w.d)
    else bit_xor (bit_xor w.b w.c) w.d

unfoldable pub constant : ℕ → ℕ
constant i =
    if ltb i 20
    then 0x5A82_7999
    else if ltb i 40
    then 0x6ED9_EBA1
    else if ltb i 60
    then 0x8F1B_BCDC
    else 0xCA62_C1D6

unfoldable pub round : List ℕ → ℕ → Words → Words
round w i s =
    let temp = u32 (rotate s.a 5 + mix i s + s.e + constant i + get_or w i 0) in
    record { a = temp; b = s.a; c = rotate s.b 30; d = s.c; e = s.d }

-- The 80 rounds, by the rounds left.
unfoldable pub rounds : List ℕ → ℕ → ℕ → Words → Words
rounds w zero i s = s
rounds w (suc n) i s = rounds w n (i + 1) (round w i s)

unfoldable pub transform : Words → List ℕ → Words
transform s block =
    let t = rounds (schedule block) 80 0 s in
    record {
      a = u32 (s.a + t.a);
      b = u32 (s.b + t.b);
      c = u32 (s.c + t.c);
      d = u32 (s.d + t.d);
      e = u32 (s.e + t.e);
    }

-- `vhdb_sha1_ctx`; the count is of bytes, in 64 bits.
pub record Context : Type 0 where
  pub state : Words
  pub count : ℕ
  pub buffer : List ℕ

abbrev pub start : Words
start = record {
  a = 0x6745_2301;
  b = 0xEFCD_AB89;
  c = 0x98BA_DCFE;
  d = 0x1032_5476;
  e = 0xC3D2_E1F0;
}

-- `vhdb_sha1_init`
abbrev pub init : Context
init = record { state = start; count = 0; buffer = replicate 64 0 }

-- The bytes that wait in the buffer.
unfoldable pub waiting : Context → ℕ
waiting ctx = ctx.count % 64

-- The loop over the whole blocks, and the copy of the rest to the front of the buffer.
unfoldable pub absorb : Words → ℕ → List ℕ → List ℕ → Context
absorb s count buffer bytes =
    let (s', left) = blocks_loop transform (length bytes) s bytes in
    record { state = s'; count = count; buffer = copy_at buffer 0 left }

-- The branch of a buffer in which bytes wait.
unfoldable pub update_waiting : Context → ℕ → ℕ → List ℕ → Context
update_waiting ctx index count bytes =
    let room = 64 - index in
    let full = copy_at ctx.buffer index (take room bytes) in
    let whole = absorb (transform ctx.state full) count full (drop room bytes) in
    if ltb (length bytes) room
    then record ctx { count = count; buffer = copy_at ctx.buffer index bytes }
    else whole

-- `vhdb_sha1_update`
unfoldable pub update : Context → List ℕ → Context
update ctx bytes =
    let index = waiting ctx in
    let count = (ctx.count + length bytes) % 2 ^ 64 in
    if index == 0
    then absorb ctx.state count ctx.buffer bytes
    else update_waiting ctx index count bytes

-- The loop of `vhdb_sha1_final` that adds zeros, on fuel; `none` means that the fuel ran out.
unfoldable pub pad_loop : ℕ → Context → Option Context
pad_loop zero ctx = none
pad_loop (suc fuel) ctx =
    let rest = pad_loop fuel (update ctx (0 ∷ [])) in if waiting ctx == 56 then some ctx else rest

-- The bit count, the highest byte first.
unfoldable pub count_bytes : ℕ → List ℕ
count_bytes bits =
    bits / 2 ^ 56 % 256
    ∷ bits / 2 ^ 48 % 256
    ∷ bits / 2 ^ 40 % 256
    ∷ bits / 2 ^ 32 % 256
    ∷ bits / 2 ^ 24 % 256
    ∷ bits / 2 ^ 16 % 256
    ∷ bits / 2 ^ 8 % 256
    ∷ bits % 256
    ∷ []

unfoldable pub word_bytes : ℕ → List ℕ
word_bytes w = w / 2 ^ 24 % 256 ∷ w / 2 ^ 16 % 256 ∷ w / 2 ^ 8 % 256 ∷ w % 256 ∷ []

unfoldable pub digest_bytes : Words → List ℕ
digest_bytes w =
    word_bytes w.a ++ (word_bytes w.b ++ (word_bytes w.c ++ (word_bytes w.d ++ word_bytes w.e)))

-- `vhdb_sha1_final`; at most 63 zeros are added.
unfoldable pub final : Context → Option (List ℕ)
final ctx =
    let bits = ctx.count * 8 % 2 ^ 64 in
    pad_loop 64 (update ctx (0x80 ∷ [])) >>= λ padded.
    some (digest_bytes (update padded (count_bytes bits)).state)
