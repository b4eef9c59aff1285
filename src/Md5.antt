-- ===== src/Md5.antt =====
-- core/md5.c: MD5 over byte streams.
pub mod Stream
use vhdb.Base.{
  ℕ, zero, suc, ◌+◌, ◌-◌, ◌*◌, ◌/◌, ◌%◌, ◌^◌, leb, ltb, if◌then◌else◌, List, [], ◌∷◌, ◌++◌, get_or,
  length, take, drop, replicate, u32, bit_and, bit_or, bit_xor,
}
use vhdb.Blocks.{copy_at, blocks_loop}

-- The constants `K`.
abbrev constants : List ℕ
constants =
    0xd76a_a478 ∷ 0xe8c7_b756 ∷ 0x2420_70db ∷ 0xc1bd_ceee ∷ 0xf57c_0faf ∷ 0x4787_c62a ∷ 0xa830_4613
    ∷ 0xfd46_9501 ∷ 0x6980_98d8 ∷ 0x8b44_f7af ∷ 0xffff_5bb1 ∷ 0x895c_d7be ∷ 0x6b90_1122
    ∷ 0xfd98_7193 ∷ 0xa679_438e ∷ 0x49b4_0821 ∷ 0xf61e_2562 ∷ 0xc040_b340 ∷ 0x265e_5a51
    ∷ 0xe9b6_c7aa ∷ 0xd62f_105d ∷ 0x0244_1453 ∷ 0xd8a1_e681 ∷ 0xe7d3_fbc8 ∷ 0x21e1_cde6
    ∷ 0xc337_07d6 ∷ 0xf4d5_0d87 ∷ 0x455a_14ed ∷ 0xa9e3_e905 ∷ 0xfcef_a3f8 ∷ 0x676f_02d9
    ∷ 0x8d2a_4c8a ∷ 0xfffa_3942 ∷ 0x8771_f681 ∷ 0x6d9d_6122 ∷ 0xfde5_380c ∷ 0xa4be_ea44
    ∷ 0x4bde_cfa9 ∷ 0xf6bb_4b60 ∷ 0xbebf_bc70 ∷ 0x289b_7ec6 ∷ 0xeaa1_27fa ∷ 0xd4ef_3085
    ∷ 0x0488_1d05 ∷ 0xd9d4_d039 ∷ 0xe6db_99e5 ∷ 0x1fa2_7cf8 ∷ 0xc4ac_5665 ∷ 0xf429_2244
    ∷ 0x432a_ff97 ∷ 0xab94_23a7 ∷ 0xfc93_a039 ∷ 0x655b_59c3 ∷ 0x8f0c_cc92 ∷ 0xffef_f47d
    ∷ 0x8584_5dd1 ∷ 0x6fa8_7e4f ∷ 0xfe2c_e6e0 ∷ 0xa301_4314 ∷ 0x4e08_11a1 ∷ 0xf753_7e82
    ∷ 0xbd3a_f235 ∷ 0x2ad7_d2bb ∷ 0xeb86_d391 ∷ []

-- The rotations `S`.
abbrev shifts : List ℕ
shifts =
    7 ∷ 12 ∷ 17 ∷ 22 ∷ 7 ∷ 12 ∷ 17 ∷ 22 ∷ 7 ∷ 12 ∷ 17 ∷ 22 ∷ 7 ∷ 12 ∷ 17 ∷ 22 ∷ 5 ∷ 9 ∷ 14 ∷ 20 ∷ 5
    ∷ 9 ∷ 14 ∷ 20 ∷ 5 ∷ 9 ∷ 14 ∷ 20 ∷ 5 ∷ 9 ∷ 14 ∷ 20 ∷ 4 ∷ 11 ∷ 16 ∷ 23 ∷ 4 ∷ 11 ∷ 16 ∷ 23 ∷ 4 ∷ 11
    ∷ 16 ∷ 23 ∷ 4 ∷ 11 ∷ 16 ∷ 23 ∷ 6 ∷ 10 ∷ 15 ∷ 21 ∷ 6 ∷ 10 ∷ 15 ∷ 21 ∷ 6 ∷ 10 ∷ 15 ∷ 21 ∷ 6 ∷ 10
    ∷ 15 ∷ 21 ∷ []

unfoldable pub rotate : ℕ → ℕ → ℕ
rotate value bits = bit_or (u32 (value * 2 ^ bits)) (value / 2 ^ (32 - bits))

-- `~x` of a `uint32_t`.
abbrev pub not32 : ℕ → ℕ
not32 x = 2 ^ 32 - 1 - x

-- The four words of the state.
pub record Words : Type 0 where
  pub a : ℕ
  pub b : ℕ
  pub c : ℕ
  pub d : ℕ

-- Word `i` of a block of 64 bytes.
unfoldable pub block_word : List ℕ → ℕ → ℕ
block_word block i =
    bit_or
      (bit_or (bit_or (get_or block (i * 4) 0) (get_or block (i * 4 + 1) 0 * 2 ^ 8))
        (get_or block (i * 4 + 2) 0 * 2 ^ 16))
      (get_or block (i * 4 + 3) 0 * 2 ^ 24)

-- The function `f` and the word number `g` of round `i`.
unfoldable pub mix : ℕ → Words → ℕ
mix i w =
    if ltb i 16
    then bit_or (bit_and w.b w.c) (bit_and (not32 w.b) w.d)
    else if ltb i 32
    then bit_or (bit_and w.d w.b) (bit_and (not32 w.d) w.c)
    else if ltb i 48
    then bit_xor (bit_xor w.b w.c) w.d
    else bit_xor w.c (bit_or w.b (not32 w.d))

unfoldable pub pick : ℕ → ℕ
pick i =
    if ltb i 16
    then i
    else if ltb i 32
    then (5 * i + 1) % 16
    else if ltb i 48
    then (3 * i + 5) % 16
    else (7 * i) % 16

unfoldable pub round : List ℕ → ℕ → Words → Words
round block i w =
    let f = u32 (mix i w + w.a + get_or constants i 0 + block_word block (pick i)) in
    record { a = w.d; b = u32 (w.b + rotate f (get_or shifts i 0)); c = w.b; d = w.c }

-- The 64 rounds, by the rounds left.
unfoldable pub rounds : List ℕ → ℕ → ℕ → Words → Words
rounds block zero i w = w
rounds block (suc n) i w = rounds block n (i + 1) (round block i w)

unfoldable pub transform : Words → List ℕ → Words
transform s block =
    let w = rounds block 64 0 s in
    record { a = u32 (s.a + w.a); b = u32 (s.b + w.b); c = u32 (s.c + w.c); d = u32 (s.d + w.d) }

-- `vhdb_md5_ctx`
pub record Context : Type 0 where
  pub state : Words
  pub count0 : ℕ
  pub count1 : ℕ
  pub buffer : List ℕ

abbrev pub start : Words
start = record { a = 0x6745_2301; b = 0xefcd_ab89; c = 0x98ba_dcfe; d = 0x1032_5476 }

-- `vhdb_md5_init`
abbrev pub init : Context
init = record { state = start; count0 = 0; count1 = 0; buffer = replicate 64 0 }

-- The two words of the bit count after `length` more bytes, with the carry.
unfoldable pub low_count : Context → ℕ → ℕ
low_count ctx n = u32 (ctx.count0 + u32 (n * 8))

unfoldable pub high_count : Context → ℕ → ℕ
high_count ctx n =
    let carried =
      if ltb (low_count ctx n) (u32 (n * 8)) then u32 (ctx.count1 + 1) else ctx.count1 in
    u32 (carried + u32 (n / 2 ^ 29))

-- The bytes that wait in the buffer.
unfoldable pub waiting : Context → ℕ
waiting ctx = ctx.count0 / 8 % 64

-- The bytes past the first block, and what is left of them in the buffer.
unfoldable pub fill : Words → List ℕ → List ℕ → Words × List ℕ
fill s buffer bytes =
    let (s', left) = blocks_loop transform (length bytes) s bytes in (s', copy_at buffer 0 left)

-- `vhdb_md5_update`
unfoldable pub update : Context → List ℕ → Context
update ctx bytes =
    let index = waiting ctx in
    let partial = 64 - index in
    let full = copy_at ctx.buffer index (take partial bytes) in
    let next = fill (transform ctx.state full) full (drop partial bytes) in
    let low = low_count ctx (length bytes) in
    let high = high_count ctx (length bytes) in
    if leb partial (length bytes)
    then record { state = next.0; count0 = low; count1 = high; buffer = next.1 }
    else record ctx { count0 = low; count1 = high; buffer = copy_at ctx.buffer index bytes }

-- The bytes of a word, the lowest first.
unfoldable pub word_bytes : ℕ → List ℕ
word_bytes w = w % 256 ∷ w / 2 ^ 8 % 256 ∷ w / 2 ^ 16 % 256 ∷ w / 2 ^ 24 % 256 ∷ []

unfoldable pub digest_bytes : Words → List ℕ
digest_bytes w = word_bytes w.a ++ (word_bytes w.b ++ (word_bytes w.c ++ word_bytes w.d))

-- 0x80 and the zeros up to 56 bytes in the last block.
unfoldable pub padding : ℕ → List ℕ
padding index = take (if ltb index 56 then 56 - index else 120 - index) (0x80 ∷ replicate 63 0)

-- `vhdb_md5_final`
unfoldable pub final : Context → List ℕ
final ctx =
    let tail = word_bytes ctx.count0 ++ word_bytes ctx.count1 in
    digest_bytes (update (update ctx (padding (waiting ctx))) tail).state

-- `vhdb_md5_file`, over what the successive calls of `fread` give.
unfoldable pub updates : Context → List (List ℕ) → Context
updates ctx [] = ctx
updates ctx (chunk ∷ chunks) = updates (update ctx chunk) chunks

unfoldable pub file_digest : List (List ℕ) → List ℕ
file_digest chunks = final (updates init chunks)

pub hex_digit : ℕ → ℕ
hex_digit n = if ltb n 10 then b'0' + n else b'a' + (n - 10)

-- `vhdb_md5_hex`
pub hex : List ℕ → List ℕ
hex [] = []
hex (x ∷ xs) = hex_digit (x / 16 % 16) ∷ hex_digit (x % 16) ∷ hex xs
