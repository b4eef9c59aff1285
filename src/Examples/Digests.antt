-- ===== src/Examples/Digests.antt =====
-- Checksums and digests at concrete inputs.
use vhdb.Base.{ℕ, ◌≡◌, ◌≢◌, refl, List, [], ◌∷◌, some, arith, codes}
use vhdb.Crc.{crc32}
use vhdb.Crc.Laws.{crc32_changed_byte}
use vhdb.Blocks.{blocks_loop}
use vhdb.Md5.{
  file_digest, updates as md5_updates, update, final as md5_final, fill, low_count, high_count,
  waiting, padding, word_bytes, digest_bytes, transform, rounds, round, mix, pick, rotate,
  block_word,
}
use vhdb.Md5.Stream.{file_digest-joined}
use vhdb.Md5.Stream
use vhdb.Sha1
use vhdb.Sha1.{final, init}
use vhdb.Sha1.Final
use vhdb.Sha1.Final.{updates}

-- The usual check value of this checksum.
crc32_check_value : crc32 (codes "123456789") ≡ 0xCBF4_3926
unfolding crc32
crc32_check_value = refl

crc32_changed_byte_example : crc32 (codes "12345") ≢ crc32 (codes "12045")
crc32_changed_byte_example =
    crc32_changed_byte (codes "12") (codes "45") b'3' b'0' (omega arith) (omega arith) (omega arith)

abbrev md5_of_abc : List ℕ
md5_of_abc =
    0x90 ∷ 0x01 ∷ 0x50 ∷ 0x98 ∷ 0x3c ∷ 0xd2 ∷ 0x4f ∷ 0xb0 ∷ 0xd6 ∷ 0x96 ∷ 0x3f ∷ 0x7d ∷ 0x28 ∷ 0xe1
    ∷ 0x7f ∷ 0x72 ∷ []

file_digest_abc : file_digest (codes "a" ∷ codes "bc" ∷ []) ≡ md5_of_abc
unfolding file_digest md5_updates update md5_final fill low_count high_count waiting padding
    word_bytes digest_bytes transform rounds round mix pick rotate block_word blocks_loop
file_digest_abc = refl

-- 56 bytes: the mark and the length do not fit the same block.
abbrev long_text : List ℕ
long_text = codes "abcdbcdecdefdefgefghfghighijhijkijkljklmklmnlmnomnopnopq"

file_digest_long :
    file_digest (long_text ∷ [])
    ≡ 0x82 ∷ 0x15 ∷ 0xef ∷ 0x07 ∷ 0x96 ∷ 0xa2 ∷ 0x0b ∷ 0xca ∷ 0xaa ∷ 0xe1 ∷ 0x16 ∷ 0xd3 ∷ 0x87
      ∷ 0x6c ∷ 0x66 ∷ 0x4a ∷ []
unfolding file_digest md5_updates update md5_final fill low_count high_count waiting padding
    word_bytes digest_bytes transform rounds round mix pick rotate block_word blocks_loop
file_digest_long = refl

file_digest-joined_example : file_digest (codes "a" ∷ codes "bc" ∷ []) ≡ Stream.digest (codes "abc")
file_digest-joined_example = file_digest-joined (codes "a" ∷ codes "bc" ∷ [])

abbrev sha1_of_abc : List ℕ
sha1_of_abc =
    0xa9 ∷ 0x99 ∷ 0x3e ∷ 0x36 ∷ 0x47 ∷ 0x06 ∷ 0x81 ∷ 0x6a ∷ 0xba ∷ 0x3e ∷ 0x25 ∷ 0x71 ∷ 0x78 ∷ 0x50
    ∷ 0xc2 ∷ 0x6c ∷ 0x9c ∷ 0xd0 ∷ 0xd8 ∷ 0x9d ∷ []

final_abc : final (updates init (codes "a" ∷ codes "bc" ∷ [])) ≡ some sha1_of_abc
unfolding final updates Sha1.pad_loop Sha1.update Sha1.update_waiting Sha1.absorb Sha1.waiting
    Sha1.count_bytes Sha1.word_bytes Sha1.digest_bytes Sha1.transform Sha1.rounds Sha1.round
    Sha1.mix Sha1.constant Sha1.rotate Sha1.block_word Sha1.first_words Sha1.more_words
    Sha1.schedule blocks_loop
final_abc = refl
