-- ===== src/Crc.antt =====
-- core/vhdb.c, `vhdb_crc32`: the checksum over everything behind the catalog's header.
pub mod Laws
use vhdb.Base.{ℕ, zero, suc, ◌/◌, ◌%◌, ◌==◌, if◌then◌else◌, List, [], ◌∷◌, bit_xor}

abbrev pub polynomial : ℕ
polynomial = 0xEDB8_8320

abbrev pub all_ones : ℕ
all_ones = 0xFFFF_FFFF

-- One round of the inner loop: `crc & 1` is the parity, `crc >> 1` the half.
pub crc_bit : ℕ → ℕ
crc_bit crc = if crc % 2 == 1 then bit_xor (crc / 2) polynomial else crc / 2

-- The inner loop, by the rounds left.
pub crc_bits : ℕ → ℕ → ℕ
crc_bits zero crc = crc
crc_bits (suc n) crc = crc_bits n (crc_bit crc)

-- The body of the outer loop.
pub crc_byte : ℕ → ℕ → ℕ
crc_byte crc byte = crc_bits 8 (bit_xor crc byte)

pub crc_loop : ℕ → List ℕ → ℕ
crc_loop crc [] = crc
crc_loop crc (byte ∷ bytes) = crc_loop (crc_byte crc byte) bytes

-- `vhdb_crc32` on the `length` bytes behind `data`.
unfoldable pub crc32 : List ℕ → ℕ
unfolding crc_loop crc_byte crc_bits crc_bit
crc32 bytes = bit_xor (crc_loop all_ones bytes) all_ones
