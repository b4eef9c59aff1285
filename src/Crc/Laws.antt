-- ===== src/Crc/Laws.antt =====
-- The checksum of core/vhdb.c is a 32-bit number, and tells a changed byte.
use vhdb.Base.{
  ℕ, zero, suc, ◌/◌, ◌^◌, ◌<◌, ◌≡◌, ◌≢◌, refl, sym, ap, ◌∙◌, List, [], ◌∷◌, ◌++◌, bit_xor, arith,
}
use vhdb.Base.Bits.{bit_xor-lt, bit_xor_cancel, bit_xor_comm, bit_xor_top}
use vhdb.Crc.{polynomial, all_ones, crc_bit, crc_bits, crc_byte, crc_loop, crc32}

abbrev IsWord : ℕ → Type 0
IsWord n = n < 2 ^ 32

abbrev pub IsByte : ℕ → Type 0
IsByte n = n < 2 ^ 8

xor-IsWord : (a b : ℕ) → IsWord a → IsWord b → IsWord (bit_xor a b)
xor-IsWord = bit_xor-lt 32

crc_bit-IsWord : (c : ℕ) → IsWord c → IsWord (crc_bit c)
unfolding crc_bit
crc_bit-IsWord c h = ground (arith, xor-IsWord (c / 2) polynomial (omega arith) (omega arith))

-- The top bit of the result tells the branch taken, since the polynomial has bit 31 set.
crc_bit_injective : (c d : ℕ) → IsWord c → IsWord d → crc_bit c ≡ crc_bit d → c ≡ d
unfolding crc_bit
crc_bit_injective c d hc hd e = ground (
  arith,
  bit_xor_top 31 (c / 2) 0x6DB8_8320 (omega arith) (omega arith),
  bit_xor_top 31 (d / 2) 0x6DB8_8320 (omega arith) (omega arith),
  bit_xor-lt 31 (c / 2) 0x6DB8_8320 (omega arith) (omega arith),
  bit_xor-lt 31 (d / 2) 0x6DB8_8320 (omega arith) (omega arith),
  bit_xor_cancel 32 (c / 2) polynomial (omega arith) (omega arith),
  bit_xor_cancel 32 (d / 2) polynomial (omega arith) (omega arith),
)

crc_bits-IsWord : (n c : ℕ) → IsWord c → IsWord (crc_bits n c)
unfolding crc_bits
crc_bits-IsWord zero c h = h
crc_bits-IsWord (suc n) c h = crc_bits-IsWord n (crc_bit c) (crc_bit-IsWord c h)

crc_bits_injective : (n c d : ℕ) → IsWord c → IsWord d → crc_bits n c ≡ crc_bits n d → c ≡ d
unfolding crc_bits
crc_bits_injective zero c d hc hd e = e
crc_bits_injective (suc n) c d hc hd e =
    crc_bit_injective c d hc hd
      (crc_bits_injective n (crc_bit c) (crc_bit d) (crc_bit-IsWord c hc) (crc_bit-IsWord d hd) e)

xor_injective : (a b m : ℕ) → IsWord a → IsWord b → IsWord m → bit_xor a m ≡ bit_xor b m → a ≡ b
xor_injective a b m ha hb hm e =
    sym (bit_xor_cancel 32 a m ha hm) ∙ ap (λ (t : ℕ). bit_xor t m) e ∙ bit_xor_cancel 32 b m hb hm

abbrev pub AllBytes : List ℕ → Type 0
AllBytes [] = Unit
AllBytes (b ∷ bs) = IsByte b × AllBytes bs

crc_byte-IsWord : (c b : ℕ) → IsWord c → IsByte b → IsWord (crc_byte c b)
unfolding crc_byte
crc_byte-IsWord c b hc hb = crc_bits-IsWord 8 (bit_xor c b) (xor-IsWord c b hc (omega arith))

crc_loop-IsWord : (bs : List ℕ) (c : ℕ) → IsWord c → AllBytes bs → IsWord (crc_loop c bs)
unfolding crc_loop
crc_loop-IsWord [] c h all = h
crc_loop-IsWord (b ∷ bs) c h all =
    crc_loop-IsWord bs (crc_byte c b) (crc_byte-IsWord c b h all.0) all.1

-- The checksum of any bytes fits a `uint32_t`.
crc32-lt : (bs : List ℕ) → AllBytes bs → crc32 bs < 2 ^ 32
unfolding crc32
crc32-lt bs all =
    xor-IsWord (crc_loop all_ones bs) all_ones (crc_loop-IsWord bs all_ones (omega arith) all)
      (omega arith)

-- The register before a byte is determined by the byte and the register after it.
crc_byte_injective :
    (c d b : ℕ) → IsWord c → IsWord d → IsByte b → crc_byte c b ≡ crc_byte d b → c ≡ d
unfolding crc_byte
crc_byte_injective c d b hc hd hb e = xor_injective c d b hc hd (omega arith) (
    crc_bits_injective 8 (bit_xor c b) (bit_xor d b) (xor-IsWord c b hc (omega arith))
      (xor-IsWord d b hd (omega arith)) e)

crc_loop_injective :
    (bs : List ℕ) (c d : ℕ)
    → IsWord c
    → IsWord d
    → AllBytes bs
    → crc_loop c bs ≡ crc_loop d bs
    → c ≡ d
unfolding crc_loop
crc_loop_injective [] c d hc hd all e = e
crc_loop_injective (b ∷ bs) c d hc hd all e = crc_byte_injective c d b hc hd all.0 (
    crc_loop_injective bs (crc_byte c b) (crc_byte d b) (crc_byte-IsWord c b hc all.0)
      (crc_byte-IsWord d b hd all.0) all.1 e)

crc_loop-append : (xs ys : List ℕ) (c : ℕ) → crc_loop c (xs ++ ys) ≡ crc_loop (crc_loop c xs) ys
unfolding crc_loop
crc_loop-append [] ys c = refl
crc_loop-append (x ∷ xs) ys c = crc_loop-append xs ys (crc_byte c x)

crc_byte_tells : (c a b : ℕ) → IsWord c → IsByte a → IsByte b → crc_byte c a ≡ crc_byte c b → a ≡ b
unfolding crc_byte
crc_byte_tells c a b hc ha hb e = xor_injective a b c (omega arith) (omega arith) hc (
    bit_xor_comm 32 a c (omega arith) hc
    ∙ crc_bits_injective 8 (bit_xor c a) (bit_xor c b) (xor-IsWord c a hc (omega arith))
        (xor-IsWord c b hc (omega arith)) e
    ∙ bit_xor_comm 32 c b hc (omega arith))

AllBytes-append : (xs ys : List ℕ) → AllBytes (xs ++ ys) → AllBytes xs × AllBytes ys
AllBytes-append [] ys h = (tt, h)
AllBytes-append (x ∷ xs) ys h = let rest = AllBytes-append xs ys h.1 in ((h.0, rest.0), rest.1)

-- Two files of bytes that differ in one byte, at any place, never have the same checksum.
pub crc32_changed_byte :
    (before after : List ℕ) (a b : ℕ)
    → AllBytes (before ++ (a ∷ after))
    → IsByte b
    → a ≢ b
    → crc32 (before ++ (a ∷ after)) ≢ crc32 (before ++ (b ∷ after))
unfolding crc32 crc_loop
crc32_changed_byte before after a b all hb ne e =
    let parts = AllBytes-append before (a ∷ after) all in
    let c = crc_loop all_ones before in
    let hc : IsWord c = crc_loop-IsWord before all_ones (omega arith) parts.0 in
    let ca = crc_byte c a in
    let cb = crc_byte c b in
    let ha : IsWord ca = crc_byte-IsWord c a hc parts.1.0 in
    let hcb : IsWord cb = crc_byte-IsWord c b hc hb in
    let same : bit_xor (crc_loop ca after) all_ones ≡ bit_xor (crc_loop cb after) all_ones =
      ap (λ (t : ℕ). bit_xor t all_ones) (sym (crc_loop-append before (a ∷ after) all_ones))
      ∙ e
      ∙ ap (λ (t : ℕ). bit_xor t all_ones) (crc_loop-append before (b ∷ after) all_ones) in
    ne (
      crc_byte_tells c a b hc parts.1.0 hb (
        crc_loop_injective after ca cb ha hcb parts.1.1 (
          xor_injective (crc_loop ca after) (crc_loop cb after) all_ones
            (crc_loop-IsWord after ca ha parts.1.1) (crc_loop-IsWord after cb hcb parts.1.1)
            (omega arith) same)))
