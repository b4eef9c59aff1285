-- ===== src/Catalog/Load/Wrapped.antt =====
-- core/vhdb.c, `vhdb_check_layout`: the sums are made in `uint32_t` and may wrap around.
use vhdb.Base.{
  ℕ, ◌+◌, ◌-◌, ◌*◌, ◌^◌, ◌≤◌, ◌<◌, ◌≡◌, Bool, true, false, List, some, get_elem?, length, arith,
  refl, ap, ◌∙◌, zero, suc, leb, word_at, slice, slice-some, u32, drop, take_all, length-drop,
}
use vhdb.Crc.{crc32}
use vhdb.Catalog.{Db, Header, header_at}
use vhdb.Catalog.Load.{
  ok, pointers, check_layout, check_orders, load_orders, crc_matches, load_blob,
}

-- A file of a header and two orders of `n` ranks, with no room for a record. Its header says that
-- the texts are so long that the sum with their offset is 64 again, and has the checksum of what
-- follows it; from its last byte on the file is 0.
pub record Crafted (n : ℕ) (h : Header) (blob : List ℕ) : Type 0 where
  pub count_pos : 20 ≤ n
  pub count_le : n ≤ 2 ^ 20
  pub magic_is : h.magic ≡ 0x4244_4856
  pub version_is : h.format_version ≡ 2
  pub count_is : h.entry_count ≡ n
  pub entry_size_is : h.entry_size ≡ 160
  pub records_is : h.records_off ≡ 64
  pub strings_is : h.strings_off ≡ 64 + n * 160
  pub strings_len_is : h.strings_len ≡ 2 ^ 32 - n * 160
  pub names_is : h.idx_name_off ≡ 64
  pub dates_is : h.idx_date_off ≡ 64 + n * 4
  pub length_is : length blob ≡ 64 + n * 8
  pub header_is : header_at blob ≡ some h
  pub behind_is : (i : ℕ) → 63 ≤ i → i < length blob → get_elem? blob i ≡ some 0
  pub hash_is : h.catalog_hash ≡ crc32 (drop 64 blob)

module _ (verify : Bool) (n : ℕ) (h : Header) (blob : List ℕ) (c : Crafted n h blob) where
  abbrev db : Db
  db = pointers h blob (length blob)

  -- A rank that lies behind the header is 0.
  word_at-zero : (p : ℕ) → 64 ≤ p → p + 4 ≤ length blob → word_at blob p ≡ some 0
  unfolding word_at
  word_at-zero p behind fits =
      let b0 = c.behind_is p (omega arith) (omega arith) in
      let b1 = c.behind_is (p + 1) (omega arith) (omega arith) in
      let b2 = c.behind_is (p + 2) (omega arith) (omega arith) in
      let b3 = c.behind_is (p + 3) (omega arith) (omega arith) in rw (b0, b1, b2, b3) refl

  wrapped-check_orders : (k i : ℕ) → i + k ≤ n → check_orders blob db k i ≡ some true
  unfolding check_orders
  wrapped-check_orders zero i h = refl
  wrapped-check_orders (suc k) i h =
      let a =
        word_at-zero (db.order_name + i * 4) (omega (arith, c.names_is))
          (omega (arith, c.names_is, c.length_is)) in
      let b =
        word_at-zero (db.order_date + i * 4) (omega (arith, c.dates_is))
          (omega (arith, c.dates_is, c.length_is)) in
      let rest = wrapped-check_orders k (i + 1) (omega arith) in
      let many : leb db.count 0 ≡ false = ground (arith, c.count_is, c.count_pos) in
      rw (a, many, b, many) rest

  wrapped-crc_matches : crc_matches verify h blob (length blob) ≡ some true
  unfolding crc_matches
  wrapped-crc_matches = crc_of verify
    where
      size : u32 (length blob + 2 ^ 32 - 64) ≡ n * 8
      size = omega (arith, c.length_is, c.count_le)

      body : slice blob 64 (u32 (length blob + 2 ^ 32 - 64)) ≡ some (drop 64 blob)
      body =
          ap (slice blob 64) size
          ∙ slice-some blob 64 (n * 8) (omega (arith, c.length_is))
          ∙ ap some
              (take_all (n * 8) (drop 64 blob) (omega (arith, length-drop 64 blob, c.length_is)))

      crc_of : (v : Bool) → crc_matches v h blob (length blob) ≡ some true
      crc_of false = refl
      crc_of true = rw body (ground (arith, c.hash_is))

  wrapped-check_layout : check_layout h (length blob) blob ≡ some true
  unfolding check_layout
  wrapped-check_layout =
      let last = c.behind_is 63 (omega arith) (omega (arith, c.length_is)) in ground arith

  wrapped-load_orders : load_orders h blob (length blob) ≡ some (db, ok)
  unfolding load_orders
  wrapped-load_orders =
      let good = wrapped-check_orders h.entry_count 0 (omega (arith, c.count_is)) in ground arith

-- A file of `64 + 8 * n` bytes, with `n` from 20 to 2 ^ 20, whose bytes from 63 on are 0 and whose
-- header has the numbers of `Crafted` and the checksum of the rest, passes every check of
-- `vhdb_load`, with or without the checksum, and the last of the records that it is said to hold
-- ends outside the file.
pub wrapped_accepted :
    (verify : Bool) (n : ℕ) (h : Header) (blob : List ℕ)
    → Crafted n h blob
    → let db = pointers h blob (length blob) in
      (load_blob verify blob (length blob) ≡ some (db, ok))
      × (db.count ≡ n)
      × (length blob < db.records + n * 160)
unfolding load_blob
wrapped_accepted verify n h blob c = (
  ground (
    arith,
    wrapped-check_layout verify n h blob c,
    wrapped-crc_matches verify n h blob c,
    wrapped-load_orders verify n h blob c,
  ),
  c.count_is,
  ground arith,
)
