-- ===== src/Catalog/Load/Returns.antt =====
-- core/vhdb.c, `vhdb_load`: when no read leaves the file's bytes.
use vhdb.Base.{
  ℕ, zero, suc, ◌+◌, ◌-◌, ◌*◌, ◌^◌, ◌≤◌, ◌<◌, ◌==◌, ◌≡◌, ◌≢◌, subst, leb, ltb, Bool, true, false,
  ◌&&◌, List, none, some, get_elem?, length, u32, arith, Bool-cases, Option-cases, inl, inr,
  get_elem?-lt, word_at-some, slice-some,
}
use vhdb.Catalog.{Header, header_at, Db, freed}
use vhdb.Catalog.Load.Sound.{FileIs, FileIs-length, Layout, check_layout-Layout}
use vhdb.Catalog.Load.{
  OpenFile, Host, Code, err_open, err_read, pointers, check_layout, check_orders, load_orders,
  crc_matches, load_blob, load_length, load_file, load,
}

-- The header's sums do not wrap around.
abbrev pub NoWrapAll : Header → Type 0
NoWrapAll h = h.strings_off + h.strings_len + h.entry_count * 8 < 2 ^ 32

header_at-some : (blob : List ℕ) → 224 ≤ length blob → (h : Header) × (header_at blob ≡ some h)
unfolding header_at
header_at-some blob long =
    let w0 = word_at-some blob 0 (omega arith) in
    let w1 = word_at-some blob 4 (omega arith) in
    let w2 = word_at-some blob 8 (omega arith) in
    let w3 = word_at-some blob 12 (omega arith) in
    let w4 = word_at-some blob 16 (omega arith) in
    let w5 = word_at-some blob 20 (omega arith) in
    let w6 = word_at-some blob 24 (omega arith) in
    let w7 = word_at-some blob 28 (omega arith) in
    let w8 = word_at-some blob 32 (omega arith) in
    let w9 = word_at-some blob 36 (omega arith) in
    let w10 = word_at-some blob 40 (omega arith) in
    elim (Option-cases (header_at blob)) [
      | inl out ↦
          absurd (ground (arith, w0.1, w1.1, w2.1, w3.1, w4.1, w5.1, w6.1, w7.1, w8.1, w9.1, w10.1))
      | inr found ↦ found
    ]

-- The last byte of the texts is read only behind the checks that put it in the file.
check_layout-returns :
    (h : Header) (blob : List ℕ)
    → length blob < 2 ^ 31
    → NoWrapAll h
    → check_layout h (length blob) blob ≢ none
unfolding check_layout
check_layout-returns h blob small wrap e =
    let last = u32 (u32 (h.strings_off + h.strings_len) + 2 ^ 32 - 1) in
    elim (Option-cases (get_elem? blob last)) [
      | inl out ↦ ground (arith, get_elem?-absent blob last)
      | inr (b, eb) ↦ ground arith
    ]
  where
    get_elem?-absent : (xs : List ℕ) (i : ℕ) → get_elem? xs i ≡ none → length xs ≤ i
    get_elem?-absent xs i q = elim (Bool-cases (ltb i (length xs))) [
      | inl inside ↦ let x = get_elem?-lt xs i (ground arith) in absurd (ground (arith, x.1))
      | inr outside ↦ ground arith
    ]

check_orders-returns :
    (blob : List ℕ) (db : Db) (n i : ℕ)
    → db.order_name + (i + n) * 4 ≤ length blob
    → db.order_date + (i + n) * 4 ≤ length blob
    → check_orders blob db n i ≢ none
unfolding check_orders
check_orders-returns blob db zero i hn hd e = cc
check_orders-returns blob db (suc n) i hn hd e =
    let a = word_at-some blob (db.order_name + i * 4) (omega arith) in
    let b = word_at-some blob (db.order_date + i * 4) (omega arith) in
    ground (arith, a.1, b.1, check_orders-returns blob db n (i + 1) (omega arith) (omega arith))

load_orders-returns :
    (h : Header) (blob : List ℕ) → Layout h blob → load_orders h blob (length blob) ≢ none
unfolding load_orders
load_orders-returns h blob lay e =
    let db = pointers h blob (length blob) in
    elim (Option-cases (check_orders blob db h.entry_count 0)) [
      | inl out ↦
          check_orders-returns blob db h.entry_count 0 (omega (arith, lay.dates_at, lay.ends))
            (omega (arith, lay.ends)) out
      | inr (good, eg) ↦ ground arith
    ]

crc_matches-returns :
    (verify : Bool) (h : Header) (blob : List ℕ)
    → 224 ≤ length blob
    → length blob < 2 ^ 31
    → crc_matches verify h blob (length blob) ≢ none
unfolding crc_matches
crc_matches-returns false h blob long small e = cc
crc_matches-returns true h blob long small e =
    let n = u32 (length blob + 2 ^ 32 - 64) in ground (arith, slice-some blob 64 n (omega arith))

load_blob-returns :
    (verify : Bool) (blob : List ℕ)
    → 224 ≤ length blob
    → length blob < 2 ^ 31
    → ((h : Header) → header_at blob ≡ some h → NoWrapAll h)
    → load_blob verify blob (length blob) ≢ none
unfolding load_blob
load_blob-returns verify blob long small wrap e =
    let (h, eh) = header_at-some blob long in
    elim (Option-cases (check_layout h (length blob) blob)) [
      | inl out ↦ check_layout-returns h blob small (wrap h eh) out
      | inr (false, bad) ↦ ground arith
      | inr (true, good) ↦
          let lay = check_layout-Layout h blob small (omega (arith, wrap h eh)) good in
          ground (
            arith,
            eh,
            crc_matches-returns verify h blob long small,
            load_orders-returns h blob lay,
          )
    ]

load_length-returns :
    (verify : Bool) (host : Host) (f : OpenFile) (len : ℕ)
    → len < 2 ^ 31
    → ((h : Header) → header_at (f.read len) ≡ some h → NoWrapAll h)
    → load_length verify host f len ≢ none
unfolding load_length
load_length-returns verify host f len small wrap e =
    elim (Bool-cases (leb 224 len && length (f.read len) == len)) [
      | inl right ↦
          let full : length (f.read len) ≡ len = ground arith in
          let long : 224 ≤ length (f.read len) = ground arith in
          let same : u32 len ≡ length (f.read len) = omega arith in
          load_blob-returns verify (f.read len) long (omega arith) wrap
            (subst (λ s. load_blob verify (f.read len) s ≡ none) same (ground arith))
      | inr wrong ↦ ground arith
    ]

-- `vhdb_load` makes no read outside the file's bytes, for any file shorter than 2 GiB whose
-- header's sums do not wrap around, whatever else the file holds and whatever call fails.
pub load-returns :
    (verify : Bool) (host : Host)
    → FileIs NoWrapAll host.open_file
    → (db : Db) × (c : Code) × (load verify host ≡ some (db, c))
unfolding load load_file
load-returns verify host tidy = elim (Option-cases host.open_file) [
  | inl closed ↦ (freed, err_open, ground arith)
  | inr (f, ef) ↦ elim (Option-cases f.tell) [
    | inl bad ↦ (freed, err_read, ground arith)
    | inr (len, el) ↦ elim (Option-cases (load_length verify host f len)) [
      | inl out ↦
          let (small, unwrapped) = FileIs-length NoWrapAll host f len tidy ef el in
          absurd (load_length-returns verify host f len small unwrapped out)
      | inr ((db, c), done) ↦ elim (Bool-cases f.seek_end) [
        | inl sought ↦ (db, c, ground arith)
        | inr unsought ↦ (freed, err_read, ground arith)
      ]
    ]
  ]
]
