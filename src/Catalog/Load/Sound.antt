-- ===== src/Catalog/Load/Sound.antt =====
-- What `vhdb_load` (core/vhdb.c) guarantees of a catalog that it accepts, and of one it refuses.
use vhdb.Base.{
  ℕ, zero, suc, ◌+◌, ◌-◌, ◌*◌, ◌^◌, ◌≤◌, ◌<◌, ◌==◌, ◌≡◌, refl, sym, subst, Bool, true, false, List,
  Option, none, some, ◌>>=◌, word_at, get_elem?, length, u32, arith, Bool-cases, Option-cases, inl,
  inr, get_elem?-some,
}
use vhdb.Catalog.{Header, header_at, Db}
use vhdb.Catalog.Load.{
  OpenFile, Host, ok, check_layout, check_orders, pointers, load_orders, crc_matches, load_blob,
  load_length, load_file, load,
}

-- The parts of a catalog file follow one another, and fill it.
pub record Layout (h : Header) (blob : List ℕ) : Type 0 where
  pub records_at : h.records_off ≡ 64
  pub count_pos : 1 ≤ h.entry_count
  pub count_le : h.entry_count ≤ 2 ^ 20
  pub strings_at : h.strings_off ≡ 64 + h.entry_count * 160
  pub len_pos : 1 ≤ h.strings_len
  pub names_at : h.idx_name_off ≡ h.strings_off + h.strings_len
  pub dates_at : h.idx_date_off ≡ h.idx_name_off + h.entry_count * 4
  pub ends : h.idx_date_off + h.entry_count * 4 ≡ length blob
  pub terminated : get_elem? blob (h.strings_off + h.strings_len - 1) ≡ some 0

-- Every rank in the two orders is the index of an entry.
pub record Orders (blob : List ℕ) (db : Db) (lo hi : ℕ) : Type 0 where
  pub names_below :
      (i : ℕ)
      → lo ≤ i
      → i < hi
      → (a : ℕ) × (word_at blob (db.order_name + i * 4) ≡ some a) × (a < db.count)
  pub dates_below :
      (i : ℕ)
      → lo ≤ i
      → i < hi
      → (a : ℕ) × (word_at blob (db.order_date + i * 4) ≡ some a) × (a < db.count)

-- The header's sum of the strings' offset and length does not wrap around.
abbrev pub NoWrap : Header → Type 0
NoWrap h = h.strings_off + h.strings_len < 2 ^ 32

check_layout_last : (o : Option ℕ) → (o >>= λ b. some (b == 0)) ≡ some true → o ≡ some 0
check_layout_last none e = cc
check_layout_last (some b) e = ground arith

pub check_layout-Layout :
    (h : Header) (blob : List ℕ)
    → length blob < 2 ^ 31
    → NoWrap h
    → check_layout h (length blob) blob ≡ some true
    → Layout h blob
unfolding check_layout
check_layout-Layout h blob small wrap e =
    let last = u32 (u32 (h.strings_off + h.strings_len) + 2 ^ 32 - 1) in
    ground (arith, check_layout_last (get_elem? blob last), get_elem?-some blob last {x = 0})

-- One round of the loop that succeeds has both ranks in range, and the rest succeeds.
check_orders-suc :
    (blob : List ℕ) (db : Db) (n i : ℕ)
    → check_orders blob db (suc n) i ≡ some true
    → (a : ℕ) × (b : ℕ) × (word_at blob (db.order_name + i * 4) ≡ some a)
      × (a < db.count)
      × (word_at blob (db.order_date + i * 4) ≡ some b)
      × (b < db.count)
      × (check_orders blob db n (i + 1) ≡ some true)
unfolding check_orders
check_orders-suc blob db n i e = elim (Option-cases (word_at blob (db.order_name + i * 4))) [
  | inl out ↦ absurd (ground arith)
  | inr (a, ra) ↦ elim (Option-cases (word_at blob (db.order_date + i * 4))) [
    | inl out ↦ absurd (ground arith)
    | inr (b, rb) ↦ (a, b, ra, ground arith, rb, ground arith, ground arith)
  ]
]

check_orders-Orders :
    (blob : List ℕ) (db : Db) (n i hi : ℕ)
    → i + n ≡ hi
    → check_orders blob db n i ≡ some true
    → Orders blob db i hi
check_orders-Orders blob db zero i hi s e = record {
  names_below = λ j p q. absurd (omega arith);
  dates_below = λ j p q. absurd (omega arith);
}
check_orders-Orders blob db (suc n) i hi s e =
    let (a, b, ra, la, rb, lb, more) = check_orders-suc blob db n i e in
    let rest = check_orders-Orders blob db n (i + 1) hi (omega arith) more in
    record {
      names_below = λ j p q. elim (Bool-cases (j == i)) [
        | inl same ↦ (a, ground (arith), la)
        | inr other ↦ rest.names_below j (ground arith) q
      ];
      dates_below = λ j p q. elim (Bool-cases (j == i)) [
        | inl same ↦ (b, ground arith, lb)
        | inr other ↦ rest.dates_below j (ground arith) q
      ];
    }

-- What holds of a catalog that was loaded.
pub record Sound (db : Db) : Type 0 where
  pub bytes : List ℕ
  pub head : Header
  pub has_blob : db.blob ≡ some bytes
  pub has_size : db.blob_size ≡ length bytes
  pub has_header : db.header ≡ some head
  pub has_strings : db.strings ≡ some head.strings_off
  pub has_count : db.count ≡ head.entry_count
  pub has_records : db.records ≡ head.records_off
  pub has_names : db.order_name ≡ head.idx_name_off
  pub has_dates : db.order_date ≡ head.idx_date_off
  pub layout : Layout head bytes
  pub orders : Orders bytes db 0 db.count

pointers-Sound :
    (h : Header) (blob : List ℕ)
    → Layout h blob
    → check_orders blob (pointers h blob (length blob)) h.entry_count 0 ≡ some true
    → Sound (pointers h blob (length blob))
pointers-Sound h blob lay e = record {
  bytes = blob;
  head = h;
  has_blob = refl;
  has_size = refl;
  has_header = refl;
  has_strings = refl;
  has_count = refl;
  has_records = refl;
  has_names = refl;
  has_dates = refl;
  layout = lay;
  orders =
      check_orders-Orders blob (pointers h blob (length blob)) h.entry_count 0 h.entry_count
        (omega arith) e;
}

load_orders-ok :
    (h : Header) (blob : List ℕ) (size : ℕ) (db : Db)
    → load_orders h blob size ≡ some (db, ok)
    → (db ≡ pointers h blob size)
      × (check_orders blob (pointers h blob size) h.entry_count 0 ≡ some true)
unfolding load_orders
load_orders-ok h blob size db e =
    elim (Option-cases (check_orders blob (pointers h blob size) h.entry_count 0)) [
      | inl out ↦ absurd (ground arith)
      | inr (true, good) ↦ (ground arith, good)
      | inr (false, bad) ↦ absurd (ground arith)
    ]

load_blob-ok :
    (verify : Bool) (blob : List ℕ) (size : ℕ) (db : Db)
    → load_blob verify blob size ≡ some (db, ok)
    → (h : Header) × (header_at blob ≡ some h)
      × (check_layout h size blob ≡ some true)
      × (crc_matches verify h blob size ≡ some true)
      × (load_orders h blob size ≡ some (db, ok))
unfolding load_blob
load_blob-ok verify blob size db e = elim (Option-cases (header_at blob)) [
  | inl out ↦ absurd (ground arith)
  | inr (h, eh) ↦ (h, eh, ground arith, ground arith, ground arith)
]

load_length-ok :
    (verify : Bool) (host : Host) (f : OpenFile) (len : ℕ) (db : Db)
    → load_length verify host f len ≡ some (db, ok)
    → (length (f.read len) ≡ len) × (load_blob verify (f.read len) (u32 len) ≡ some (db, ok))
unfolding load_length
load_length-ok verify host f len db e = ground arith

load_file-ok :
    (verify : Bool) (host : Host) (f : OpenFile) (db : Db)
    → load_file verify host f ≡ some (db, ok)
    → (len : ℕ) × (f.tell ≡ some len) × (load_length verify host f len ≡ some (db, ok))
unfolding load_file
load_file-ok verify host f db e = elim (Option-cases f.tell) [
  | inl bad ↦ absurd (ground arith)
  | inr (len, el) ↦ (len, el, ground arith)
]

load-ok :
    (verify : Bool) (host : Host) (db : Db)
    → load verify host ≡ some (db, ok)
    → (f : OpenFile) × (host.open_file ≡ some f) × (load_file verify host f ≡ some (db, ok))
unfolding load
load-ok verify host db e = elim (Option-cases host.open_file) [
  | inl closed ↦ absurd (ground arith)
  | inr (f, ef) ↦ (f, ef, ground arith)
]

-- The file that would be read is shorter than 2 GiB, as a 32-bit `ftell` has it, and its header,
-- if it has one, is as required.
abbrev pub HeaderIs : (Header → Type 0) → Option Header → Type 0
HeaderIs P none = Unit
HeaderIs P (some h) = P h

abbrev pub LengthIs : (Header → Type 0) → OpenFile → Option ℕ → Type 0
LengthIs P f none = Unit
LengthIs P f (some len) = (len < 2 ^ 31) × HeaderIs P (header_at (f.read len))

abbrev pub FileIs : (Header → Type 0) → Option OpenFile → Type 0
FileIs P none = Unit
FileIs P (some f) = LengthIs P f f.tell

pub FileIs-length :
    (P : Header → Type 0) (host : Host) (f : OpenFile) (len : ℕ)
    → FileIs P host.open_file
    → host.open_file ≡ some f
    → f.tell ≡ some len
    → (len < 2 ^ 31) × ((h : Header) → header_at (f.read len) ≡ some h → P h)
FileIs-length P host f len is ef el =
    let there : LengthIs P f (some len) = subst (LengthIs P f) el (subst (FileIs P) ef is) in
    (there.0, λ h eh. subst (HeaderIs P) eh there.1)

-- A catalog that `vhdb_load` accepts is sound: records, texts and both orders fill the file one
-- after the other, the texts end in a NUL, and every rank is the index of an entry. It is assumed
-- that the file is shorter than 2 GiB and that its header's strings do not wrap around.
pub load-Sound :
    (verify : Bool) (host : Host) (db : Db)
    → FileIs NoWrap host.open_file
    → load verify host ≡ some (db, ok)
    → Sound db
load-Sound verify host db tame e =
    let (f, ef, e1) = load-ok verify host db e in
    let (len, el, e2) = load_file-ok verify host f db e1 in
    let (full, eb) = load_length-ok verify host f len db e2 in
    let blob = f.read len in
    let (small, unwrapped) = FileIs-length NoWrap host f len tame ef el in
    let size : u32 len ≡ length blob = omega arith in
    let (h, eh, lay, crc, eo) = load_blob-ok verify blob (u32 len) db eb in
    let (is, good) = load_orders-ok h blob (u32 len) db eo in
    let layout = check_layout-Layout h blob (omega arith) (unwrapped h eh) (rw size at lay) in
    subst Sound (sym (rw size at is)) (pointers-Sound h blob layout (rw size at good))
