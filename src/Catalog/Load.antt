-- ===== src/Catalog/Load.antt =====
-- core/vhdb.c: `vhdb_check_layout` and `vhdb_load`. `none` is a read outside the file's bytes.
pub mod Sound
pub mod Reject
pub mod Returns
pub mod Wrapped
use vhdb.Base.{
  ℕ, zero, suc, ◌+◌, ◌-◌, ◌*◌, ◌%◌, ◌^◌, ◌==◌, leb, ltb, if◌then◌else◌, Bool, true, false, not,
  List, Option, none, some, ◌>>=◌, word_at, slice, get_elem?, length, u32,
}
use vhdb.Catalog.{Header, header_at, header_size, record_size, magic_number, Db, freed}
use vhdb.Crc.{crc32}

-- What the C library answers for one path: whether `fseek` to the end works, what `ftell` says
-- (`none` is -1), and the bytes that `fread` gives for a wanted count.
pub record OpenFile : Type 0 where
  pub seek_end : Bool
  pub tell : Option ℕ
  pub read : ℕ → List ℕ

-- `fopen` of the path, and whether `malloc` of a size works.
pub record Host : Type 0 where
  pub open_file : Option OpenFile
  pub malloc : ℕ → Bool

-- The `VHDB_OK` and `VHDB_ERR_*` codes.
pub data Code : Type 0 where
  ok err_open err_read err_magic err_version err_layout err_crc err_memory : Code

-- `vhdb_check_layout`, with the additions of `uint32_t`. `& 3u` is the remainder by 4.
unfoldable pub check_layout : Header → ℕ → List ℕ → Option Bool
check_layout h blob_size blob =
    if not (h.entry_size == record_size)
    then some false
    else if not (h.records_off == header_size)
    then some false
    else if h.entry_count == 0
    then some false
    else if ltb 0x0010_0000 h.entry_count
    then some false
    else if not (h.strings_off == u32 (h.records_off + u32 (h.entry_count * record_size)))
    then some false
    else if h.strings_len == 0
    then some false
    else if not (h.idx_name_off == u32 (h.strings_off + h.strings_len))
    then some false
    else if not (h.idx_name_off % 4 == 0)
    then some false
    else if not (h.idx_date_off == u32 (h.idx_name_off + u32 (h.entry_count * 4)))
    then some false
    else if not (u32 (h.idx_date_off + u32 (h.entry_count * 4)) == blob_size)
    then some false
    else (get_elem? blob (u32 (u32 (h.strings_off + h.strings_len) + 2 ^ 32 - 1)) >>= λ b.
        some (b == 0))

-- The loop at the end of `vhdb_load`, at rank `i` with `n` rounds left: every rank in both orders
-- is below the count. `||` reads the second order only if the first is in range.
unfoldable pub check_orders : List ℕ → Db → ℕ → ℕ → Option Bool
check_orders blob db zero i = some true
check_orders blob db (suc n) i =
    let rest = check_orders blob db n (i + 1) in
    word_at blob (db.order_name + i * 4) >>= λ a.
    if leb db.count a
    then some false
    else (word_at blob (db.order_date + i * 4) >>= λ b. if leb db.count b then some false else rest)

-- The pointers into the file's bytes, once its header is accepted.
abbrev pub pointers : Header → List ℕ → ℕ → Db
pointers h blob blob_size = record {
  blob = some blob;
  blob_size = blob_size;
  header = some h;
  records = h.records_off;
  strings = some h.strings_off;
  order_name = h.idx_name_off;
  order_date = h.idx_date_off;
  count = h.entry_count;
}

-- From the pointers on.
unfoldable pub load_orders : Header → List ℕ → ℕ → Option (Db × Code)
load_orders h blob blob_size =
    let db = pointers h blob blob_size in
    check_orders blob db h.entry_count 0 >>= λ good.
    if good then some (db, ok) else some (freed, err_layout)

-- The checksum, if it is asked for.
unfoldable pub crc_matches : Bool → Header → List ℕ → ℕ → Option Bool
crc_matches false h blob blob_size = some true
crc_matches true h blob blob_size =
    slice blob header_size (u32 (blob_size + 2 ^ 32 - header_size)) >>= λ body.
    some (crc32 body == h.catalog_hash)

-- From the file's bytes on.
unfoldable pub load_blob : Bool → List ℕ → ℕ → Option (Db × Code)
load_blob verify blob blob_size = header_at blob >>= λ h.
    if not (h.magic == magic_number)
    then some (freed, err_magic)
    else if not (h.format_version == 2)
    then some (freed, err_version)
    else (check_layout h blob_size blob >>= λ fits.
        if not fits
        then some (freed, err_layout)
        else (crc_matches verify h blob blob_size >>= λ same.
            if not same then some (freed, err_crc) else load_orders h blob blob_size))

-- From the length that `ftell` says.
unfoldable pub load_length : Bool → Host → OpenFile → ℕ → Option (Db × Code)
load_length verify host f len =
    if ltb len (header_size + record_size)
    then some (freed, err_read)
    else if not (host.malloc len)
    then some (freed, err_memory)
    else if not (length (f.read len) == len)
    then some (freed, err_read)
    else load_blob verify (f.read len) (u32 len)

unfoldable pub load_file : Bool → Host → OpenFile → Option (Db × Code)
load_file verify host f =
    if not f.seek_end
    then some (freed, err_read)
    else elim f.tell [ none ↦ some (freed, err_read) | some len ↦ load_length verify host f len ]

-- `vhdb_load`: the catalog it leaves behind and the code it returns.
unfoldable pub load : Bool → Host → Option (Db × Code)
load verify host = elim host.open_file [
  | none ↦ some (freed, err_open)
  | some f ↦ load_file verify host f
]
