-- ===== src/Catalog.antt =====
-- include/vhdb.h and core/vhdb.c: the catalog file, its header and its records. A pointer into
-- the loaded file is an offset into its bytes.
pub mod Load
pub mod Access
pub mod Names
use vhdb.Base.{ℕ, ◌+◌, List, Option, none, some, ◌>>=◌, word_at, slice, get_elem?}

abbrev pub magic_number : ℕ
magic_number = 0x4244_4856

abbrev pub header_size : ℕ
header_size = 64

abbrev pub record_size : ℕ
record_size = 160

-- `vhdb_header`; the reserved words are never read.
pub record Header : Type 0 where
  pub magic : ℕ
  pub format_version : ℕ
  pub built : ℕ
  pub entry_count : ℕ
  pub entry_size : ℕ
  pub records_off : ℕ
  pub strings_off : ℕ
  pub strings_len : ℕ
  pub idx_name_off : ℕ
  pub idx_date_off : ℕ
  pub catalog_hash : ℕ

-- The header laid over the first bytes of the file.
unfoldable pub header_at : List ℕ → Option Header
header_at blob = do
  magic ← word_at blob 0
  format_version ← word_at blob 4
  built ← word_at blob 8
  entry_count ← word_at blob 12
  entry_size ← word_at blob 16
  records_off ← word_at blob 20
  strings_off ← word_at blob 24
  strings_len ← word_at blob 28
  idx_name_off ← word_at blob 32
  idx_date_off ← word_at blob 36
  catalog_hash ← word_at blob 40
  some (record {
    magic = magic;
    format_version = format_version;
    built = built;
    entry_count = entry_count;
    entry_size = entry_size;
    records_off = records_off;
    strings_off = strings_off;
    strings_len = strings_len;
    idx_name_off = idx_name_off;
    idx_date_off = idx_date_off;
    catalog_hash = catalog_hash;
  })

-- `vhdb_record`: words that are offsets of texts, numbers and dates, then arrays and bytes.
pub record Entry : Type 0 where
  pub name : ℕ
  pub author : ℕ
  pub version : ℕ
  pub icon : ℕ
  pub description : ℕ
  pub long_description : ℕ
  pub changelog : ℕ
  pub requirements : ℕ
  pub needs : ℕ
  pub url : ℕ
  pub data_url : ℕ
  pub source : ℕ
  pub release_page : ℕ
  pub trailer : ℕ
  pub screenshots : ℕ
  pub tags : ℕ
  pub size : ℕ
  pub data_size : ℕ
  pub date : ℕ
  pub id : ℕ
  pub titleid : List ℕ
  pub hash : List ℕ
  pub hash2 : List ℕ
  pub eboot : List ℕ
  pub aux : List ℕ
  pub type : ℕ
  pub flags : ℕ
  pub platform : ℕ
  pub aux_kind : ℕ

-- The record that stands at an offset, each field at its offset in the struct.
unfoldable pub entry_at : List ℕ → ℕ → Option Entry
entry_at blob p = do
  name ← word_at blob (p + 0)
  author ← word_at blob (p + 4)
  version ← word_at blob (p + 8)
  icon ← word_at blob (p + 12)
  description ← word_at blob (p + 16)
  long_description ← word_at blob (p + 20)
  changelog ← word_at blob (p + 24)
  requirements ← word_at blob (p + 28)
  needs ← word_at blob (p + 32)
  url ← word_at blob (p + 36)
  data_url ← word_at blob (p + 40)
  source ← word_at blob (p + 44)
  release_page ← word_at blob (p + 48)
  trailer ← word_at blob (p + 52)
  screenshots ← word_at blob (p + 56)
  tags ← word_at blob (p + 60)
  size ← word_at blob (p + 64)
  data_size ← word_at blob (p + 68)
  date ← word_at blob (p + 72)
  id ← word_at blob (p + 76)
  titleid ← slice blob (p + 80) 12
  hash ← slice blob (p + 92) 16
  hash2 ← slice blob (p + 108) 16
  eboot ← slice blob (p + 124) 16
  aux ← slice blob (p + 140) 16
  type ← get_elem? blob (p + 156)
  flags ← get_elem? blob (p + 157)
  platform ← get_elem? blob (p + 158)
  aux_kind ← get_elem? blob (p + 159)
  some (record {
    name = name;
    author = author;
    version = version;
    icon = icon;
    description = description;
    long_description = long_description;
    changelog = changelog;
    requirements = requirements;
    needs = needs;
    url = url;
    data_url = data_url;
    source = source;
    release_page = release_page;
    trailer = trailer;
    screenshots = screenshots;
    tags = tags;
    size = size;
    data_size = data_size;
    date = date;
    id = id;
    titleid = titleid;
    hash = hash;
    hash2 = hash2;
    eboot = eboot;
    aux = aux;
    type = type;
    flags = flags;
    platform = platform;
    aux_kind = aux_kind;
  })

-- `vhdb_db`; a null pointer is `none`, and the records and orders are offsets.
pub record Db : Type 0 where
  pub blob : Option (List ℕ)
  pub blob_size : ℕ
  pub header : Option Header
  pub records : ℕ
  pub strings : Option ℕ
  pub order_name : ℕ
  pub order_date : ℕ
  pub count : ℕ

-- `vhdb_free`, and the state that `vhdb_load` starts from: all fields zero.
abbrev pub freed : Db
freed = record {
  blob = none;
  blob_size = 0;
  header = none;
  records = 0;
  strings = none;
  order_name = 0;
  order_date = 0;
  count = 0;
}
