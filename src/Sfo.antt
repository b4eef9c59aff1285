-- ===== src/Sfo.antt =====
-- core/sfo.c: the parser of `param.sfo`. `none` is a read outside the buffer.
pub mod Copy
pub mod Keys
pub mod Laws
use vhdb.Base.{
  ℕ, zero, suc, ◌+◌, ◌-◌, ◌*◌, ◌^◌, ◌==◌, leb, ltb, if◌then◌else◌, Bool, true, false, not, ◌&&◌,
  ◌||◌, List, [], ◌∷◌, Option, none, some, ◌>>=◌, get_elem?, get_or, set, length, drop, replicate,
  u32, bit_or, until_nul, equal, codes,
}
use vhdb.Catalog.Load.{OpenFile, Host}

-- `VHDB_SFO_*`
pub data Code : Type 0 where
  ok err_size err_magic err_layout : Code

-- `vhdb_sfo`: four character arrays.
pub record Sfo : Type 0 where
  pub title_id : List ℕ
  pub app_ver : List ℕ
  pub category : List ℕ
  pub title : List ℕ

abbrev pub cleared : Sfo
cleared = record {
  title_id = replicate 16 0;
  app_ver = replicate 16 0;
  category = replicate 8 0;
  title = replicate 128 0;
}

unfoldable pub read_u32 : List ℕ → ℕ → Option ℕ
read_u32 bytes p = do
  b0 ← get_elem? bytes p
  b1 ← get_elem? bytes (p + 1)
  b2 ← get_elem? bytes (p + 2)
  b3 ← get_elem? bytes (p + 3)
  some (bit_or (bit_or (bit_or b0 (b1 * 2 ^ 8)) (b2 * 2 ^ 16)) (b3 * 2 ^ 24))

unfoldable pub read_u16 : List ℕ → ℕ → Option ℕ
read_u16 bytes p = do
  b0 ← get_elem? bytes p
  b1 ← get_elem? bytes (p + 1)
  some (bit_or b0 (b1 * 2 ^ 8))

-- The loop of `copy_string` at index `i` with `n` rounds left, and the final NUL.
unfoldable pub copy_loop : List ℕ → ℕ → ℕ → ℕ → List ℕ → Option (List ℕ)
copy_loop bytes src zero i dst = some (set dst i 0)
copy_loop bytes src (suc n) i dst = get_elem? bytes (src + i) >>= λ c.
    let rest = copy_loop bytes src n (i + 1) (set dst i c) in
    if c == 0 then some (set dst i 0) else rest

-- `copy_string` from offset `src` of the buffer.
unfoldable pub copy_string : List ℕ → List ℕ → ℕ → ℕ → Option (List ℕ)
copy_string dst bytes src src_len =
    if length dst == 0
    then some dst
    else copy_loop bytes src (if ltb (length dst - 1) src_len then length dst - 1 else src_len) 0
        dst

-- `strnlen(key, key_max)`: no byte behind `key_max` is read.
unfoldable pub key_length : List ℕ → ℕ → ℕ → Option ℕ
key_length bytes off zero = some 0
key_length bytes off (suc n) = get_elem? bytes off >>= λ c.
    let rest = key_length bytes (off + 1) n in
    if c == 0 then some 0 else (rest >>= λ k. some (k + 1))

-- `strcmp(key, word) == 0`: the bytes of the buffer are read up to the first that differs.
unfoldable pub key_is : List ℕ → ℕ → List ℕ → Option Bool
key_is bytes off [] = get_elem? bytes off >>= λ c. some (c == 0)
key_is bytes off (w ∷ ws) = get_elem? bytes off >>= λ c.
    let rest = key_is bytes (off + 1) ws in if c == w then rest else some false

-- What is stored for the key at an offset.
unfoldable pub store : List ℕ → Sfo → ℕ → ℕ → ℕ → Option Sfo
store bytes out key_off data_off data_len = key_is bytes key_off (codes "TITLE_ID") >>= λ is_id.
    if is_id
    then (copy_string out.title_id bytes data_off data_len >>= λ s.
        some (record out { title_id = s }))
    else (key_is bytes key_off (codes "APP_VER") >>= λ is_ver.
        if is_ver
        then (copy_string out.app_ver bytes data_off data_len >>= λ s.
            some (record out { app_ver = s }))
        else (key_is bytes key_off (codes "CATEGORY") >>= λ is_category.
            if is_category
            then (copy_string out.category bytes data_off data_len >>= λ s.
                some (record out { category = s }))
            else (key_is bytes key_off (codes "TITLE") >>= λ is_title.
                if is_title && get_or out.title 0 0 == 0
                then (copy_string out.title bytes data_off data_len >>= λ s.
                    some (record out { title = s }))
                else some out)))

-- From the entry's three numbers on; `strnlen(key, key_max) == key_max` means that no NUL ends the
-- key within the buffer.
unfoldable pub place : List ℕ → Sfo → ℕ → ℕ → ℕ → Option Sfo
place bytes out key_off data_len data_off =
    let size = length bytes in
    if leb size key_off
    then some out
    else if leb size data_off
    then some out
    else (key_length bytes key_off (size - key_off) >>= λ n.
        if n == size - key_off
        then some out
        else store bytes out key_off data_off
            (if ltb (size - data_off) data_len then size - data_off else data_len))

-- The body of the loop for entry `i`.
unfoldable pub entry_step : List ℕ → ℕ → ℕ → ℕ → Sfo → Option Sfo
entry_step bytes key_table data_table i out = do
  key ← read_u16 bytes (20 + i * 16)
  data_len ← read_u32 bytes (20 + i * 16 + 4)
  value ← read_u32 bytes (20 + i * 16 + 12)
  place bytes out (u32 (key_table + key)) data_len (u32 (data_table + value))

unfoldable pub entries_loop : List ℕ → ℕ → ℕ → ℕ → ℕ → Sfo → Option Sfo
entries_loop bytes key_table data_table zero i out = some out
entries_loop bytes key_table data_table (suc n) i out =
    entry_step bytes key_table data_table i out >>= λ out'.
    entries_loop bytes key_table data_table n (i + 1) out'

-- The header's three numbers, tested.
unfoldable pub parse_tables : List ℕ → ℕ → ℕ → ℕ → Option (Sfo × Code)
parse_tables bytes key_table data_table count =
    if ltb 4096 count
    then some (cleared, err_layout)
    else if ltb (length bytes) key_table || ltb (length bytes) data_table
    then some (cleared, err_layout)
    else if ltb (length bytes) (u32 (20 + u32 (count * 16)))
    then some (cleared, err_layout)
    else (entries_loop bytes key_table data_table count 0 cleared >>= λ out. some (out, ok))

-- `vhdb_sfo_parse` on a buffer of its size.
unfoldable pub parse : List ℕ → Option (Sfo × Code)
parse bytes =
    if ltb (length bytes) 20
    then some (cleared, err_size)
    else (read_u32 bytes 0 >>= λ magic.
        if not (magic == 0x4653_5000)
        then some (cleared, err_magic)
        else (read_u32 bytes 8 >>= λ key_table. read_u32 bytes 12 >>= λ data_table.
            read_u32 bytes 16 >>= λ count. parse_tables bytes key_table data_table count))

pub parse_length : Host → OpenFile → ℕ → Option (Sfo × Code)
parse_length host f len =
    if ltb len 20 || ltb (1024 * 1024) len
    then some (cleared, err_size)
    else if not (host.malloc len)
    then some (cleared, err_size)
    else if not (length (f.read len) == len)
    then some (cleared, err_size)
    else parse (f.read len)

unfoldable pub parse_open : Host → OpenFile → Option (Sfo × Code)
parse_open host f =
    if not f.seek_end
    then some (cleared, err_size)
    else elim f.tell [ none ↦ some (cleared, err_size) | some len ↦ parse_length host f len ]

-- `vhdb_sfo_parse_file`
unfoldable pub parse_file : Host → Option (Sfo × Code)
parse_file host = elim host.open_file [
  | none ↦ some (cleared, err_size)
  | some f ↦ parse_open host f
]
