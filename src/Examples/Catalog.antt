-- ===== src/Examples/Catalog.antt =====
-- A catalog of one entry, one that is crafted to wrap around, and the theorems on `vhdb_load`.
use vhdb.Base.{
  ℕ, zero, suc, ◌∙◌, ap, ◌-◌, ◌≤◌, get_elem?, take, ◌+◌, ◌*◌, ◌<◌, ◌≡◌, refl, true, false, List, [],
  ◌∷◌, ◌++◌, some, length, replicate, arith, word_at, codes,
}
use vhdb.Crc.{crc32}
use vhdb.Catalog.{Header, header_at, Db, freed}
use vhdb.Catalog.Load.{
  OpenFile, Host, Code, ok, pointers, check_layout, check_orders, load_orders, crc_matches,
  load_blob, load_length, load_file, load,
}
use vhdb.Catalog.Load.Sound.{Sound, load-Sound}
use vhdb.Catalog.Load.Reject.{load-freed}
use vhdb.Catalog.Load.Returns.{load-returns}
use vhdb.Catalog.Load.Wrapped.{Crafted, wrapped_accepted}
use vhdb.Catalog.Access.{by_name, by_date, find_titleid}
use vhdb.Catalog.Access.Laws.{InTable, by_order-InTable}
use vhdb.Catalog.Access.Find.{FirstWith, find_titleid-FirstWith}

-- A header, one record "ABCD00001", the texts "A" and "1", and the two orders.
abbrev pub demo_blob : List ℕ
demo_blob =
    86
    ∷ 72
    ∷ 68
    ∷ 66
    ∷ 2
    ∷ 0
    ∷ 0
    ∷ 0
    ∷ 7
    ∷ 0
    ∷ 0
    ∷ 0
    ∷ 1
    ∷ 0
    ∷ 0
    ∷ 0
    ∷ 160
    ∷ 0
    ∷ 0
    ∷ 0
    ∷ 64
    ∷ 0
    ∷ 0
    ∷ 0
    ∷ 224
    ∷ 0
    ∷ 0
    ∷ 0
    ∷ 4
    ∷ 0
    ∷ 0
    ∷ 0
    ∷ 228
    ∷ 0
    ∷ 0
    ∷ 0
    ∷ 232
    ∷ (replicate 35 0
        ++ (2
            ∷ (replicate 67 0
                ++ (9
                    ∷ 0
                    ∷ 0
                    ∷ 0
                    ∷ 65
                    ∷ 66
                    ∷ 67
                    ∷ 68
                    ∷ 48
                    ∷ 48
                    ∷ 48
                    ∷ 48
                    ∷ 49
                    ∷ (replicate 67 0
                        ++ (1 ∷ 0 ∷ 0 ∷ 0 ∷ 65 ∷ 0 ∷ 49 ∷ (replicate 9 0 ++ ([]))))))))

abbrev demo_file : OpenFile
demo_file = record { seek_end = true; tell = some 236; read = λ n. demo_blob }

abbrev demo_host : Host
demo_host = record { open_file = some demo_file; malloc = λ n. true }

abbrev pub demo_header : Header
demo_header = record {
  magic = 0x4244_4856;
  format_version = 2;
  built = 7;
  entry_count = 1;
  entry_size = 160;
  records_off = 64;
  strings_off = 224;
  strings_len = 4;
  idx_name_off = 228;
  idx_date_off = 232;
  catalog_hash = 0;
}

abbrev pub demo_db : Db
demo_db = pointers demo_header demo_blob 236

load-demo : load false demo_host ≡ some (demo_db, ok)
unfolding load load_file load_length load_blob load_orders crc_matches check_orders check_layout
    header_at word_at
load-demo = refl

pub demo_sound : Sound demo_db
unfolding header_at word_at
demo_sound = load-Sound false demo_host demo_db (omega arith, omega arith) load-demo

load-Sound_example : Sound demo_db
unfolding header_at word_at
load-Sound_example = load-Sound false demo_host demo_db (omega arith, omega arith) load-demo

load-returns_example : (db : Db) × (c : Code) × (load false demo_host ≡ some (db, c))
unfolding header_at word_at
load-returns_example = load-returns false demo_host (omega arith, omega arith)

abbrev broken_host : Host
broken_host = record {
  open_file = some (record { seek_end = true; tell = some 236; read = λ n. 0 ∷ [] });
  malloc = λ n. false;
}

load-broken : load true broken_host ≡ some (freed, Code.err_memory)
unfolding load load_file load_length
load-broken = refl

load-freed_example : freed ≡ freed
load-freed_example = load-freed true broken_host freed Code.err_memory load-broken (ground arith)

-- Twenty records are said to follow the header; the file ends after 224 bytes.
abbrev crafted_blob : List ℕ
crafted_blob =
    86
    ∷ 72
    ∷ 68
    ∷ 66
    ∷ 2
    ∷ 0
    ∷ 0
    ∷ 0
    ∷ 7
    ∷ 0
    ∷ 0
    ∷ 0
    ∷ 20
    ∷ 0
    ∷ 0
    ∷ 0
    ∷ 160
    ∷ 0
    ∷ 0
    ∷ 0
    ∷ 64
    ∷ 0
    ∷ 0
    ∷ 0
    ∷ 192
    ∷ 12
    ∷ 0
    ∷ 0
    ∷ 128
    ∷ 243
    ∷ 255
    ∷ 255
    ∷ 64
    ∷ 0
    ∷ 0
    ∷ 0
    ∷ 144
    ∷ 0
    ∷ 0
    ∷ 0
    ∷ 99
    ∷ 83
    ∷ 7
    ∷ 170
    ∷ replicate 180 0

abbrev crafted_header : Header
crafted_header = record {
  magic = 0x4244_4856;
  format_version = 2;
  built = 7;
  entry_count = 20;
  entry_size = 160;
  records_off = 64;
  strings_off = 3264;
  strings_len = 4294964096;
  idx_name_off = 64;
  idx_date_off = 144;
  catalog_hash = 0xAA07_5363;
}

get_elem?-zeros : (n i : ℕ) → i < n → get_elem? {A = ℕ} (replicate n 0) i ≡ some 0
get_elem?-zeros zero i h = absurd (omega arith)
get_elem?-zeros (suc n) zero h = refl
get_elem?-zeros (suc n) (suc i) h = get_elem?-zeros n i (omega arith)

get_elem?-behind :
    (front back : List ℕ) (i : ℕ)
    → length front ≤ i
    → get_elem? (front ++ back) i ≡ get_elem? back (i - length front)
get_elem?-behind [] back i h = ap (λ (j : ℕ). get_elem? back j) (omega arith)
get_elem?-behind (x ∷ front) back zero h = absurd (omega arith)
get_elem?-behind (x ∷ front) back (suc i) h =
    get_elem?-behind front back i (omega arith) ∙ ap (λ (j : ℕ). get_elem? back j) (omega arith)

crafted_header-Crafted : Crafted 20 crafted_header crafted_blob
unfolding header_at word_at crc32
crafted_header-Crafted = record {
  count_pos = omega arith;
  count_le = omega arith;
  magic_is = refl;
  version_is = refl;
  count_is = refl;
  entry_size_is = refl;
  records_is = refl;
  strings_is = refl;
  strings_len_is = refl;
  names_is = refl;
  dates_is = refl;
  length_is = refl;
  header_is = refl;
  behind_is = λ i behind inside.
      get_elem?-behind (take 44 crafted_blob) (replicate 180 0) i (omega arith)
      ∙ get_elem?-zeros 180 (i - 44) (omega arith);
  hash_is = refl;
}

abbrev crafted_db : Db
crafted_db = pointers crafted_header crafted_blob 224

wrapped_accepted_example :
    (load_blob true crafted_blob 224 ≡ some (crafted_db, ok))
    × (crafted_db.count ≡ 20)
    × (length crafted_blob < crafted_db.records + 20 * 160)
wrapped_accepted_example =
    wrapped_accepted true 20 crafted_header crafted_blob crafted_header-Crafted

find_titleid-FirstWith_example :
    FirstWith demo_sound.bytes demo_db
      (codes "ABCD00001")
      0
      1
      (find_titleid demo_db (some (codes "ABCD00001")))
unfolding header_at word_at
find_titleid-FirstWith_example =
    find_titleid-FirstWith demo_db demo_sound (codes "ABCD00001") (omega arith) (omega arith)
      (omega arith)

by_order-InTable_example :
    InTable demo_db demo_sound.bytes 0 (by_name demo_db 0)
    × InTable demo_db demo_sound.bytes 0 (by_date demo_db 0)
by_order-InTable_example = by_order-InTable demo_db demo_sound 0
