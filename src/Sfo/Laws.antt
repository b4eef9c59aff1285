-- ===== src/Sfo/Laws.antt =====
-- core/sfo.c, `vhdb_sfo_parse`: every read is in the buffer, and every array stays a text.
use vhdb.Base.{
  ℕ, zero, suc, ◌+◌, ◌-◌, ◌*◌, ◌≤◌, ◌<◌, ◌==◌, ◌≡◌, ◌≢◌, refl, inl, inr, leb, ltb, if◌then◌else◌,
  ◌&&◌, ◌||◌, List, Option, some, get_elem?-lt, get_or, length, u32, codes, get_elem?, text_of,
  arith, Bool-cases, Option-cases,
}
use vhdb.Sfo.{
  Code, ok, err_size, err_magic, err_layout, Sfo, cleared, read_u32, read_u16, copy_string, store,
  place, entry_step, entries_loop, parse_tables, parse,
}
use vhdb.Sfo.Copy.{copy_string_lem}
use vhdb.Sfo.Keys.{
  key_length-some, key_is-some, title_id-IsWord, app_ver-IsWord, category-IsWord, title-IsWord,
}

-- An array of a size that ends in a NUL.
abbrev pub IsField : ℕ → List ℕ → Type 0
IsField n arr = (length arr ≡ n) × (t : List ℕ) × (text_of arr ≡ some t)

pub record IsValid (out : Sfo) : Type 0 where
  pub title_id_ends : IsField 16 out.title_id
  pub app_ver_ends : IsField 16 out.app_ver
  pub category_ends : IsField 8 out.category
  pub title_ends : IsField 128 out.title

cleared-IsValid : IsValid cleared
unfolding text_of
cleared-IsValid = record {
  title_id_ends = (refl, codes "", refl);
  app_ver_ends = (refl, codes "", refl);
  category_ends = (refl, codes "", refl);
  title_ends = (refl, codes "", refl);
}

-- A computation that makes no read outside the buffer and gives valid arrays.
abbrev Keeps : Option Sfo → Type 0
Keeps r = (out : Sfo) × (r ≡ some out) × IsValid out

module _ (bytes : List ℕ) (src n : ℕ) (fits : src + n ≤ length bytes) where
  copy-IsField :
      (size : ℕ) (dst : List ℕ)
      → 1 ≤ size
      → IsField size dst
      → (arr : List ℕ) × (copy_string dst bytes src n ≡ some arr) × IsField size arr
  copy-IsField size dst pos (len, t, ends) =
      let (arr, copied, reads, same) = copy_string_lem dst bytes src n (omega arith) fits in
      (arr, copied, (omega arith, _, reads))

  store-Keeps :
      (out : Sfo) (off k : ℕ)
      → get_elem? bytes (off + k) ≡ some 0
      → IsValid out
      → Keeps (store bytes out off src n)
  unfolding store
  store-Keeps out off k ends v =
      let (a, ca, va) = copy-IsField 16 out.title_id (omega arith) v.title_id_ends in
      let (b, cb, vb) = copy-IsField 16 out.app_ver (omega arith) v.app_ver_ends in
      let (c, cc', vc) = copy-IsField 8 out.category (omega arith) v.category_ends in
      let (d, cd, vd) = copy-IsField 128 out.title (omega arith) v.title_ends in
      let (is_id, e_id) = key_is-some bytes (codes "TITLE_ID") off k title_id-IsWord ends in
      let (is_ver, e_ver) = key_is-some bytes (codes "APP_VER") off k app_ver-IsWord ends in
      let (is_cat, e_cat) = key_is-some bytes (codes "CATEGORY") off k category-IsWord ends in
      let (is_title, e_title) = key_is-some bytes (codes "TITLE") off k title-IsWord ends in
      elim (Bool-cases is_id) [
        | inl is ↦ (
          record out { title_id = a },
          rw (e_id, is, ca),
          record {
            title_id_ends = va;
            app_ver_ends = v.app_ver_ends;
            category_ends = v.category_ends;
            title_ends = v.title_ends;
          },
        )
        | inr not_id ↦ elim (Bool-cases is_ver) [
          | inl is ↦ (
            record out { app_ver = b },
            rw (e_id, not_id, e_ver, is, cb),
            record {
              title_id_ends = v.title_id_ends;
              app_ver_ends = vb;
              category_ends = v.category_ends;
              title_ends = v.title_ends;
            },
          )
          | inr not_ver ↦ elim (Bool-cases is_cat) [
            | inl is ↦ (
              record out { category = c },
              rw (e_id, not_id, e_ver, not_ver, e_cat, is, cc'),
              record {
                title_id_ends = v.title_id_ends;
                app_ver_ends = v.app_ver_ends;
                category_ends = vc;
                title_ends = v.title_ends;
              },
            )
            | inr not_cat ↦ elim (Bool-cases (is_title && get_or out.title 0 0 == 0)) [
              | inl is ↦ (
                record out { title = d },
                rw (e_id, not_id, e_ver, not_ver, e_cat, not_cat, e_title, is, cd),
                record {
                  title_id_ends = v.title_id_ends;
                  app_ver_ends = v.app_ver_ends;
                  category_ends = v.category_ends;
                  title_ends = vd;
                },
              )
              | inr other ↦
                  (out, rw (e_id, not_id, e_ver, not_ver, e_cat, not_cat, e_title, other), v)
            ]
          ]
        ]
      ]

module _ (bytes : List ℕ) where
  place-Keeps :
      (out : Sfo) (key_off data_len data_off : ℕ)
      → IsValid out
      → Keeps (place bytes out key_off data_len data_off)
  unfolding place
  place-Keeps out key_off data_len data_off v =
      let size = length bytes in
      let n = if ltb (size - data_off) data_len then size - data_off else data_len in
      elim (Bool-cases (leb size key_off)) [
        | inl skip ↦ (out, rw skip, v)
        | inr key_in ↦ elim (Bool-cases (leb size data_off)) [
          | inl skip ↦ (out, rw (key_in, skip), v)
          | inr data_in ↦
              let (k, ek, le, nul) =
                key_length-some bytes (size - key_off) key_off (ground arith) in
              elim (Bool-cases (k == size - key_off)) [
                | inl skip ↦ (out, rw (key_in, data_in, ek, skip), v)
                | inr short ↦
                    let less : k < size - key_off = ground arith in
                    let (o, stored, vo) =
                      store-Keeps bytes data_off n (ground arith) out key_off k (nul less) v in
                    (o, rw (key_in, data_in, ek, short) stored, vo)
              ]
        ]
      ]

  read_u32-some : (p : ℕ) → p + 4 ≤ length bytes → (w : ℕ) × (read_u32 bytes p ≡ some w)
  unfolding read_u32
  read_u32-some p h =
      let x0 = get_elem?-lt bytes p (omega arith) in
      let x1 = get_elem?-lt bytes (p + 1) (omega arith) in
      let x2 = get_elem?-lt bytes (p + 2) (omega arith) in
      let x3 = get_elem?-lt bytes (p + 3) (omega arith) in
      elim (Option-cases (read_u32 bytes p)) [
        | inl out ↦ absurd (ground (arith, x0.1, x1.1, x2.1, x3.1))
        | inr found ↦ found
      ]

  read_u16-some : (p : ℕ) → p + 2 ≤ length bytes → (w : ℕ) × (read_u16 bytes p ≡ some w)
  unfolding read_u16
  read_u16-some p h =
      let x0 = get_elem?-lt bytes p (omega arith) in
      let x1 = get_elem?-lt bytes (p + 1) (omega arith) in
      elim (Option-cases (read_u16 bytes p)) [
        | inl out ↦ absurd (ground (arith, x0.1, x1.1))
        | inr found ↦ found
      ]

  entry_step-Keeps :
      (key_table data_table i : ℕ) (out : Sfo)
      → 20 + i * 16 + 16 ≤ length bytes
      → IsValid out
      → Keeps (entry_step bytes key_table data_table i out)
  unfolding entry_step
  entry_step-Keeps key_table data_table i out fits v =
      let (k, ek) = read_u16-some (20 + i * 16) (omega arith) in
      let (n, en) = read_u32-some (20 + i * 16 + 4) (omega arith) in
      let (d, ed) = read_u32-some (20 + i * 16 + 12) (omega arith) in
      let (o, placed, vo) = place-Keeps out (u32 (key_table + k)) n (u32 (data_table + d)) v in
      (o, rw (ek, en, ed) placed, vo)

  entries_loop-Keeps :
      (key_table data_table n i : ℕ) (out : Sfo)
      → 20 + (i + n) * 16 ≤ length bytes
      → IsValid out
      → Keeps (entries_loop bytes key_table data_table n i out)
  unfolding entries_loop
  entries_loop-Keeps key_table data_table zero i out fits v = (out, refl, v)
  entries_loop-Keeps key_table data_table (suc n) i out fits v =
      let (o, one, vo) = entry_step-Keeps key_table data_table i out (omega arith) v in
      let (o', more, vo') = entries_loop-Keeps key_table data_table n (i + 1) o (omega arith) vo in
      (o', rw one more, vo')

  -- What a call of the parser answers: valid arrays, all cleared on an error.
  Answers : Option (Sfo × Code) → Type 0
  Answers r =
      (out : Sfo) × (c : Code) × (r ≡ some (out, c)) × IsValid out × (c ≢ ok → out ≡ cleared)

  parse_tables-Answers :
      (key_table data_table count : ℕ) → Answers (parse_tables bytes key_table data_table count)
  unfolding parse_tables Answers
  parse_tables-Answers key_table data_table count =
      let size = length bytes in
      let fail : IsValid cleared = cleared-IsValid in
      elim (Bool-cases (ltb 4096 count)) [
        | inl many ↦ (cleared, err_layout, rw many, fail, λ e. refl)
        | inr few ↦ elim (Bool-cases (ltb size key_table || ltb size data_table)) [
          | inl out_of ↦ (cleared, err_layout, rw (few, out_of), fail, λ e. refl)
          | inr tables ↦ elim (Bool-cases (ltb size (u32 (20 + u32 (count * 16))))) [
            | inl long ↦ (cleared, err_layout, rw (few, tables, long), fail, λ e. refl)
            | inr fits ↦
                let (o, run, vo) =
                  entries_loop-Keeps key_table data_table count 0 cleared (ground arith) fail in
                (o, ok, rw (few, tables, fits, run), vo, λ e. absurd (e refl))
          ]
        ]
      ]

  -- On any buffer `vhdb_sfo_parse` reads only inside it and returns: every array of the result
  -- holds a text with its NUL, and on an error all of them are empty.
  pub parse-returns :
      (out : Sfo) × (c : Code) × (parse bytes ≡ some (out, c))
      × IsValid out
      × (c ≢ ok → out ≡ cleared)
  unfolding parse Answers
  parse-returns = elim (Bool-cases (ltb (length bytes) 20)) [
    | inl short ↦ (cleared, err_size, rw short, cleared-IsValid, λ e. refl)
    | inr long ↦
        let (m, em) = read_u32-some 0 (ground arith) in
        let (k, ek) = read_u32-some 8 (ground arith) in
        let (d, ed) = read_u32-some 12 (ground arith) in
        let (n, en) = read_u32-some 16 (ground arith) in
        elim (Bool-cases (m == 0x4653_5000)) [
          | inl magic ↦
              let (o, c, run, v, clean) = parse_tables-Answers k d n in
              (o, c, rw (long, em, magic, ek, ed, en) run, v, clean)
          | inr wrong ↦ (cleared, err_magic, rw (long, em, wrong), cleared-IsValid, λ e. refl)
        ]
  ]
