-- ===== src/Catalog/Access/Laws.antt =====
-- core/vhdb.c: the reads from a sound catalog stay in the file.
use vhdb.Base.{
  ℕ, ◌+◌, ◌-◌, ◌*◌, ◌≤◌, ◌<◌, ◌≡◌, refl, ◌⊎◌, inl, inr, leb, List, [], Option, none, some,
  slice-some, word_at-some, text_at-some, length, get_elem?-lt, arith, Bool-cases, Option-cases,
  word_at,
}
use vhdb.Catalog.{Db, Entry, entry_at}
use vhdb.Catalog.Load.Sound.{Sound}
use vhdb.Catalog.Access.{at, ranked, by_name, by_date, str, str_in}

-- Where 160 bytes are left, a record can be read.
entry_at-some :
    (blob : List ℕ) (p : ℕ) → p + 160 ≤ length blob → (e : Entry) × (entry_at blob p ≡ some e)
unfolding entry_at
entry_at-some blob p h = elim (Option-cases (entry_at blob p)) [
  | inl out ↦ absurd (
      ground (
        arith,
        (word_at-some blob p (omega arith)).1,
        (word_at-some blob (p + 4) (omega arith)).1,
        (word_at-some blob (p + 8) (omega arith)).1,
        (word_at-some blob (p + 12) (omega arith)).1,
        (word_at-some blob (p + 16) (omega arith)).1,
        (word_at-some blob (p + 20) (omega arith)).1,
        (word_at-some blob (p + 24) (omega arith)).1,
        (word_at-some blob (p + 28) (omega arith)).1,
        (word_at-some blob (p + 32) (omega arith)).1,
        (word_at-some blob (p + 36) (omega arith)).1,
        (word_at-some blob (p + 40) (omega arith)).1,
        (word_at-some blob (p + 44) (omega arith)).1,
        (word_at-some blob (p + 48) (omega arith)).1,
        (word_at-some blob (p + 52) (omega arith)).1,
        (word_at-some blob (p + 56) (omega arith)).1,
        (word_at-some blob (p + 60) (omega arith)).1,
        (word_at-some blob (p + 64) (omega arith)).1,
        (word_at-some blob (p + 68) (omega arith)).1,
        (word_at-some blob (p + 72) (omega arith)).1,
        (word_at-some blob (p + 76) (omega arith)).1,
        slice-some blob (p + 80) 12 (omega arith),
        slice-some blob (p + 92) 16 (omega arith),
        slice-some blob (p + 108) 16 (omega arith),
        slice-some blob (p + 124) 16 (omega arith),
        slice-some blob (p + 140) 16 (omega arith),
        (get_elem?-lt blob (p + 156) (omega arith)).1,
        (get_elem?-lt blob (p + 157) (omega arith)).1,
        (get_elem?-lt blob (p + 158) (omega arith)).1,
        (get_elem?-lt blob (p + 159) (omega arith)).1,
      ))
  | inr found ↦ found
]

-- The results of one order: NULL behind the last rank, else a record of the table, which lies
-- wholly between the header and the texts.
abbrev pub InTable : Db → List ℕ → ℕ → Option (Option ℕ) → Type 0
InTable db blob rank r =
    ((db.count ≤ rank) × (r ≡ some none))
    ⊎ ((i : ℕ) × (i < db.count)
        × (r ≡ some (at db i))
        × (e : Entry) × (r ≡ some (some (db.records + i * 160)))
        × (entry_at blob (db.records + i * 160) ≡ some e))

module _ (db : Db) (s : Sound db) where
  record-fits : (i : ℕ) → i < db.count → db.records + i * 160 + 160 ≤ length s.bytes
  record-fits i h = omega (
    arith, s.has_records, s.has_count, s.layout.records_at, s.layout.strings_at, s.layout.names_at,
    s.layout.dates_at, s.layout.ends,
  )

  ranked-InTable :
      (order rank : ℕ)
      → (rank < db.count → (i : ℕ) × (word_at s.bytes (order + rank * 4) ≡ some i) × (i < db.count))
      → InTable db s.bytes rank (ranked db order rank)
  unfolding ranked at
  ranked-InTable order rank look = elim (Bool-cases (leb db.count rank)) [
    | inl outside ↦ inl (ground arith, ground arith)
    | inr inside ↦
        let (i, read, below) = look (ground arith) in
        let (e, there) = entry_at-some s.bytes (db.records + i * 160) (record-fits i below) in
        inr (i, below, ground (arith, s.has_blob, read), e, ground (arith, s.has_blob, read), there)
  ]

  -- On a sound catalog `vhdb_by_name` and `vhdb_by_date` answer NULL for a rank that is not below
  -- the count, and otherwise the record that `vhdb_at` gives for some index, which can be read
  -- whole within the file.
  pub by_order-InTable :
      (rank : ℕ)
      → InTable db s.bytes rank (by_name db rank) × InTable db s.bytes rank (by_date db rank)
  unfolding by_name by_date
  by_order-InTable rank = (
    ranked-InTable db.order_name rank (λ h. s.orders.names_below rank (omega arith) h),
    ranked-InTable db.order_date rank (λ h. s.orders.dates_below rank (omega arith) h),
  )

  -- On a sound catalog `vhdb_str` gives a text that ends in the strings of the file, for any
  -- offset at all; behind the strings it is the empty text.
  pub str_bounded :
      (offset : ℕ)
      → (t : List ℕ) × (str db offset ≡ some t)
        × ((s.head.strings_len ≤ offset → t ≡ [])
            × (offset < s.head.strings_len → offset + length t < s.head.strings_len))
  unfolding str str_in
  str_bounded offset = elim (Bool-cases (leb s.head.strings_len offset)) [
    | inl outside ↦
        ([], ground (arith, s.has_header, s.has_strings), ((λ h. refl), λ h. absurd (ground arith)))
    | inr inside ↦
        let start = s.head.strings_off + offset in
        let last = s.head.strings_off + s.head.strings_len - 1 in
        let (t, there, ends) = text_at-some s.bytes start last (ground arith) s.layout.terminated in
        (
          t,
          ground (arith, s.has_header, s.has_strings, s.has_blob, there),
          ((λ h. absurd (ground arith)), λ h. omega (arith, s.layout.len_pos)),
        )
  ]
