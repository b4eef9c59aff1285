-- ===== src/Pc/Listing/Wanted.antt =====
-- pc/main.c: what `vhdb list` is meant to pick, said without the tests of the code.
use vhdb.Base.{
  ℕ, ◌+◌, ◌*◌, ◌≡◌, refl, ap, ◌∙◌, arith, inl, inr, ◌⊎◌, leb, if◌then◌else◌, Bool, true, false,
  List, [], ◌∷◌, ◌++◌, Option, none, some, ◌>>=◌, Bool-cases, Option-cases, word_at,
}
use vhdb.Catalog.{Db, Entry, entry_at}
use vhdb.Catalog.Access.{ranked, by_name, by_date, str}
use vhdb.Pc.Listing.{Options, starts_with, contains, matches, unwanted, is_picked, entry_of_rank}
use vhdb.Version.{to_lower}

-- A text with its letters small.
abbrev pub lowered : List ℕ → List ℕ
lowered [] = []
lowered (c ∷ cs) = to_lower c ∷ lowered cs

-- The word stands somewhere in the text, whatever the case of its letters.
abbrev pub Within : List ℕ → List ℕ → Type 0
Within word text =
    (front : List ℕ) × (here : List ℕ) × (rest : List ℕ) × (text ≡ front ++ (here ++ rest))
    × (lowered here ≡ lowered word)

starts_with-here :
    (text word : List ℕ)
    → starts_with text word ≡ true
    → (here : List ℕ) × (rest : List ℕ) × (text ≡ here ++ rest) × (lowered here ≡ lowered word)
unfolding starts_with
starts_with-here text [] h = ([], text, refl, refl)
starts_with-here [] (y ∷ ys) h = absurd (ground arith)
starts_with-here (x ∷ xs) (y ∷ ys) h =
    let (here, rest, is, same) = starts_with-here xs ys (ground arith) in
    (x ∷ here, rest, ground arith, ground arith)

here-starts_with :
    (here rest word : List ℕ) → lowered here ≡ lowered word → starts_with (here ++ rest) word ≡ true
unfolding starts_with
here-starts_with here rest [] e = refl
here-starts_with [] rest (y ∷ ys) e = absurd (ground arith)
here-starts_with (x ∷ xs) rest (y ∷ ys) e =
    let more = here-starts_with xs rest ys (ground arith) in ground arith

starts_with-contains :
    (text word : List ℕ) → starts_with text word ≡ true → contains text word ≡ true
unfolding contains
starts_with-contains [] word h = h
starts_with-contains (x ∷ xs) word h = ground arith

contains-Within : (text word : List ℕ) → contains text word ≡ true → Within word text
unfolding contains
contains-Within [] word h =
    let (here, rest, is, same) = starts_with-here [] word h in ([], here, rest, is, same)
contains-Within (x ∷ xs) word h = elim (Bool-cases (starts_with (x ∷ xs) word)) [
  | inl begins ↦
      let (here, rest, is, same) = starts_with-here (x ∷ xs) word begins in
      ([], here, rest, is, same)
  | inr later ↦
      let (front, here, rest, is, same) = contains-Within xs word (ground arith) in
      (x ∷ front, here, rest, ap (λ t. x ∷ t) is, same)
]

within_front :
    (front here rest word : List ℕ)
    → lowered here ≡ lowered word
    → contains (front ++ (here ++ rest)) word ≡ true
unfolding contains
within_front [] here rest word e =
    starts_with-contains (here ++ rest) word (here-starts_with here rest word e)
within_front (x ∷ front) here rest word e =
    let more = within_front front here rest word e in ground arith

Within-contains : (text word : List ℕ) → Within word text → contains text word ≡ true
Within-contains text word (front, here, rest, is, same) =
    ap (λ t. contains t word) is ∙ within_front front here rest word same

-- A number that is asked for is the entry's, if one is asked for.
abbrev pub Wants : Option ℕ → ℕ → Type 0
Wants none n = Unit
Wants (some wanted) n = n ≡ wanted

unwanted-Wants : (wanted : Option ℕ) (n : ℕ) → unwanted wanted n ≡ false → Wants wanted n
unfolding unwanted
unwanted-Wants none n h = tt
unwanted-Wants (some wanted) n h = ground arith

Wants-unwanted : (wanted : Option ℕ) (n : ℕ) → Wants wanted n → unwanted wanted n ≡ false
unfolding unwanted
Wants-unwanted none n h = refl
Wants-unwanted (some wanted) n h = ground arith

-- Every word stands in the entry's name or in its author.
pub Every : Db → Entry → List (List ℕ) → Type 0
Every db rec [] = Unit
Every db rec (word ∷ words) =
    ((name : List ℕ) × (author : List ℕ) × (str db rec.name ≡ some name)
      × (str db rec.author ≡ some author)
      × (Within word name ⊎ Within word author))
    × Every db rec words

-- What the options ask for: the platform, the category, and all words.
abbrev pub Picks : Db → Options → Entry → Type 0
Picks db o rec =
    Wants o.want_platform rec.platform × Wants o.want_type rec.type × Every db rec o.words

module _ (db : Db) (rec : Entry) where
  matches-Every : (words : List (List ℕ)) → matches db rec words ≡ some true → Every db rec words
  unfolding matches Every
  matches-Every [] h = tt
  matches-Every (word ∷ words) h = elim (Option-cases (str db rec.name)) [
    | inl bad ↦ absurd (ground arith)
    | inr (name, en) ↦ elim (Option-cases (str db rec.author)) [
      | inl bad ↦ absurd (ground arith)
      | inr (author, ea) ↦ elim (Bool-cases (contains name word)) [
        | inl named ↦ (
          (name, author, en, ea, inl (contains-Within name word named)),
          matches-Every words (ground arith),
        )
        | inr not_named ↦ elim (Bool-cases (contains author word)) [
          | inl made ↦ (
            (name, author, en, ea, inr (contains-Within author word made)),
            matches-Every words (ground arith),
          )
          | inr not_made ↦ absurd (ground arith)
        ]
      ]
    ]
  ]

  -- All words are found, where they stand in the texts.
  Every-matches : (words : List (List ℕ)) → Every db rec words → matches db rec words ≡ some true
  unfolding matches Every
  Every-matches [] h = refl
  Every-matches (word ∷ words) ((name, author, en, ea, inl named), more) =
      let found = Within-contains name word named in
      let rest = Every-matches words more in ground arith
  Every-matches (word ∷ words) ((name, author, en, ea, inr made), more) =
      let found = Within-contains author word made in
      let rest = Every-matches words more in ground arith

  pub is_picked-Picks : (o : Options) → is_picked db o rec ≡ some true → Picks db o rec
  unfolding is_picked
  is_picked-Picks o h = elim (Bool-cases (unwanted o.want_platform rec.platform)) [
    | inl other ↦ absurd (ground arith)
    | inr platform ↦ elim (Bool-cases (unwanted o.want_type rec.type)) [
      | inl other ↦ absurd (ground arith)
      | inr type ↦ (
        unwanted-Wants o.want_platform rec.platform platform,
        unwanted-Wants o.want_type rec.type type,
        matches-Every o.words (ground arith),
      )
    ]
  ]

  pub Picks-is_picked : (o : Options) → Picks db o rec → is_picked db o rec ≡ some true
  unfolding is_picked
  Picks-is_picked o (platform, type, words) =
      let a = Wants-unwanted o.want_platform rec.platform platform in
      let b = Wants-unwanted o.want_type rec.type type in
      let c = Every-matches o.words words in ground arith

-- The record whose index the table of an order holds at a rank.
abbrev pub row_at : Db → Bool → ℕ → Option Entry
row_at db dated rank = db.blob >>= λ blob.
    word_at blob ((if dated then db.order_date else db.order_name) + rank * 4) >>= λ i.
    entry_at blob (db.records + i * 160)

ranked-row :
    (db : Db) (order rank : ℕ) (rec : Entry)
    → (ranked db order rank >>= λ found. found >>= λ p. db.blob >>= λ blob. entry_at blob p)
      ≡ some rec
    → (db.blob >>= λ blob.
        word_at blob (order + rank * 4) >>= λ i. entry_at blob (db.records + i * 160))
      ≡ some rec
unfolding ranked
ranked-row db order rank rec e = elim (Bool-cases (leb db.count rank)) [
  | inl past ↦ absurd (ground arith)
  | inr inside ↦ elim (Option-cases db.blob) [
    | inl closed ↦ absurd (ground arith)
    | inr (blob, eb) ↦ elim (Option-cases (word_at blob (order + rank * 4))) [
      | inl out ↦ absurd (ground arith)
      | inr (i, ei) ↦ ground arith
    ]
  ]
]

pub entry_of_rank-row :
    (db : Db) (dated : Bool) (rank : ℕ) (rec : Entry)
    → entry_of_rank db dated rank ≡ some rec
    → row_at db dated rank ≡ some rec
unfolding entry_of_rank by_name by_date
entry_of_rank-row db true rank rec e = ranked-row db db.order_date rank rec e
entry_of_rank-row db false rank rec e = ranked-row db db.order_name rank rec e
