-- ===== src/Pc/Listing/Picked.antt =====
-- pc/main.c: which entries `vhdb list` prints.
use vhdb.Base.{
  take_nothing, ℕ, zero, suc, ◌+◌, ◌-◌, ◌≤◌, ◌<◌, ◌≡◌, refl, sym, ap, ◌∙◌, subst, arith, inl, inr,
  ltb, Bool, true, false, List, [], ◌∷◌, ◌++◌, Option, some, ◌>>=◌, Bool-cases, Option-cases,
  ltb→lt, length, take, length-append, append-nil, append_assoc,
}
use vhdb.Base.Int.{ℤ, pos, negsuc}
use vhdb.Base.Filtered.{Filtered}
use vhdb.Catalog.{Db, Entry}
use vhdb.Pc.Listing.{
  Options, default_options, parse_options, is_picked, Shown, has_room, count_row, entry_of_rank,
  list_loop, list_entries,
}
use vhdb.Pc.Listing.Wanted.{Picks, is_picked-Picks, Picks-is_picked, row_at, entry_of_rank-row}

-- The entries of the catalog in the chosen order, from a rank on.
pub entries_from : Db → Bool → ℕ → ℕ → Option (List Entry)
entries_from db dated zero rank = some []
entries_from db dated (suc k) rank =
    row_at db dated rank >>= λ rec. entries_from db dated k (rank + 1) >>= λ more. some (rec ∷ more)

-- How many rows are printed at most.
pub room : ℤ → ℕ
room (pos limit) = limit
room (negsuc n) = 0

has_room_lem : (shown : ℕ) (limit : ℤ) → has_room shown limit ≡ ltb shown (room limit)
unfolding has_room room
has_room_lem shown (pos limit) = refl
has_room_lem shown (negsuc n) = ground arith

-- What is counted and printed of the entries that are picked, on top of what was before.
pub record Listed (o : Options) (before after : Shown) (picked : List Entry) : Type 0 where
  pub total : after.total ≡ before.total + length picked
  pub rows : after.rows ≡ before.rows ++ take (room o.limit - before.shown) picked
  pub shown : after.shown ≡ length after.rows

take_one :
    (limit shown : ℕ) (rec : Entry) (ps : List Entry)
    → shown < limit
    → take (limit - shown) (rec ∷ ps) ≡ rec ∷ take (limit - (shown + 1)) ps
take_one limit shown rec ps less =
    let more : limit - shown ≡ suc (limit - (shown + 1)) = omega arith in rw more refl

take_full : (limit shown : ℕ) (ps : List Entry) → limit ≤ shown → take (limit - shown) ps ≡ []
take_full limit shown ps full = let none_left : limit - shown ≡ 0 = omega arith in rw none_left refl

same-Listed :
    (o : Options) (a b out : Shown) (ps : List Entry)
    → a ≡ b
    → Listed o a out ps
    → Listed o b out ps
same-Listed o a b out ps e l = subst (λ (x : Shown). Listed o x out ps) e l

-- One more entry that is picked.
count_row-Listed :
    (o : Options) (rec : Entry) (st out : Shown) (ps : List Entry)
    → st.shown ≡ length st.rows
    → Listed o (count_row o rec st) out ps
    → Listed o st out (rec ∷ ps)
unfolding count_row
count_row-Listed o rec st out ps s listed =
    let space = has_room_lem st.shown o.limit in
    elim (Bool-cases (ltb st.shown (room o.limit))) [
      | inl less ↦
          let now : count_row o rec st ≡ record {
            rows = st.rows ++ (rec ∷ []);
            shown = st.shown + 1;
            total = st.total + 1;
          } =
            ground arith in
          let one = same-Listed o (count_row o rec st) _ out ps now listed in
          let fits =
            take_one (room o.limit) st.shown rec ps (ltb→lt st.shown (room o.limit) less) in
          record {
            total = omega (arith, one.total);
            rows =
                one.rows
                ∙ append_assoc st.rows (rec ∷ []) (take (room o.limit - (st.shown + 1)) ps)
                ∙ ap (λ (xs : List Entry). st.rows ++ xs) (sym fits);
            shown = one.shown;
          }
      | inr full ↦
          let now : count_row o rec st ≡ record st { total = st.total + 1 } = ground arith in
          let one = same-Listed o (count_row o rec st) _ out ps now listed in
          let limited : room o.limit ≤ st.shown = ground (arith, full) in
          let here = take_full (room o.limit) st.shown ps limited in
          let there = take_full (room o.limit) st.shown (rec ∷ ps) limited in
          record {
            total = omega (arith, one.total);
            rows = one.rows ∙ ap (λ (xs : List Entry). st.rows ++ xs) (here ∙ sym there);
            shown = one.shown;
          }
    ]

count_row-shown :
    (o : Options) (rec : Entry) (st : Shown)
    → st.shown ≡ length st.rows
    → (count_row o rec st).shown ≡ length (count_row o rec st).rows
unfolding count_row
count_row-shown o rec st s = ground (arith, length-append st.rows (rec ∷ []))

-- The loop reads the entries and picks of them.
list_loop-Listed :
    (db : Db) (o : Options) (k rank : ℕ) (st out : Shown)
    → st.shown ≡ length st.rows
    → list_loop db o k rank st ≡ some out
    → (es : List Entry) × (ps : List Entry) × (entries_from db o.by_date k rank ≡ some es)
      × Filtered (Picks db o) es ps
      × Listed o st out ps
unfolding list_loop entries_from
list_loop-Listed db o zero rank st out s e = (
  [],
  [],
  refl,
  refl,
  record {
    total = ground arith;
    rows = rw (take_nothing (room o.limit - st.shown)) (ground (arith, append-nil st.rows));
    shown = ground arith;
  },
)
list_loop-Listed db o (suc k) rank st out s e =
    elim (Option-cases (entry_of_rank db o.by_date rank)) [
      | inl out_of ↦ absurd (ground arith)
      | inr (rec, er) ↦
          let row = entry_of_rank-row db o.by_date rank rec er in
          elim (Option-cases (is_picked db o rec)) [
            | inl out_of ↦ absurd (ground arith)
            | inr (false, ep) ↦
                let (es, ps, ee, picked, listed) =
                  list_loop-Listed db o k (rank + 1) st out s (ground arith) in
                let not_picked : ¬ Picks db o rec =
                  λ picks. absurd (let yes = Picks-is_picked db rec o picks in ground arith) in
                (rec ∷ es, ps, rw (row, ee) refl, inr (not_picked, picked), listed)
            | inr (true, ep) ↦
                let (es, ps, ee, picked, listed) =
                  list_loop-Listed db o k (rank + 1) (count_row o rec st) out
                    (count_row-shown o rec st s) (ground arith) in
                (
                  rec ∷ es,
                  rec ∷ ps,
                  rw (row, ee) refl,
                  inl (is_picked-Picks db rec o ep, ps, refl, picked),
                  count_row-Listed o rec st out ps s listed,
                )
          ]
    ]

-- `vhdb list` reads the entries in the order of the table of dates, if the options that it reads
-- from its arguments say so, or else of names. It prints, in that order and no more than the limit,
-- those of the wanted platform and category that have every word in their name or their author, in
-- capital or small letters; the total counts all of them. It is assumed that the entries and their
-- texts can be read.
pub list_entries-Listed :
    (db : Db) (args : List (List ℕ)) (out : Shown)
    → list_entries db args ≡ some out
    → let o = parse_options default_options args in
      (es : List Entry) × (ps : List Entry) × (entries_from db o.by_date db.count 0 ≡ some es)
      × Filtered (Picks db o) es ps
      × (out.rows ≡ take (room o.limit) ps)
      × (out.shown ≡ length out.rows)
      × (out.total ≡ length ps)
unfolding list_entries
list_entries-Listed db args out e =
    let o = parse_options default_options args in
    let (es, ps, read, picked, l) =
      list_loop-Listed db o db.count 0 (record { rows = []; shown = 0; total = 0 }) out refl e in
    let all : room o.limit - 0 ≡ room o.limit = omega arith in
    (es, ps, read, picked, l.rows ∙ ap (λ (n : ℕ). take n ps) all, l.shown, omega (arith, l.total))
