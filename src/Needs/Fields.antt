-- ===== src/Needs/Fields.antt =====
-- core/status.c, `vhdb_needs_get`: it reads back the entries that are joined as the catalog's
-- builder joins them.
use vhdb.Base.{
  ℕ, zero, suc, ◌+◌, ◌≤◌, ◌≡◌, ◌≢◌, refl, subst, ap, ◌∙◌, List, [], ◌∷◌, ◌++◌, some, append_assoc,
  append-nil, take-length, length, equal_iff, arith,
}
use vhdb.Needs.{
  unchecked, kind_from_word, behind_semicolon, entry_from, entry_at, copy_field, Parts, no_parts,
  end_field, fields_loop, need_of, needs_get,
}

-- No separator stands in a field.
abbrev pub IsPlain : List ℕ → Type 0
IsPlain [] = Unit
IsPlain (c ∷ cs) = (c ≢ b'|') × (c ≢ b';') × IsPlain cs

-- The bytes of a field up to its separator are gathered.
fields_loop-plain :
    (field_bytes rest gathered : List ℕ) (field : ℕ) (parts : Parts)
    → IsPlain field_bytes
    → fields_loop (field_bytes ++ rest) field gathered parts
      ≡ fields_loop rest field (gathered ++ field_bytes) parts
unfolding fields_loop
fields_loop-plain [] rest gathered field parts p = rw append-nil
fields_loop-plain (c ∷ cs) rest gathered field parts p = ground (
  arith,
  p.0,
  p.1,
  append_assoc gathered (c ∷ []) cs,
  fields_loop-plain cs rest (gathered ++ (c ∷ [])) field parts p.2,
)

-- One entry as text.
abbrev pub joined : List ℕ → List ℕ → List ℕ → List ℕ
joined word path text = word ++ (b'|' ∷ (path ++ (b'|' ∷ text)))

-- What may follow an entry: nothing, or a semicolon.
abbrev pub Ends : List ℕ → Type 0
Ends [] = Unit
Ends (c ∷ cs) = c ≡ b';'

pub record IsEntry (word path text : List ℕ) : Type 0 where
  pub word_plain : IsPlain word
  pub path_plain : IsPlain path
  pub text_plain : IsPlain text
  pub word_fits : length word ≤ 31
  pub path_fits : length path ≤ 127
  pub text_fits : length text ≤ 191
  pub text_given : text ≢ []

fields_loop-bar :
    (rest gathered : List ℕ) (field : ℕ) (parts : Parts)
    → fields_loop (b'|' ∷ rest) field gathered parts
      ≡ fields_loop rest (field + 1) [] (end_field field gathered parts)
unfolding fields_loop
fields_loop-bar rest gathered field parts = refl

fields_loop-last :
    (after gathered : List ℕ) (field : ℕ) (parts : Parts)
    → Ends after
    → fields_loop after field gathered parts ≡ end_field field gathered parts
unfolding fields_loop
fields_loop-last [] gathered field parts e = refl
fields_loop-last (c ∷ cs) gathered field parts e = ground arith

joined-append :
    (word path text after : List ℕ)
    → joined word path text ++ after ≡ word ++ (b'|' ∷ (path ++ (b'|' ∷ (text ++ after))))
joined-append word path text after =
    append_assoc word (b'|' ∷ (path ++ (b'|' ∷ text))) after
    ∙ ap (λ t. word ++ (b'|' ∷ t)) (append_assoc path (b'|' ∷ text) after)

fields_loop-joined :
    (word path text after : List ℕ)
    → IsEntry word path text
    → Ends after
    → fields_loop (joined word path text ++ after) 0 [] no_parts
      ≡ record { word = word; path = path; text = text }
unfolding end_field copy_field
fields_loop-joined word path text after e last =
    rw
      (
        joined-append word path text after,
        fields_loop-plain word (b'|' ∷ (path ++ (b'|' ∷ (text ++ after)))) [] 0 no_parts
            e.word_plain,
        fields_loop-bar (path ++ (b'|' ∷ (text ++ after))) word 0 no_parts,
        fields_loop-plain path (b'|' ∷ (text ++ after)) [] 1 (end_field 0 word no_parts)
            e.path_plain,
        fields_loop-bar (text ++ after) path 1 (end_field 0 word no_parts),
        fields_loop-plain text after [] 2 (end_field 1 path (end_field 0 word no_parts))
            e.text_plain,
        fields_loop-last after text 2 (end_field 1 path (end_field 0 word no_parts)) last,
        take-length 31 word e.word_fits,
        take-length 127 path e.path_fits,
        take-length 191 text e.text_fits,
      )
      refl

-- Entries that stand in front of `needs`, each with its semicolon.
abbrev pub Before : ℕ → List ℕ → List ℕ → Type 0
Before zero needs from = needs ≡ from
Before (suc n) needs from = (q : List ℕ) × (behind_semicolon needs ≡ some q) × Before n q from

entry_from-Before :
    (n : ℕ) (needs : List ℕ) (c : ℕ) (cs : List ℕ)
    → Before n needs (c ∷ cs)
    → entry_from n needs ≡ some (c ∷ cs)
unfolding entry_from
entry_from-Before zero needs c cs b = rw b
entry_from-Before (suc n) needs c cs (q, next, b) = rw next (entry_from-Before n q c cs b)

entry_from-head :
    (n : ℕ) (needs start : List ℕ) → entry_from n needs ≡ some start → entry_at needs n ≡ some start
unfolding entry_at entry_from behind_semicolon
entry_from-head zero [] start e = cc
entry_from-head (suc n) [] start e = cc
entry_from-head n (c ∷ cs) start e = e

joined-cons :
    (word path text after : List ℕ)
    → (c : ℕ) × (cs : List ℕ) × (joined word path text ++ after ≡ c ∷ cs)
joined-cons [] path text after = (b'|', (path ++ (b'|' ∷ text)) ++ after, refl)
joined-cons (x ∷ word) path text after = (x, joined word path text ++ after, refl)

-- Entry `index` comes back field by field if it stands behind `index` semicolons, was joined from
-- fields without separators that fit the arrays, and ends the text or is followed by a semicolon.
pub needs_get-joined :
    (needs : List ℕ) (index : ℕ) (word path text after : List ℕ)
    → IsEntry word path text
    → Ends after
    → Before index needs (joined word path text ++ after)
    → needs_get needs index
      ≡ some (record { kind = kind_from_word word; path = path; text = text; state = unchecked })
unfolding needs_get need_of
needs_get-joined needs index word path text after e last before =
    let (c, cs, start) = joined-cons word path text after in
    let found : entry_at needs index ≡ some (joined word path text ++ after) = rw start (
      entry_from-head index needs (c ∷ cs)
        (entry_from-Before index needs c cs (subst (Before index needs) start before))) in
    ground (
      arith,
      found,
      fields_loop-joined word path text after e last,
      equal_iff text [],
      e.text_given,
    )
