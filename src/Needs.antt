-- ===== src/Needs.antt =====
-- core/status.c: the list of needed files of an entry, a text of `kind|path|text` parts between
-- semicolons.
pub mod Count
pub mod Fields
use vhdb.Base.{
  ℕ, zero, suc, ◌+◌, ◌-◌, ◌==◌, if◌then◌else◌, Bool, true, false, not, ◌&&◌, List, [], ◌∷◌, ◌++◌,
  Option, none, some, ◌>>=◌, take, equal, codes,
}

-- `VHDB_NEED_KIND_*`
pub data Kind : Type 0 where
  other gamefiles plugin datafile firmware : Kind

-- `VHDB_NEED_UNCHECKED`, `VHDB_NEED_MET`, `VHDB_NEED_MISSING`
pub data State : Type 0 where
  unchecked met missing : State

-- `vhdb_need`; the arrays of 128 and 192 bytes as the texts that they hold.
pub record Need : Type 0 where
  pub kind : Kind
  pub path : List ℕ
  pub text : List ℕ
  pub state : State

pub kind_from_word : List ℕ → Kind
kind_from_word w =
    if equal w (codes "gamefiles")
    then gamefiles
    else if equal w (codes "plugin")
    then plugin
    else if equal w (codes "datafile")
    then datafile
    else if equal w (codes "firmware")
    then firmware
    else other

-- The inner loop of `entry_at` and the `p++` behind it; `none` is the end of the text.
unfoldable pub behind_semicolon : List ℕ → Option (List ℕ)
behind_semicolon [] = none
behind_semicolon (c ∷ cs) = if c == b';' then some cs else behind_semicolon cs

-- The outer loop of `entry_at`, by the semicolons left to pass, and the last test.
pub entry_from : ℕ → List ℕ → Option (List ℕ)
entry_from zero [] = none
entry_from zero (c ∷ cs) = some (c ∷ cs)
entry_from (suc n) p = behind_semicolon p >>= λ q. entry_from n q

-- `entry_at`: where entry `index` starts. A missing text has no entry.
pub entry_at : List ℕ → ℕ → Option (List ℕ)
entry_at [] index = none
entry_at (c ∷ cs) index = entry_from index (c ∷ cs)

-- `copy_field` into an array of a size, as a text.
pub copy_field : ℕ → List ℕ → List ℕ
copy_field dst_size bytes = take (dst_size - 1) bytes

-- The local `kind` and the two arrays of the result.
pub record Parts : Type 0 where
  pub word : List ℕ
  pub path : List ℕ
  pub text : List ℕ

abbrev pub no_parts : Parts
no_parts = record { word = []; path = []; text = [] }

-- What is copied when field number `field` ends.
pub end_field : ℕ → List ℕ → Parts → Parts
unfolding copy_field
end_field zero bytes parts = record parts { word = copy_field 32 bytes }
end_field (suc zero) bytes parts = record parts { path = copy_field 128 bytes }
end_field (suc (suc zero)) bytes parts = record parts { text = copy_field 192 bytes }
end_field (suc (suc (suc n))) bytes parts = parts

-- The loop of `vhdb_needs_get`; `bytes` are those from `field_start` on.
pub fields_loop : List ℕ → ℕ → List ℕ → Parts → Parts
fields_loop [] field bytes parts = end_field field bytes parts
fields_loop (c ∷ cs) field bytes parts =
    let next = fields_loop cs (field + 1) [] (end_field field bytes parts) in
    let on = fields_loop cs field (bytes ++ (c ∷ [])) parts in
    if c == b'|' then next else if c == b';' then end_field field bytes parts else on

-- The kind, and the kind's word for a missing text.
pub need_of : Parts → Need
unfolding kind_from_word copy_field
need_of parts = record {
  kind = kind_from_word parts.word;
  path = parts.path;
  text =
      if equal parts.text [] && not (equal parts.word [])
      then copy_field 192 parts.word
      else parts.text;
  state = unchecked;
}

-- `vhdb_needs_get`; `none` is its result 0.
pub needs_get : List ℕ → ℕ → Option Need
needs_get needs index =
    entry_at needs index >>= λ start. some (need_of (fields_loop start 0 [] no_parts))

-- The state of a path; the callback may be missing.
pub check_state : List ℕ → Option (List ℕ → Bool) → State
check_state [] exists = unchecked
check_state (c ∷ cs) none = unchecked
check_state (c ∷ cs) (some exists) = if exists (c ∷ cs) then met else missing

-- `vhdb_needs_check`
pub needs_check : List ℕ → ℕ → Option (List ℕ → Bool) → Option Need
needs_check needs index exists =
    needs_get needs index >>= λ need. some (record need { state = check_state need.path exists })

-- The loop of `vhdb_needs_count`.
pub semicolons : List ℕ → ℕ
semicolons [] = 0
semicolons (c ∷ cs) = (if c == b';' then 1 else 0) + semicolons cs

pub ends_in_semicolon : List ℕ → Bool
ends_in_semicolon [] = false
ends_in_semicolon (c ∷ []) = c == b';'
ends_in_semicolon (c ∷ d ∷ cs) = ends_in_semicolon (d ∷ cs)

-- `vhdb_needs_count`
unfoldable pub needs_count : List ℕ → ℕ
needs_count [] = 0
needs_count (c ∷ cs) = 1 + semicolons (c ∷ cs) - (if ends_in_semicolon (c ∷ cs) then 1 else 0)
