-- ===== src/Examples/Texts.antt =====
-- Title ids, `param.sfo`, versions and needed files at concrete inputs.
use vhdb.Base.{
  ℕ, ◌+◌, ◌≤◌, ◌<◌, ◌≡◌, ◌≢◌, refl, ◌⊎◌, Bool, true, false, List, [], ◌∷◌, ◌++◌, Option, none, some,
  length, replicate, arith, codes, text_of, until_nul, take, drop,
}
use vhdb.Base
use vhdb.Catalog.{Entry}
use vhdb.Sfo.{
  Sfo, Code, ok, cleared, copy_string, parse, parse_tables, entries_loop, entry_step, place, store,
  key_length, key_is, copy_loop, read_u32, read_u16,
}
use vhdb.Sfo.Laws.{IsValid, parse-returns}
use vhdb.Version.{
  Ver, same, newer, number, version_compare, compare_text, compare_loop, verdict, is_number,
  next_token, token_at, skip_separators, digits_value, skip_digits, skip_letters, letters, to_lower,
  is_alnum, skip_prefix, skip_blanks, strip_v, after_v, is_blank_version, version_compare_ptr,
}
use vhdb.Version.Total.{version_compare-returns}
use vhdb.Version.Order.{flip, version_compare-flip}
use vhdb.Version.Padding.{version_compare_zero_hides}
use vhdb.Needs.{Need, unchecked, kind_from_word, needs_count, needs_get, behind_semicolon}
use vhdb.Needs.Count.{needs_get-count}
use vhdb.Needs.Fields.{IsEntry, Before, joined, needs_get-joined}

abbrev pub demo_entry : Entry
demo_entry = record {
  name = 0;
  author = 0;
  version = 0;
  icon = 0;
  description = 0;
  long_description = 0;
  changelog = 0;
  requirements = 0;
  needs = 0;
  url = 0;
  data_url = 0;
  source = 0;
  release_page = 0;
  trailer = 0;
  screenshots = 0;
  tags = 0;
  size = 0;
  data_size = 0;
  date = 0;
  id = 0;
  titleid = codes "ABCD00001" ++ replicate 3 0;
  hash = replicate 16 0;
  hash2 = replicate 16 0;
  eboot = replicate 16 0;
  aux = replicate 16 0;
  type = 1;
  flags = 0;
  platform = 0;
  aux_kind = 0;
}

parse-returns_example :
    (out : Sfo) × (c : Code) × (parse (codes "short") ≡ some (out, c))
    × IsValid out
    × (c ≢ ok → out ≡ cleared)
parse-returns_example = parse-returns (codes "short")

-- A file of one entry with the key TITLE_ID and the value "AB".
abbrev pub small_sfo : List ℕ
small_sfo =
    0x00
    ∷ 0x50
    ∷ 0x53
    ∷ 0x46
    ∷ 1
    ∷ 1
    ∷ 0
    ∷ 0
    ∷ 36
    ∷ 0
    ∷ 0
    ∷ 0
    ∷ 45
    ∷ 0
    ∷ 0
    ∷ 0
    ∷ 1
    ∷ 0
    ∷ 0
    ∷ 0
    ∷ (replicate 4 0
        ++ (3
            ∷ 0
            ∷ 0
            ∷ 0
            ∷ (replicate 8 0 ++ (codes "TITLE_ID" ++ (0 ∷ (codes "AB" ++ (0 ∷ [])))))))

parse_small :
    parse small_sfo ≡ some (record cleared { title_id = codes "AB" ++ replicate 14 0 }, ok)
unfolding parse parse_tables entries_loop entry_step place store key_length key_is copy_string
    copy_loop read_u32 read_u16 Base.equal
parse_small = refl

version_compare_update : version_compare (codes "v1.2") (codes "1.10") ≡ some newer
unfolding version_compare compare_text compare_loop verdict is_number next_token token_at
    skip_separators digits_value skip_digits skip_letters letters to_lower is_alnum skip_prefix
    skip_blanks strip_v after_v is_blank_version Base.equal
version_compare_update = refl

version_compare-returns_example :
    (v : Ver) × (version_compare_ptr (some (codes "1.0")) (some (codes "1.0b")) ≡ some v)
version_compare-returns_example = version_compare-returns (some (codes "1.0")) (some (codes "1.0b"))

version_compare-flip_example : version_compare (codes "1.10") (codes "v1.2") ≡ some (flip newer)
version_compare-flip_example =
    version_compare-flip (codes "v1.2") (codes "1.10") newer version_compare_update

token_12 : (next_token (codes ".12a")).0 ≡ number 12
unfolding next_token token_at skip_separators digits_value is_alnum skip_digits
token_12 = refl

version_compare_zero_hides_example : version_compare (codes "1") (codes "1.0.5") ≡ some same
version_compare_zero_hides_example =
    version_compare_zero_hides b'1' (codes "5") (omega arith) (omega arith)

abbrev two_needs : List ℕ
two_needs = codes "plugin|ur0:x|X;gamefiles|ux0:a|Files"

needs_get-count_example :
    ((1 < needs_count two_needs) × (need : Need) × (needs_get two_needs 1 ≡ some need))
    ⊎ ((needs_count two_needs ≤ 1) × (needs_get two_needs 1 ≡ none))
needs_get-count_example = needs_get-count two_needs 1

files-IsEntry : IsEntry (codes "gamefiles") (codes "ux0:a") (codes "Files")
files-IsEntry = record {
  word_plain = omega arith;
  path_plain = omega arith;
  text_plain = omega arith;
  word_fits = omega arith;
  path_fits = omega arith;
  text_fits = omega arith;
  text_given = ground arith;
}

second : Before 1 two_needs (joined (codes "gamefiles") (codes "ux0:a") (codes "Files") ++ [])
unfolding behind_semicolon
second = (joined (codes "gamefiles") (codes "ux0:a") (codes "Files") ++ [], refl, refl)

needs_get-joined_example :
    needs_get two_needs 1
    ≡ some (record {
      kind = kind_from_word (codes "gamefiles");
      path = codes "ux0:a";
      text = codes "Files";
      state = unchecked;
    })
needs_get-joined_example =
    needs_get-joined two_needs 1 (codes "gamefiles") (codes "ux0:a") (codes "Files") []
      files-IsEntry tt second
