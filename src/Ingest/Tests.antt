-- ===== src/Ingest/Tests.antt =====
-- Tests of the derivation of mapping rows.
use versification_tool.Prelude.{ℕ, ◌≡◌, refl, true, false, Option, none, some, [], ◌∷◌}
use mathlib.Core.List.{Memᴰ}
use versification_tool.Prelude.Equality.{contains}
use versification_tool.Prelude.Decimal.{read}
use versification_tool.Prelude.Texts.{Text, codes, strip, lstrip, is_space}
use versification_tool.Resolver.Types.{
  Relation, shift, split, exclude, partial, VerseId, MappingView, ok,
}
use versification_tool.Resolver.Reference.{
  parse_ref, covers, strip_part_suffix, part_suffix, span_digits, match_prefix, has_embedded_part,
  bcv_range, read_groups,
}
use versification_tool.Resolver.Cover.{Projection, parse_ref_plain, project_through}
use versification_tool.Resolver.Cover.Total.{IsWellFormed}
use versification_tool.Ingest.Mappings.{
  Ingredient, classify_ranges, classify_mapped, push, lookup, add_pair, add_mapped, add_excluded,
  add_merged, add_split, add_parts, add_partials, derive_mapping_records,
}
use versification_tool.Ingest.Mappings.Parsed.{derive_mapping_records-IsWellFormed}
use versification_tool.Ingest.Mappings.Classes.{derive_mapping_records-project_through}

-- A pair that shifts, one that does not parse, one that splits, and an excluded verse.
abbrev ingredient : Ingredient
ingredient = record {
  mapped_verses =
      (codes "GEN 1:1-2", codes "GEN 1:3-4")
      ∷ (codes "GEN 1", codes "GEN 2")
      ∷ (codes "GEN 1:5", codes "GEN 1:6-7")
      ∷ [];
  excluded_verses = codes "GEN 1:9" ∷ [];
  merged_verses = [];
  split_verses = codes "GEN 1:5" ∷ [];
  partial_verses = (codes "GEN 1:8", codes "a" ∷ []) ∷ [];
}

abbrev row : Text → Option Text → Option Text → Relation → ℕ → MappingView
row s b p r n = record { source_ref = s; base_ref = b; part = p; relation = r; ordinal = n }

abbrev shifting : MappingView
shifting = row (codes "GEN 1:1-2") (some (codes "GEN 1:3-4")) none shift 0

abbrev splitting : MappingView
splitting = row (codes "GEN 1:5") (some (codes "GEN 1:6-7")) none split 2

derives :
    derive_mapping_records ingredient
    ≡ shifting
      ∷ row (codes "GEN 1:9") none none exclude 1
      ∷ splitting
      ∷ row (codes "GEN 1:8") (some (codes "GEN 1:8")) (some (codes "a")) partial 3
      ∷ []
unfolding derive_mapping_records add_mapped add_excluded add_merged add_split add_parts add_partials
    add_pair push lookup classify_mapped classify_ranges contains parse_ref_plain strip_part_suffix
    parse_ref span_digits match_prefix has_embedded_part bcv_range read_groups strip lstrip is_space
    part_suffix read
derives = refl

derive_mapping_records-IsWellFormed_example : IsWellFormed shifting
unfolding derive_mapping_records add_mapped add_excluded add_merged add_split add_parts add_partials
    add_pair push lookup classify_mapped classify_ranges contains parse_ref_plain strip_part_suffix
    parse_ref span_digits match_prefix has_embedded_part bcv_range read_groups strip lstrip is_space
    part_suffix read
derive_mapping_records-IsWellFormed_example =
    derive_mapping_records-IsWellFormed ingredient shifting (Memᴰ.head refl) refl

abbrev at : ℕ → VerseId
at n = record { book = codes "GEN"; chapter = 1; verse = n; part = none }

derive_mapping_records-project_through_example :
    (w : VerseId) × (p : Projection) × (q : Projection) × (project_through (at 2) shifting true
      ≡ ok p)
    × (p.verses ≡ w ∷ [])
    × (p.relation ≡ shift)
    × (project_through w shifting false ≡ ok q)
    × (q.verses ≡ at 2 ∷ [])
    × (q.relation ≡ shift)
unfolding covers derive_mapping_records add_mapped add_excluded add_merged add_split add_parts
    add_partials add_pair push lookup classify_mapped classify_ranges contains parse_ref_plain
    strip_part_suffix parse_ref span_digits match_prefix has_embedded_part bcv_range read_groups
    strip lstrip is_space part_suffix read
derive_mapping_records-project_through_example =
    derive_mapping_records-project_through ingredient shifting
      (record { book = codes "GEN"; chapter = 1; verse_start = 1; verse_end = 2 }) (at 2)
      (Memᴰ.head refl) refl refl refl
