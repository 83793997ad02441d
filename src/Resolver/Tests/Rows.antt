-- ===== src/Resolver/Tests/Rows.antt =====
-- Tests of the cover search and of the projection through a row.
use versification_tool.Prelude.{sym, ◌≡◌, refl, true, false, none, some, [], ◌∷◌}
use mathlib.Core.Path.{subst}
use mathlib.Core.List.{Memᴰ}
use mathlib.Core.List.Memᴰ
use versification_tool.Prelude.Texts.{codes, strip, lstrip, is_space}
use versification_tool.Prelude.Decimal.{read}
use versification_tool.Prelude.Sorting.{sorted_by}
use versification_tool.Resolver.Types.{shift, merge, split, VerseId, ok}
use versification_tool.Resolver.Reference.{
  index_in_range, parse_ref, expand, covers, strip_part_suffix, part_suffix, span_digits,
  match_prefix, has_embedded_part, bcv_range, read_groups, verse_run,
}
use versification_tool.Resolver.Cover.{
  Projection, parse_ref_plain, record_range, candidate, candidates, find_covering_record,
  project_through, project_verse, range_length, zip_project, project_ranges,
}
use versification_tool.Resolver.Cover.Search.{IsNarrowest, find_covering_record-IsNarrowest}
use versification_tool.Resolver.Cover.Sides.{Sides}
use versification_tool.Resolver.Cover.Zip.{project_through-project_through}
use versification_tool.Resolver.Cover.Merge.{parts_of, merge-split, split-merge}
use versification_tool.Resolver.Cover.Total.{IsWellFormed, project_verse-ok}
use versification_tool.Resolver.Tests.{at, from_to, rows, shifting, splitting, merging}

pub shifting_Sides : Sides shifting (from_to 1 2) (from_to 3 4)
unfolding parse_ref_plain strip_part_suffix parse_ref span_digits match_prefix has_embedded_part
    bcv_range read_groups strip lstrip is_space part_suffix read
shifting_Sides = record {
  base_raw = codes "GEN 1:3-4";
  has_base = refl;
  source_parses = refl;
  base_parses = refl;
}

splitting_Sides : Sides splitting (from_to 5 5) (from_to 6 7)
unfolding parse_ref_plain strip_part_suffix parse_ref span_digits match_prefix has_embedded_part
    bcv_range read_groups strip lstrip is_space part_suffix read
splitting_Sides = record {
  base_raw = codes "GEN 1:6-7";
  has_base = refl;
  source_parses = refl;
  base_parses = refl;
}

merging_Sides : Sides merging (from_to 8 9) (from_to 10 10)
unfolding parse_ref_plain strip_part_suffix parse_ref span_digits match_prefix has_embedded_part
    bcv_range read_groups strip lstrip is_space part_suffix read
merging_Sides = record {
  base_raw = codes "GEN 1:10";
  has_base = refl;
  source_parses = refl;
  base_parses = refl;
}

covered_by : find_covering_record rows (at 2) true ≡ some shifting
unfolding find_covering_record candidates candidate record_range sorted_by covers parse_ref_plain
    strip_part_suffix parse_ref span_digits match_prefix has_embedded_part bcv_range read_groups
    strip lstrip is_space part_suffix read
covered_by = refl

find_covering_record-IsNarrowest_example : IsNarrowest rows (at 2) true shifting
find_covering_record-IsNarrowest_example =
    find_covering_record-IsNarrowest rows (at 2) true shifting covered_by

project_through-project_through_example :
    (w : VerseId) × (p : Projection) × (q : Projection) × (project_through (at 2) shifting true
      ≡ ok p)
    × (p.verses ≡ w ∷ [])
    × (p.relation ≡ shift)
    × (project_through w shifting false ≡ ok q)
    × (q.verses ≡ at 2 ∷ [])
    × (q.relation ≡ shift)
unfolding covers range_length
project_through-project_through_example =
    project_through-project_through shifting (from_to 1 2) (from_to 3 4) shifting_Sides refl (at 2)
      refl refl

climbs :
    project_through (at 2) shifting true
    ≡ ok (record { verses = at 4 ∷ []; relation = shift; excluded = false; merge_siblings = [] })
unfolding project_through project_ranges zip_project range_length index_in_range parse_ref_plain
    strip_part_suffix parse_ref span_digits match_prefix has_embedded_part bcv_range read_groups
    strip lstrip is_space part_suffix read
climbs = refl

merge-split_example :
    (p : Projection) × (q : Projection) × (project_through (at 9) merging true ≡ ok p)
    × (p.verses ≡ at 10 ∷ [])
    × Memᴰ (at 9) p.merge_siblings
    × (project_through (at 10) merging false ≡ ok q)
    × (q.relation ≡ split)
    × (q.verses ≡ p.merge_siblings)
unfolding covers
merge-split_example =
    merge-split merging (from_to 8 9) (from_to 10 10) merging_Sides (at 9) refl refl

splits :
    project_through (at 5) splitting true
    ≡ ok (record {
      verses = at 6 ∷ at 7 ∷ [];
      relation = split;
      excluded = false;
      merge_siblings = [];
    })
unfolding project_through project_ranges expand verse_run parse_ref_plain strip_part_suffix
    parse_ref span_digits match_prefix has_embedded_part bcv_range read_groups strip lstrip is_space
    part_suffix read
splits = refl

split-merge_example :
    (q : Projection) × ((at 6 ∷ at 7 ∷ []) ≡ parts_of (from_to 6 7) none)
    × (project_through (at 7) splitting false ≡ ok q)
    × (q.relation ≡ merge)
    × (q.verses ≡ at 5 ∷ [])
    × (q.merge_siblings ≡ at 6 ∷ at 7 ∷ [])
split-merge_example =
    split-merge splitting (from_to 5 5) (from_to 6 7) splitting_Sides (at 5) (at 7) _ refl splits
      (Memᴰ.tail (Memᴰ.head refl))

pub shifting-IsWellFormed : IsWellFormed shifting
unfolding shifting_Sides
shifting-IsWellFormed = record {
  source = (from_to 1 2, shifting_Sides.source_parses);
  base = (from_to 3 4, shifting_Sides.base_parses);
}

project_verse-ok_example : (p : Projection) × (project_verse (at 2) (shifting ∷ []) true ≡ ok p)
project_verse-ok_example =
    project_verse-ok (at 2) (shifting ∷ []) true
      (λ r m. subst IsWellFormed (sym (Memᴰ.eq_of_singleton m)) shifting-IsWellFormed)
