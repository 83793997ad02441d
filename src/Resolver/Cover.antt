-- ===== src/Resolver/Cover.antt =====
-- frvt/resolver/cover.py: the mapping row that covers a verse, and the projection through a row.
-- `project_through` is called with a row that covers the verse, so `index_in_range` never counts
-- below the start of the range.
pub mod Search
pub mod Zip
pub mod Total
pub mod Merge
pub mod Sides
pub mod Exclusion
pub mod Spans
use versification_tool.Prelude.{
  ℕ, ◌+◌, ◌-◌, Bool, true, false, not, ◌&&◌, ◌||◌, Option, none, some, List, [], ◌∷◌, map, head?,
  leb, ltb, if◌then◌else◌,
}
use versification_tool.Prelude.Compare.{nat_ord, pair_ord}
use versification_tool.Prelude.Equality.{nat_eq, option_beq, ◌==◌}
use versification_tool.Prelude.Sorting.{sorted_by}
use versification_tool.Prelude.Texts.{Text, text_eq}
use versification_tool.Resolver.Types.{
  Relation, one_to_one, shift, renumber, split, merge, exclude, partial, VerseId, RefRange,
  MappingView, Result, ok, raised, assertion_failed, ◌>>=◌, relation_eq,
}
use versification_tool.Resolver.Reference.{
  strip_part_suffix, parse_ref, expand, format_bcv, covers, index_in_range,
}
use versification_tool.Resolver.Compose.{invert_relation}

-- `ZIP_RANGE_RELATIONS`
abbrev pub zip_range : Relation → Bool
zip_range r = r == one_to_one || r == shift || r == renumber

unfoldable pub range_length : RefRange → ℕ
range_length r = r.verse_end + 1 - r.verse_start

pub record Projection : Type 0 where
  pub verses : List VerseId
  pub relation : Relation
  pub excluded : Bool
  pub merge_siblings : List VerseId

unfoldable pub parse_ref_plain : Text → Result RefRange
parse_ref_plain value = parse_ref (strip_part_suffix value).0

-- `record.source_ref if upward else record.base_ref`, and the other side
abbrev pub cover_side : MappingView → Bool → Option Text
cover_side record_ upward = if upward then some record_.source_ref else record_.base_ref

-- `except ReferenceError: return None`
abbrev pub or_none : Result RefRange → Option RefRange
or_none (ok r) = some r
or_none (raised e) = none

unfoldable pub record_range : MappingView → Bool → Option RefRange
record_range row upward = elim (cover_side row upward) [
  | none ↦ none
  | some raw ↦ or_none (parse_ref_plain raw)
]

-- A candidate of the cover search: width, ordinal and row.
pub record Candidate : Type 0 where
  pub width : ℕ
  pub ordinal : ℕ
  pub row : MappingView

-- Whole-verse queries skip part rows; part queries need an exact match.
abbrev pub skips_part : MappingView → VerseId → Bool
skips_part row verse =
    row.relation == partial
    && elim verse.part [ none ↦ true | some p ↦ not (option_beq row.part (some p)) ]

-- One round of the loop over the rows.
unfoldable pub candidate : VerseId → Bool → MappingView → Option Candidate
candidate verse upward row = if skips_part row verse then none else elim (record_range row upward) [
  | none ↦ none
  | some cover ↦
      if covers cover verse
      then some
          (record { width = cover.verse_end - cover.verse_start; ordinal = row.ordinal; row = row })
      else none
]

unfoldable pub candidates : VerseId → Bool → List MappingView → List Candidate
candidates verse upward [] = []
candidates verse upward (row ∷ rows) =
    let rest = candidates verse upward rows in
    elim (candidate verse upward row) [ none ↦ rest | some c ↦ c ∷ rest ]

abbrev pub candidate_key : Candidate → ℕ × ℕ
candidate_key c = (c.width, c.ordinal)

unfoldable pub find_covering_record : List MappingView → VerseId → Bool → Option MappingView
find_covering_record mappings verse upward =
    elim (head? (sorted_by candidate_key (candidates verse upward mappings))) [
      | none ↦ none
      | some c ↦ some c.row
    ]

unfoldable pub unequal_zip_cover : MappingView → Bool → Option (RefRange × RefRange)
unfolding range_length
unequal_zip_cover row upward =
    if not (zip_range row.relation) then none else elim (record_range row upward) [
      | none ↦ none
      | some cover ↦ elim (record_range row (not upward)) [
        | none ↦ none
        | some output ↦
            if range_length cover == range_length output then none else some (cover, output)
      ]
    ]

-- The clamped index, where `base_len` is positive.
abbrev pub clamp_index : ℕ → ℕ → ℕ
clamp_index idx base_len = if leb base_len idx then base_len - 1 else idx

abbrev pub zip_verse : RefRange → RefRange → ℕ → ℕ
zip_verse source base idx =
    if not (base.book == source.book) || not (base.chapter == source.chapter)
    then (let out_verse = base.verse_start + idx in
        if ltb base.verse_end out_verse then base.verse_end else out_verse)
    else base.verse_start + idx

unfoldable pub zip_project : VerseId → RefRange → RefRange → Relation → Option Text → Projection
zip_project verse source base relation part =
    let idx = clamp_index (index_in_range source verse) (base.verse_end + 1 - base.verse_start) in
    record {
      verses =
          record {
            book = base.book;
            chapter = base.chapter;
            verse = zip_verse source base idx;
            part = part;
          }
          ∷ [];
      relation = relation;
      excluded = false;
      merge_siblings = [];
    }

-- Python's `a or b` on optional strings: the empty string is false.
abbrev pub or_else : Option Text → Option Text → Option Text
or_else none b = b
or_else (some []) b = b
or_else (some (c ∷ s)) b = some (c ∷ s)

abbrev pub with_part : Option Text → VerseId → VerseId
with_part part v = record v { part = part }

abbrev pub exclusion : Projection
exclusion = record { verses = []; relation = exclude; excluded = true; merge_siblings = [] }

-- The branches of `project_through` once both ranges are parsed.
unfoldable pub project_ranges :
    VerseId → MappingView → Bool → Relation → RefRange → RefRange → Projection
unfolding zip_project
project_ranges verse row upward relation source base =
    if relation == merge
    then record {
      verses =
          record {
            book = base.book;
            chapter = base.chapter;
            verse = base.verse_start;
            part = verse.part;
          }
          ∷ [];
      relation = merge;
      excluded = false;
      merge_siblings = map (with_part verse.part) (expand source);
    }
    else if relation == split
    then record {
      verses = map (with_part verse.part) (expand base);
      relation = split;
      excluded = false;
      merge_siblings = [];
    }
    else if relation == partial
    then zip_project verse source base partial
        (if upward then row.part else or_else verse.part row.part)
    else zip_project verse source base relation verse.part

-- A base-less merge collapses onto the first coordinate of its own range.
abbrev pub first_coordinate : RefRange → Text
first_coordinate r =
    format_bcv (record { book = r.book; chapter = r.chapter; verse = r.verse_start; part = none })

-- What the function does with the text of each side.
project_sides :
    VerseId → MappingView → Bool → Relation → Option Text → Option Text → Result Projection
project_sides verse row upward relation none base_raw = raised assertion_failed
project_sides verse row upward relation (some src_raw) none =
    if not (relation == merge) then ok exclusion else do
      source ← parse_ref_plain src_raw
      source_range ← parse_ref_plain src_raw
      base_range ← parse_ref_plain (first_coordinate source)
      ok (project_ranges verse row upward relation source_range base_range)
project_sides verse row upward relation (some src_raw) (some base_raw) = do
  source_range ← parse_ref_plain src_raw
  base_range ← parse_ref_plain base_raw
  ok (project_ranges verse row upward relation source_range base_range)

unfoldable pub project_through : VerseId → MappingView → Bool → Result Projection
unfolding project_sides
project_through verse row upward =
    let relation = if upward then row.relation else invert_relation row.relation in
    if relation == exclude
    then ok exclusion
    else project_sides verse row upward relation (cover_side row upward)
        (cover_side row (not upward))

unfoldable pub apply_identity : VerseId → Projection
apply_identity verse = record {
  verses = verse ∷ [];
  relation = one_to_one;
  excluded = false;
  merge_siblings = [];
}

unfoldable pub project_verse : VerseId → List MappingView → Bool → Result Projection
unfolding apply_identity
project_verse verse mappings upward = elim (find_covering_record mappings verse upward) [
  | none ↦ ok (apply_identity verse)
  | some row ↦ project_through verse row upward
]
