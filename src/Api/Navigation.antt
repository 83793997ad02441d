-- ===== src/Api/Navigation.antt =====
-- frvt/api/routers/navigation.py: the rows of the jump menu between two translations. Their order and
-- the entries of the reply are left out.
pub mod Menu
pub mod Target
pub mod Filtered
pub mod Shown
pub mod Reciprocal
use versification_tool.Prelude.{
  ℕ, Bool, true, false, ◌&&◌, ◌||◌, Option, none, some, List, [], ◌∷◌, ◌++◌, map, if◌then◌else◌,
}
use versification_tool.Prelude.Equality.{Eq, nat_eq, pair_eq, option_eq, contains, ◌==◌}
use versification_tool.Prelude.Texts.{Text, text_eq, codes, strip}
use versification_tool.Resolver.Types.{
  Relation, one_to_one, VerseId, Resolution, MappingView, RefRange, Raised, Result, ok, raised,
  relation_eq, ◌>>=◌,
}
use versification_tool.Resolver.Reference.{
  Groups, parse_ref, strip_part_suffix, match_prefix, format_bcv,
}
use versification_tool.Resolver.Compose.{invert_relation}
use versification_tool.Api.Jump.{
  Navigation, Context, Memo, no_memo, ProcessCache, is_canceling_jump_entry,
  filter_canceling_jump_rows, resolve_navigation_dto, resolved_target_ref_for_jump,
}
use versification_tool.Api.Jump.Content.{is_unreachable_jump_entry, filter_unreachable_jump_rows}

pub record JumpMapping : Type 0 where
  pub source_ref : Text
  pub base_ref : Option Text
  pub part : Option Text
  pub relation : Relation
  pub scheme_name : Option Text

-- `except ReferenceError`: the leading `BOOK C:V`, or the error again
abbrev pub read_match : Raised → Option (Groups × Text) → Result RefRange
read_match e none = raised e
read_match e (some (g, rest)) = parse_ref (g.book ++ (b' ' ∷ (g.chapter_s ++ (b':' ∷ g.start_s))))

unfoldable pub leading_verse : Text → Result RefRange → Result RefRange
leading_verse plain (ok r) = ok r
leading_verse plain (raised e) = read_match e (match_prefix plain)

-- `part or embedded`
unfoldable pub part_or : Option Text → Option Text → Option Text
part_or none embedded = embedded
part_or (some []) embedded = embedded
part_or (some (x ∷ p)) embedded = some (x ∷ p)

-- The text and the verse of the `NavRef`.
unfoldable pub navigation_target : Text → Option Text → Result (Text × VerseId)
navigation_target source_ref part =
    let (plain, embedded) = strip_part_suffix source_ref in
    leading_verse plain (parse_ref plain) >>= λ r.
    let verse : VerseId = record {
      book = r.book;
      chapter = r.chapter;
      verse = r.verse_start;
      part = part_or part embedded;
    } in
    ok (format_bcv verse, verse)

unfoldable pub jump_navigation_ref : JumpMapping → Result Navigation
jump_navigation_ref row =
    navigation_target row.source_ref row.part >>= λ target. ok (target.0, row.part)

-- `_mapping_signature`
abbrev pub Signature : Type 0
Signature = (Text × Option Text) × (Option Text × Relation)

unfoldable pub mapping_signature : MappingView → Signature
mapping_signature row = ((row.source_ref, row.base_ref), (row.part, row.relation))

-- The rows of a scheme that is based on a translation, without the rows that are `one_to_one`.
unfoldable pub delta_rows : Option ℕ → List MappingView → List MappingView
delta_rows none rows = []
delta_rows (some t) [] = []
delta_rows (some t) (row ∷ rows) =
    let rest = delta_rows (some t) rows in if row.relation == one_to_one then rest else row ∷ rest

-- `signature in ..._signatures`
unfoldable pub has_signature : Signature → List MappingView → Bool
has_signature s [] = false
has_signature s (row ∷ rows) = s == mapping_signature row || has_signature s rows

unfoldable pub from_difference : Option Text → MappingView → JumpMapping
from_difference name row = record {
  source_ref = row.source_ref;
  base_ref = row.base_ref;
  part = row.part;
  relation = row.relation;
  scheme_name = name;
}

-- `ancestor_ref or target_ref`
abbrev pub text_or : Option Text → Text → Text
text_or none other = other
text_or (some []) other = other
text_or (some (x ∷ s)) other = x ∷ s

-- `target_ref if ancestor_ref is not None else None`
abbrev pub if_present : Option Text → Text → Option Text
if_present none target_ref = none
if_present (some a) target_ref = some target_ref

unfoldable pub to_difference : Option Text → MappingView → JumpMapping
to_difference name row = record {
  source_ref = text_or row.base_ref row.source_ref;
  base_ref = if_present row.base_ref row.source_ref;
  part = row.part;
  relation = invert_relation row.relation;
  scheme_name = name;
}

-- The rows whose signature the other scheme lacks.
unfoldable pub only_here : List MappingView → List MappingView → List MappingView
only_here [] others = []
only_here (row ∷ rows) others =
    let rest = only_here rows others in
    if has_signature (mapping_signature row) others then rest else row ∷ rest
