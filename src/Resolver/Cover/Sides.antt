-- ===== src/Resolver/Cover/Sides.antt =====
-- Rows both of whose references parse (frvt/resolver/cover.py).
use versification_tool.Prelude.{◌≡◌, true, false, some}
use versification_tool.Prelude.Equality.{◌==◌}
use versification_tool.Prelude.Texts.{Text}
use versification_tool.Resolver.Types.{exclude, VerseId, RefRange, MappingView, ok, relation_eq}
use versification_tool.Resolver.Compose.{invert_relation}
use versification_tool.Resolver.Cover.{
  parse_ref_plain, project_ranges, project_sides, project_through,
}

-- Both sides of the row are references, to these ranges.
pub record Sides (row : MappingView) (source base : RefRange) : Type 0 where
  pub base_raw : Text
  pub has_base : row.base_ref ≡ some base_raw
  pub source_parses : parse_ref_plain row.source_ref ≡ ok source
  pub base_parses : parse_ref_plain base_raw ≡ ok base

module _ (row : MappingView) (source base : RefRange) (s : Sides row source base)
    (v : VerseId) where
  pub climb :
      (row.relation == exclude) ≡ false
      → project_through v row true ≡ ok (project_ranges v row true row.relation source base)
  unfolding project_through project_ranges
  climb n = rw (n, s.has_base, project_sides, s.source_parses, s.base_parses)

  pub descend :
      (invert_relation row.relation == exclude) ≡ false
      → project_through v row false
        ≡ ok (project_ranges v row false (invert_relation row.relation) base source)
  unfolding project_through project_ranges
  descend n = rw (n, s.has_base, project_sides, s.source_parses, s.base_parses)
