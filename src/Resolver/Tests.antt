-- ===== src/Resolver/Tests.antt =====
-- Sample verses and mapping rows for the tests of the resolver.
pub mod Grammar
pub mod Rows
pub mod Walks
pub mod Schemes
pub mod Results
pub mod Assembled
use versification_tool.Prelude.{ℕ, Option, none, some, List, [], ◌∷◌}
use versification_tool.Prelude.Texts.{Text, codes}
use versification_tool.Resolver.Types.{
  Relation, one_to_one, shift, split, merge, VerseId, RefRange, MappingView, Hop, exclude,
}

abbrev pub gen : Text
gen = codes "GEN"

abbrev pub at : ℕ → VerseId
at n = record { book = gen; chapter = 1; verse = n; part = none }

abbrev pub from_to : ℕ → ℕ → RefRange
from_to m n = record { book = gen; chapter = 1; verse_start = m; verse_end = n }

abbrev pub row : Text → Text → Relation → ℕ → MappingView
row s b r n = record { source_ref = s; base_ref = some b; part = none; relation = r; ordinal = n }

abbrev pub shifting : MappingView
shifting = row (codes "GEN 1:1-2") (codes "GEN 1:3-4") shift 0

abbrev pub splitting : MappingView
splitting = row (codes "GEN 1:5") (codes "GEN 1:6-7") split 1

abbrev pub merging : MappingView
merging = row (codes "GEN 1:8-9") (codes "GEN 1:10") merge 2

abbrev pub wide : MappingView
wide = row (codes "GEN 1:1-9") (codes "GEN 1:1-9") one_to_one 3

-- Its base has no colon.
abbrev pub broken : MappingView
broken = row (codes "GEN 1:1") (codes "GEN 1") shift 4

abbrev pub removing : MappingView
removing = record {
  source_ref = codes "GEN 1:3";
  base_ref = none;
  part = none;
  relation = exclude;
  ordinal = 5;
}

abbrev pub rows : List MappingView
rows = shifting ∷ splitting ∷ merging ∷ wide ∷ []

abbrev pub hop : Hop
hop = record { scheme_id = 1; based_on_id = some 2; mappings = rows }
