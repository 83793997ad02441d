-- ===== src/Resolver/Tests/Grammar.antt =====
-- Tests of references and of relations.
use versification_tool.Prelude.{◌≡◌, refl, ◌↔◌, some}
use versification_tool.Prelude.Texts.{codes, strip}
use versification_tool.Prelude.Decimal.{read}
use versification_tool.Resolver.Types.{ok, raised, reversed_range}
use versification_tool.Resolver.Reference.{
  Groups, bcv_range, parse_ref, strip_part_suffix, span_digits, match_prefix, has_embedded_part,
  read_groups, part_suffix,
}
use versification_tool.Resolver.Reference.Accepts.{parse_ref_iff, Denotes}
use versification_tool.Resolver.Tests.{gen, from_to}

groups : Groups
groups = record { book = gen; chapter_s = codes "1"; start_s = codes "3"; end_s = some (codes "4") }

parses : parse_ref (codes "GEN 1:3-4") ≡ ok (from_to 3 4)
unfolding parse_ref span_digits match_prefix has_embedded_part bcv_range read_groups read
parses = refl

reversed : parse_ref (codes "GEN 1:4-3") ≡ raised reversed_range
unfolding parse_ref span_digits match_prefix has_embedded_part bcv_range read_groups read
reversed = refl

strips : strip_part_suffix (codes "SIR 36:13a") ≡ (codes "SIR 36:13", some (codes "a"))
unfolding strip_part_suffix part_suffix match_prefix strip span_digits
strips = refl

parse_ref_iff_example :
    (parse_ref (codes "GEN 1:3-4") ≡ ok (from_to 3 4)) ↔ Denotes (codes "GEN 1:3-4") (from_to 3 4)
parse_ref_iff_example = parse_ref_iff (codes "GEN 1:3-4") (from_to 3 4)
