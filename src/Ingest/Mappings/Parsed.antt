-- ===== src/Ingest/Mappings/Parsed.antt =====
-- The references of derived rows (frvt/ingest/derive_mappings.py).
use versification_tool.Prelude.{◌≡◌, refl, ap, sym, ◌∙◌, true, false, Option, none, some}
use mathlib.Core.Logic.{⊎_elim}
use mathlib.Core.Path.{subst}
use mathlib.Core.List.{Memᴰ}
use mathlib.Core.List.Memᴰ
use versification_tool.Prelude.Texts.{Text}
use versification_tool.Resolver.Types.{Relation, MappingView, ok, >>=-eq-ok}
use versification_tool.Resolver.Reference.{parse_ref, strip_part_suffix}
use versification_tool.Resolver.Cover.{zip_range, parse_ref_plain}
use versification_tool.Resolver.Cover.Total.{IsWellFormed, Parses}
use versification_tool.Ingest.Mappings.{
  Ingredient, classify_mapped, Derived, push, derive_mapping_records,
}
use versification_tool.Ingest.Mappings.Ordinals.{
  IsListed, excluded, merged, splits, parts, derived-keeps,
}

-- The zip rows have references that parse.
abbrev ZipsParse : Derived → Type 0
ZipsParse d =
    (row : MappingView) → Memᴰ row d.rows → zip_range row.relation ≡ true → IsWellFormed row

listed-not_zip : (r : Relation) → IsListed r → zip_range r ≡ false
listed-not_zip _ excluded = refl
listed-not_zip _ merged = refl
listed-not_zip _ splits = refl
listed-not_zip _ parts = refl

push-ZipsParse :
    (s : Text) (b p : Option Text) (r : Relation) (d : Derived)
    → ((row : MappingView)
        → row.source_ref ≡ s
        → row.base_ref ≡ b
        → zip_range r ≡ true
        → IsWellFormed row)
    → ZipsParse d
    → ZipsParse (push s b p r d)
unfolding push
push-ZipsParse s b p r d new h row m z =
    ⊎_elim (λ q. h row q z)
      (λ q.
        let e = Memᴰ.eq_of_singleton q in
        new row (ap (λ (x : MappingView). x.source_ref) e) (ap (λ (x : MappingView). x.base_ref) e)
          (ap (λ (x : MappingView). zip_range x.relation) (sym e) ∙ z))
      (Memᴰ.append_cases d.rows m)

pair-IsWellFormed :
    (key value : Text) (r : Relation) (row : MappingView)
    → classify_mapped key value ≡ ok r
    → row.source_ref ≡ key
    → row.base_ref ≡ some value
    → IsWellFormed row
unfolding classify_mapped parse_ref_plain
pair-IsWellFormed key value r row e s b =
    let (source, parsed, after) = >>=-eq-ok (parse_ref (strip_part_suffix key).0) _ e in
    let (base, parsed', made) = >>=-eq-ok (parse_ref (strip_part_suffix value).0) _ after in
    record {
      source = subst (λ (t : Text). Parses (some t)) (sym s) (source, parsed);
      base = subst Parses (sym b) (base, parsed');
    }

-- A derived row of the zip class has a source and a base that the resolver can parse.
pub derive_mapping_records-IsWellFormed :
    (g : Ingredient) (row : MappingView)
    → Memᴰ row (derive_mapping_records g)
    → zip_range row.relation ≡ true
    → IsWellFormed row
derive_mapping_records-IsWellFormed g row m =
    let (d, parsed, same) =
      derived-keeps ZipsParse
        (λ key value r d c.
          push-ZipsParse key (some value) none r d
            (λ x s b z. pair-IsWellFormed key value r x c s b))
        (λ s b p r d l. push-ZipsParse s b p r d (λ x e k z. let n = listed-not_zip r l in cc)) g
        (λ x q z. absurd (Memᴰ.not-nil q)) in
    parsed row (subst (Memᴰ row) same m)
