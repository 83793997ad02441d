-- ===== src/Ingest/Mappings/Classes.antt =====
-- The lengths of derived rows (frvt/ingest/derive_mappings.py), and their projection.
use versification_tool.Prelude.{
  ◌≡◌, refl, ap, sym, ◌∙◌, Bool, true, false, ◌||◌, Option, none, some, [], ◌∷◌, arith,
}
use mathlib.Core.Logic.{⊎_elim}
use mathlib.Core.Path.{subst}
use mathlib.Core.List.{Memᴰ}
use mathlib.Core.List.Memᴰ
use versification_tool.Prelude.Equality.{◌==◌}
use versification_tool.Prelude.Texts.{Text}
use versification_tool.Resolver.Types.{
  Relation, one_to_one, shift, VerseId, RefRange, MappingView, ok, ok_inj, >>=-eq-ok, relation_eq,
}
use versification_tool.Resolver.Reference.{parse_ref, strip_part_suffix, covers}
use versification_tool.Resolver.Cover.{
  Projection, zip_range, range_length, parse_ref_plain, project_through,
}
use versification_tool.Resolver.Cover.Sides.{Sides}
use versification_tool.Resolver.Cover.Zip.{project_through-project_through}
use versification_tool.Ingest.Mappings.{
  Ingredient, classify_ranges, classify_mapped, Derived, push, derive_mapping_records,
}
use versification_tool.Ingest.Mappings.Ordinals.{
  IsListed, excluded, merged, splits, parts, derived-keeps,
}

abbrev pub keeps_length : Relation → Bool
keeps_length r = r == one_to_one || r == shift

classify_ranges-range_length :
    (s b : RefRange) → keeps_length (classify_ranges s b) ≡ true → range_length s ≡ range_length b
unfolding classify_ranges range_length
classify_ranges-range_length s b h = ground (arith, h)

-- Both references parse, to ranges of the same length.
record IsEven (row : MappingView) : Type 0 where
  source : RefRange
  base : RefRange
  sides : Sides row source base
  same_length : range_length source ≡ range_length base

abbrev EvenRows : Derived → Type 0
EvenRows d = (row : MappingView) → Memᴰ row d.rows → keeps_length row.relation ≡ true → IsEven row

push-EvenRows :
    (s : Text) (b p : Option Text) (r : Relation) (d : Derived)
    → ((row : MappingView)
        → row.source_ref ≡ s
        → row.base_ref ≡ b
        → keeps_length r ≡ true
        → IsEven row)
    → EvenRows d
    → EvenRows (push s b p r d)
unfolding push
push-EvenRows s b p r d new h row m z =
    ⊎_elim (λ q. h row q z)
      (λ q.
        let e = Memᴰ.eq_of_singleton q in
        new row (ap (λ (x : MappingView). x.source_ref) e) (ap (λ (x : MappingView). x.base_ref) e)
          (ap (λ (x : MappingView). keeps_length x.relation) (sym e) ∙ z))
      (Memᴰ.append_cases d.rows m)

listed-not_even : (r : Relation) → IsListed r → keeps_length r ≡ false
listed-not_even _ excluded = refl
listed-not_even _ merged = refl
listed-not_even _ splits = refl
listed-not_even _ parts = refl

pair-IsEven :
    (key value : Text) (r : Relation) (row : MappingView)
    → classify_mapped key value ≡ ok r
    → row.source_ref ≡ key
    → row.base_ref ≡ some value
    → keeps_length r ≡ true
    → IsEven row
unfolding classify_mapped parse_ref_plain
pair-IsEven key value r row e s b z =
    let (source, parsed, after) = >>=-eq-ok (parse_ref (strip_part_suffix key).0) _ e in
    let (base, parsed', made) = >>=-eq-ok (parse_ref (strip_part_suffix value).0) _ after in
    record {
      source = source;
      base = base;
      sides = record {
        base_raw = value;
        has_base = b;
        source_parses = ap parse_ref_plain s ∙ parsed;
        base_parses = parsed';
      };
      same_length = classify_ranges-range_length source base (ap keeps_length (ok_inj made) ∙ z);
    }

keeps_length-zip : (r : Relation) → keeps_length r ≡ true → zip_range r ≡ true
keeps_length-zip r h = ground arith

EvenRows-derive_mapping_records :
    (g : Ingredient) (row : MappingView)
    → Memᴰ row (derive_mapping_records g)
    → keeps_length row.relation ≡ true
    → IsEven row
EvenRows-derive_mapping_records g row m =
    let (d, even, same) =
      derived-keeps EvenRows
        (λ key value r d c.
          push-EvenRows key (some value) none r d (λ x s b y. pair-IsEven key value r x c s b y))
        (λ s b p r d l. push-EvenRows s b p r d (λ x e k y. let n = listed-not_even r l in cc)) g
        (λ x q y. absurd (Memᴰ.not-nil q)) in
    even row (subst (Memᴰ row) same m)

-- Where a derived row is a `shift` or `one_to_one`, each verse that its source covers climbs through
-- the row to one verse, and this one descends through the row to the verse again.
pub derive_mapping_records-project_through :
    (g : Ingredient) (row : MappingView) (source : RefRange) (v : VerseId)
    → Memᴰ row (derive_mapping_records g)
    → keeps_length row.relation ≡ true
    → parse_ref_plain row.source_ref ≡ ok source
    → covers source v ≡ true
    → (w : VerseId) × (p : Projection) × (q : Projection) × (project_through v row true ≡ ok p)
      × (p.verses ≡ w ∷ [])
      × (p.relation ≡ row.relation)
      × (project_through w row false ≡ ok q)
      × (q.verses ≡ v ∷ [])
      × (q.relation ≡ row.relation)
derive_mapping_records-project_through g row source v m z parsed h =
    let found = EvenRows-derive_mapping_records g row m z in
    let inside : covers found.source v ≡ true =
      ap (λ (r : RefRange). covers r v) (ok_inj (sym found.sides.source_parses ∙ parsed)) ∙ h in
    project_through-project_through row found.source found.base found.sides
      (keeps_length-zip row.relation z) v inside found.same_length
