-- ===== src/Ingest/Mappings.antt =====
-- frvt/ingest/derive_mappings.py: the mapping records of a validated ingredient. The ingredient's
-- fields are strings and lists of strings; an object is its entries in their order, with no key
-- twice. A record is the view of it that the resolver reads.
pub mod Ordinals
pub mod Parsed
pub mod Classes
use versification_tool.Prelude.{
  ℕ, ◌+◌, ◌-◌, Bool, true, false, not, ◌&&◌, ◌||◌, Option, none, some, List, [], ◌∷◌, ◌++◌,
  if◌then◌else◌,
}
use versification_tool.Prelude.Equality.{nat_eq, contains, ◌==◌}
use versification_tool.Prelude.Texts.{Text, text_eq}
use versification_tool.Resolver.Types.{
  Relation, one_to_one, shift, renumber, split, merge, exclude, partial, RefRange, MappingView,
  Result, ok, raised, ◌>>=◌,
}
use versification_tool.Resolver.Reference.{parse_ref, strip_part_suffix}

pub record Ingredient : Type 0 where
  pub mapped_verses : List (Text × Text)
  pub excluded_verses : List Text
  pub merged_verses : List Text
  pub split_verses : List Text
  pub partial_verses : List (Text × List Text)

-- The class of a pair of ranges.
unfoldable pub classify_ranges : RefRange → RefRange → Relation
classify_ranges source base =
    let src_len = source.verse_end + 1 - source.verse_start in
    let base_len = base.verse_end + 1 - base.verse_start in
    if not (source.book == base.book)
    then renumber
    else if not (source.chapter == base.chapter)
    then renumber
    else if src_len == 1 && base_len == 1 && source.verse_start == base.verse_start
    then one_to_one
    else if src_len == base_len && not (source.verse_start == base.verse_start)
    then shift
    else if not (src_len == base_len)
    then renumber
    else shift

unfoldable pub classify_mapped : Text → Text → Result Relation
classify_mapped source_ref base_ref = do
  source ← parse_ref (strip_part_suffix source_ref).0
  base ← parse_ref (strip_part_suffix base_ref).0
  ok (classify_ranges source base)

-- `rows` and `ordinal`
pub record Derived : Type 0 where
  pub rows : List MappingView
  pub ordinal : ℕ

-- `rows.append(...)` and `ordinal += 1`
unfoldable pub push : Text → Option Text → Option Text → Relation → Derived → Derived
push source_ref base_ref part relation d = record {
  rows =
      d.rows
      ++ (record {
        source_ref = source_ref;
        base_ref = base_ref;
        part = part;
        relation = relation;
        ordinal = d.ordinal;
      }
          ∷ []);
  ordinal = d.ordinal + 1;
}

-- `mapped.get(ref)`
unfoldable pub lookup : Text → List (Text × Text) → Option Text
lookup ref [] = none
lookup ref ((key, value) ∷ rest) =
    let later = lookup ref rest in if ref == key then some value else later

-- A pair whose references do not parse is left out. Parsing raises `ReferenceError` alone.
unfoldable pub add_pair : Text → Text → Derived → Derived
add_pair key value d = elim (classify_mapped key value) [
  | ok relation ↦ push key (some value) none relation d
  | raised e ↦ d
]

unfoldable pub add_mapped : List Text → List Text → List (Text × Text) → Derived → Derived
add_mapped merged_keys split_keys [] d = d
add_mapped merged_keys split_keys ((key, value) ∷ rest) d =
    let skipped = add_mapped merged_keys split_keys rest d in
    let added = add_mapped merged_keys split_keys rest (add_pair key value d) in
    if contains key merged_keys || contains key split_keys then skipped else added

unfoldable pub add_excluded : List Text → Derived → Derived
add_excluded [] d = d
add_excluded (ref ∷ refs) d = add_excluded refs (push ref none none exclude d)

unfoldable pub add_merged : List (Text × Text) → List Text → Derived → Derived
add_merged mapped [] d = d
add_merged mapped (ref ∷ refs) d =
    add_merged mapped refs (push ref (lookup ref mapped) none merge d)

-- An entry without a pair is left out.
unfoldable pub add_split : List (Text × Text) → List Text → Derived → Derived
add_split mapped [] d = d
add_split mapped (ref ∷ refs) d = elim (lookup ref mapped) [
  | none ↦ add_split mapped refs d
  | some base ↦ add_split mapped refs (push ref (some base) none split d)
]

unfoldable pub add_parts : Text → List Text → Derived → Derived
add_parts ref [] d = d
add_parts ref (part ∷ parts) d = add_parts ref parts (push ref (some ref) (some part) partial d)

unfoldable pub add_partials : List (Text × List Text) → Derived → Derived
add_partials [] d = d
add_partials ((ref, parts) ∷ rest) d = add_partials rest (add_parts ref parts d)

unfoldable pub derive_mapping_records : Ingredient → List MappingView
derive_mapping_records g =
    let classified =
      add_mapped g.merged_verses g.split_verses g.mapped_verses
        (record { rows = []; ordinal = 0 }) in
    let with_excluded = add_excluded g.excluded_verses classified in
    let with_merged = add_merged g.mapped_verses g.merged_verses with_excluded in
    let with_split = add_split g.mapped_verses g.split_verses with_merged in
    (add_partials g.partial_verses with_split).rows
