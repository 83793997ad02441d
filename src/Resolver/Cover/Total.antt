-- ===== src/Resolver/Cover/Total.antt =====
-- What `project_verse` raises (frvt/resolver/cover.py).
use versification_tool.Prelude.{
  ◌≡◌, ◌∙◌, ap, inl, inr, true, false, not, Bool, Option, none, some, List, arith, Bool-cases,
  Option-cases, some_inj, if◌then◌else◌,
}
use mathlib.Core.List.{Memᴰ}
use versification_tool.Prelude.Equality.{◌==◌}
use versification_tool.Prelude.Texts.{Text}
use versification_tool.Resolver.Types.{
  Relation, merge, exclude, VerseId, RefRange, MappingView, ok, raised, Raised, reference_error,
  relation_eq, ◌>>=◌, Result-cases, >>=-eq-raised,
}
use versification_tool.Resolver.Reference.{parse_ref, read_groups, format_bcv}
use versification_tool.Resolver.Reference.Grammar.{IsBook}
use versification_tool.Resolver.Reference.Accepts.{parse_ref_iff}
use versification_tool.Resolver.Reference.RoundTrip.{parse_ref-format_bcv, single}
use versification_tool.Resolver.Reference.Plain.{strip_part_suffix-plain}
use versification_tool.Resolver.Compose.{invert_relation}
use versification_tool.Resolver.Cover.{
  Projection, parse_ref_plain, cover_side, record_range, first_coordinate, project_sides,
  project_through, apply_identity, exclusion, find_covering_record, project_verse, project_ranges,
}
use versification_tool.Resolver.Cover.Search.{find_covering_record-IsNarrowest}

-- The side is absent or parses.
abbrev pub Parses : Option Text → Type 0
Parses none = Unit
Parses (some s) = (r : RefRange) × (parse_ref_plain s ≡ ok r)

-- Both references of a row parse.
pub record IsWellFormed (row : MappingView) : Type 0 where
  pub source : Parses (some row.source_ref)
  pub base : Parses row.base_ref

book_of_parse : (s : Text) (r : RefRange) → parse_ref s ≡ ok r → IsBook r.book
book_of_parse s r h =
    let (g, reference, text, same, ordered) = (parse_ref_iff s r).0 h in rw same reference.book

-- A coordinate that is formatted from a parsed range parses as the range of its first verse.
pub first_coordinate_lem :
    (s : Text) (r : RefRange)
    → parse_ref_plain s ≡ ok r
    → parse_ref_plain (first_coordinate r)
      ≡ ok (
          single
            (record { book = r.book; chapter = r.chapter; verse = r.verse_start; part = none }))
unfolding parse_ref_plain
first_coordinate_lem s r h =
    let v : VerseId = record {
      book = r.book;
      chapter = r.chapter;
      verse = r.verse_start;
      part = none;
    } in
    let back = parse_ref-format_bcv v (book_of_parse _ r h) in
    rw (strip_part_suffix-plain (format_bcv v) (single v) back) back

first_coordinate-Parses :
    (s : Text) (r : RefRange) → parse_ref_plain s ≡ ok r → Parses (some (first_coordinate r))
first_coordinate-Parses s r h = (_, first_coordinate_lem s r h)

project_sides-ok :
    (verse : VerseId) (row : MappingView) (upward : Bool) (r : Relation) (src : Text)
    (base_raw : Option Text)
    → Parses (some src)
    → Parses base_raw
    → (p : Projection) × (project_sides verse row upward r (some src) base_raw ≡ ok p)
unfolding project_sides
project_sides-ok verse row upward r src (some b) (s, hs) (t, ht) =
    (project_ranges verse row upward r s t, rw (hs, ht))
project_sides-ok verse row upward r src none (s, hs) h = elim (Bool-cases (r == merge)) [
  | inr f ↦ (exclusion, rw f)
  | inl e ↦
      let (t, ht) = first_coordinate-Parses src s hs in
      (project_ranges verse row upward r s t, rw (e, hs, ht))
]

pub cover_side-of-record_range :
    (row : MappingView) (upward : Bool) (cover : RefRange)
    → record_range row upward ≡ some cover
    → (src : Text) × (cover_side row upward ≡ some src) × (parse_ref_plain src ≡ ok cover)
unfolding record_range
cover_side-of-record_range row upward cover h = elim (Option-cases (cover_side row upward)) [
  | inl n ↦ cc (rw (n, record_range) at h)
  | inr (src, e) ↦ elim (Result-cases (parse_ref_plain src)) [
    | inl (r, q) ↦ (src, e, q ∙ ap ok (some_inj (rw (e, q, record_range) at h)))
    | inr (x, q) ↦ cc (rw (e, q, record_range) at h)
  ]
]

other_side-Parses :
    (row : MappingView) (upward : Bool) → IsWellFormed row → Parses (cover_side row (not upward))
other_side-Parses row true w = w.base
other_side-Parses row false w = w.source

project_through-ok :
    (verse : VerseId) (row : MappingView) (upward : Bool) (cover : RefRange)
    → record_range row upward ≡ some cover
    → IsWellFormed row
    → (p : Projection) × (project_through verse row upward ≡ ok p)
unfolding project_through
project_through-ok verse row upward cover h w =
    let relation = if upward then row.relation else invert_relation row.relation in
    let (src, e, q) = cover_side-of-record_range row upward cover h in
    let (p, made) =
      project_sides-ok verse row upward relation src (cover_side row (not upward)) (cover, q)
        (other_side-Parses row upward w) in
    elim (Bool-cases (relation == exclude)) [
      | inl t ↦ (exclusion, rw (t, project_through))
      | inr f ↦ (p, rw (f, e, project_through) made)
    ]

-- Where both references of every row parse, or the base is absent, projecting a verse never raises.
pub project_verse-ok :
    (verse : VerseId) (rows : List MappingView) (upward : Bool)
    → ((row : MappingView) → Memᴰ row rows → IsWellFormed row)
    → (p : Projection) × (project_verse verse rows upward ≡ ok p)
unfolding project_verse
project_verse-ok verse rows upward w =
    elim (Option-cases (find_covering_record rows verse upward)) [
      | inl n ↦ (apply_identity verse, rw (n, project_verse))
      | inr (row, e) ↦
          let found = find_covering_record-IsNarrowest rows verse upward row e in
          let (p, made) =
            project_through-ok verse row upward found.applies.cover found.applies.side
              (w row found.member) in
          (p, rw (e, project_verse) made)
    ]

parse_ref_plain-raised :
    (s : Text) (x : Raised) → parse_ref_plain s ≡ raised x → reference_error x ≡ true
unfolding parse_ref_plain parse_ref read_groups
parse_ref_plain-raised s x h = ground arith

one_parse :
    (s : Text) (f : RefRange → Projection) (x : Raised)
    → (parse_ref_plain s >>= λ a. ok (f a)) ≡ raised x
    → reference_error x ≡ true
one_parse s f x h = elim (>>=-eq-raised (parse_ref_plain s) (λ a. ok (f a)) h) [
  | inl e ↦ parse_ref_plain-raised s x e
  | inr (a, e, q) ↦ cc
]

two_parses :
    (s t : Text) (f : RefRange → RefRange → Projection) (x : Raised)
    → (parse_ref_plain s >>= λ a. parse_ref_plain t >>= λ b. ok (f a b)) ≡ raised x
    → reference_error x ≡ true
two_parses s t f x h =
    elim (>>=-eq-raised (parse_ref_plain s) (λ a. parse_ref_plain t >>= λ b. ok (f a b)) h) [
      | inl e ↦ parse_ref_plain-raised s x e
      | inr (a, e, q) ↦ one_parse t (f a) x q
    ]

project_sides-raised :
    (verse : VerseId) (row : MappingView) (upward : Bool) (r : Relation) (src : Text)
    (base_raw : Option Text) (x : Raised)
    → project_sides verse row upward r (some src) base_raw ≡ raised x
    → reference_error x ≡ true
unfolding project_sides
project_sides-raised verse row upward r src (some b) x h =
    two_parses src b (project_ranges verse row upward r) x h
project_sides-raised verse row upward r src none x h = elim (Bool-cases (r == merge)) [
  | inr f ↦ cc (rw (f, project_sides) at h)
  | inl t ↦ elim (Result-cases (parse_ref_plain src)) [
    | inr (y, e) ↦ parse_ref_plain-raised src x (e ∙ ground (arith, h, t, e))
    | inl (s, e) ↦
        one_parse (first_coordinate s) (project_ranges verse row upward r s) x
          (rw (t, e, project_sides) at h)
  ]
]

-- Projecting a verse raises nothing but `ReferenceError`, whatever the rows: the `assert` holds.
pub project_verse-raised :
    (verse : VerseId) (rows : List MappingView) (upward : Bool) (x : Raised)
    → project_verse verse rows upward ≡ raised x
    → reference_error x ≡ true
unfolding project_verse project_through
project_verse-raised verse rows upward x h =
    elim (Option-cases (find_covering_record rows verse upward)) [
      | inl n ↦ cc (rw (n, project_verse) at h)
      | inr (row, e) ↦
          let found = find_covering_record-IsNarrowest rows verse upward row e in
          let relation = if upward then row.relation else invert_relation row.relation in
          let (src, side, _) =
            cover_side-of-record_range row upward found.applies.cover found.applies.side in
          elim (Bool-cases (relation == exclude)) [
            | inl t ↦ cc (rw (e, t, project_through, project_verse) at h)
            | inr f ↦
                project_sides-raised verse row upward relation src (cover_side row (not upward)) x
                  (rw (e, f, side, project_through, project_verse) at h)
          ]
    ]
