-- ===== src/Api/Indexing/Keys.antt =====
-- The keys of mappings in frvt/api/indexing/keys.py.
use versification_tool.Prelude.{
  ℕ, ◌≡◌, refl, ap, sym, ◌∙◌, inl, inr, true, ◌⊎◌, none, some, Bool-cases, some_inj, nat_beq_iff,
}
use mathlib.Core.Path.{subst}
use versification_tool.Prelude.Equality.{nat_eq, ◌==◌}
use versification_tool.Prelude.Texts.{Text, strip}
use versification_tool.Resolver.Types.{VerseId, RefRange, Result, Raised, ok, raised}
use versification_tool.Resolver.Reference.{parse_ref, format_bcv}
use versification_tool.Resolver.Reference.Grammar.{IsBook}
use versification_tool.Resolver.Reference.Accepts.{parse_ref_iff}
use versification_tool.Resolver.Reference.RoundTrip.{single, parse_ref-format_bcv}
use versification_tool.Resolver.Reference.Plain.{strip-accepted}
use versification_tool.Api.Indexing.Builder.{index_key}

accepted-IsBook : (s : Text) (r : RefRange) → parse_ref s ≡ ok r → IsBook r.book
accepted-IsBook s r h =
    let (g, reference, _, same, _) = (parse_ref_iff s r).0 h in
    subst IsBook (ap (λ (x : RefRange). x.book) (sym same)) reference.book

abbrev whole : RefRange → VerseId
whole r = record { book = r.book; chapter = r.chapter; verse = r.verse_start; part = none }

Result-cases :
    (m : Result RefRange) → ((e : Raised) × (m ≡ raised e)) ⊎ ((r : RefRange) × (m ≡ ok r))
Result-cases (raised e) = inl (e, refl)
Result-cases (ok r) = inr (r, refl)

-- What a key was made of.
of_key :
    (ref key : Text)
    → index_key ref ≡ some key
    → (v : VerseId) × IsBook v.book × (parse_ref (strip ref) ≡ ok (single v)) × (key ≡ format_bcv v)
unfolding index_key
of_key ref key e = elim (Result-cases (parse_ref (strip ref))) [
  | inl (x, p) ↦ let e' = rw (p, index_key) at e in cc
  | inr (r, p) ↦ elim (Bool-cases (r.verse_start == r.verse_end)) [
    | inl t ↦
        let named = some_inj (rw (p, t, index_key) at e) in
        let one : r ≡ single (whole r) =
          ap (λ (n : ℕ). record r { verse_end = n })
            (sym ((nat_beq_iff r.verse_start r.verse_end).0 t)) in
        (whole r, accepted-IsBook (strip ref) r p, p ∙ ap ok one, sym named)
    | inr f ↦ let e' = rw (p, f, index_key) at e in cc
  ]
]

-- A key is the key of itself; and references with one key name one verse, alone.
pub index_key-index_key :
    (ref other key : Text)
    → index_key ref ≡ some key
    → index_key other ≡ some key
    → (index_key key ≡ some key)
      × ((v : VerseId) × (parse_ref (strip ref) ≡ ok (single v))
          × (parse_ref (strip other) ≡ ok (single v)))
unfolding index_key format_bcv
index_key-index_key ref other key e f =
    let (v, book, at_ref, k) = of_key ref key e in
    let (w, book', at_other, l) = of_key other key f in
    let parsed : parse_ref key ≡ ok (single v) = ap parse_ref k ∙ parse_ref-format_bcv v book in
    let parsed' : parse_ref key ≡ ok (single w) = ap parse_ref l ∙ parse_ref-format_bcv w book' in
    let trimmed = strip-accepted key (single v) parsed in
    let own : (v.verse == v.verse) ≡ true = (nat_beq_iff v.verse v.verse).1 refl in
    (
      rw (trimmed, parsed, own, index_key) (ap some (sym k)),
      (v, at_ref, at_other ∙ sym parsed' ∙ parsed),
    )
