-- ===== src/Resolver/Types.antt =====
-- frvt/resolver/types.py: coordinates, mapping rows, hops and results. A relation is one of the
-- strings that the code stores (`RelationType` of frvt/api/models) or makes while it resolves
-- (`complex`, `range`). A uuid is a number. What a function raises is a value of `Raised`.
use versification_tool.Prelude.{
  ℕ, ◌≡◌, refl, ◌↔◌, ◌⊎◌, inl, inr, Bool, true, false, ◌&&◌, Option, List, arith,
}
use versification_tool.Prelude.Equality.{Eq, list_beq_iff, option_beq, option_beq_iff, nat_eq, ◌==◌}
use versification_tool.Prelude.Texts.{Text, text_eq}

pub data Relation : Type 0 where
  one_to_one shift renumber split merge exclude partial complex range : Relation

pub record VerseId : Type 0 where
  pub book : Text
  pub chapter : ℕ
  pub verse : ℕ
  pub part : Option Text

pub record RefRange : Type 0 where
  pub book : Text
  pub chapter : ℕ
  pub verse_start : ℕ
  pub verse_end : ℕ

pub record SchemeRef : Type 0 where
  pub scheme_id : ℕ
  pub based_on_id : Option ℕ
  pub based_on_name : Option Text

pub record ResolvedSpan : Type 0 where
  pub ref : Text
  pub part : Option Text

pub record ResolutionEdge : Type 0 where
  pub source_index : ℕ
  pub target_index : ℕ
  pub relation : Relation

pub record Resolution : Type 0 where
  pub source_spans : List ResolvedSpan
  pub target_spans : List ResolvedSpan
  pub relation : Relation
  pub edges : List ResolutionEdge
  pub source_rel : Option Relation
  pub target_rel : Option Relation

pub record MappingView : Type 0 where
  pub source_ref : Text
  pub base_ref : Option Text
  pub part : Option Text
  pub relation : Relation
  pub ordinal : ℕ

pub record Hop : Type 0 where
  pub scheme_id : ℕ
  pub based_on_id : Option ℕ
  pub mappings : List MappingView

-- `ReferenceError` with its three messages, `LookupError`, a failed `assert` and `KeyError`. `out_of_fuel` is no
-- exception: the fuel that bounds a loop of the model ran out.
pub data Raised : Type 0 where
  embedded_part invalid_reference reversed_range : Raised
  cycle no_scheme no_shared_ancestor : Raised
  assertion_failed key_missing out_of_fuel : Raised

-- `except ReferenceError` catches these.
abbrev pub reference_error : Raised → Bool
reference_error embedded_part = true
reference_error invalid_reference = true
reference_error reversed_range = true
reference_error _ = false

-- What a function returns, or what it raises.
pub data Result {κ} (X : Type κ) : Type κ where
  ok : X → Result X
  raised : Raised → Result X

pub ok_inj {κ} : {X : Type κ} {x y : X} → ok x ≡ ok y → x ≡ y
ok_inj h = cc

pub Result-cases {κ} :
    {X : Type κ} (m : Result X) → ((x : X) × (m ≡ ok x)) ⊎ ((e : Raised) × (m ≡ raised e))
Result-cases (ok x) = inl (x, refl)
Result-cases (raised e) = inr (e, refl)

-- One step behind another: what the first raises ends the chain.
infixl 5 ◌>>=◌
abbrev pub ◌>>=◌ {κ ℓ} : {X : Type κ} {Y : Type ℓ} → Result X → (X → Result Y) → Result Y
raised e >>= step = raised e
ok x >>= step = step x

-- A chain that returns has a first step that returns.
pub >>=-eq-ok {κ ℓ} :
    {X : Type κ} {Y : Type ℓ} (m : Result X) (step : X → Result Y) {y : Y}
    → (m >>= step) ≡ ok y
    → (x : X) × (m ≡ ok x) × (step x ≡ ok y)
>>=-eq-ok (raised e) step h = cc
>>=-eq-ok (ok x) step h = (x, refl, h)

-- A relation's place among the strings, by which two relations are compared.
abbrev tag : Relation → ℕ
tag one_to_one = 0
tag shift = 1
tag renumber = 2
tag split = 3
tag merge = 4
tag exclude = 5
tag partial = 6
tag complex = 7
tag range = 8

abbrev pub relation_beq : Relation → Relation → Bool
relation_beq a b = tag a == tag b

pub relation_beq_iff : (a b : Relation) → (relation_beq a b ≡ true) ↔ (a ≡ b)
relation_beq_iff a b = ground arith

instance abbrev pub relation_eq : Eq Relation
relation_eq = record { beq = relation_beq; beq_iff = relation_beq_iff }

abbrev pub verse_beq : VerseId → VerseId → Bool
verse_beq a b =
    a.book == b.book && a.chapter == b.chapter && a.verse == b.verse && option_beq a.part b.part

pub verse_beq_iff : (a b : VerseId) → (verse_beq a b ≡ true) ↔ (a ≡ b)
verse_beq_iff a b = ground (arith, list_beq_iff a.book b.book, option_beq_iff a.part b.part)

instance abbrev pub verse_eq : Eq VerseId
verse_eq = record { beq = verse_beq; beq_iff = verse_beq_iff }

-- What a chain of steps raises, one of its steps raises.
pub >>=-eq-raised {ℓ κ} :
    {A : Type ℓ} {B : Type κ} (m : Result A) (f : A → Result B) {e : Raised}
    → (m >>= f) ≡ raised e
    → (m ≡ raised e) ⊎ ((a : A) × (m ≡ ok a) × (f a ≡ raised e))
>>=-eq-raised (ok a) f h = inr (a, refl, h)
>>=-eq-raised (raised x) f h = inl (cc)
