-- ===== src/Resolver/RangeHull/Offer.antt =====
-- The triggers that rows offer in frvt/resolver/range_hull.py, and those that one hop collects.
use versification_tool.Prelude.{
  ℕ, ◌+◌, ◌-◌, ◌≡◌, refl, sym, ap, ◌∙◌, inl, inr, Bool, some, List, [], ◌∷◌, Option-cases, some_inj,
}
use mathlib.Core.Logic.{⊎_elim}
use mathlib.Core.List.{Memᴰ}
use mathlib.Core.List.Memᴰ
use versification_tool.Prelude.Equality.{nat_eq}
use versification_tool.Resolver.Types.{VerseId, RefRange, MappingView, Hop}
use versification_tool.Resolver.Cover.{unequal_zip_cover, find_covering_record}
use versification_tool.Resolver.RangeHull.{Side, RangeTrigger, candidate_from_record, triggers_at}
use versification_tool.Resolver.RangeHull.Met.{Meets}

abbrev pub trigger_of : Side → ℕ → MappingView → RefRange → RefRange → RangeTrigger
trigger_of side index row cover output = record {
  side = side;
  hop_index = index;
  cover = cover;
  output = output;
  width = cover.verse_end - cover.verse_start;
  ordinal = row.ordinal;
}

-- A row that covers a verse offers a trigger: it zips its cover to an output of another length.
pub record Covers (side : Side) (up : Bool) (index : ℕ) (rows : List MappingView) (v : VerseId)
    (t : RangeTrigger) : Type 0 where
  pub row : MappingView
  pub cover : RefRange
  pub output : RefRange
  pub covered : find_covering_record rows v up ≡ some row
  pub zips : unequal_zip_cover row up ≡ some (cover, output)
  pub same : trigger_of side index row cover output ≡ t

-- From some verses, the walk through some hops meets a verse that is offered a trigger.
pub record IsOffered (side : Side) (up : Bool) (first : ℕ) (hops : List Hop)
    (start : VerseId → Type 0) (t : RangeTrigger) : Type 0 where
  pub from : VerseId
  pub started : start from
  pub place : ℕ
  pub hop : Hop
  pub verse : VerseId
  pub met : Meets up hops from place hop verse
  pub offer : Covers side up (first + place) hop.mappings verse t

candidate-Covers :
    (side : Side) (up : Bool) (index : ℕ) (rows : List MappingView) (v : VerseId)
    (row : MappingView) (t : RangeTrigger)
    → find_covering_record rows v up ≡ some row
    → candidate_from_record row side index up ≡ some t
    → Covers side up index rows v t
unfolding candidate_from_record
candidate-Covers side up index rows v row t e k = elim (Option-cases (unequal_zip_cover row up)) [
  | inl n ↦ cc (rw (n, candidate_from_record) at k)
  | inr ((cover, output), n) ↦ record {
    row = row;
    cover = cover;
    output = output;
    covered = e;
    zips = n;
    same = some_inj (rw (n, candidate_from_record) at k);
  }
]

pub triggers_at_complete :
    (side : Side) (up : Bool) (index : ℕ) (rows : List MappingView) (vs : List VerseId)
    (v : VerseId) (t : RangeTrigger)
    → Memᴰ v vs
    → Covers side up index rows v t
    → Memᴰ t (triggers_at side index up rows vs)
unfolding triggers_at candidate_from_record
triggers_at_complete side up index rows [] v t m c = absurd (Memᴰ.not-nil m)
triggers_at_complete side up index rows (u ∷ us) v t m c =
    ⊎_elim
      (λ q.
        let found : find_covering_record rows u up ≡ some c.row =
          ap (λ (x : VerseId). find_covering_record rows x up) (sym q) ∙ c.covered in
        rw (found, c.zips, triggers_at, candidate_from_record) (Memᴰ.head (sym c.same)))
      (λ k.
        let rest = triggers_at_complete side up index rows us v t k c in
        elim (Option-cases (find_covering_record rows u up)) [
          | inl n ↦ rw (n, triggers_at) rest
          | inr (row, n) ↦ elim (Option-cases (candidate_from_record row side index up)) [
            | inl f ↦ rw (n, triggers_at) (rw (f, triggers_at) rest)
            | inr (d, f) ↦ rw (n, triggers_at) (rw (f, triggers_at) (Memᴰ.tail rest))
          ]
        ])
      (Memᴰ.cases_cons m)

pub triggers_at_sound :
    (side : Side) (up : Bool) (index : ℕ) (rows : List MappingView) (vs : List VerseId)
    (t : RangeTrigger)
    → Memᴰ t (triggers_at side index up rows vs)
    → (v : VerseId) × Memᴰ v vs × Covers side up index rows v t
unfolding triggers_at
triggers_at_sound side up index rows [] t m = absurd (Memᴰ.not-nil m)
triggers_at_sound side up index rows (v ∷ vs) t m =
    let later : Memᴰ t (triggers_at side index up rows vs)
        → (w : VerseId) × Memᴰ w (v ∷ vs) × Covers side up index rows w t =
      λ k. let (w, at, c) = triggers_at_sound side up index rows vs t k in (w, Memᴰ.tail at, c) in
    elim (Option-cases (find_covering_record rows v up)) [
      | inl n ↦ later (rw (n, triggers_at) at m)
      | inr (row, n) ↦ elim (Option-cases (candidate_from_record row side index up)) [
        | inl k ↦ later (rw (n, k, triggers_at) at m)
        | inr (d, k) ↦
            ⊎_elim
              (λ q. (
                v,
                Memᴰ.head refl,
                candidate-Covers side up index rows v row t n (k ∙ ap some (sym q)),
              ))
              later (Memᴰ.cases_cons (rw (n, k, triggers_at) at m))
      ]
    ]
