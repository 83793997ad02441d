-- ===== src/Resolver/RangeHull/Met.antt =====
-- The verses that the walk of frvt/resolver/range_hull.py meets, described one verse after the other
-- and apart from its loops.
use versification_tool.Prelude.{
  ℕ, suc, ◌≡◌, refl, sym, ap, ◌∙◌, inl, inr, Bool, true, false, List, [], ◌∷◌, ◌++◌, ◌⊎◌,
  if◌then◌else◌,
}
use mathlib.Core.Logic.{⊎_elim}
use mathlib.Core.Path.{subst}
use mathlib.Core.List.{Memᴰ}
use mathlib.Core.List.Memᴰ
use versification_tool.Prelude.Compare.{nat_ord, list_ord, pair_ord}
use versification_tool.Prelude.Sorting.{Memᴰ-sorted_set→Memᴰ, Memᴰ→Memᴰ-sorted_set}
use versification_tool.Resolver.Types.{VerseId, verse_eq, MappingView, Hop, ok, ok_inj, >>=-eq-ok}
use versification_tool.Resolver.Cover.{Projection, project_verse}
use versification_tool.Resolver.Walk.{verse_key, sort_verses}
use versification_tool.Resolver.RangeHull.{next_verses}

-- A hop leads from one verse to another: it projects the first, does not exclude it, and the second
-- is one of the verses that it gives.
pub record Leads (up : Bool) (rows : List MappingView) (v w : VerseId) : Type 0 where
  pub projection : Projection
  pub projected : project_verse v rows up ≡ ok projection
  pub included : projection.excluded ≡ false
  pub given : Memᴰ w projection.verses

-- From a verse, the walk through some hops meets another at the hop of an index.
pub data Meets (up : Bool) : List Hop → VerseId → ℕ → Hop → VerseId → Type 0 where
  here : {hop : Hop} {hops : List Hop} {v : VerseId} → Meets up (hop ∷ hops) v 0 hop v
  further :
      {hop at : Hop} {hops : List Hop} {v w met : VerseId} {place : ℕ}
      → Leads up hop.mappings v w
      → Meets up hops w place at met
      → Meets up (hop ∷ hops) v (suc place) at met

-- From a verse, all hops lead to another.
pub data Arrives (up : Bool) : List Hop → VerseId → VerseId → Type 0 where
  done : {v : VerseId} → Arrives up [] v v
  through :
      {hop : Hop} {hops : List Hop} {v w last : VerseId}
      → Leads up hop.mappings v w
      → Arrives up hops w last
      → Arrives up (hop ∷ hops) v last

-- What one verse adds to the verses of a hop.
added-here :
    (b : Bool) (w : VerseId) (vs rest : List VerseId)
    → b ≡ false
    → Memᴰ w vs
    → Memᴰ w (if b then rest else vs ++ rest)
added-here true w vs rest e m = cc
added-here false w vs rest e m = Memᴰ.append_left rest m

added-later :
    (b : Bool) (w : VerseId) (vs rest : List VerseId)
    → Memᴰ w rest
    → Memᴰ w (if b then rest else vs ++ rest)
added-later true w vs rest m = m
added-later false w vs rest m = Memᴰ.append_right vs m

added-cases :
    (b : Bool) (w : VerseId) (vs rest : List VerseId)
    → Memᴰ w (if b then rest else vs ++ rest)
    → ((b ≡ false) × Memᴰ w vs) ⊎ Memᴰ w rest
added-cases true w vs rest m = inr m
added-cases false w vs rest m = ⊎_elim (λ k. inl (refl, k)) inr (Memᴰ.append_cases vs m)

next_verses_complete :
    (up : Bool) (rows : List MappingView) (current gathered : List VerseId) (v w : VerseId)
    → next_verses up rows current ≡ ok gathered
    → Memᴰ v current
    → Leads up rows v w
    → Memᴰ w gathered
unfolding next_verses
next_verses_complete up rows [] gathered v w e m l = absurd (Memᴰ.not-nil m)
next_verses_complete up rows (u ∷ us) gathered v w e m l =
    let (p, made, after) = >>=-eq-ok (project_verse u rows up) _ e in
    let (rest, later, last) = >>=-eq-ok (next_verses up rows us) _ after in
    subst (Memᴰ w) (ok_inj last) (
      ⊎_elim
        (λ q.
          let same : l.projection ≡ p =
            ok_inj (sym l.projected ∙ ap (λ (x : VerseId). project_verse x rows up) q ∙ made) in
          added-here p.excluded w p.verses rest
            (ap (λ (x : Projection). x.excluded) (sym same) ∙ l.included)
            (subst (λ (x : Projection). Memᴰ w x.verses) same l.given))
        (λ k.
          added-later p.excluded w p.verses rest
            (next_verses_complete up rows us rest v w later k l))
        (Memᴰ.cases_cons m))

next_verses_sound :
    (up : Bool) (rows : List MappingView) (current gathered : List VerseId) (w : VerseId)
    → next_verses up rows current ≡ ok gathered
    → Memᴰ w gathered
    → (v : VerseId) × Memᴰ v current × Leads up rows v w
unfolding next_verses
next_verses_sound up rows [] gathered w e m =
    absurd (Memᴰ.not-nil (subst (Memᴰ w) (sym (ok_inj e)) m))
next_verses_sound up rows (u ∷ us) gathered w e m =
    let (p, made, after) = >>=-eq-ok (project_verse u rows up) _ e in
    let (rest, later, last) = >>=-eq-ok (next_verses up rows us) _ after in
    elim (added-cases p.excluded w p.verses rest (subst (Memᴰ w) (sym (ok_inj last)) m)) [
      | inl (kept, k) ↦ (
        u,
        Memᴰ.head refl,
        record { projection = p; projected = made; included = kept; given = k },
      )
      | inr k ↦ let (v, at, l) = next_verses_sound up rows us rest w later k in (v, Memᴰ.tail at, l)
    ]

-- The verses of the next hop are those that a verse of this hop leads to.
pub sorted_complete :
    (up : Bool) (rows : List MappingView) (current gathered : List VerseId) (v w : VerseId)
    → next_verses up rows current ≡ ok gathered
    → Memᴰ v current
    → Leads up rows v w
    → Memᴰ w (sort_verses gathered)
unfolding sort_verses
sorted_complete up rows current gathered v w e m l =
    Memᴰ→Memᴰ-sorted_set verse_key w gathered
      (next_verses_complete up rows current gathered v w e m l)

pub sorted_sound :
    (up : Bool) (rows : List MappingView) (current gathered : List VerseId) (w : VerseId)
    → next_verses up rows current ≡ ok gathered
    → Memᴰ w (sort_verses gathered)
    → (v : VerseId) × Memᴰ v current × Leads up rows v w
unfolding sort_verses
sorted_sound up rows current gathered w e m =
    next_verses_sound up rows current gathered w e (Memᴰ-sorted_set→Memᴰ verse_key w gathered m)
