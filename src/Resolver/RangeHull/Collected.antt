-- ===== src/Resolver/RangeHull/Collected.antt =====
-- The loop over the hops of frvt/resolver/range_hull.py collects the triggers that its walk offers, and
-- ends at the verses that its walk arrives at.
use versification_tool.Prelude.{
  ℕ, suc, ◌+◌, ◌≡◌, refl, sym, ◌⊎◌, inl, inr, Bool, true, false, List, [], ◌∷◌, ◌++◌, Bool-cases,
  arith,
}
use mathlib.Core.Logic.{⊎_elim}
use mathlib.Core.Path.{subst}
use mathlib.Core.List.{Memᴰ}
use mathlib.Core.List.Memᴰ
use versification_tool.Prelude.Equality.{nat_eq}
use versification_tool.Resolver.Types.{VerseId, Hop, ok, ok_inj, >>=-eq-ok}
use versification_tool.Resolver.Walk.{is_empty, sort_verses}
use versification_tool.Resolver.RangeHull.{Side, RangeTrigger, triggers_at, next_verses, scan}
use versification_tool.Resolver.RangeHull.Met.{
  Meets, here, further, Arrives, done, through, sorted_complete, sorted_sound,
}
use versification_tool.Resolver.RangeHull.Offer.{
  Covers, IsOffered, triggers_at_complete, triggers_at_sound,
}

-- Whether a list with a member is empty.
not_empty : (v : VerseId) (vs : List VerseId) → Memᴰ v vs → is_empty vs ≡ false
not_empty v [] m = absurd (Memᴰ.not-nil m)
not_empty v (w ∷ vs) m = refl

-- What a round of the loop over the hops returns: its candidates, and more if a verse is left.
abbrev Rounds :
    Side → Bool → ℕ → Hop → List Hop → List VerseId → List RangeTrigger × List VerseId → Type 0
Rounds side up i hop hops current found =
    (gathered : List VerseId) × (next_verses up hop.mappings current ≡ ok gathered)
    × (((is_empty (sort_verses gathered) ≡ true)
          × ((triggers_at side i up hop.mappings current, sort_verses gathered) ≡ found))
        ⊎ ((more : List RangeTrigger × List VerseId) × (scan side up (i + 1) hops
                (sort_verses gathered)
              ≡ ok more)
            × ((triggers_at side i up hop.mappings current ++ more.0, more.1) ≡ found)))

scan-Rounds :
    (side : Side) (up : Bool) (i : ℕ) (hop : Hop) (hops : List Hop) (current : List VerseId)
    (found : List RangeTrigger × List VerseId)
    → scan side up i (hop ∷ hops) current ≡ ok found
    → Rounds side up i hop hops current found
unfolding scan
scan-Rounds side up i hop hops current found e =
    let (gathered, projected, after) = >>=-eq-ok (next_verses up hop.mappings current) _ e in
    (
      gathered,
      projected,
      elim (Bool-cases (is_empty (sort_verses gathered))) [
        | inl t ↦ inl (t, ok_inj (rw t at after))
        | inr f ↦
            let (more, scanned, made) =
              >>=-eq-ok (scan side up (i + 1) hops (sort_verses gathered)) _ (rw f at after) in
            inr (more, scanned, ok_inj made)
      ],
    )

module _ (side : Side) (up : Bool) where
  -- The triggers of this hop are among those that are found.
  round-here :
      (i : ℕ) (hop : Hop) (hops : List Hop) (current : List VerseId)
      (found : List RangeTrigger × List VerseId) (t : RangeTrigger)
      → Rounds side up i hop hops current found
      → Memᴰ t (triggers_at side i up hop.mappings current)
      → Memᴰ t found.0
  round-here i hop hops current found t (gathered, projected, inl (e, same)) m =
      subst (λ (p : List RangeTrigger × List VerseId). Memᴰ t p.0) same m
  round-here i hop hops current found t (gathered, projected, inr (more, scanned, same)) m =
      subst (λ (p : List RangeTrigger × List VerseId). Memᴰ t p.0) same (Memᴰ.append_left more.0 m)

  -- A trigger that the walk offers is found.
  pub scan_complete :
      (i : ℕ) (hops : List Hop) (current : List VerseId) (found : List RangeTrigger × List VerseId)
      (v : VerseId) {place : ℕ} {hop : Hop} {verse : VerseId} (t : RangeTrigger)
      → scan side up i hops current ≡ ok found
      → Memᴰ v current
      → Meets up hops v place hop verse
      → Covers side up (i + place) hop.mappings verse t
      → Memᴰ t found.0
  scan_complete i [] current found v t e m meets c = elim meets [ ]
  scan_complete i (hop ∷ hops) current found v t e m here c =
      round-here i hop hops current found t (scan-Rounds side up i hop hops current found e) (
        triggers_at_complete side up i hop.mappings current v t m
          (subst (λ (k : ℕ). Covers side up k hop.mappings v t) (omega arith) c))
  scan_complete i (hop ∷ hops) current found v t e m (further {at} {w} {met} {place} l meets) c =
      let (gathered, projected, out) = scan-Rounds side up i hop hops current found e in
      let next = sorted_complete up hop.mappings current gathered v w projected m l in
      elim out [
        | inl (empty, same) ↦ cc (not_empty w (sort_verses gathered) next)
        | inr (more, scanned, same) ↦
            subst (λ (p : List RangeTrigger × List VerseId). Memᴰ t p.0) same
              (Memᴰ.append_right (triggers_at side i up hop.mappings current) (
                scan_complete (i + 1) hops (sort_verses gathered) more w t scanned next meets
                  (subst (λ (k : ℕ). Covers side up k at.mappings met t) (omega arith) c)))
      ]

  -- A trigger that is found is offered by the walk from one of the verses.
  pub scan_sound :
      (i : ℕ) (hops : List Hop) (current : List VerseId) (found : List RangeTrigger × List VerseId)
      (t : RangeTrigger)
      → scan side up i hops current ≡ ok found
      → Memᴰ t found.0
      → IsOffered side up i hops (λ v. Memᴰ v current) t
  unfolding scan
  scan_sound i [] current found t e m = absurd (
      Memᴰ.not-nil
        (subst (λ (p : List RangeTrigger × List VerseId). Memᴰ t p.0) (sym (ok_inj e)) m))
  scan_sound i (hop ∷ hops) current found t e m =
      let (gathered, projected, out) = scan-Rounds side up i hop hops current found e in
      let now : Memᴰ t (triggers_at side i up hop.mappings current)
          → IsOffered side up i (hop ∷ hops) (λ v. Memᴰ v current) t =
        λ k.
          let (v, at, c) = triggers_at_sound side up i hop.mappings current t k in
          record {
            from = v;
            started = at;
            place = 0;
            hop = hop;
            verse = v;
            met = here;
            offer = subst (λ (n : ℕ). Covers side up n hop.mappings v t) (omega arith) c;
          } in
      elim out [
        | inl (empty, same) ↦
            now (subst (λ (p : List RangeTrigger × List VerseId). Memᴰ t p.0) (sym same) m)
        | inr (more, scanned, same) ↦
            ⊎_elim now
              (λ k.
                let o = scan_sound (i + 1) hops (sort_verses gathered) more t scanned k in
                let (v, at, l) =
                  sorted_sound up hop.mappings current gathered o.from projected o.started in
                record {
                  from = v;
                  started = at;
                  place = suc o.place;
                  hop = o.hop;
                  verse = o.verse;
                  met = further l o.met;
                  offer =
                      subst (λ (n : ℕ). Covers side up n o.hop.mappings o.verse t) (omega arith)
                        o.offer;
                })
              (Memᴰ.append_cases (triggers_at side i up hop.mappings current)
                (subst (λ (p : List RangeTrigger × List VerseId). Memᴰ t p.0) (sym same) m))
      ]

  -- The verses behind the last hop are those that the verses arrive at.
  pub scan_arrives :
      (i : ℕ) (hops : List Hop) (current : List VerseId) (found : List RangeTrigger × List VerseId)
      (v w : VerseId)
      → scan side up i hops current ≡ ok found
      → Memᴰ v current
      → Arrives up hops v w
      → Memᴰ w found.1
  unfolding scan
  scan_arrives i [] current found v w e m done =
      subst (λ (p : List RangeTrigger × List VerseId). Memᴰ w p.1) (ok_inj e) m
  scan_arrives i (hop ∷ hops) current found v w e m (through {w = u} l rest) =
      let (gathered, projected, out) = scan-Rounds side up i hop hops current found e in
      let next = sorted_complete up hop.mappings current gathered v u projected m l in
      elim out [
        | inl (empty, same) ↦ cc (not_empty u (sort_verses gathered) next)
        | inr (more, scanned, same) ↦
            subst (λ (p : List RangeTrigger × List VerseId). Memᴰ w p.1) same
              (scan_arrives (i + 1) hops (sort_verses gathered) more u w scanned next rest)
      ]

  pub scan_arrived :
      (i : ℕ) (hops : List Hop) (current : List VerseId) (found : List RangeTrigger × List VerseId)
      (w : VerseId)
      → scan side up i hops current ≡ ok found
      → Memᴰ w found.1
      → (v : VerseId) × Memᴰ v current × Arrives up hops v w
  unfolding scan
  scan_arrived i [] current found w e m =
      (w, subst (λ (p : List RangeTrigger × List VerseId). Memᴰ w p.1) (sym (ok_inj e)) m, done)
  scan_arrived i (hop ∷ hops) current found w e m =
      let (gathered, projected, out) = scan-Rounds side up i hop hops current found e in
      elim out [
        | inl (empty, same) ↦
            let there = subst (λ (p : List RangeTrigger × List VerseId). Memᴰ w p.1) (sym same) m in
            cc (not_empty w (sort_verses gathered) there)
        | inr (more, scanned, same) ↦
            let (u, at, rest) =
              scan_arrived (i + 1) hops (sort_verses gathered) more w scanned
                (subst (λ (p : List RangeTrigger × List VerseId). Memᴰ w p.1) (sym same) m) in
            let (v, start, l) = sorted_sound up hop.mappings current gathered u projected at in
            (v, start, through l rest)
      ]
