-- ===== src/Resolver/RangeHull/Trigger.antt =====
-- `find_range_trigger` of frvt/resolver/range_hull.py.
use versification_tool.Prelude.{
  ℕ, ◌+◌, ◌-◌, ◌≡◌, ◌≢◌, refl, ap, sym, ◌∙◌, ◌⊎◌, inl, inr, Bool, true, false, not, Option, none,
  some, List, ◌++◌, Bool-cases, Option-cases, List-cases, some_inj, get_elem?,
}
use mathlib.Core.Logic.{⊎_elim}
use mathlib.Core.Path.{subst}
use mathlib.Core.List.{Memᴰ}
use mathlib.Core.List.Memᴰ
use versification_tool.Prelude.Equality.{nat_eq, ◌==◌}
use versification_tool.Resolver.Types.{VerseId, RefRange, MappingView, Hop, ok, ok_inj, >>=-eq-ok}
use versification_tool.Resolver.Cover.{zip_range, range_length, record_range, unequal_zip_cover}
use versification_tool.Resolver.Cover.Search.{find_covering_record-IsNarrowest}
use versification_tool.Resolver.RangeHull.Least.{IsLeast, least_trigger-IsLeast}
use versification_tool.Resolver.RangeHull.Met.{Meets, here, further, Arrives}
use versification_tool.Resolver.RangeHull.Offer.{IsOffered}
use versification_tool.Resolver.RangeHull.Collected.{
  scan_complete, scan_sound, scan_arrives, scan_arrived,
}
use versification_tool.Resolver.RangeHull.{
  Side, on_source, on_target, RangeTrigger, trigger_lt, least_trigger, scan, any_part,
  find_range_trigger,
}

-- The trigger is a row of the hop at its index: a row of the zip class whose sides, as the side of
-- the trigger reads them, are the cover and the output, of unequal length.
pub record IsTrigger (hops : List Hop) (up : Bool) (first : ℕ) (t : RangeTrigger) : Type 0 where
  pub place : ℕ
  pub hop : Hop
  pub row : MappingView
  pub index : t.hop_index ≡ first + place
  pub at : get_elem? hops place ≡ some hop
  pub member : Memᴰ row hop.mappings
  pub zips : unequal_zip_cover row up ≡ some (t.cover, t.output)
  pub unequal : range_length t.cover ≢ range_length t.output
  pub width : t.width ≡ t.cover.verse_end - t.cover.verse_start
  pub ordinal : t.ordinal ≡ row.ordinal

unequal_zip_cover-unequal :
    (row : MappingView) (up : Bool) (cover output : RefRange)
    → unequal_zip_cover row up ≡ some (cover, output)
    → range_length cover ≢ range_length output
unfolding unequal_zip_cover
unequal_zip_cover-unequal row up cover output e same =
    elim (Bool-cases (not (zip_range row.relation))) [
      | inl t ↦ cc (rw (t, unequal_zip_cover) at e)
      | inr f ↦ elim (Option-cases (record_range row up)) [
        | inl n ↦ cc (rw (f, n, unequal_zip_cover) at e)
        | inr (c, n) ↦ elim (Option-cases (record_range row (not up))) [
          | inl m ↦ cc (rw (f, n, m, unequal_zip_cover) at e)
          | inr (o, m) ↦ elim (Bool-cases (range_length c == range_length o)) [
            | inl t ↦ cc (rw (f, n, m, t, unequal_zip_cover) at e)
            | inr g ↦
                let pair = some_inj (rw (f, n, m, g, unequal_zip_cover) at e) in
                let left = ap (λ (p : RefRange × RefRange). range_length p.0) pair in
                let right = ap (λ (p : RefRange × RefRange). range_length p.1) pair in
                let t =
                  (nat_eq.beq_iff (range_length c) (range_length o)).1 (left ∙ same ∙ sym right) in
                cc
          ]
        ]
      ]
    ]

Meets-at :
    (up : Bool) {hops : List Hop} {v w : VerseId} {place : ℕ} {hop : Hop}
    → Meets up hops v place hop w
    → get_elem? hops place ≡ some hop
Meets-at up here = refl
Meets-at up (further l m) = Meets-at up m

IsOffered-IsTrigger :
    (side : Side) (up : Bool) (hops : List Hop) (start : VerseId → Type 0) (t : RangeTrigger)
    → IsOffered side up 0 hops start t
    → IsTrigger hops up 0 t × (t.side ≡ side)
IsOffered-IsTrigger side up hops start t o =
    let c = o.offer in
    subst (λ (x : RangeTrigger). IsTrigger hops up 0 x × (x.side ≡ side)) c.same
      (
        record {
          place = o.place;
          hop = o.hop;
          row = c.row;
          index = refl;
          at = Meets-at up o.met;
          member =
              (find_covering_record-IsNarrowest o.hop.mappings o.verse up c.row c.covered).member;
          zips = c.zips;
          unequal = unequal_zip_cover-unequal c.row up c.cover c.output c.zips;
          width = refl;
          ordinal = refl;
        },
        refl,
      )

-- The verses that the members climb to.
abbrev Climbed : List VerseId → List Hop → VerseId → Type 0
Climbed members src_hops p = (v : VerseId) × Memᴰ v members × Arrives true src_hops v p

-- The walk offers a trigger: a row covers a verse that it meets, on the climb of a member through the
-- source hops, or on the descent through the target hops of a verse that a member climbs to.
abbrev pub Offers : List VerseId → List Hop → List Hop → RangeTrigger → Type 0
Offers members src_hops tgt_hops t =
    IsOffered on_source true 0 src_hops (λ v. Memᴰ v members) t
    ⊎ IsOffered on_target false 0 tgt_hops (Climbed members src_hops) t

-- What a trigger that is found tells: it is a row of one of the sides, the walk offers it, and nothing
-- that the walk offers comes before it.
pub record IsFound (members : List VerseId) (src_hops tgt_hops : List Hop) (t : RangeTrigger)
    : Type 0 where
  pub whole : any_part members ≡ false
  pub placed :
      (IsTrigger src_hops true 0 t × (t.side ≡ on_source))
      ⊎ (IsTrigger tgt_hops false 0 t × (t.side ≡ on_target))
  pub offered : Offers members src_hops tgt_hops t
  pub least : (c : RangeTrigger) → Offers members src_hops tgt_hops c → trigger_lt c t ≡ false

-- What an answer tells: without a trigger, a member has a part or the walk offers none.
abbrev pub Decides : List VerseId → List Hop → List Hop → Option RangeTrigger → Type 0
Decides members src_hops tgt_hops (some t) = IsFound members src_hops tgt_hops t
Decides members src_hops tgt_hops none =
    (any_part members ≡ true) ⊎ ((c : RangeTrigger) → ¬ Offers members src_hops tgt_hops c)

module _ (members : List VerseId) (src_hops tgt_hops : List Hop)
    (up down : List RangeTrigger × List VerseId)
    (climbed : scan on_source true 0 src_hops members ≡ ok up)
    (descended : scan on_target false 0 tgt_hops up.1 ≡ ok down) where
  collected-Offers :
      (t : RangeTrigger) → Memᴰ t (up.0 ++ down.0) → Offers members src_hops tgt_hops t
  collected-Offers t m =
      ⊎_elim (λ k. inl (scan_sound on_source true 0 src_hops members up t climbed k))
        (λ k.
          let o = scan_sound on_target false 0 tgt_hops up.1 down t descended k in
          inr (record {
            from = o.from;
            started = scan_arrived on_source true 0 src_hops members up o.from climbed o.started;
            place = o.place;
            hop = o.hop;
            verse = o.verse;
            met = o.met;
            offer = o.offer;
          }))
        (Memᴰ.append_cases up.0 m)

  Offers-collected :
      (t : RangeTrigger) → Offers members src_hops tgt_hops t → Memᴰ t (up.0 ++ down.0)
  Offers-collected t (inl o) =
      Memᴰ.append_left down.0 (
        scan_complete on_source true 0 src_hops members up o.from t climbed o.started o.met o.offer)
  Offers-collected t (inr o) =
      let (v, member, climb) = o.started in
      let reached =
        scan_arrives on_source true 0 src_hops members up v o.from climbed member climb in
      Memᴰ.append_right up.0 (
        scan_complete on_target false 0 tgt_hops up.1 down o.from t descended reached o.met o.offer)

placed_of :
    (members : List VerseId) (src_hops tgt_hops : List Hop) (t : RangeTrigger)
    → Offers members src_hops tgt_hops t
    → (IsTrigger src_hops true 0 t × (t.side ≡ on_source))
      ⊎ (IsTrigger tgt_hops false 0 t × (t.side ≡ on_target))
placed_of members src_hops tgt_hops t (inl o) =
    inl (IsOffered-IsTrigger on_source true src_hops (λ v. Memᴰ v members) t o)
placed_of members src_hops tgt_hops t (inr o) =
    inr (IsOffered-IsTrigger on_target false tgt_hops (Climbed members src_hops) t o)

-- What is found decides the walk. A trigger is found only for whole verses; it is a row of the hop
-- at its index, which zips its cover to an output of another length; a row that covers a verse
-- which the walk meets offers it, and nothing that such a row offers comes before it: by width,
-- then by ordinal, then by side, then by how near the hop is. Where none is found, a member has a
-- part or no row offers one.
pub find_range_trigger-IsFound :
    (members : List VerseId) (src_hops tgt_hops : List Hop) (found : Option RangeTrigger)
    → find_range_trigger members src_hops tgt_hops ≡ ok found
    → Decides members src_hops tgt_hops found
unfolding find_range_trigger
find_range_trigger-IsFound members src_hops tgt_hops found e =
    elim (Bool-cases (any_part members)) [
      | inl a ↦
          subst (Decides members src_hops tgt_hops) (ok_inj (rw (a, find_range_trigger) at e))
            (inl a)
      | inr f ↦
          let (up, climbed, after) =
            >>=-eq-ok (scan on_source true 0 src_hops members) _
              (rw (f, find_range_trigger) at e) in
          let (down, descended, made) = >>=-eq-ok (scan on_target false 0 tgt_hops up.1) _ after in
          elim (List-cases (up.0 ++ down.0)) [
            | inl n ↦ subst (Decides members src_hops tgt_hops) (ok_inj (rw n at made)) (
                inr (λ c o. Memᴰ.not-nil (
                  subst (Memᴰ c) n
                    (Offers-collected members src_hops tgt_hops up down climbed descended c o))))
            | inr (c, cs, n) ↦
                let least : IsLeast (up.0 ++ down.0) (least_trigger c cs) =
                  subst (λ (l : List RangeTrigger). IsLeast l (least_trigger c cs)) (sym n)
                    (least_trigger-IsLeast c cs) in
                let offered =
                  collected-Offers members src_hops tgt_hops up down climbed descended
                    (least_trigger c cs) least.member in
                subst (Decides members src_hops tgt_hops) (ok_inj (rw n at made)) (record {
                  whole = f;
                  placed = placed_of members src_hops tgt_hops (least_trigger c cs) offered;
                  offered = offered;
                  least = λ d o.
                      least.least d
                        (Offers-collected members src_hops tgt_hops up down climbed descended d o);
                })
          ]
    ]
