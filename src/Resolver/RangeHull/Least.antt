-- ===== src/Resolver/RangeHull/Least.antt =====
-- `_trigger_order` of frvt/resolver/range_hull.py, and the least trigger of a list.
use versification_tool.Prelude.{◌≡◌, refl, inl, inr, true, false, List, [], ◌∷◌, arith, Bool-cases}
use mathlib.Core.Logic.{⊎_elim}
use mathlib.Core.List.{Memᴰ}
use mathlib.Core.List.Memᴰ
use versification_tool.Prelude.Equality.{nat_eq}
use versification_tool.Resolver.RangeHull.{RangeTrigger, trigger_lt, least_trigger}

trigger_lt_trans :
    (a b c : RangeTrigger) → trigger_lt a b ≡ true → trigger_lt b c ≡ true → trigger_lt a c ≡ true
unfolding trigger_lt
trigger_lt_trans a b c h k = ground (arith, h, k)

trigger_lt_irrefl : (a : RangeTrigger) → trigger_lt a a ≡ false
unfolding trigger_lt
trigger_lt_irrefl a = ground arith

-- The trigger is one of the list, and none of the list is below it.
pub record IsLeast (cs : List RangeTrigger) (t : RangeTrigger) : Type 0 where
  pub member : Memᴰ t cs
  pub least : (c : RangeTrigger) → Memᴰ c cs → trigger_lt c t ≡ false

not_below :
    (best c x : RangeTrigger)
    → trigger_lt c best ≡ true
    → trigger_lt c x ≡ false
    → trigger_lt best x ≡ false
not_below best c x t f = elim (Bool-cases (trigger_lt best x)) [
  | inl u ↦ let v = trigger_lt_trans c best x t u in cc
  | inr g ↦ g
]

kept_below :
    (best c x : RangeTrigger)
    → trigger_lt c best ≡ false
    → trigger_lt best x ≡ false
    → trigger_lt c x ≡ false
unfolding trigger_lt
kept_below best c x f g = ground (arith, f, g)

pub least_trigger-IsLeast :
    (best : RangeTrigger) (cs : List RangeTrigger) → IsLeast (best ∷ cs) (least_trigger best cs)
unfolding least_trigger
least_trigger-IsLeast best [] = record {
  member = Memᴰ.head refl;
  least = λ c m. rw (Memᴰ.eq_of_singleton m) (trigger_lt_irrefl best);
}
least_trigger-IsLeast best (c ∷ cs) = elim (Bool-cases (trigger_lt c best)) [
  | inl t ↦
      let below = least_trigger-IsLeast c cs in
      rw t (record {
        member = Memᴰ.tail below.member;
        least = λ x m.
            ⊎_elim
              (λ e. rw e (not_below best c (least_trigger c cs) t (below.least c (Memᴰ.head refl))))
              (below.least x) (Memᴰ.cases_cons m);
      })
  | inr f ↦
      let below = least_trigger-IsLeast best cs in
      rw f (record {
        member = ⊎_elim Memᴰ.head (λ q. Memᴰ.tail (Memᴰ.tail q)) (Memᴰ.cases_cons below.member);
        least = λ x m.
            ⊎_elim (λ e. rw e (below.least best (Memᴰ.head refl)))
              (λ q.
                ⊎_elim
                  (λ e. rw e (
                    kept_below best c (least_trigger best cs) f
                      (below.least best (Memᴰ.head refl))))
                  (λ r. below.least x (Memᴰ.tail r)) (Memᴰ.cases_cons q))
              (Memᴰ.cases_cons m);
      })
]
