-- ===== src/Api/Schemes/Bounds.antt =====
-- `clamp_page` of frvt/api/scheme_select.py.
use versification_tool.Prelude.{ℕ, ◌≤◌, ◌≡◌, ◌↔◌, refl, ap, sym, ◌∙◌, ◌⊎◌, inl, inr, Option, arith}
use versification_tool.Api.Schemes.{
  ℤ, pos, negsuc, Reply, reply, refused, default_limit, max_limit, or_default, not_negative,
  check_limit, clamp_page,
}

check_limit_iff :
    (z : ℤ) (l : ℕ) → (check_limit z ≡ reply l) ↔ ((z ≡ pos l) × (1 ≤ l) × (l ≤ max_limit))
unfolding check_limit
check_limit_iff (negsuc n) l = ground arith
check_limit_iff (pos n) l = ground arith

Reply-cases {ℓ} :
    {A : Type ℓ} (m : Reply A) → ((a : A) × (m ≡ reply a)) ⊎ ((n : ℕ) × (m ≡ refused n))
Reply-cases (reply a) = inl (a, refl)
Reply-cases (refused n) = inr (n, refl)

reply_inj {ℓ} : {A : Type ℓ} {a b : A} → reply a ≡ reply b → a ≡ b
reply_inj h = cc

-- A page is accepted exactly if its limit, or the default, lies between 1 and 500; its limit is kept
-- and a negative offset becomes 0.
pub clamp_page_iff :
    (limit offset : Option ℤ) (l o : ℕ)
    → (clamp_page limit offset ≡ reply (l, o)) ↔ (
        (or_default default_limit limit ≡ pos l)
        × (1 ≤ l)
        × (l ≤ max_limit)
        × (o ≡ not_negative (or_default 0 offset)))
unfolding clamp_page
clamp_page_iff limit offset l o = (
  λ h. elim (Reply-cases (check_limit (or_default default_limit limit))) [
    | inl (n, e) ↦
        let same = reply_inj (rw (e, clamp_page) at h) in
        let (kept, low, high) =
          (check_limit_iff (or_default default_limit limit) l).0
            (e ∙ ap (λ (p : ℕ × ℕ). reply p.0) same) in
        (kept, low, high, ap (λ (p : ℕ × ℕ). p.1) (sym same))
    | inr (status, e) ↦ cc (rw (e, clamp_page) at h)
  ],
  λ (kept, low, high, at).
      let accepted = (check_limit_iff (or_default default_limit limit) l).1 (kept, low, high) in
      rw (accepted, at, clamp_page),
)
