-- ===== src/Api/Jump/Entries.antt =====
-- The dictionaries of frvt/api/jump_cancel.py: what an assignment changes.
use versification_tool.Prelude.{
  suc, ◌≤◌, ◌≡◌, refl, sym, ◌∙◌, ◌⊎◌, inl, inr, some, List, [], ◌∷◌, length, Bool-cases, some_inj,
  arith,
}
use versification_tool.Prelude.Equality.{Eq, ◌==◌}
use versification_tool.Api.Jump.{get, put}

module _ {ℓ κ} {K : Type ℓ} {V : Type κ} ⦃by : Eq K⦄ where
  pub length-put : (k : K) (v : V) (d : List (K × V)) → length (put k v d) ≤ suc (length d)
  unfolding put
  length-put k v [] = omega arith
  length-put k v ((j, w) ∷ d) = ground (arith, length-put k v d)

  -- An entry behind an assignment is the new one or an old one.
  pub get-put :
      (j k : K) {v w : V} (d : List (K × V))
      → get j (put k v d) ≡ some w
      → ((j ≡ k) × (v ≡ w)) ⊎ (get j d ≡ some w)
  unfolding get put
  get-put j k [] h = elim (Bool-cases (j == k)) [
    | inl t ↦ inl ((by.beq_iff j k).0 t, some_inj (rw t at h))
    | inr f ↦ inr (rw f at h)
  ]
  get-put j k ((i, u) ∷ d) h = elim (Bool-cases (k == i)) [
    | inl t ↦ elim (Bool-cases (j == i)) [
      | inl s ↦ inl ((by.beq_iff j i).0 s ∙ sym ((by.beq_iff k i).0 t), some_inj (simp (t, s) at h))
      | inr f ↦ inr (simp f (simp (t, f) at h))
    ]
    | inr g ↦ elim (Bool-cases (j == i)) [
      | inl s ↦ inr (simp s (simp (g, s) at h))
      | inr f ↦ elim (get-put j k d (simp (g, f) at h)) [
        | inl same ↦ inl same
        | inr old ↦ inr (simp f old)
      ]
    ]
  ]

  -- The assigned key has the assigned value.
  pub get-put_same : (k : K) (v : V) (d : List (K × V)) → get k (put k v d) ≡ some v
  unfolding get put
  get-put_same k v [] = let t = (by.beq_iff k k).1 refl in simp t refl
  get-put_same k v ((j, w) ∷ d) = elim (Bool-cases (k == j)) [
    | inl t ↦ simp t refl
    | inr f ↦ simp f (get-put_same k v d)
  ]
