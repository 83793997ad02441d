-- ===== src/Api/Limiter/Wait.antt =====
-- Retry-After of frvt/api/failed_auth_limiter.py.
use Prim.Native.Nat.{◌≤◌}
use versification_tool.Prelude.{
  ℕ, zero, suc, ◌+◌, ◌-◌, ◌*◌, ◌<◌, ◌≡◌, sym, some, List, [], ◌∷◌, length, leb, ltb, inl, inr,
  Bool-cases, arith, some_inj, ltb→lt, ◌++◌, true, Option-cases, List-cases,
}
use versification_tool.Prelude.Texts.{Text}
use versification_tool.Api.Limiter.{
  Failures, stamps_of, enabled, store, evict_if_needed, register_failure, Settings, window,
  ceil_seconds, retry_after, verdict, in_window,
}

cons_inj : {a b : ℕ} {ts us : List ℕ} → a ∷ ts ≡ b ∷ us → a ≡ b
cons_inj e = cc

pos-of_mul : (a b : ℕ) → 0 < a * b → 1 ≤ a
pos-of_mul zero b h = grind arith
pos-of_mul (suc a) b h = omega arith

-- No failure of the list comes after `now`.
abbrev pub AllPast : ℕ → List ℕ → Type 0
AllPast now [] = Unit {0}
AllPast now (t ∷ ts) = (t ≤ now) × AllPast now ts

mul_pos : (a b : ℕ) → 0 < a → 0 < b → 0 < a * b
mul_pos a b h k = grind arith

module _ (c : Settings) where
  enabled→window : enabled c ≡ true → 0 < c.window_seconds
  unfolding enabled
  enabled→window on = ground (arith, on)

  ceil_seconds-covers : (t : ℕ) → 0 < c.per_second → t ≤ ceil_seconds c t * c.per_second
  ceil_seconds-covers t h = grind arith

  ceil_seconds-le : (t w : ℕ) → 0 < c.per_second → t ≤ w * c.per_second → ceil_seconds c t ≤ w
  ceil_seconds-le t w h k = grind arith

  -- A refusal asks the client to wait at least one second and at most as many as the window has.
  -- When they have passed, the first of the failures that were counted is out of the window.
  pub verdict_bounds :
      (now first r : ℕ) (later : List ℕ)
      → 0 < c.per_second
      → first ≤ now
      → now < first + window c
      → verdict c now (first ∷ later) ≡ some r
      → (1 ≤ r) × (r ≤ c.window_seconds) × (in_window c (now + r * c.per_second) (first ∷ []) ≡ [])
  unfolding verdict in_window
  verdict_bounds now first r later p past recent e =
      elim (Bool-cases (leb (length (first ∷ later)) c.limit)) [
        | inl few ↦ let e' = rw few at e in cc
        | inr many ↦
            let due : retry_after c now first ≡ r = some_inj (rw many at e) in
            let wait : ℕ = first + window c - now in
            let seconds : ℕ = ceil_seconds c wait in
            let covers : wait ≤ seconds * c.per_second = ceil_seconds-covers wait p in
            let positive : 1 ≤ seconds = pos-of_mul seconds c.per_second (omega arith) in
            let exact : seconds ≡ r = ground (arith, due, positive) in
            rw (sym exact) (
              positive,
              ceil_seconds-le wait c.window_seconds p (omega arith),
              ground (arith, covers),
            )
      ]

  first_recent :
      (now : ℕ) (ts rest : List ℕ) (t : ℕ)
      → AllPast now ts
      → in_window c now ts ≡ t ∷ rest
      → (t ≤ now) × (now < t + window c)
  unfolding in_window
  first_recent now [] rest t a e = cc
  first_recent now (u ∷ ts) rest t a e = elim (Bool-cases (ltb now (u + window c))) [
    | inl y ↦
        let f : u ≡ t = cons_inj (rw y at e) in (omega (arith, a.0), omega (arith, f, ltb→lt _ _ y))
    | inr n ↦ first_recent now ts rest t a.1 (rw n at e)
  ]

  -- A failure that is refused is answered with at least one second and at most as many as the window
  -- has, if the clock has not gone back. When they have passed, the first of the failures of the
  -- address that were counted is out of the window.
  pub register_failure-bounds :
      (ip : Text) (now r : ℕ) (s left : Failures)
      → 0 < c.per_second
      → AllPast now (stamps_of ip s)
      → register_failure c ip now s ≡ some (left, some r)
      → (1 ≤ r)
        × (r ≤ c.window_seconds)
        × (first : ℕ) × (later : List ℕ) × (in_window c now (stamps_of ip s) ++ (now ∷ [])
            ≡ first ∷ later)
        × (in_window c (now + r * c.per_second) (first ∷ []) ≡ [])
  unfolding register_failure
  register_failure-bounds ip now r s left p past e = elim (Bool-cases (enabled c)) [
    | inl on ↦
        let stamps = in_window c now (stamps_of ip s) ++ (now ∷ []) in
        elim (Option-cases (evict_if_needed c now (store ip stamps s))) [
          | inl f ↦ let e' = rw (on, f, register_failure) at e in cc
          | inr (after, f) ↦
              let e' = rw (on, f, register_failure) at e in
              let refused : verdict c now stamps ≡ some r = ground (arith, e') in
              elim (List-cases (in_window c now (stamps_of ip s))) [
                | inl g ↦
                    let opens : now < now + window c =
                      omega (arith, mul_pos c.window_seconds c.per_second (enabled→window on) p) in
                    let b = verdict_bounds now now r [] p (omega arith) opens (rw g at refused) in
                    (b.0, b.1, now, [], rw g, b.2)
                | inr (t, rest, g) ↦
                    let inside = first_recent now (stamps_of ip s) rest t past g in
                    let b =
                      verdict_bounds now t r (rest ++ (now ∷ [])) p inside.0 inside.1
                        (rw g at refused) in
                    (b.0, b.1, t, rest ++ (now ∷ []), rw g, b.2)
              ]
        ]
    | inr off ↦ let e' = rw off at e in cc
  ]
