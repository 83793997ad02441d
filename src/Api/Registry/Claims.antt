-- ===== src/Api/Registry/Claims.antt =====
-- Claims of frvt/api/divergence/registry.py.
use versification_tool.Prelude.{
  ℕ, ◌≡◌, refl, ap, sym, ◌∙◌, ◌⊎◌, inl, inr, Bool, true, false, none, some, List, [], ◌∷◌, ◌&&◌,
  arith, Bool-cases, if◌then◌else◌,
}
use mathlib.Core.Path.{subst}
use versification_tool.Prelude.Equality.{nat_eq, pair_eq, ◌==◌}
use versification_tool.Prelude.Texts.{Text, text_eq, text_beq_iff}
use versification_tool.Api.Registry.{
  Status, pending, running, ready, failed, Key, Report, Claim, heartbeat_fresh, reset, claim_row,
  new_row, claim_report, find_row,
}

Status-cases : (s : Status) → (s ≡ pending) ⊎ (s ≡ running) ⊎ (s ≡ ready) ⊎ (s ≡ failed)
Status-cases pending = inl refl
Status-cases running = inr (inl refl)
Status-cases ready = inr (inr (inl refl))
Status-cases failed = inr (inr (inr refl))

module _ (stale now : ℕ) where
  -- The claimed row carries the key and the fingerprint. It is scheduled exactly if it is pending
  -- afterwards; otherwise it is ready, or it runs with a fresh heartbeat.
  pub record IsClaimed (key : Key) (fingerprint : Text) (c : Claim) : Type 0 where
    pub keyed : c.report.key ≡ key
    pub current : c.report.fingerprint ≡ fingerprint
    pub outcome :
        ((c.schedule ≡ true) × (c.report.status ≡ pending))
        ⊎ ((c.schedule ≡ false) × (c.report.status ≡ ready))
        ⊎ ((c.schedule ≡ false)
            × (c.report.status ≡ running)
            × (heartbeat_fresh stale now c.report ≡ true))

  again :
      (fingerprint : Text) (row : Report)
      → IsClaimed row.key fingerprint
          (record { report = reset stale now fingerprint row; schedule = true })
  again fingerprint row = record { keyed = refl; current = refl; outcome = inl (refl, refl) }

  claim_row-IsClaimed :
      (fingerprint : Text) (row : Report)
      → IsClaimed row.key fingerprint (claim_row stale now fingerprint row)
  unfolding claim_row
  claim_row-IsClaimed fingerprint row = elim (Status-cases row.status) [
    | inl p ↦ elim (Bool-cases (row.fingerprint == fingerprint)) [
      | inl t ↦
          simp (p, t, claim_row)
            (record {
              keyed = refl;
              current = (text_beq_iff row.fingerprint fingerprint).0 t;
              outcome = inl (refl, p);
            })
      | inr f ↦ simp (p, f, claim_row) (again fingerprint row)
    ]
    | inr (inl p) ↦
        elim (Bool-cases (heartbeat_fresh stale now row && row.fingerprint == fingerprint)) [
          | inl t ↦
              let fresh : heartbeat_fresh stale now row ≡ true = ground (arith, t) in
              let same : (row.fingerprint == fingerprint) ≡ true = ground (arith, t) in
              simp (p, t, claim_row)
                (record {
                  keyed = refl;
                  current = (text_beq_iff row.fingerprint fingerprint).0 same;
                  outcome = inr (inr (refl, p, fresh));
                })
          | inr f ↦ simp (p, f, claim_row) (again fingerprint row)
        ]
    | inr (inr (inl p)) ↦ elim (Bool-cases (row.fingerprint == fingerprint)) [
      | inl t ↦
          simp (p, t, claim_row)
            (record {
              keyed = refl;
              current = (text_beq_iff row.fingerprint fingerprint).0 t;
              outcome = inr (inl (refl, p));
            })
      | inr f ↦ simp (p, f, claim_row) (again fingerprint row)
    ]
    | inr (inr (inr p)) ↦ simp (p, claim_row) (again fingerprint row)
  ]

  -- Whether a row can stay as it is: it has the fingerprint, and it is ready, pending, or running with a
  -- fresh heartbeat.
  abbrev pub in_use : Bool → Status → Bool
  in_use fresh pending = true
  in_use fresh running = fresh
  in_use fresh ready = true
  in_use fresh failed = false

  abbrev pub usable : Text → Report → Bool
  usable fingerprint row =
      row.fingerprint == fingerprint && in_use (heartbeat_fresh stale now row) row.status

  -- A usable row is returned as it is, another one is reset.
  abbrev pub IsKept : Text → Report → Claim → Type 0
  IsKept fingerprint row c =
      ((usable fingerprint row ≡ true) × (c.report ≡ row))
      ⊎ ((usable fingerprint row ≡ false) × (c.report ≡ reset stale now fingerprint row))

  -- The row that the key has, if there is one, and what became of it.
  abbrev pub IsDecided : Key → Text → List Report → Claim → Type 0
  IsDecided key fingerprint rows c =
      (find_row key rows ≡ none)
      ⊎ ((row : Report) × (find_row key rows ≡ some row) × IsKept fingerprint row c)

  claim_row-IsKept :
      (fingerprint : Text) (row : Report)
      → IsKept fingerprint row (claim_row stale now fingerprint row)
  unfolding claim_row
  claim_row-IsKept fingerprint row = elim (Bool-cases (row.fingerprint == fingerprint)) [
    | inl t ↦ elim (Bool-cases (heartbeat_fresh stale now row)) [
      | inl g ↦ elim (Status-cases row.status) [
        | inl p ↦ simp (p, t, g, claim_row) (inl (refl, refl))
        | inr (inl p) ↦ simp (p, t, g, claim_row) (inl (refl, refl))
        | inr (inr (inl p)) ↦ simp (p, t, g, claim_row) (inl (refl, refl))
        | inr (inr (inr p)) ↦ simp (p, t, g, claim_row) (inr (refl, refl))
      ]
      | inr g ↦ elim (Status-cases row.status) [
        | inl p ↦ simp (p, t, g, claim_row) (inl (refl, refl))
        | inr (inl p) ↦ simp (p, t, g, claim_row) (inr (refl, refl))
        | inr (inr (inl p)) ↦ simp (p, t, g, claim_row) (inl (refl, refl))
        | inr (inr (inr p)) ↦ simp (p, t, g, claim_row) (inr (refl, refl))
      ]
    ]
    | inr f ↦ elim (Status-cases row.status) [
      | inl p ↦ simp (p, f, claim_row) (inr (refl, refl))
      | inr (inl p) ↦ elim (Bool-cases (heartbeat_fresh stale now row)) [
        | inl g ↦ simp (p, f, g, claim_row) (inr (refl, refl))
        | inr g ↦ simp (p, f, g, claim_row) (inr (refl, refl))
      ]
      | inr (inr (inl p)) ↦ simp (p, f, claim_row) (inr (refl, refl))
      | inr (inr (inr p)) ↦ simp (p, f, claim_row) (inr (refl, refl))
    ]
  ]

  claim_report-IsDecided :
      (id : ℕ) (key : Key) (fingerprint : Text) (rows : List Report)
      → IsDecided key fingerprint rows (claim_report stale now id key fingerprint rows).1
  unfolding claim_report find_row
  claim_report-IsDecided id key fingerprint [] = inl refl
  claim_report-IsDecided id key fingerprint (row ∷ rows) = elim (Bool-cases (row.key == key)) [
    | inl t ↦ simp (t, claim_report, find_row) (inr (row, refl, claim_row-IsKept fingerprint row))
    | inr f ↦ simp (f, claim_report, find_row) (claim_report-IsDecided id key fingerprint rows)
  ]

  claim_report-keyed :
      (id : ℕ) (key : Key) (fingerprint : Text) (rows : List Report)
      → IsClaimed key fingerprint (claim_report stale now id key fingerprint rows).1
  unfolding claim_report
  claim_report-keyed id key fingerprint [] =
      claim_row-IsClaimed fingerprint (new_row stale now id key fingerprint)
  claim_report-keyed id key fingerprint (row ∷ rows) = elim (Bool-cases (row.key == key)) [
    | inl t ↦
        simp (t, claim_report)
          (subst (λ (k : Key). IsClaimed k fingerprint (claim_row stale now fingerprint row))
            ((pair_eq.beq_iff row.key key).0 t) (claim_row-IsClaimed fingerprint row))
    | inr f ↦ simp (f, claim_report) (claim_report-keyed id key fingerprint rows)
  ]

  -- A claim of a key, whether it finds a row or inserts one, returns a row with the key and the
  -- current fingerprint; it is scheduled and pending, or not scheduled and ready, or not scheduled
  -- and running with a fresh heartbeat. A row that is found is returned as it is if it has the
  -- fingerprint and is ready, pending, or running with a fresh heartbeat; otherwise it is reset.
  pub claim_report-IsClaimed :
      (id : ℕ) (key : Key) (fingerprint : Text) (rows : List Report)
      → IsClaimed key fingerprint (claim_report stale now id key fingerprint rows).1
        × IsDecided key fingerprint rows (claim_report stale now id key fingerprint rows).1
  claim_report-IsClaimed id key fingerprint rows =
      (claim_report-keyed id key fingerprint rows, claim_report-IsDecided id key fingerprint rows)

  -- After a claim the table holds the claimed row under its key, and under any other key what it held.
  pub find_row-claim_report :
      (id : ℕ) (key k : Key) (fingerprint : Text) (rows : List Report)
      → find_row k (claim_report stale now id key fingerprint rows).0 ≡ (
          if key == k
          then some (claim_report stale now id key fingerprint rows).1.report
          else find_row k rows)
  unfolding claim_report find_row
  find_row-claim_report id key k fingerprint [] =
      let c = claim_row-IsClaimed fingerprint (new_row stale now id key fingerprint) in
      simp c.keyed refl
  find_row-claim_report id key k fingerprint (row ∷ rows) = elim (Bool-cases (row.key == key)) [
    | inl t ↦
        let same = (pair_eq.beq_iff row.key key).0 t in
        let claimed : ((claim_row stale now fingerprint row).report.key == k) ≡ (key == k) =
          ap (λ (x : Key). x == k) ((claim_row-IsClaimed fingerprint row).keyed ∙ same) in
        let held : (row.key == k) ≡ (key == k) = ap (λ (x : Key). x == k) same in
        elim (Bool-cases (key == k)) [
          | inl u ↦ simp (t, claimed, held, u, claim_report, find_row) refl
          | inr u ↦ simp (t, claimed, held, u, claim_report, find_row) refl
        ]
    | inr f ↦
        let rest = find_row-claim_report id key k fingerprint rows in
        elim (Bool-cases (row.key == k)) [
          | inl u ↦ elim (Bool-cases (key == k)) [
            | inl v ↦
                let same = (pair_eq.beq_iff row.key k).0 u ∙ sym ((pair_eq.beq_iff key k).0 v) in
                let t = (pair_eq.beq_iff row.key key).1 same in cc
            | inr v ↦ simp (f, u, v, claim_report, find_row) refl
          ]
          | inr u ↦ simp (f, u, claim_report, find_row) rest
        ]
  ]
