-- ===== src/Api/Registry.antt =====
-- frvt/api/divergence/registry.py: the rows of divergence reports. The table is the list of its rows;
-- a lock makes each operation one step. A time is the number of microseconds since a fixed moment. The
-- fingerprint of a key, the id of a new row and the current time are arguments.
pub mod Claims
use versification_tool.Prelude.{
  ℕ, suc, ◌+◌, Bool, true, false, not, ◌&&◌, ◌||◌, Option, none, some, List, [], ◌∷◌, ◌++◌, length,
  ltb, if◌then◌else◌,
}
use versification_tool.Prelude.Equality.{Eq, nat_eq, pair_eq, ◌==◌}
use versification_tool.Prelude.Texts.{Text, text_eq, codes}

pub data Status : Type 0 where
  pending running ready failed : Status

-- Translation and scheme, from and to.
abbrev pub Key : Type 0
Key = (ℕ × ℕ) × (ℕ × ℕ)

pub record Report : Type 0 where
  pub id : ℕ
  pub key : Key
  pub status : Status
  pub fingerprint : Text
  pub payload : Option Text
  pub error : Option Text
  pub stage : Option Text
  pub stage_index : ℕ
  pub completed : ℕ
  pub total : ℕ
  pub heartbeat_at : Option ℕ

pub record Claim : Type 0 where
  pub report : Report
  pub schedule : Bool

-- `STAGES`
abbrev pub stages : List Text
stages =
    codes "loading"
    ∷ codes "composing"
    ∷ codes "classifying"
    ∷ codes "events"
    ∷ codes "runs"
    ∷ codes "encoding"
    ∷ []

-- `STAGES.index(stage) + 1 if stage in STAGES else old`
abbrev pub index_from : ℕ → Text → List Text → ℕ → ℕ
index_from n stage [] old = old
index_from n stage (s ∷ ss) old =
    let later = index_from (suc n) stage ss old in if stage == s then suc n else later

module _ (stale now : ℕ) where
  unfoldable pub heartbeat_fresh : Report → Bool
  heartbeat_fresh row = elim row.status [
    | pending ↦ true
    | running ↦ elim row.heartbeat_at [ none ↦ false | some t ↦ ltb now (t + stale) ]
    | ready ↦ false
    | failed ↦ false
  ]

  unfoldable pub is_stalled : Report → Bool
  unfolding heartbeat_fresh
  is_stalled row = elim row.status [
    | running ↦ not (heartbeat_fresh row)
    | pending ↦ false
    | ready ↦ false
    | failed ↦ false
  ]

  -- The row as it is claimed again from the start.
  abbrev pub reset : Text → Report → Report
  reset fingerprint row = record row {
    status = pending;
    fingerprint = fingerprint;
    payload = none;
    error = none;
    stage = none;
    stage_index = 0;
    completed = 0;
    total = 0;
    heartbeat_at = none;
  }

  -- What `claim_report` does with the locked row.
  unfoldable pub claim_row : Text → Report → Claim
  unfolding heartbeat_fresh
  claim_row fingerprint row =
      let same = row.fingerprint == fingerprint in
      let again : Claim = record { report = reset fingerprint row; schedule = true } in
      elim row.status [
        | ready ↦ if same then record { report = row; schedule = false } else again
        | running ↦
            if heartbeat_fresh row && same then record { report = row; schedule = false } else again
        | pending ↦ if same then record { report = row; schedule = true } else again
        | failed ↦ again
      ]

  unfoldable pub mark_progress : Text → ℕ → ℕ → Report → Report
  mark_progress stage completed total row = record row {
    status = running;
    stage = some stage;
    stage_index = index_from 0 stage stages row.stage_index;
    completed = completed;
    total = total;
    heartbeat_at = some now;
  }

  unfoldable pub mark_ready : Text → Report → Report
  mark_ready payload row = record row {
    status = ready;
    payload = some payload;
    error = none;
    stage = some (codes "encoding");
    stage_index = length stages;
    heartbeat_at = some now;
  }

  unfoldable pub mark_failed : Text → Report → Report
  mark_failed message row = record row {
    status = failed;
    error = some message;
    heartbeat_at = some now;
  }

  abbrev pub new_row : ℕ → Key → Text → Report
  new_row id key fingerprint = record {
    id = id;
    key = key;
    status = pending;
    fingerprint = fingerprint;
    payload = none;
    error = none;
    stage = none;
    stage_index = 0;
    completed = 0;
    total = 0;
    heartbeat_at = none;
  }

  -- The insertion that does nothing on a conflict, the locked read and the claim: the table afterwards
  -- and the claim.
  unfoldable pub claim_report : ℕ → Key → Text → List Report → List Report × Claim
  unfolding claim_row
  claim_report id key fingerprint [] =
      let c = claim_row fingerprint (new_row id key fingerprint) in (c.report ∷ [], c)
  claim_report id key fingerprint (row ∷ rows) =
      let c = claim_row fingerprint row in
      let rest = claim_report id key fingerprint rows in
      if row.key == key then (c.report ∷ rows, c) else (row ∷ rest.0, rest.1)

-- `row is not None and row.fingerprint == fingerprint`
unfoldable pub same_fingerprint : ℕ → Text → List Report → Bool
same_fingerprint id fingerprint [] = false
same_fingerprint id fingerprint (row ∷ rows) =
    let rest = same_fingerprint id fingerprint rows in
    if row.id == id then row.fingerprint == fingerprint else rest

-- A change of the row with an id; nothing without one.
unfoldable pub on_row : ℕ → (Report → Report) → List Report → List Report
on_row id change [] = []
on_row id change (row ∷ rows) =
    let rest = on_row id change rows in if row.id == id then change row ∷ rows else row ∷ rest

-- The row of a key.
unfoldable pub find_row : Key → List Report → Option Report
find_row key [] = none
find_row key (row ∷ rows) =
    let rest = find_row key rows in if row.key == key then some row else rest
