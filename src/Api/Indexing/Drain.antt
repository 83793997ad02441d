-- ===== src/Api/Indexing/Drain.antt =====
-- The cleanup of mappings in frvt/api/indexing/worker.py.
use versification_tool.Prelude.{
  ℕ, zero, suc, ◌+◌, ◌≤◌, ◌<◌, ◌≡◌, refl, ap, ◌∙◌, inl, inr, ◌&&◌, List, [], ◌∷◌, length,
  Bool-cases, Option-cases, arith, List-cases,
}
use versification_tool.Prelude.Equality.{nat_eq, ◌==◌}
use versification_tool.Api.Indexing.Rows.{IndexMapping, Tables, find_row}
use versification_tool.Api.Indexing.Registry.{
  source_side, target_side, count_side, index_row_counts, delete_side, delete_mapping_chunk,
}
use versification_tool.Api.Indexing.Worker.{drain_reclaim, drain_queue, drain_entry}

delete_side-length :
    (side : IndexMapping → ℕ) (id n : ℕ) (ms : List IndexMapping)
    → length (delete_side side id n ms).0 + (delete_side side id n ms).1 ≡ length ms
unfolding delete_side
delete_side-length side id n [] = refl
delete_side-length side id zero (m ∷ ms) = omega arith
delete_side-length side id (suc n) (m ∷ ms) = elim (Bool-cases (side m == id)) [
  | inl y ↦ rw y (omega (arith, delete_side-length side id n ms))
  | inr f ↦ rw f (omega (arith, delete_side-length side id (suc n) ms))
]

-- A page that is empty leaves all, and no mapping has the id.
delete_side-none :
    (side : IndexMapping → ℕ) (id n : ℕ) (ms : List IndexMapping)
    → (delete_side side id (suc n) ms).1 ≡ 0
    → ((delete_side side id (suc n) ms).0 ≡ ms) × (count_side side id ms ≡ 0)
unfolding delete_side count_side
delete_side-none side id n [] e = (refl, refl)
delete_side-none side id n (m ∷ ms) e = elim (Bool-cases (side m == id)) [
  | inl y ↦ let e' = rw y at e in absurd (omega (arith, e'))
  | inr f ↦
      let (same, none_there) = delete_side-none side id n ms (rw f at e) in
      rw f (ap (λ (l : List IndexMapping). m ∷ l) same, none_there)
]

pub delete_mapping_chunk-length :
    (id n : ℕ) (ms : List IndexMapping)
    → length (delete_mapping_chunk id n ms).0 + (delete_mapping_chunk id n ms).1 ≡ length ms
unfolding delete_mapping_chunk
delete_mapping_chunk-length id n ms = omega (
  arith,
  delete_side-length source_side id n ms,
  delete_side-length target_side id n (delete_side source_side id n ms).0,
)

delete_mapping_chunk-none :
    (id n : ℕ) (ms : List IndexMapping)
    → (delete_mapping_chunk id (suc n) ms).1 ≡ 0
    → index_row_counts id (delete_mapping_chunk id (suc n) ms).0 ≡ (0, 0)
unfolding delete_mapping_chunk index_row_counts
delete_mapping_chunk-none id n ms e =
    let left = (delete_side source_side id (suc n) ms).0 in
    let (same_left, no_source) = delete_side-none source_side id n ms (omega (arith, e)) in
    let (same_rest, no_target) = delete_side-none target_side id n left (omega (arith, e)) in
    let source : count_side source_side id (delete_side target_side id (suc n) left).0 ≡ 0 =
      ap (count_side source_side id) (same_rest ∙ same_left) ∙ no_source in
    let target : count_side target_side id (delete_side target_side id (suc n) left).0 ≡ 0 =
      ap (count_side target_side id) same_rest ∙ no_target in
    ground (arith, source, target)

abbrev pub backlog : Tables → ℕ
backlog t = length t.reclaim + length t.mappings

drain_entry-lt :
    (n id : ℕ) (rest : List ℕ) (t : Tables)
    → t.reclaim ≡ id ∷ rest
    → backlog (drain_entry (suc n) id rest t).0 < backlog t
unfolding drain_entry
drain_entry-lt n id rest t q =
    let longer : length t.reclaim ≡ suc (length rest) = ap length q in
    elim (Option-cases (find_row id t.indexes)) [
      | inr (row, live) ↦ rw (live, drain_entry) (omega (arith, longer))
      | inl gone ↦
          let taken = delete_mapping_chunk id (suc n) t.mappings in
          let counts = index_row_counts id taken.0 in
          let fewer = delete_mapping_chunk-length id (suc n) t.mappings in
          elim (Bool-cases (counts.0 == 0 && counts.1 == 0)) [
            | inl done ↦ simp (gone, done, drain_entry) (omega (arith, longer, fewer))
            | inr more ↦
                let some_deleted : 0 < taken.1 =
                  ground (arith, more, delete_mapping_chunk-none id n t.mappings) in
                simp (gone, more, drain_entry) (omega (arith, fewer, some_deleted))
          ]
    ]

-- The cleanup, run `n` times.
unfoldable pub drain_times : ℕ → ℕ → Tables → Tables
drain_times chunk_size zero t = t
drain_times chunk_size (suc n) t = drain_times chunk_size n (drain_reclaim chunk_size t).0

drain-lt :
    (n : ℕ) (l : List ℕ) (t : Tables)
    → t.reclaim ≡ l
    → 0 < length l
    → backlog (drain_queue (suc n) l t).0 < backlog t
unfolding drain_queue
drain-lt n [] t q h = absurd (omega arith)
drain-lt n (id ∷ rest) t q h = drain_entry-lt n id rest t q

-- Once the queue is empty it stays so.
drain_times-idle :
    (chunk_size k : ℕ) (t : Tables) → t.reclaim ≡ [] → (drain_times chunk_size k t).reclaim ≡ []
unfolding drain_times drain_reclaim
drain_times-idle chunk_size zero t e = e
drain_times-idle chunk_size (suc k) t e = drain_times-idle chunk_size k _ (idle t.reclaim e)
  where
    idle : (l : List ℕ) → l ≡ [] → (drain_queue chunk_size l t).0.reclaim ≡ []
    idle [] q = e
    idle (x ∷ l) q = cc

-- Pages of at least one mapping empty the queue after as many runs as it has entries and the table has
-- mappings, whatever they are.
pub drain_times-reclaim :
    (n k : ℕ) (t : Tables) → backlog t ≤ k → (drain_times (suc n) k t).reclaim ≡ []
unfolding drain_times drain_reclaim
drain_times-reclaim n zero t h = elim (List-cases t.reclaim) [
  | inl e ↦ e
  | inr (id, rest, e) ↦ absurd (omega (arith, ap length e))
]
drain_times-reclaim n (suc k) t h = elim (List-cases t.reclaim) [
  | inl e ↦ drain_times-idle (suc n) (suc k) t e
  | inr (id, rest, e) ↦
      drain_times-reclaim n k (drain_reclaim (suc n) t).0
        (omega (arith, drain-lt n t.reclaim t refl (omega (arith, ap length e))))
]
