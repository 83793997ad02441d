-- ===== src/Api/Indexing/Stored.antt =====
-- The mappings of frvt/api/indexing whose ends the tables know, or are lost, and what takes and adds
-- mappings.
use versification_tool.Prelude.{
  ℕ, zero, suc, ◌≡◌, refl, ap, sym, inl, inr, true, false, ◌&&◌, ◌||◌, some, List, [], ◌∷◌,
  Bool-cases, Option-cases, arith, nat_beq_iff,
}
use mathlib.Core.Path.{subst}
use versification_tool.Prelude.Equality.{nat_eq, pair_eq, ◌==◌, contains}
use versification_tool.Prelude.Texts.{Text, text_eq}
use versification_tool.Api.Indexing.Rows.{TranslationIndex, IndexMapping, Tables, find_row, ids}
use versification_tool.Api.Indexing.Registry.{
  source_side, target_side, count_side, index_row_counts, delete_side, delete_mapping_chunk,
}
use versification_tool.Api.Indexing.Worker.{drain_reclaim, drain_queue, drain_entry}
use versification_tool.Api.Indexing.Builder.{upsert, upsert_chunk}
use versification_tool.Api.Indexing.Known.{accounted, Grows, Grows-accounted}

pub find_row-contains :
    (id : ℕ) (rows : List TranslationIndex) (row : TranslationIndex)
    → find_row id rows ≡ some row
    → contains id (ids rows) ≡ true
unfolding find_row contains
find_row-contains id [] row e = cc
find_row-contains id (r ∷ rows) row e = elim (Bool-cases (r.id == id)) [
  | inl t ↦ ground (arith, nat_beq_iff r.id id, nat_beq_iff id r.id, t)
  | inr f ↦ ground (arith, find_row-contains id rows row (rw f at e))
]

module _ (lost : List ℕ) where
  -- Both ends of each mapping are known.
  abbrev pub AllKnown : Tables → List IndexMapping → Type 0
  AllKnown t [] = Unit {0}
  AllKnown t (m ∷ ms) =
      (accounted lost m.source_index_id t ≡ true)
      × (accounted lost m.target_index_id t ≡ true)
      × AllKnown t ms

  -- Also what the running build has read.
  pub record IsCovered (t : Tables) (held : List ℕ) : Type 0 where
    pub reads : (i : ℕ) → contains i held ≡ true → accounted lost i t ≡ true
    pub stored : AllKnown t t.mappings

  pub AllKnown-mono :
      (t u : Tables) (ms : List IndexMapping)
      → ((i : ℕ) → accounted lost i t ≡ true → accounted lost i u ≡ true)
      → AllKnown t ms
      → AllKnown u ms
  AllKnown-mono t u [] h a = tt
  AllKnown-mono t u (m ∷ ms) h a =
      (h m.source_index_id a.0, h m.target_index_id a.1, AllKnown-mono t u ms h a.2)

  pub Grows-IsCovered :
      {t u : Tables} {held : List ℕ} → Grows t u → IsCovered t held → IsCovered u held
  Grows-IsCovered {t} {u} g c = record {
    reads = λ i h. Grows-accounted lost i g (c.reads i h);
    stored =
        subst (AllKnown u) (sym g.mappings_same)
          (AllKnown-mono t u t.mappings (λ i. Grows-accounted lost i g) c.stored);
  }

  pub delete_side-AllKnown :
      (t : Tables) (side : IndexMapping → ℕ) (id n : ℕ) (ms : List IndexMapping)
      → AllKnown t ms
      → AllKnown t (delete_side side id n ms).0
  unfolding delete_side
  delete_side-AllKnown t side id n [] a = tt
  delete_side-AllKnown t side id zero (m ∷ ms) a = a
  delete_side-AllKnown t side id (suc n) (m ∷ ms) a = elim (Bool-cases (side m == id)) [
    | inl y ↦ rw y (delete_side-AllKnown t side id n ms a.2)
    | inr f ↦ rw f (a.0, a.1, delete_side-AllKnown t side id (suc n) ms a.2)
  ]

  pub delete_mapping_chunk-AllKnown :
      (t : Tables) (id n : ℕ) (ms : List IndexMapping)
      → AllKnown t ms
      → AllKnown t (delete_mapping_chunk id n ms).0
  unfolding delete_mapping_chunk
  delete_mapping_chunk-AllKnown t id n ms a =
      delete_side-AllKnown t target_side id n (delete_side source_side id n ms).0
        (delete_side-AllKnown t source_side id n ms a)

  -- Mappings that do not name an id stay accounted lost without it.
  pub AllKnown-without :
      (t u : Tables) (id : ℕ) (ms : List IndexMapping)
      → ((i : ℕ) → accounted lost i t ≡ true → (i == id) ≡ false → accounted lost i u ≡ true)
      → count_side source_side id ms ≡ 0
      → count_side target_side id ms ≡ 0
      → AllKnown t ms
      → AllKnown u ms
  unfolding count_side
  AllKnown-without t u id [] h c d a = tt
  AllKnown-without t u id (m ∷ ms) h c d a =
      let source_apart : (m.source_index_id == id) ≡ false = ground (arith, c) in
      let target_apart : (m.target_index_id == id) ≡ false = ground (arith, d) in
      (
        h m.source_index_id a.0 source_apart,
        h m.target_index_id a.1 target_apart,
        AllKnown-without t u id ms h (ground (arith, c)) (ground (arith, d)) a.2,
      )

  pub find_row-known :
      (id : ℕ) (t : Tables) (row : TranslationIndex)
      → find_row id t.indexes ≡ some row
      → accounted lost id t ≡ true
  find_row-known id t row e = rw (find_row-contains id t.indexes row e)

  -- What is accounted lost without the head of the queue.
  pub known-tail :
      (i id : ℕ) (rest : List ℕ) (t : Tables)
      → t.reclaim ≡ id ∷ rest
      → accounted lost i t ≡ true
      → (i == id) ≡ false
      → (contains i (ids t.indexes) || contains i rest || contains i lost) ≡ true
  unfolding contains
  known-tail i id rest t q h n =
      let seen : contains i t.reclaim ≡ contains i (id ∷ rest) = ap (contains i) q in
      ground (arith, seen, h, n)

  pub drain_entry-AllKnown :
      (chunk_size id : ℕ) (rest : List ℕ) (t : Tables)
      → t.reclaim ≡ id ∷ rest
      → AllKnown t t.mappings
      → AllKnown (drain_entry chunk_size id rest t).0 (drain_entry chunk_size id rest t).0.mappings
  unfolding drain_entry index_row_counts
  drain_entry-AllKnown chunk_size id rest t q a = elim (Option-cases (find_row id t.indexes)) [
    | inr (row, live) ↦
        let here = find_row-contains id t.indexes row live in
        rw (live, drain_entry)
          (AllKnown-mono t (record t { reclaim = rest }) t.mappings
            (λ i h. elim (Bool-cases (i == id)) [
              | inl same ↦
                  let own =
                    subst (λ (x : ℕ). contains x (ids t.indexes) ≡ true)
                      (sym ((nat_beq_iff i id).0 same)) here in
                  rw own
              | inr other ↦ known-tail i id rest t q h other
            ])
            a)
    | inl gone ↦
        let left = (delete_mapping_chunk id chunk_size t.mappings).0 in
        let fewer = delete_mapping_chunk-AllKnown t id chunk_size t.mappings a in
        let counts = index_row_counts id left in
        elim (Bool-cases (counts.0 == 0 && counts.1 == 0)) [
          | inl done ↦
              let u : Tables = record t { mappings = left; reclaim = rest } in
              rw (gone, done, drain_entry)
                (AllKnown-without t u id left (λ i h n. known-tail i id rest t q h n)
                  (ground (arith, done)) (ground (arith, done)) fewer)
          | inr more ↦
              let u : Tables = record t { mappings = left } in
              rw (gone, more, drain_entry) (AllKnown-mono t u left (λ i h. h) fewer)
        ]
  ]

  pub drain_queue-AllKnown :
      (chunk_size : ℕ) (l : List ℕ) (t : Tables)
      → t.reclaim ≡ l
      → AllKnown t t.mappings
      → AllKnown (drain_queue chunk_size l t).0 (drain_queue chunk_size l t).0.mappings
  unfolding drain_queue
  drain_queue-AllKnown chunk_size [] t e a = a
  drain_queue-AllKnown chunk_size (id ∷ rest) t e a = drain_entry-AllKnown chunk_size id rest t e a

  pub drain-AllKnown :
      (chunk_size : ℕ) (t : Tables)
      → AllKnown t t.mappings
      → AllKnown (drain_reclaim chunk_size t).0 (drain_reclaim chunk_size t).0.mappings
  unfolding drain_reclaim
  drain-AllKnown chunk_size t a = drain_queue-AllKnown chunk_size t.reclaim t refl a

  pub upsert-AllKnown :
      (t : Tables) (new : IndexMapping) (ms : List IndexMapping)
      → accounted lost new.source_index_id t ≡ true
      → accounted lost new.target_index_id t ≡ true
      → AllKnown t ms
      → AllKnown t (upsert new ms)
  unfolding upsert
  upsert-AllKnown t new [] h k a = (h, k, tt)
  upsert-AllKnown t new (m ∷ ms) h k a =
      elim (Bool-cases (
        m.source_index_id == new.source_index_id
        && m.target_index_id == new.target_index_id
        && m.source_ref == new.source_ref)) [
          | inl y ↦ rw (y, upsert) (h, k, a.2)
          | inr n ↦ rw (n, upsert) (a.0, a.1, upsert-AllKnown t new ms h k a.2)
        ]

  pub upsert_chunk-AllKnown :
      (t : Tables) (source target : ℕ) (chunk : List (Text × Text)) (ms : List IndexMapping)
      → accounted lost source t ≡ true
      → accounted lost target t ≡ true
      → AllKnown t ms
      → AllKnown t (upsert_chunk source target chunk ms)
  unfolding upsert_chunk
  upsert_chunk-AllKnown t source target [] ms h k a = a
  upsert_chunk-AllKnown t source target ((ref, payload) ∷ chunk) ms h k a =
      upsert_chunk-AllKnown t source target chunk _ h k (upsert-AllKnown t _ ms h k a)

-- What is known may move to what is lost.
pub AllKnown-moved :
    (lost more : List ℕ) (t u : Tables) (ms : List IndexMapping)
    → ((i : ℕ) → accounted lost i t ≡ true → accounted more i u ≡ true)
    → AllKnown lost t ms
    → AllKnown more u ms
AllKnown-moved lost more t u [] h a = tt
AllKnown-moved lost more t u (m ∷ ms) h a =
    (h m.source_index_id a.0, h m.target_index_id a.1, AllKnown-moved lost more t u ms h a.2)
