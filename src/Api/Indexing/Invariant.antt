-- ===== src/Api/Indexing/Invariant.antt =====
-- The rows of frvt/api/indexing after any sequence of transactions.
use versification_tool.Prelude.{ℕ, refl, sym, Option, List}
use mathlib.Core.Path.{subst}
use versification_tool.Prelude.Equality.{nat_eq, pair_eq}
use versification_tool.Prelude.Texts.{Text}
use versification_tool.Resolver.Types.{SchemeRef}
use versification_tool.Api.Schemes.{Database}
use versification_tool.Api.Indexing.Rows.{Tables}
use versification_tool.Api.Indexing.Invalidation.{
  invalidate_for_translation, invalidate_for_scheme, drop_indexes_for_translation,
  drop_indexes_for_scheme,
}
use versification_tool.Api.Indexing.Worker.{record_failure, failed_row}
use versification_tool.Api.Indexing.Builder.{
  opened, append_note, increment_pairs, fail_without_scheme, without_scheme,
}
use versification_tool.Api.Indexing.Sound.{
  IsSound, failed_row-IsSoundRow, opened-IsSoundRow, without_scheme-IsKept, on_row-IsSound,
}
use versification_tool.Api.Indexing.Deleted.{delete_translation-IsSound}
use versification_tool.Api.Indexing.Requests.{
  request_rebuild-IsSound, request_cancel-IsSound, delete_index-IsSound, drop_rows-IsSound,
  requeue-IsSound, create_index-IsSound, set_versification-IsSound, retarget-IsSound,
}
use versification_tool.Api.Indexing.Work.{
  recover-IsSound, drain-indexes, sweep-IsSound, claim-IsSound, purge-IsSound, check-IsSound,
  close-IsSound,
}
use versification_tool.Api.Indexing.Steps.{
  Step, create, reassign, remove, rebuild, cancel, invalidate_translation, invalidate_scheme,
  delete, drop_scheme, retarget, recover, purge, drain, sweep, claim, load, open_build, check,
  clear, note, advance, write, miss_scheme, close, fail, leave, Reach, start, next,
}

module _ {ℓ} {Translation : Type ℓ} (session : Database Translation) (scheme : ℕ → Option SchemeRef)
    (fingerprint : ℕ → SchemeRef → Option Text) where
  -- Every transaction keeps the rows sound.
  pub Step-IsSound :
      {t u : Tables} {held after : List ℕ}
      → Step session scheme fingerprint t held u after
      → IsSound t.indexes
      → IsSound u.indexes
  unfolding invalidate_for_translation invalidate_for_scheme drop_indexes_for_translation
      drop_indexes_for_scheme append_note increment_pairs fail_without_scheme record_failure
  Step-IsSound {t} (create id now of sc u row fresh e) s =
      create_index-IsSound session id now of sc t u row fresh e s
  Step-IsSound {t} (reassign now id sc u row e) s =
      set_versification-IsSound session now id sc t u row e s
  Step-IsSound {t} (remove id u e) s = delete_index-IsSound id t u e s
  Step-IsSound {t} (rebuild now id u row e) s = request_rebuild-IsSound now id t u row e s
  Step-IsSound {t} (cancel id u row e) s = request_cancel-IsSound id t u row e s
  Step-IsSound {t} (invalidate_translation id reason now) s = requeue-IsSound _ reason now t s
  Step-IsSound {t} (invalidate_scheme id reason now) s = requeue-IsSound _ reason now t s
  Step-IsSound {t} (delete referenced coupled id u e) s =
      delete_translation-IsSound session referenced coupled id t u e s
  Step-IsSound {t} (drop_scheme id) s = drop_rows-IsSound _ t s
  Step-IsSound {t} (retarget of now u changed e) s = retarget-IsSound session of now t u changed e s
  Step-IsSound {t} recover s = recover-IsSound t s
  Step-IsSound {t} purge s = purge-IsSound t s
  Step-IsSound {t} (drain chunk h) s = subst IsSound (sym (drain-indexes chunk t)) s
  Step-IsSound {t} (sweep now h) s = sweep-IsSound scheme fingerprint now t s
  Step-IsSound {t} (claim now h) s = claim-IsSound now t s
  Step-IsSound (load id row e) s = s
  Step-IsSound {t} (open_build id total) s =
      on_row-IsSound id (opened total) t.indexes
        (λ row e h. record {
          same_id = refl;
          same_pair = refl;
          sound = opened-IsSoundRow total row h;
        })
        s
  Step-IsSound {t} (check id) s = check-IsSound id t s
  Step-IsSound (clear id chunk) s = s
  Step-IsSound {t} (note id text) s =
      on_row-IsSound id _ t.indexes
        (λ row e h. record {
          same_id = refl;
          same_pair = refl;
          sound = record {
            flagged = h.flagged;
            reasoned = h.reasoned;
            begun = h.begun;
            digested = h.digested;
          };
        })
        s
  Step-IsSound {t} (advance id count) s =
      on_row-IsSound id _ t.indexes
        (λ row e h. record {
          same_id = refl;
          same_pair = refl;
          sound = record {
            flagged = h.flagged;
            reasoned = h.reasoned;
            begun = h.begun;
            digested = h.digested;
          };
        })
        s
  Step-IsSound (write source target chunk a b) s = s
  Step-IsSound {t} (miss_scheme id) s =
      on_row-IsSound id without_scheme t.indexes (λ row e h. without_scheme-IsKept row h) s
  Step-IsSound {t} (close digest now id) s = close-IsSound digest now id t s
  Step-IsSound {t} (fail id message) s =
      on_row-IsSound id (failed_row message) t.indexes
        (λ row e h. record {
          same_id = refl;
          same_pair = refl;
          sound = failed_row-IsSoundRow message row;
        })
        s
  Step-IsSound leave s = s

  -- After any sequence of transactions from empty tables no two indexes have an id, or a translation
  -- and scheme, in common; and for each row: it is flagged for a cancel only while it is built or when
  -- its build failed, a pending row has a reason, a row that is built has a start, and a ready row has
  -- a digest, an end, no reason and no error.
  pub Reach-IsSound :
      {t : Tables} {held : List ℕ} → Reach session scheme fingerprint t held → IsSound t.indexes
  Reach-IsSound start = record { distinct = tt; unique = tt; sound = tt }
  Reach-IsSound (next r step) = Step-IsSound step (Reach-IsSound r)
