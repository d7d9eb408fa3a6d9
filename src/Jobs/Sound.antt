-- ===== src/Jobs/Sound.antt =====
-- The invariant of the queue, and that each way of writing it keeps it.
use synthetos.Prelude.{
  ℕ, ◌-◌, ◌≡◌, refl, ◌≤◌, false, none, List, [], ◌∷◌, ◌++◌, arith, count_if-append, Distinct-map,
  update_where-map, if_either, All, All-map, All-map₂, All-map_list, All-update_where, update_where,
}
use synthetos.Jobs.{pending, Job, Queue, JobEvent, has_id, reclaim_stale_jobs}
use synthetos.Jobs.Reclaim.{reclaim_row, reclaim_rows-map}
use synthetos.Jobs.Releases.{
  is_release_of, releases, HasDistinct, events_of, IsCounted, All-IsCounted,
}

-- What holds of a row and the log: the job was released as often as it counts, and at most `limit`
-- times; and a pending job has no claim.
pub record IsRow {P : Type 0} (limit : ℕ) (es : List JobEvent) (j : Job P) : Type 0 where
  pub counted : releases j.id es ≡ j.reclaim_count
  pub bounded : j.reclaim_count ≤ limit
  pub unclaimed : j.status ≡ pending → (j.claimed_by ≡ none) × (j.claimed_at ≡ none)

pub record IsSound {P : Type 0} (limit : ℕ) (q : Queue P) : Type 0 where
  pub distinct : HasDistinct q.jobs
  pub rows : All (IsRow limit q.events) q.jobs

module _ {P : Type 0} (limit timeout now cutoff : ℕ) where
  reclaim_row-id : (j : Job P) → (reclaim_row timeout limit now cutoff j).id ≡ j.id
  reclaim_row-id j = ground arith

  reclaim_row-le :
      (j : Job P)
      → j.reclaim_count ≤ limit
      → (reclaim_row timeout limit now cutoff j).reclaim_count ≤ limit
  reclaim_row-le j h = ground arith

  reclaim_row-unclaimed :
      (j : Job P)
      → (j.status ≡ pending → (j.claimed_by ≡ none) × (j.claimed_at ≡ none))
      → let k = reclaim_row timeout limit now cutoff j in
        k.status ≡ pending → (k.claimed_by ≡ none) × (k.claimed_at ≡ none)
  reclaim_row-unclaimed j h = ground arith

  reclaim_row-IsRow :
      (es new : List JobEvent) (j : Job P)
      → IsRow limit es j
      → IsCounted timeout limit now cutoff new j
      → IsRow limit (es ++ new) (reclaim_row timeout limit now cutoff j)
  reclaim_row-IsRow es new j row own = record {
    counted =
        rw (reclaim_row-id j)
          (omega (arith, count_if-append (is_release_of j.id) es new, row.counted, own));
    bounded = reclaim_row-le j row.bounded;
    unclaimed = reclaim_row-unclaimed j row.unclaimed;
  }

module _ {P : Type 0} (limit : ℕ) where
  -- Rows rewritten one by one, with the log as it was.
  pub update-IsSound :
      (i : ℕ) (change : Job P → Job P)
      → ((es : List JobEvent) (j : Job P) → IsRow limit es j → IsRow limit es (change j))
      → ((j : Job P) → (change j).id ≡ j.id)
      → (q : Queue P) → IsSound limit q
      → IsSound limit (record q { jobs = update_where (has_id i) change q.jobs })
  update-IsSound i change keeps same q h = record {
    distinct = rw (update_where-map (has_id i) change q.jobs) (
        Distinct-map (λ (j : Job P). j.id) _
          (λ j. if_either (λ k. k.id ≡ j.id) (has_id i j) (change j) j (same j) refl) q.jobs
          h.distinct);
    rows =
        All-update_where (IsRow limit q.events) (IsRow limit q.events) (has_id i) change
          (λ j row.
            if_either (IsRow limit q.events) (has_id i j) (change j) j (keeps q.events j row) row)
          q.jobs h.rows;
  }

  -- Events that are no releases.
  pub log-IsSound :
      (e : JobEvent) (q : Queue P)
      → ((i : ℕ) → is_release_of i e ≡ false)
      → IsSound limit q
      → IsSound limit (record q { events = q.events ++ e ∷ [] })
  log-IsSound e q silent h = record {
    distinct = h.distinct;
    rows = All-map (IsRow limit q.events) (IsRow limit (q.events ++ e ∷ [])) logged q.jobs h.rows;
  }
    where
      logged : (j : Job P) → IsRow limit q.events j → IsRow limit (q.events ++ e ∷ []) j
      logged j row = record {
        counted =
            rw (count_if-append (is_release_of j.id) q.events (e ∷ []), silent j.id)
              (omega (arith, row.counted));
        bounded = row.bounded;
        unclaimed = row.unclaimed;
      }

  pub reclaim-IsSound :
      (timeout now : ℕ) (q : Queue P)
      → IsSound limit q
      → IsSound limit (reclaim_stale_jobs timeout limit now q).1
  unfolding reclaim_stale_jobs
  reclaim-IsSound timeout now q h =
      let cutoff = now - timeout in
      let same = reclaim_rows-map timeout limit now cutoff q.jobs in
      let new = events_of timeout limit now cutoff q.jobs in
      record {
        distinct = rw same (
            Distinct-map (λ (j : Job P). j.id) _ (reclaim_row-id limit timeout now cutoff) q.jobs
              h.distinct);
        rows = rw same (
            All-map_list (IsRow limit (q.events ++ new)) (reclaim_row timeout limit now cutoff)
              q.jobs
              (All-map₂ _ _ _ (reclaim_row-IsRow limit timeout now cutoff q.events new) q.jobs
                h.rows (All-IsCounted timeout limit now cutoff q.jobs h.distinct)));
      }
