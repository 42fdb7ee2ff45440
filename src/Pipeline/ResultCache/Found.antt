-- ===== src/Pipeline/ResultCache/Found.antt =====
-- pkg/pipeline/step.go: when `checkCached` finds a result.
use paddle_flow.Prelude.{
  &&_true, Bool, Bool-cases, In, List, Option, Text, [], ap, codes, eq→text_eq, false, inl, inr,
  none, refl, some, subst, sym, text_empty, text_eq, text_eq_iff, text_eq→eq, true, ℕ, ◌&&◌, ◌||◌,
  ◌↔◌, ◌∙◌, ◌∷◌, ◌≡◌,
}
use mathlib.Core.Bool.{true≢false}
use paddle_flow.Pipeline.Job.{PaddleFlowJob}
use paddle_flow.Pipeline.ResultCache.{
  CacheInputs, RunCache, asks, find_cache, is_fresh, list_by_first_fp, SecondCacheKey, atoi,
  check_cached, first_cache_key, is_before, log_cache_row, or_never, second_cache_key, seconds,
}

-- A result of the same step of the same source on the same file system, with both fingerprints,
-- that has not expired.
pub record IsUsable (c : CacheInputs) (step_name first second : Text) (row : RunCache)
    : Type 0 where
  pub same_first : first ≡ row.first_fp
  pub same_fs : c.fs_id ≡ row.fs_id
  pub same_step : step_name ≡ row.step
  pub same_source : c.source ≡ row.source
  pub same_second : second ≡ row.second_fp
  pub fresh : is_fresh c.now row ≡ true

asks_iff : (s t : Text) → text_empty s ≡ false → (asks s t ≡ true) ↔ (s ≡ t)
asks_iff [] t e = absurd (true≢false e)
asks_iff (c ∷ s) t e = text_eq_iff (c ∷ s) t

abbrev is_found : Option Text → Bool
is_found none = false
is_found (some id) = true

module _ (c : CacheInputs) (step_name first second : Text) (named_first : text_empty first ≡ false)
    (named_fs : text_empty c.fs_id ≡ false) (named_step : text_empty step_name ≡ false)
    (named_source : text_empty c.source ≡ false) where
  abbrev asked : RunCache → Bool
  asked row =
      asks first row.first_fp
      && (asks c.fs_id row.fs_id && (asks step_name row.step && asks c.source row.source))

  abbrev usable : RunCache → Bool
  usable row = asked row && (text_eq second row.second_fp && is_fresh c.now row)

  usable_iff : (row : RunCache) → (usable row ≡ true) ↔ IsUsable c step_name first second row
  usable_iff row = (
    (λ h.
        let (asking, more) =
          &&_true (asked row) (text_eq second row.second_fp && is_fresh c.now row) h in
        let (one, two) = &&_true (asks first row.first_fp) _ asking in
        let (fs, three) = &&_true (asks c.fs_id row.fs_id) _ two in
        let (step, src) = &&_true (asks step_name row.step) (asks c.source row.source) three in
        let (fp, fresh) = &&_true (text_eq second row.second_fp) (is_fresh c.now row) more in
        record {
          same_first = (asks_iff first row.first_fp named_first).0 one;
          same_fs = (asks_iff c.fs_id row.fs_id named_fs).0 fs;
          same_step = (asks_iff step_name row.step named_step).0 step;
          same_source = (asks_iff c.source row.source named_source).0 src;
          same_second = text_eq→eq second row.second_fp fp;
          fresh = fresh;
        }),
    (λ h.
        rw
          (
            (asks_iff first row.first_fp named_first).1 h.same_first,
            (asks_iff c.fs_id row.fs_id named_fs).1 h.same_fs,
            (asks_iff step_name row.step named_step).1 h.same_step,
            (asks_iff c.source row.source named_source).1 h.same_source,
            eq→text_eq second row.second_fp h.same_second,
            h.fresh,
          )
          refl),
  )

  abbrev any_usable : List RunCache → Bool
  any_usable [] = false
  any_usable (row ∷ rows) = usable row || any_usable rows

  found_any :
      (rows : List RunCache)
      → is_found (find_cache c.now second (list_by_first_fp first c.fs_id step_name c.source rows))
        ≡ any_usable rows
  unfolding find_cache list_by_first_fp
  found_any [] = refl
  found_any (row ∷ rows) =
      let ih = found_any rows in
      elim (Bool-cases (asked row)) [
        | inr e ↦ rw (e, list_by_first_fp) ih
        | inl e ↦ elim (Bool-cases (text_eq second row.second_fp)) [
          | inr f ↦ rw (e, list_by_first_fp, f, find_cache) ih
          | inl f ↦ elim (Bool-cases (is_fresh c.now row)) [
            | inr g ↦ rw (e, list_by_first_fp, f, g, find_cache) ih
            | inl g ↦ rw (e, list_by_first_fp, f, g, find_cache) refl
          ]
        ]
      ]

  any_usable_iff :
      (rows : List RunCache)
      → (any_usable rows ≡ true)
        ↔ ((row : RunCache) × In row rows × IsUsable c step_name first second row)
  any_usable_iff [] = ((λ h. cc), (λ h. let (row, m, is) = h in absurd m))
  any_usable_iff (row ∷ rows) = (
    (λ h. elim (Bool-cases (usable row)) [
      | inl e ↦ (row, inl refl, (usable_iff row).0 e)
      | inr e ↦ let (found, m, is) = (any_usable_iff rows).0 (rw e at h) in (found, inr m, is)
    ]),
    (λ h.
        let (found, m, is) = h in
        elim m [
          | inl e ↦
              rw ((usable_iff row).1 (subst (IsUsable c step_name first second) (sym e) is)) refl
          | inr n ↦ elim (Bool-cases (usable row)) [
            | inl e ↦ rw e refl
            | inr e ↦ rw e ((any_usable_iff rows).1 (found, n, is))
          ]
        ]),
  )

  pub found_iff :
      (rows : List RunCache)
      → (is_found (find_cache c.now second (list_by_first_fp first c.fs_id step_name c.source rows))
          ≡ true)
        ↔ ((row : RunCache) × In row rows × IsUsable c step_name first second row)
  found_iff rows = (
    (λ h. (any_usable_iff rows).0 (sym (found_any rows) ∙ h)),
    (λ h. found_any rows ∙ (any_usable_iff rows).1 h),
  )

-- When the table and the times of the files can be read, `checkCached` finds a result exactly when
-- the table has one of the same step, source and file system with the fingerprints of the step,
-- which it gives back, that has not expired; if none of these four texts is empty.
pub check_cached-IsUsable :
    (c : CacheInputs) (step_name : Text) (job : PaddleFlowJob) (rows : List RunCache)
    (key : SecondCacheKey)
    → c.table ≡ some rows
    → second_cache_key c.mod_time c.fs_scope job ≡ some key
    → text_empty (c.first_fp_of (first_cache_key step_name job)) ≡ false
    → text_empty c.fs_id ≡ false
    → text_empty step_name ≡ false
    → text_empty c.source ≡ false
    → (let first = c.first_fp_of (first_cache_key step_name job) in
        let second = c.second_fp_of key in
        (found : Bool) × (check_cached c step_name job ≡ some (found, first, second))
        × ((found ≡ true)
            ↔ ((row : RunCache) × In row rows × IsUsable c step_name first second row)))
unfolding check_cached
check_cached-IsUsable c step_name job rows key read timed named_first named_fs named_step
      named_source =
    let first = c.first_fp_of (first_cache_key step_name job) in
    let second = c.second_fp_of key in
    let found = find_cache c.now second (list_by_first_fp first c.fs_id step_name c.source rows) in
    (
      is_found found,
      rw (read, timed, check_cached) refl,
      found_iff c step_name first second named_first named_fs named_step named_source rows,
    )

-- What was logged for a step is found by each later check of the same step, whose parameters,
-- artifacts and files did not change, until it expires.
pub check_cached-log_cache_row :
    (c : CacheInputs) (step_name : Text) (job : PaddleFlowJob) (rows : List RunCache)
    (key : SecondCacheKey) (run_id expires : Text) (later : ℕ)
    → second_cache_key c.mod_time c.fs_scope job ≡ some key
    → text_empty (c.first_fp_of (first_cache_key step_name job)) ≡ false
    → text_empty c.fs_id ≡ false
    → text_empty step_name ≡ false
    → text_empty c.source ≡ false
    → (text_eq (or_never expires) (codes "-1")
        || is_before later c.now (seconds (atoi (or_never expires))))
      ≡ true
    → (let first = c.first_fp_of (first_cache_key step_name job) in
        let second = c.second_fp_of key in
        check_cached
          (record c {
            now = later;
            table = some (log_cache_row c run_id step_name first second expires rows);
          })
          step_name
          job
        ≡ some (true, first, second))
unfolding log_cache_row is_fresh
check_cached-log_cache_row c step_name job rows key run_id expires later timed named_first named_fs
      named_step named_source fresh =
    let first = c.first_fp_of (first_cache_key step_name job) in
    let second = c.second_fp_of key in
    let table = log_cache_row c run_id step_name first second expires rows in
    let c' : CacheInputs = record c { now = later; table = some table } in
    let (found, answer, iff) =
      check_cached-IsUsable c' step_name job table key refl timed named_first named_fs named_step
        named_source in
    let usable : found ≡ true = iff.1 (
      record {
        first_fp = first;
        second_fp = second;
        run_id = run_id;
        source = c.source;
        step = step_name;
        fs_id = c.fs_id;
        expired_time = or_never expires;
        updated_at = c.now;
      },
      inl refl,
      record {
        same_first = refl;
        same_fs = refl;
        same_step = refl;
        same_source = refl;
        same_second = refl;
        fresh = fresh;
      },
    ) in
    answer ∙ ap (λ b. some (b, first, second)) usable
