-- ===== src/Pipeline/ResultCache.antt =====
-- pkg/pipeline/cache.go and `checkCached` of step.go, with the table of results of
-- pkg/apiserver/models/cache.go: whether a step was done before.
pub mod Found
pub mod Keys
use paddle_flow.Prelude.{
  Bool, List, Option, Text, [], codes, false, if◌then◌else◌, insert, is_space, leb, ltb, min,
  negsuc, none, pos, some, split, suc, text_empty, text_eq, trim, true, value, zero, ℕ, ℤ, ◌%◌,
  ◌&&◌, ◌*◌, ◌+◌, ◌-◌, ◌/◌, ◌==◌, ◌>>=◌, ◌^◌, ◌||◌, ◌∷◌,
}
use paddle_flow.Pipeline.Job.{PaddleFlowJob}

-- The system parameters that `generateFirstCacheKey` leaves out.
abbrev pub system_names : List Text
system_names =
    codes "PF_RUN_ID"
    ∷ codes "PF_FS_ID"
    ∷ codes "PF_JOB_ID"
    ∷ codes "PF_STEP_NAME"
    ∷ codes "PF_FS_NAME"
    ∷ codes "PF_USER_ID"
    ∷ codes "PF_USER_NAME"
    ∷ []

unfoldable pub is_system : List Text → Text → Bool
unfolding text_eq
is_system [] name = false
is_system (s ∷ names) name =
    let rest = is_system names name in if text_eq s name then true else rest

unfoldable pub without_system : List (Text × Text) → List (Text × Text)
unfolding is_system
without_system [] = []
without_system ((name, value) ∷ env) =
    let rest = without_system env in
    if is_system system_names name then rest else (name, value) ∷ rest

-- `conservativeFirstCacheKey`.
pub record FirstCacheKey : Type 0 where
  pub docker_env : Text
  pub step_name : Text
  pub command : Text
  pub env : List (Text × Text)
  pub parameters : List (Text × Text)
  pub input_artifacts : List (Text × Text)
  pub output_artifacts : List (Text × Text)

-- `conservativeSecondCacheKey`.
pub record SecondCacheKey : Type 0 where
  pub input_artifacts_mod_time : List (Text × ℕ)
  pub fs_scope_mod_time : List (Text × ℕ)

-- `generateFirstCacheKey`.
unfoldable pub first_cache_key : Text → PaddleFlowJob → FirstCacheKey
unfolding without_system
first_cache_key step_name job = record {
  docker_env = job.image;
  step_name = step_name;
  command = job.command;
  env = without_system job.env;
  parameters = job.parameters;
  input_artifacts = job.artifacts.input;
  output_artifacts = job.artifacts.output;
}

-- The loops over the paths of the scope and over the input artifacts; `mod_time` is what the file
-- system server tells of a path.
unfoldable pub scope_times : (Text → Option ℕ) → List Text → Option (List (Text × ℕ))
unfolding trim insert
scope_times mod_time [] = some []
scope_times mod_time (part ∷ parts) =
    let path = trim is_space part in
    let rest = scope_times mod_time parts in
    if text_empty path then rest else elim (mod_time path) [
      | none ↦ none
      | some time ↦ rest >>= (λ times. some (insert path time times))
    ]

abbrev pub or_root : Text → Text
or_root [] = codes "/"
or_root (c ∷ s) = c ∷ s

-- `getFsScopeModTime`.
unfoldable pub get_fs_scope_mod_time : (Text → Option ℕ) → Text → Option (List (Text × ℕ))
unfolding scope_times split trim
get_fs_scope_mod_time mod_time scope =
    scope_times mod_time (split 44 (or_root (trim is_space scope)))

-- `getInputArtifactModTime`.
unfoldable pub get_input_artifact_mod_time :
    (Text → Option ℕ) → List (Text × Text) → Option (List (Text × ℕ))
unfolding trim insert
get_input_artifact_mod_time mod_time [] = some []
get_input_artifact_mod_time mod_time ((name, path) ∷ artifacts) =
    let rest = get_input_artifact_mod_time mod_time artifacts in
    let dry_name = trim is_space name in
    let dry_path = trim is_space path in
    if text_empty dry_name || text_empty dry_path then none else elim (mod_time dry_path) [
      | none ↦ none
      | some time ↦ rest >>= (λ times. some (insert dry_name time times))
    ]

-- `generateSecondCacheKey`.
unfoldable pub second_cache_key : (Text → Option ℕ) → Text → PaddleFlowJob → Option SecondCacheKey
unfolding get_fs_scope_mod_time get_input_artifact_mod_time
second_cache_key mod_time scope job = do
  fs ← get_fs_scope_mod_time mod_time scope
  inputs ← get_input_artifact_mod_time mod_time job.artifacts.input
  some (record { input_artifacts_mod_time = inputs; fs_scope_mod_time = fs })

-- A row of the table of results; times are in nanoseconds.
pub record RunCache : Type 0 where
  pub first_fp : Text
  pub second_fp : Text
  pub run_id : Text
  pub source : Text
  pub step : Text
  pub fs_id : Text
  pub expired_time : Text
  pub updated_at : ℕ

-- A condition of `Where` with a struct, which drops the fields that are empty.
abbrev pub asks : Text → Text → Bool
asks [] t = true
asks (c ∷ s) t = text_eq (c ∷ s) t

-- `ListRunCacheByFirstFp`, on a table with the newest row first.
unfoldable pub list_by_first_fp : Text → Text → Text → Text → List RunCache → List RunCache
unfolding text_eq
list_by_first_fp fp fs step source [] = []
list_by_first_fp fp fs step source (row ∷ rows) =
    let rest = list_by_first_fp fp fs step source rows in
    if asks fp row.first_fp && (asks fs row.fs_id && (asks step row.step && asks source row.source))
    then row ∷ rest
    else rest

-- strconv.Atoi, whose error is not looked at: zero for what is no number, and the largest or the
-- smallest one for what does not fit.
unfoldable digits_value : ℕ → Text → Option ℕ
digits_value n [] = some n
digits_value n (c ∷ s) = if leb 48 c && leb c 57 then digits_value (n * 10 + (c - 48)) s else none

abbrev positive : Option ℕ → ℤ
positive none = pos 0
positive (some n) = pos (min n (2 ^ 63 - 1))

abbrev negative : Option ℕ → ℤ
negative none = pos 0
negative (some zero) = pos 0
negative (some (suc n)) = negsuc (min n (2 ^ 63 - 1))

unfoldable digits_of : Text → Option ℕ
unfolding digits_value
digits_of [] = none
digits_of (c ∷ s) = digits_value 0 (c ∷ s)

unfoldable pub atoi : Text → ℤ
unfolding digits_of
atoi [] = pos 0
atoi (c ∷ s) =
    if c == 45
    then negative (digits_of s)
    else if c == 43
    then positive (digits_of s)
    else positive (digits_of (c ∷ s))

abbrev int64_of : ℕ → ℤ
int64_of m = if ltb m (2 ^ 63) then pos m else negsuc (2 ^ 64 - m - 1)

-- time.Second * time.Duration(n), an int64.
abbrev pub seconds : ℤ → ℤ
seconds (pos n) = int64_of (n * 1000000000 % 2 ^ 64)
seconds (negsuc n) = int64_of ((2 ^ 64 - (n + 1) * 1000000000 % 2 ^ 64) % 2 ^ 64)

-- Whether `now` is before the time that lies `d` behind `t`.
abbrev pub is_before : ℕ → ℕ → ℤ → Bool
is_before now t (pos d) = ltb now (t + d)
is_before now t (negsuc d) = ltb (now + d + 1) t

unfoldable pub is_fresh : ℕ → RunCache → Bool
unfolding atoi text_eq
is_fresh now row =
    text_eq row.expired_time (codes "-1")
    || is_before now row.updated_at (seconds (atoi row.expired_time))

-- The loop of `checkCached`.
unfoldable pub find_cache : ℕ → Text → List RunCache → Option Text
unfolding is_fresh text_eq
find_cache now fp [] = none
find_cache now fp (row ∷ rows) =
    let rest = find_cache now fp rows in
    if text_eq fp row.second_fp then (if is_fresh now row then some row.run_id else rest) else rest

-- What `checkCached` reads: the fingerprints of keys, the times of files, the identity of the file
-- system and the source of the run, the time, and the table, none if it can not be read.
pub record CacheInputs : Type 0 where
  pub first_fp_of : FirstCacheKey → Text
  pub second_fp_of : SecondCacheKey → Text
  pub mod_time : Text → Option ℕ
  pub fs_scope : Text
  pub fs_id : Text
  pub source : Text
  pub now : ℕ
  pub table : Option (List RunCache)

-- `checkCached`: whether a result was found, and the fingerprints of the step; none for an error.
unfoldable pub check_cached : CacheInputs → Text → PaddleFlowJob → Option (Bool × Text × Text)
unfolding first_cache_key second_cache_key list_by_first_fp find_cache
check_cached c step_name job =
    let first = c.first_fp_of (first_cache_key step_name job) in
    do
      rows ← c.table
      key ← second_cache_key c.mod_time c.fs_scope job
      let second = c.second_fp_of key
      let found = find_cache c.now second (list_by_first_fp first c.fs_id step_name c.source rows)
      some (elim found [ none ↦ false | some id ↦ true ], first, second)

-- The row that `Watch` logs for a step that succeeded, by LogCacheCb and `CreateRunCache`; the
-- database puts "-1" for an empty time.
abbrev pub or_never : Text → Text
or_never [] = codes "-1"
or_never (c ∷ s) = c ∷ s

unfoldable pub log_cache_row :
    CacheInputs → Text → Text → Text → Text → Text → List RunCache → List RunCache
log_cache_row c run_id step_name first second max_expired_time rows =
    record {
      first_fp = first;
      second_fp = second;
      run_id = run_id;
      source = c.source;
      step = step_name;
      fs_id = c.fs_id;
      expired_time = or_never max_expired_time;
      updated_at = c.now;
    }
    ∷ rows
