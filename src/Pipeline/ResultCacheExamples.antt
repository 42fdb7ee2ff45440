-- ===== src/Pipeline/ResultCacheExamples.antt =====
-- A step that was done an hour before (pkg/pipeline/cache.go, step.go).
use paddle_flow.Prelude.{
  Bool, Bool-cases, In, Text, [], codes, false, inl, inr, insert, lookup, refl, some, sym, text_eq,
  true, ◌||◌, ◌↔◌, ◌∙◌, ◌∷◌, ◌≡◌,
}
use mathlib.Core.Bool.{true≢false}
use paddle_flow.Schema.Jobs.{unset}
use paddle_flow.Pipeline.Job.{PaddleFlowJob}
use paddle_flow.Pipeline.ResultCache.{
  CacheInputs, RunCache, SecondCacheKey, atoi, check_cached, first_cache_key, is_before, is_system,
  log_cache_row, or_never, second_cache_key, seconds, system_names,
}
use paddle_flow.Pipeline.ResultCache.Found.{
  IsUsable, check_cached-IsUsable, check_cached-log_cache_row,
}
use paddle_flow.Pipeline.ResultCache.Keys.{SameWork, first_cache_key-SameWork}

abbrev a_job : Text → PaddleFlowJob
a_job run_id = record {
  id = [];
  name = codes "train";
  command = codes "python";
  parameters = [];
  artifacts = record { input = (codes "data", codes "/d") ∷ []; output = [] };
  env = (codes "PF_RUN_ID", run_id) ∷ (codes "A", codes "1") ∷ [];
  start_time = [];
  end_time = [];
  status = unset;
  deps = [];
  message = [];
  image = codes "img";
}

abbrev inputs : CacheInputs
inputs = record {
  first_fp_of = λ k. codes "f";
  second_fp_of = λ k. codes "s";
  mod_time = λ path. some 7;
  fs_scope = codes "/a, /b";
  fs_id = codes "fs";
  source = codes "src";
  now = 1000;
  table = some [];
}

abbrev a_key : SecondCacheKey
a_key = record {
  input_artifacts_mod_time = (codes "data", 7) ∷ [];
  fs_scope_mod_time = (codes "/b", 7) ∷ (codes "/a", 7) ∷ [];
}

a_key_made : second_cache_key inputs.mod_time inputs.fs_scope (a_job (codes "run-1")) ≡ some a_key
unfolding second_cache_key insert text_eq
a_key_made = refl

check_cached-IsUsable_example :
    (found : Bool) × (check_cached inputs (codes "train") (a_job (codes "run-1"))
      ≡ some (found, codes "f", codes "s"))
    × ((found ≡ true) ↔ (
        (row : RunCache) × In row [] × IsUsable inputs (codes "train") (codes "f") (codes "s") row))
check_cached-IsUsable_example =
    check_cached-IsUsable inputs (codes "train") (a_job (codes "run-1")) [] a_key refl a_key_made
      refl refl refl refl

an_hour_fresh :
    (text_eq (or_never (codes "3600")) (codes "-1")
      || is_before 2000 1000 (seconds (atoi (or_never (codes "3600")))))
    ≡ true
unfolding atoi text_eq
an_hour_fresh = refl

check_cached-log_cache_row_example :
    check_cached
      (record inputs {
        now = 2000;
        table = some (
            log_cache_row inputs
              (codes "run-1")
              (codes "train")
              (codes "f")
              (codes "s")
              (codes "3600")
              []);
      })
      (codes "train")
      (a_job (codes "run-1"))
    ≡ some (true, codes "f", codes "s")
check_cached-log_cache_row_example =
    check_cached-log_cache_row inputs (codes "train") (a_job (codes "run-1")) [] a_key
      (codes "run-1") (codes "3600") 2000 a_key_made refl refl refl refl an_hour_fresh

lookup_behind_system :
    (run_id name : Text)
    → is_system system_names name ≡ false
    → lookup name (a_job run_id).env ≡ lookup name ((codes "A", codes "1") ∷ [])
unfolding lookup is_system
lookup_behind_system run_id name e = elim (Bool-cases (text_eq (codes "PF_RUN_ID") name)) [
  | inl t ↦ absurd (true≢false (sym (rw t refl) ∙ e))
  | inr t ↦ rw t refl
]

same_work : SameWork (a_job (codes "run-1")) (a_job (codes "run-2"))
same_work = record {
  same_image = refl;
  same_command = refl;
  same_parameters = refl;
  same_artifacts = refl;
  same_env = λ name e.
      lookup_behind_system (codes "run-1") name e
      ∙ sym (lookup_behind_system (codes "run-2") name e);
}

first_cache_key-SameWork_example :
    (first_cache_key (codes "train") (a_job (codes "run-1"))).command
    ≡ (first_cache_key (codes "train") (a_job (codes "run-2"))).command
first_cache_key-SameWork_example =
    first_cache_key-SameWork (λ k. k.command) (λ k k' same. same.same_command) (codes "train")
      (a_job (codes "run-1")) (a_job (codes "run-2")) same_work
