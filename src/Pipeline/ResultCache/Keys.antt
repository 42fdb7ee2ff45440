-- ===== src/Pipeline/ResultCache/Keys.antt =====
-- pkg/pipeline/cache.go: what the first fingerprint does not depend on.
use paddle_flow.Prelude.{
  Bool-cases, List, Text, [], ap, false, if◌then◌else◌, inl, inr, lookup, none, refl, sym, text_eq,
  text_eq→eq, ◌∙◌, ◌∷◌, ◌≡◌,
}
use paddle_flow.Pipeline.Job.{PaddleFlowJob}
use paddle_flow.Pipeline.ResultCache.{
  FirstCacheKey, first_cache_key, is_system, system_names, without_system,
}

-- The environment of the key is that of the job without the parameters of the system.
pub lookup-without_system :
    (name : Text) (env : List (Text × Text))
    → lookup name (without_system env)
      ≡ (if is_system system_names name then none else lookup name env)
unfolding without_system lookup
lookup-without_system name [] = elim (Bool-cases (is_system system_names name)) [
  | inl e ↦ rw e refl
  | inr e ↦ rw e refl
]
lookup-without_system name ((k, v) ∷ env) =
    let ih = lookup-without_system name env in
    elim (Bool-cases (text_eq k name)) [
      | inr other ↦ elim (Bool-cases (is_system system_names k)) [
        | inl e ↦ rw (e, other, without_system, lookup) ih
        | inr e ↦ rw (e, other, without_system, lookup) ih
      ]
      | inl same ↦
          let here : is_system system_names k ≡ is_system system_names name =
            ap (is_system system_names) (text_eq→eq k name same) in
          elim (Bool-cases (is_system system_names name)) [
            | inl e ↦ let e' = here ∙ e in rw (e', e, without_system) (ih ∙ rw e refl)
            | inr e ↦ let e' = here ∙ e in rw (e', e, without_system, lookup, same) refl
          ]
    ]

-- Keys that say the same: equal but for the order in which the maps are kept.
pub record SameKey (k k' : FirstCacheKey) : Type 0 where
  pub same_docker_env : k.docker_env ≡ k'.docker_env
  pub same_step_name : k.step_name ≡ k'.step_name
  pub same_command : k.command ≡ k'.command
  pub same_env : (name : Text) → lookup name k.env ≡ lookup name k'.env
  pub same_parameters : (name : Text) → lookup name k.parameters ≡ lookup name k'.parameters
  pub same_inputs : (name : Text) → lookup name k.input_artifacts ≡ lookup name k'.input_artifacts
  pub same_outputs :
      (name : Text) → lookup name k.output_artifacts ≡ lookup name k'.output_artifacts

-- The same job of another run: it differs in its identity, name, times and state, and in the values
-- of the parameters of the system.
pub record SameWork (j j' : PaddleFlowJob) : Type 0 where
  pub same_image : j.image ≡ j'.image
  pub same_command : j.command ≡ j'.command
  pub same_parameters : j.parameters ≡ j'.parameters
  pub same_artifacts : j.artifacts ≡ j'.artifacts
  pub same_env :
      (name : Text) → is_system system_names name ≡ false → lookup name j.env ≡ lookup name j'.env

-- The same work in two runs has the same first fingerprint, when fingerprints depend only on what
-- keys say.
pub first_cache_key-SameWork :
    (fp : FirstCacheKey → Text)
    → ((k k' : FirstCacheKey) → SameKey k k' → fp k ≡ fp k')
    → (step_name : Text) (j j' : PaddleFlowJob) → SameWork j j'
    → fp (first_cache_key step_name j) ≡ fp (first_cache_key step_name j')
unfolding first_cache_key
first_cache_key-SameWork fp respects step_name j j' w =
    respects (first_cache_key step_name j) (first_cache_key step_name j') (record {
      same_docker_env = w.same_image;
      same_step_name = refl;
      same_command = w.same_command;
      same_env = λ name.
          lookup-without_system name j.env ∙ at_name name ∙ sym (lookup-without_system name j'.env);
      same_parameters = λ name. ap (lookup name) w.same_parameters;
      same_inputs = λ name. ap (λ a. lookup name a.input) w.same_artifacts;
      same_outputs = λ name. ap (λ a. lookup name a.output) w.same_artifacts;
    })
  where
    at_name :
        (name : Text)
        → (if is_system system_names name then none else lookup name j.env)
          ≡ (if is_system system_names name then none else lookup name j'.env)
    at_name name = elim (Bool-cases (is_system system_names name)) [
      | inl e ↦ rw e refl
      | inr e ↦ rw e (w.same_env name e)
    ]
