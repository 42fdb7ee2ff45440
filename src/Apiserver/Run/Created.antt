-- ===== src/Apiserver/Run/Created.antt =====
-- pkg/apiserver/controller/run/run.go: what `CreateRun` makes.
use paddle_flow.Prelude.{
  &&_true, Bool, Bool-cases, Option, Text, [], ap, codes, false, if◌then◌else◌, inl, inr, insert,
  none, not, refl, some, subst, text_empty, text_eq, text_eq→eq, true, ℕ, ◌&&◌, ◌++◌, ◌+◌, ◌||◌,
  ◌∷◌, ◌≡◌, ◌⊎◌,
}
use paddle_flow.Apiserver.Status.{initiating}
use paddle_flow.Apiserver.Runs.{Run}
use paddle_flow.Apiserver.Run.{
  lower_text, no_code, io_operation_failure, access_denied, invalid_name_pattern, internal_error,
  malformed_yaml, Db, Engine, ErrorCode, Reply, Server, Wfs, done, is_root_user, refused,
}
use paddle_flow.Apiserver.Run.Starting.{or_text, handle_image_and_start_wf, new_workflow_by_run}
use paddle_flow.Apiserver.Run.Creating.{
  Pipeline, default_run_yaml_path, CreateRunRequest, Sources, create_from, create_run, find_yaml,
  fs_of, insert_run, new_run, run_yaml_and_req_to_wfs,
}

module _ (engine : Engine) (src : Sources) (s : Server) (user : Text) (req : CreateRunRequest)
    (between : Server → Server) (msg : Text) (db : Db) where
  abbrev IsRoot : Type 0
  IsRoot = lower_text user ≡ codes "root"

  -- Where the text of the workflow is from: the request itself, a pipeline that the user may use, or
  -- a file.
  pub data IsSource (fs : Text) : Text × Text → Type 0 where
    in_request :
        (yaml : Text)
        → text_empty req.run_yaml_raw ≡ false
        → src.decode_base64 req.run_yaml_raw ≡ some yaml
        → IsSource fs (src.md5 yaml, yaml)
    in_pipeline :
        (p : Pipeline)
        → text_empty req.run_yaml_raw ≡ true
        → text_empty req.pipeline_id ≡ false
        → src.pipeline req.pipeline_id ≡ some p
        → IsRoot ⊎ (p.user_name ≡ user)
        → IsSource fs (p.id, p.pipeline_yaml)
    in_file :
        (path yaml : Text)
        → text_empty req.run_yaml_raw ≡ true
        → text_empty req.pipeline_id ≡ true
        → path ≡ (if text_empty req.run_yaml_path then codes "./run.yaml" else req.run_yaml_path)
        → src.read_file fs path ≡ some yaml
        → IsSource fs (path, yaml)

  -- The run that is made, the last row of the table: for the user who asks, on a file system of the
  -- own or one that root names, of the workflow `read` from one of the sources, with the name of
  -- the request or else of the workflow.
  pub record IsCreated (id : Text) (after : Server) : Type 0 where
    pub row : Run
    pub read : Wfs
    pub begun : Server
    pub appended : begun.runs ≡ s.runs ++ row ∷ []
    pub row_id : row.id ≡ id
    pub next_id : id ≡ src.run_id s.next_pk
    pub row_pk : row.pk ≡ s.next_pk
    pub grown : begun.next_pk ≡ s.next_pk + 1
    pub owner : row.user_name ≡ user
    pub begins : row.status ≡ initiating
    pub file_system :
        (row.fs_id ≡ src.fs_id user req.fs_name)
        ⊎ (IsRoot × (row.fs_id ≡ src.fs_id req.user_name req.fs_name))
    pub source : IsSource row.fs_id (row.source, row.run_yaml)
    pub reads : engine.unmarshal row.run_yaml ≡ some read
    pub row_name : row.name ≡ (if text_empty req.name then read.name else req.name)
    pub named : (text_empty row.name ≡ true) ⊎ (src.is_run_name row.name ≡ true)
    pub same_fs_name : row.fs_name ≡ req.fs_name
    pub same_description : row.description ≡ req.description
    pub same_parameters : row.param ≡ req.parameters
    pub same_entry : row.entry ≡ req.entry
    pub wfs : Wfs
    pub wfs_name : wfs.name ≡ row.name
    pub wfs_body : wfs.body ≡ read.body
    pub wfs_env :
        wfs.docker_env ≡ (if text_empty req.docker_env then read.docker_env else req.docker_env)
    pub accepted : engine.accepts (record row { pk = 0; id = [] }) wfs ≡ true
    pub started : after ≡ (handle_image_and_start_wf engine begun row wfs false between msg db).1

  -- An answer of `CreateRun`: an error, with the table as it was, or a run that was made.
  pub data IsAnswer : Reply Text × Server → Type 0 where
    is_refused : (e : ErrorCode) (t : Server) → t.runs ≡ s.runs → IsAnswer (refused e, t)
    is_created : (id : Text) (t : Server) → IsCreated id t → IsAnswer (done id, t)

  -- The workflow with what the request says of it.
  abbrev with_request : Wfs → Wfs
  with_request w = record w {
    name = or_text req.name w.name;
    docker_env = or_text req.docker_env w.docker_env;
  }

  or_text_lem : (a b : Text) → or_text a b ≡ (if text_empty a then b else a)
  or_text_lem [] b = refl
  or_text_lem (c ∷ a) b = refl

  root_of : is_root_user user ≡ true → IsRoot
  unfolding is_root_user
  root_of e = text_eq→eq (lower_text user) (codes "root") e

  fs_of_lem :
      (fs_of engine src user req ≡ src.fs_id user req.fs_name)
      ⊎ (IsRoot × (fs_of engine src user req ≡ src.fs_id req.user_name req.fs_name))
  fs_of_lem = elim (Bool-cases (is_root_user user && not (text_empty req.user_name))) [
    | inl e ↦ inr (root_of (&&_true (is_root_user user) _ e).0, rw e refl)
    | inr e ↦ inl (rw e refl)
  ]

  find_yaml-IsSource :
      (fs : Text) (y : Text × Text) → find_yaml engine src user req fs ≡ done y → IsSource fs y
  unfolding find_yaml
  find_yaml-IsSource fs y h =
      at_request (text_empty req.run_yaml_raw) (text_empty req.pipeline_id) refl refl h
    where
      done-inj : {a b : Text × Text} → done a ≡ done b → a ≡ b
      done-inj e = cc

      path : Text
      path = or_text req.run_yaml_path default_run_yaml_path

      in_request_of :
          text_empty req.run_yaml_raw ≡ false
          → (o : Option Text) → src.decode_base64 req.run_yaml_raw ≡ o
          → elim o [ none ↦ refused no_code | some yaml ↦ done (src.md5 yaml, yaml) ] ≡ done y
          → IsSource fs y
      in_request_of given none e q = cc
      in_request_of given (some yaml) e q =
          subst (IsSource fs) (done-inj q) (in_request yaml given e)

      in_pipeline_of :
          text_empty req.run_yaml_raw ≡ true
          → text_empty req.pipeline_id ≡ false
          → (o : Option Pipeline) → src.pipeline req.pipeline_id ≡ o
          → elim o [
            | none ↦ refused no_code
            | some p ↦
                if is_root_user user || text_eq p.user_name user
                then done (p.id, p.pipeline_yaml)
                else refused access_denied
          ]
            ≡ done y
          → IsSource fs y
      in_pipeline_of none_raw given none e q = cc
      in_pipeline_of none_raw given (some p) e q = elim (Bool-cases (is_root_user user)) [
        | inl root ↦
            subst (IsSource fs) (done-inj (rw root at q))
              (in_pipeline p none_raw given e (inl (root_of root)))
        | inr other ↦ elim (Bool-cases (text_eq p.user_name user)) [
          | inl own ↦
              subst (IsSource fs) (done-inj (rw (other, own) at q))
                (in_pipeline p none_raw given e (inr (text_eq→eq p.user_name user own)))
          | inr foreign ↦ absurd (no_done (rw (other, foreign) at q))
        ]
      ]
        where
          no_done : refused access_denied ≡ done y → ⊥
          no_done q = cc

      in_file_of :
          text_empty req.run_yaml_raw ≡ true
          → text_empty req.pipeline_id ≡ true
          → (o : Option Text) → src.read_file fs path ≡ o
          → elim o [ none ↦ refused io_operation_failure | some yaml ↦ done (path, yaml) ] ≡ done y
          → IsSource fs y
      in_file_of none_raw none_id none e q = cc
      in_file_of none_raw none_id (some yaml) e q = subst (IsSource fs) (done-inj q) (
          in_file path yaml none_raw none_id (or_text_lem req.run_yaml_path default_run_yaml_path)
            e)

      at_request :
          (no_raw no_id : Bool)
          → text_empty req.run_yaml_raw ≡ no_raw
          → text_empty req.pipeline_id ≡ no_id
          → (if not no_raw
              then elim (src.decode_base64 req.run_yaml_raw) [
                | none ↦ refused no_code
                | some yaml ↦ done (src.md5 yaml, yaml)
              ]
              else if not no_id
              then elim (src.pipeline req.pipeline_id) [
                | none ↦ refused no_code
                | some p ↦
                    if is_root_user user || text_eq p.user_name user
                    then done (p.id, p.pipeline_yaml)
                    else refused access_denied
              ]
              else elim (src.read_file fs path) [
                | none ↦ refused io_operation_failure
                | some yaml ↦ done (path, yaml)
              ])
            ≡ done y
          → IsSource fs y
      at_request false no_id e g = in_request_of e (src.decode_base64 req.run_yaml_raw) refl
      at_request true false e g = in_pipeline_of e g (src.pipeline req.pipeline_id) refl
      at_request true true e g = in_file_of e g (src.read_file fs path) refl

  -- What is left when the workflow is known.
  create_from-IsAnswer :
      (yaml : Text × Text) (read : Wfs)
      → IsSource (fs_of engine src user req) yaml
      → engine.unmarshal yaml.1 ≡ some read
      → IsAnswer (create_from engine src s user req yaml (with_request read) between msg db)
  unfolding new_workflow_by_run
  create_from-IsAnswer yaml read source reads =
      at_name (text_empty wfs.name) (src.is_run_name wfs.name) refl refl
    where
      wfs : Wfs
      wfs = with_request read

      r : Run
      r = new_run engine src user req (fs_of engine src user req) wfs yaml

      Named : Type 0
      Named = (text_empty wfs.name ≡ true) ⊎ (src.is_run_name wfs.name ≡ true)

      answer : Option ℕ × Server → Reply Text × Server
      answer a = elim a.0 [
        | none ↦ (refused malformed_yaml, s)
        | some wf ↦
            if not src.creates
            then (refused internal_error, a.1)
            else let (row, u) = insert_run engine src a.1 r in
              (done row.id, (handle_image_and_start_wf engine u row wfs false between msg db).1)
      ]

      begun_at :
          Named
          → engine.accepts r wfs ≡ true
          → (t : Server) → t.runs ≡ s.runs
          → t.next_pk ≡ s.next_pk
          → (b : Bool)
          → IsAnswer (
              if not b
              then (refused internal_error, t)
              else let (row, u) = insert_run engine src t r in
                (done row.id, (handle_image_and_start_wf engine u row wfs false between msg db).1))
      begun_at named ok t same_runs same_pk false = is_refused internal_error t same_runs
      begun_at named ok t same_runs same_pk true =
          let (row, u) = insert_run engine src t r in
          is_created row.id (handle_image_and_start_wf engine u row wfs false between msg db).1
            (record {
              row = row;
              read = read;
              begun = u;
              appended = ap (λ x. x ++ row ∷ []) same_runs;
              row_id = refl;
              next_id = ap src.run_id same_pk;
              row_pk = same_pk;
              grown = ap (λ k. k + 1) same_pk;
              owner = refl;
              begins = refl;
              file_system = fs_of_lem;
              source = source;
              reads = reads;
              row_name = or_text_lem req.name read.name;
              named = named;
              same_fs_name = refl;
              same_description = refl;
              same_parameters = refl;
              same_entry = refl;
              wfs = wfs;
              wfs_name = refl;
              wfs_body = refl;
              wfs_env = or_text_lem req.docker_env read.docker_env;
              accepted = ok;
              started = refl;
            })

      at_accepts :
          Named
          → (b : Bool) → engine.accepts r wfs ≡ b
          → IsAnswer (
              answer (
                if not b then (none, s) else (
                  some s.next_wf,
                  record s {
                    next_wf = s.next_wf + 1;
                    wf_map = if text_empty r.id then s.wf_map else insert r.id s.next_wf s.wf_map;
                  },
                )))
      at_accepts named false e = is_refused malformed_yaml s refl
      at_accepts named true e = begun_at named e _ refl refl src.creates

      at_name :
          (unnamed good : Bool)
          → text_empty wfs.name ≡ unnamed
          → src.is_run_name wfs.name ≡ good
          → IsAnswer (
              if not unnamed && not good
              then (refused invalid_name_pattern, s)
              else answer (new_workflow_by_run engine s r wfs))
      at_name true good e g = at_accepts (inl e) (engine.accepts r wfs) refl
      at_name false true e g = at_accepts (inr g) (engine.accepts r wfs) refl
      at_name false false e g = is_refused invalid_name_pattern s refl

  -- `CreateRun` refuses and leaves the table of runs as it is, or it appends one run and hands it
  -- over to be started. The run has the next key and the identity that belongs to it, is for the
  -- user who asks, initiating, and on a file system of that user or one that root names. Its
  -- workflow is read from the request, from a pipeline that the user may use, or from a file, its
  -- name is that of the request or else of the workflow, and is empty or one of the pattern, and
  -- the engine accepts it.
  pub create_run-IsAnswer : IsAnswer (create_run engine src s user req between msg db)
  unfolding create_run
  create_run-IsAnswer =
      at_yaml (find_yaml engine src user req (fs_of engine src user req))
        (find_yaml-IsSource (fs_of engine src user req))
    where
      at_wfs :
          (yaml : Text × Text)
          → IsSource (fs_of engine src user req) yaml
          → (o : Option Wfs) → engine.unmarshal yaml.1 ≡ o
          → IsAnswer
              (elim (elim o as (λ x. Option Wfs) [
                | none ↦ none
                | some read ↦ some (with_request read)
              ])
                as (λ x. Reply Text × Server) [
                  | none ↦ (refused malformed_yaml, s)
                  | some wfs ↦ create_from engine src s user req yaml wfs between msg db
                ])
      at_wfs yaml source none e = is_refused malformed_yaml s refl
      at_wfs yaml source (some read) e = create_from-IsAnswer yaml read source e

      at_yaml :
          (y : Reply (Text × Text))
          → ((yaml : Text × Text) → y ≡ done yaml → IsSource (fs_of engine src user req) yaml)
          → IsAnswer (elim y as (λ x. Reply Text × Server) [
            | refused e ↦ (refused e, s)
            | done yaml ↦ elim (run_yaml_and_req_to_wfs engine src yaml.1 req) [
              | none ↦ (refused malformed_yaml, s)
              | some wfs ↦ create_from engine src s user req yaml wfs between msg db
            ]
          ])
      at_yaml (refused e) from = is_refused e s refl
      at_yaml (done yaml) from = at_wfs yaml (from yaml refl) (engine.unmarshal yaml.1) refl
