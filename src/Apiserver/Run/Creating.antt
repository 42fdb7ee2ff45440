-- ===== src/Apiserver/Run/Creating.antt =====
-- pkg/apiserver/controller/run/run.go: `CreateRun`.
use paddle_flow.Prelude.{
  Bool, Option, Text, [], codes, false, if◌then◌else◌, none, not, some, text_empty, text_eq, ℕ,
  ◌&&◌, ◌++◌, ◌+◌, ◌||◌, ◌∷◌,
}
use paddle_flow.Apiserver.Status.{initiating}
use paddle_flow.Apiserver.Runs.{Run, no_change}
use paddle_flow.Apiserver.Run.{
  access_denied, invalid_name_pattern, io_operation_failure, internal_error, malformed_yaml,
  no_code, Db, Engine, Reply, Server, Wfs, done, is_root_user, refused,
}
use paddle_flow.Apiserver.Run.Starting.{handle_image_and_start_wf, new_workflow_by_run, or_text}

-- `CreateRunRequest`.
pub record CreateRunRequest : Type 0 where
  pub fs_name : Text
  pub user_name : Text
  pub name : Text
  pub description : Text
  pub entry : Text
  pub parameters : Text
  pub docker_env : Text
  pub run_yaml_raw : Text
  pub pipeline_id : Text
  pub run_yaml_path : Text

-- A row of the table of pipelines.
pub record Pipeline : Type 0 where
  pub id : Text
  pub user_name : Text
  pub pipeline_yaml : Text

-- What `CreateRun` asks others for: base64 and MD5, the pipelines, the files, the identity of a
-- file system, the pattern of names, the identity of a run with a given key, and whether the row is
-- created.
pub record Sources : Type 0 where
  pub decode_base64 : Text → Option Text
  pub md5 : Text → Text
  pub pipeline : Text → Option Pipeline
  pub read_file : Text → Text → Option Text
  pub fs_id : Text → Text → Text
  pub is_run_name : Text → Bool
  pub run_id : ℕ → Text
  pub creates : Bool

abbrev pub default_run_yaml_path : Text
default_run_yaml_path = codes "./run.yaml"

module _ (engine : Engine) (src : Sources) where
  -- `runYamlAndReqToWfs`.
  abbrev pub run_yaml_and_req_to_wfs : Text → CreateRunRequest → Option Wfs
  run_yaml_and_req_to_wfs run_yaml req = elim (engine.unmarshal run_yaml) [
    | none ↦ none
    | some wfs ↦ some (record wfs {
      name = or_text req.name wfs.name;
      docker_env = or_text req.docker_env wfs.docker_env;
    })
  ]

  -- The source and the text of the workflow, by the first of the three ways that the request names.
  unfoldable pub find_yaml : Text → CreateRunRequest → Text → Reply (Text × Text)
  unfolding is_root_user text_eq
  find_yaml user req fs =
      if not (text_empty req.run_yaml_raw)
      then elim (src.decode_base64 req.run_yaml_raw) [
        | none ↦ refused no_code
        | some yaml ↦ done (src.md5 yaml, yaml)
      ]
      else if not (text_empty req.pipeline_id)
      then elim (src.pipeline req.pipeline_id) [
        | none ↦ refused no_code
        | some p ↦
            if is_root_user user || text_eq p.user_name user
            then done (p.id, p.pipeline_yaml)
            else refused access_denied
      ]
      else let path = or_text req.run_yaml_path default_run_yaml_path in
        elim (src.read_file fs path) [
          | none ↦ refused io_operation_failure
          | some yaml ↦ done (path, yaml)
        ]

  -- The row that `CreateRun` makes, before it has a key and an identity.
  abbrev pub new_run : Text → CreateRunRequest → Text → Wfs → Text × Text → Run
  new_run user req fs wfs yaml = record no_change {
    name = wfs.name;
    source = yaml.0;
    user_name = user;
    fs_name = req.fs_name;
    fs_id = fs;
    description = req.description;
    param = req.parameters;
    run_yaml = yaml.1;
    entry = req.entry;
    status = initiating;
  }

  abbrev pub fs_of : Text → CreateRunRequest → Text
  fs_of user req =
      if is_root_user user && not (text_empty req.user_name)
      then src.fs_id req.user_name req.fs_name
      else src.fs_id user req.fs_name

  -- `models.CreateRun`: the row gets the next key, and its identity from that.
  abbrev pub insert_run : Server → Run → Run × Server
  insert_run s r =
      let row = record r { pk = s.next_pk; id = src.run_id s.next_pk } in
      (row, record s { runs = s.runs ++ row ∷ []; next_pk = s.next_pk + 1 })

  -- `CreateRun` when the workflow is known: its name is checked, and it is tried without an
  -- identity before the row is made.
  abbrev pub create_from :
      Server
      → Text
      → CreateRunRequest
      → Text × Text
      → Wfs
      → (Server → Server)
      → Text
      → Db
      → Reply Text × Server
  create_from s user req yaml wfs between msg db =
      let fs = fs_of user req in
      let r = new_run user req fs wfs yaml in
      if not (text_empty wfs.name) && not (src.is_run_name wfs.name)
      then (refused invalid_name_pattern, s)
      else elim (new_workflow_by_run engine s r wfs).0 [
        | none ↦ (refused malformed_yaml, s)
        | some wf ↦
            let t = (new_workflow_by_run engine s r wfs).1 in
            if not src.creates
            then (refused internal_error, t)
            else let (row, u) = insert_run t r in
              (done row.id, (handle_image_and_start_wf engine u row wfs false between msg db).1)
      ]

  unfoldable pub create_run :
      Server → Text → CreateRunRequest → (Server → Server) → Text → Db → Reply Text × Server
  unfolding find_yaml new_workflow_by_run handle_image_and_start_wf is_root_user
  create_run s user req between msg db = elim (find_yaml user req (fs_of user req)) [
    | refused e ↦ (refused e, s)
    | done yaml ↦ elim (run_yaml_and_req_to_wfs yaml.1 req) [
      | none ↦ (refused malformed_yaml, s)
      | some wfs ↦ create_from s user req yaml wfs between msg db
    ]
  ]
