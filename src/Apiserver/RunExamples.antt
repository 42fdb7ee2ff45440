-- ===== src/Apiserver/RunExamples.antt =====
-- A server with three runs (pkg/apiserver/controller/run).
use paddle_flow.Prelude.{
  List, Text, [], codes, false, if◌then◌else◌, leb, length, ltb, none, refl, some, suc, text_eq,
  true, zero, ℕ, ◌++◌, ◌-◌, ◌∷◌, ◌≡◌, ◌⊎◌,
}
use paddle_flow.Schema.Jobs
use paddle_flow.Schema.Jobs.{JobStatus, failed, running, succeeded}
use paddle_flow.Apiserver.Status
use paddle_flow.Apiserver.Status.{RunStatus, initiating, is_run_final_status}
use paddle_flow.Apiserver.Runs.{Filters, Run, get_run, no_change}
use paddle_flow.Apiserver.Run.{
  get_run_by_id, Db, Engine, Server, Wfs, delete_run, may_access, stop_run,
}
use paddle_flow.Apiserver.Run.Starting.{handle_image_and_start_wf, reset_run_steps, retry_run}
use paddle_flow.Apiserver.Run.Creating.{CreateRunRequest, Sources, create_run}
use paddle_flow.Apiserver.Run.Created.{IsAnswer, create_run-IsAnswer}
use paddle_flow.Apiserver.Run.Events.{RunEvent}
use paddle_flow.Apiserver.Run.Listing.{Markers}
use paddle_flow.Apiserver.Run.Access.{IsGuarded, delete_run_lem, requests-IsGuarded}
use paddle_flow.Apiserver.Run.Races.{IsStuck, end_event, handle_image_and_start_wf-IsStuck}
use paddle_flow.Apiserver.Run.Retry.{HasBusy, IsReset, reset_run_steps-IsReset}
use paddle_flow.Pipeline.Runtime.{JobView}

abbrev a_view : JobStatus → JobView
a_view job_status = record {
  job_id = codes "j";
  job_name = codes "n";
  command = [];
  parameters = [];
  env = [];
  start_time = codes "1";
  end_time = codes "2";
  status = job_status;
  deps = [];
  image = [];
  artifacts = record { input = []; output = [] };
  job_message = [];
}

abbrev views : List (Text × JobView)
views = (codes "one", a_view Jobs.succeeded) ∷ (codes "two", a_view Jobs.failed) ∷ []

abbrev a_run : ℕ → Text → Text → RunStatus → Run
a_run pk id user run_status = record no_change {
  pk = pk;
  id = id;
  user_name = user;
  status = run_status;
  runtime = some views;
}

abbrev first_run : Run
first_run = a_run 1 (codes "run-1") (codes "ann") Status.failed

abbrev second_run : Run
second_run = a_run 2 (codes "run-2") (codes "bob") Status.initiating

abbrev third_run : Run
third_run = a_run 4 (codes "run-4") (codes "ann") Status.running

abbrev server : Server
server = record {
  runs = first_run ∷ second_run ∷ third_run ∷ [];
  next_pk = 5;
  wf_map = [];
  next_wf = 0;
  calls = [];
}

-- Sorting by insertion, as by an index of the keys.
abbrev insert_row : Run → List Run → List Run
insert_row r [] = r ∷ []
insert_row r (q ∷ rows) =
    let rest = insert_row r rows in if ltb r.pk q.pk then r ∷ q ∷ rows else q ∷ rest

abbrev by_key : List Run → List Run
by_key [] = []
by_key (r ∷ rows) = insert_row r (by_key rows)

abbrev all_work : Db
all_work = record { arrange = by_key; gets = true; updates = true; deletes = true }

abbrev an_engine : Engine
an_engine = record {
  unmarshal = λ t. some (record { name = []; docker_env = codes "u"; body = t });
  accepts = λ r wfs. true;
  sets_runtime = λ v. true;
  need_handle_image = λ t. false;
  handles_image = λ r t. true;
}

found_first : get_run server.runs (codes "run-1") ≡ some first_run
unfolding get_run text_eq
found_first = refl

found_second : get_run server.runs (codes "run-2") ≡ some second_run
unfolding get_run text_eq
found_second = refl

requests-IsGuarded_example :
    IsGuarded server
      (codes "bob")
      (codes "run-1")
      (get_run_by_id server (codes "bob") (codes "run-1") all_work, server)
    × IsGuarded server
        (codes "bob")
        (codes "run-1")
        (stop_run server (codes "bob") (codes "run-1") (λ t. t) all_work)
    × IsGuarded server
        (codes "bob")
        (codes "run-1")
        (retry_run an_engine server (codes "bob") (codes "run-1") (λ t. t) [] all_work)
    × IsGuarded server
        (codes "bob")
        (codes "run-1")
        (delete_run server (codes "bob") (codes "run-1") all_work)
requests-IsGuarded_example =
    requests-IsGuarded an_engine server (codes "bob") (codes "run-1") (λ t. t) [] all_work

delete_run_lem_example :
    (get_run (delete_run server (codes "ann") (codes "run-1") all_work).1.runs (codes "run-1")
      ≡ some first_run)
    ⊎ ((codes "run-1" ≡ codes "run-1")
        × (may_access (codes "ann") first_run ≡ true)
        × (Status.is_run_final_status first_run.status ≡ true)
        × (get_run (delete_run server (codes "ann") (codes "run-1") all_work).1.runs (codes "run-1")
            ≡ none))
delete_run_lem_example =
    delete_run_lem server (codes "ann") (codes "run-1") all_work (codes "run-1") first_run
      found_first

abbrev an_end : RunEvent
an_end = record {
  is_update = true;
  run_id = codes "run-2";
  status = Status.succeeded;
  runtime = some views;
  message = [];
}

abbrev a_wfs : Wfs
a_wfs = record { name = []; docker_env = codes "u"; body = [] }

handle_image_and_start_wf-IsStuck_example :
    IsStuck
      (handle_image_and_start_wf an_engine server second_run a_wfs false
        (λ t. end_event t an_end all_work)
        []
        all_work).1
      (codes "run-2")
handle_image_and_start_wf-IsStuck_example =
    handle_image_and_start_wf-IsStuck an_engine server second_run a_wfs an_end views [] all_work
      all_work refl refl found_second refl refl refl refl refl refl refl

reset_run_steps-IsReset_example :
    (HasBusy views × (reset_run_steps server first_run all_work ≡ (none, server)))
    ⊎ ((views' : List (Text × JobView)) × (q : Run) × ((reset_run_steps server first_run all_work).0
          ≡ some (record first_run { runtime = some views' }))
        × (get_run (reset_run_steps server first_run all_work).1.runs (codes "run-1") ≡ some q)
        × (q.runtime ≡ some views')
        × IsReset views views')
reset_run_steps-IsReset_example =
    reset_run_steps-IsReset server first_run views all_work found_first refl refl

-- A key as so many letters, behind one.
abbrev letters : ℕ → Text
letters zero = []
letters (suc n) = 97 ∷ letters n

abbrev unary : Markers
unary = record { encrypt = λ pk. some (120 ∷ letters pk); decrypt = λ t. some (length t - 1) }

abbrev of_two : Filters
of_two = record { users = []; fss = []; ids = codes "run-1" ∷ codes "run-4" ∷ []; names = [] }

abbrev a_sources : Sources
a_sources = record {
  decode_base64 = λ t. some t;
  md5 = λ t. t;
  pipeline = λ t. none;
  read_file = λ fs path. none;
  fs_id = λ user fs. codes "fs-" ++ user ++ codes "-" ++ fs;
  is_run_name = λ t. true;
  run_id = λ k. if leb k 5 then codes "run-5" else codes "run-6";
  creates = true;
}

abbrev a_request : CreateRunRequest
a_request = record {
  fs_name = codes "data";
  user_name = [];
  name = codes "train";
  description = [];
  entry = [];
  parameters = [];
  docker_env = [];
  run_yaml_raw = codes "yaml";
  pipeline_id = [];
  run_yaml_path = [];
}

create_run-IsAnswer_example :
    IsAnswer an_engine a_sources server
      (codes "ann")
      a_request
      (λ t. t)
      []
      all_work
      (create_run an_engine a_sources server (codes "ann") a_request (λ t. t) [] all_work)
create_run-IsAnswer_example =
    create_run-IsAnswer an_engine a_sources server (codes "ann") a_request (λ t. t) [] all_work
