-- ===== src/Apiserver/Run/Listing.antt =====
-- pkg/apiserver/controller/run/run.go: `ListRun`, page by page.
pub mod Walk
use paddle_flow.Prelude.{
  Bool, List, Option, Text, [], false, if◌then◌else◌, map, none, some, text_eq, true, ℕ, ◌==◌, ◌∷◌,
}
use paddle_flow.Apiserver.Status.{RunStatus}
use paddle_flow.Apiserver.Runs.{Filters, Run, last_pk, list_runs, last_of_page}
use paddle_flow.Apiserver.Run.{
  internal_error, invalid_marker, Db, Reply, Server, done, is_root_user, refused,
}

-- `RunBrief`; the texts of the times are not kept.
pub record RunBrief : Type 0 where
  pub id : Text
  pub name : Text
  pub source : Text
  pub user_name : Text
  pub fs_name : Text
  pub message : Text
  pub status : RunStatus

-- `modelToListResp`.
abbrev pub brief : Run → RunBrief
brief r = record {
  id = r.id;
  name = r.name;
  source = r.source;
  user_name = r.user_name;
  fs_name = r.fs_name;
  message = r.message;
  status = r.status;
}

pub record ListRunResponse : Type 0 where
  pub run_list : List RunBrief
  pub next_marker : Text
  pub is_truncated : Bool
  pub max_keys : ℕ

-- How keys are made into markers and back.
pub record Markers : Type 0 where
  pub encrypt : ℕ → Option Text
  pub decrypt : Text → Option ℕ

abbrev pub own_filter : Text → Filters → Filters
own_filter user f = if is_root_user user then f else record f { users = user ∷ [] }

-- The response from its rows; `last` is the key of the last run of the table.
unfoldable pub respond : Markers → ℕ → List Run → ℕ → Reply ListRunResponse
respond m max_keys [] last =
    done (record { run_list = []; next_marker = []; is_truncated = false; max_keys = max_keys })
respond m max_keys (r ∷ rows) last =
    let pk = (last_of_page r rows).pk in
    let briefs = map brief (r ∷ rows) in
    if last == pk
    then done
        (record { run_list = briefs; next_marker = []; is_truncated = false; max_keys = max_keys })
    else elim (m.encrypt pk) [
      | none ↦ refused internal_error
      | some marker ↦ done (record {
        run_list = briefs;
        next_marker = marker;
        is_truncated = true;
        max_keys = max_keys;
      })
    ]

-- The key behind which the listing begins.
abbrev pub begin_of : Markers → Text → Option ℕ
begin_of m [] = some 0
begin_of m (c ∷ marker) = m.decrypt (c ∷ marker)

-- `ListRun`: an error of the database is taken for an empty list, and a failure to read the last
-- run for a run with the key zero.
unfoldable pub list_run : Markers → Server → Text → Text → ℕ → Filters → Db → Reply ListRunResponse
unfolding list_runs respond is_root_user text_eq
list_run m s user marker max_keys f db = elim (begin_of m marker) [
  | none ↦ refused invalid_marker
  | some pk ↦
      let rows =
        if db.gets then list_runs db.arrange (own_filter user f) pk max_keys s.runs else [] in
      respond m max_keys rows (if db.gets then last_pk s.runs else 0)
]
