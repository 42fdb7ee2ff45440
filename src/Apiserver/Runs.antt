-- ===== src/Apiserver/Runs.antt =====
-- pkg/apiserver/models/run.go: the table of runs.
pub mod Rows
pub mod Pages
use paddle_flow.Prelude.{
  Bool, List, Option, Text, [], false, if◌then◌else◌, ltb, none, some, suc, take, text_eq, true,
  zero, ℕ, ◌&&◌, ◌||◌, ◌∷◌,
}
use paddle_flow.Apiserver.Status.{RunStatus, initiating, no_status, pending, running, terminating}
use paddle_flow.Pipeline.Runtime.{JobView}

-- `Run` as a row, and as the change of a row, in which an empty text, no status, no runtime and a
-- missing time of activation stand for no change. The texts of the runtime are kept decoded.
pub record Run : Type 0 where
  pub pk : ℕ
  pub id : Text
  pub name : Text
  pub source : Text
  pub user_name : Text
  pub fs_id : Text
  pub fs_name : Text
  pub description : Text
  pub param : Text
  pub run_yaml : Text
  pub runtime : Option (List (Text × JobView))
  pub image_url : Text
  pub entry : Text
  pub message : Text
  pub status : RunStatus
  pub activated : Bool

abbrev pub no_change : Run
no_change = record {
  pk = 0;
  id = [];
  name = [];
  source = [];
  user_name = [];
  fs_id = [];
  fs_name = [];
  description = [];
  param = [];
  run_yaml = [];
  runtime = none;
  image_url = [];
  entry = [];
  message = [];
  status = no_status;
  activated = false;
}

abbrev pub new_text : Text → Text → Text
new_text old [] = old
new_text old (c ∷ s) = c ∷ s

abbrev new_status : RunStatus → RunStatus → RunStatus
new_status old no_status = old
new_status old s = s

abbrev new_pk : ℕ → ℕ → ℕ
new_pk old zero = old
new_pk old (suc n) = suc n

-- What `Updates` with a struct makes of a row: it writes the fields that are not zero.
unfoldable pub updated : Run → Run → Run
updated r c = record {
  pk = new_pk r.pk c.pk;
  id = new_text r.id c.id;
  name = new_text r.name c.name;
  source = new_text r.source c.source;
  user_name = new_text r.user_name c.user_name;
  fs_id = new_text r.fs_id c.fs_id;
  fs_name = new_text r.fs_name c.fs_name;
  description = new_text r.description c.description;
  param = new_text r.param c.param;
  run_yaml = new_text r.run_yaml c.run_yaml;
  runtime = elim c.runtime [ none ↦ r.runtime | some view ↦ some view ];
  image_url = new_text r.image_url c.image_url;
  entry = new_text r.entry c.entry;
  message = new_text r.message c.message;
  status = new_status r.status c.status;
  activated = r.activated || c.activated;
}

-- `GetRunByID`, when the database answers.
unfoldable pub get_run : List Run → Text → Option Run
unfolding text_eq
get_run [] id = none
get_run (r ∷ runs) id = let rest = get_run runs id in if text_eq r.id id then some r else rest

-- `UpdateRun`.
unfoldable pub update_run : List Run → Text → Run → List Run
unfolding text_eq updated
update_run [] id change = []
update_run (r ∷ runs) id change =
    (if text_eq r.id id then updated r change else r) ∷ update_run runs id change

-- `UpdateRunStatus`.
unfoldable pub update_run_status : List Run → Text → RunStatus → List Run
unfolding text_eq
update_run_status [] id new = []
update_run_status (r ∷ runs) id new =
    (if text_eq r.id id then record r { status = new } else r) ∷ update_run_status runs id new

-- `DeleteRun`.
unfoldable pub delete_rows : List Run → Text → List Run
unfolding text_eq
delete_rows [] id = []
delete_rows (r ∷ runs) id =
    let rest = delete_rows runs id in if text_eq r.id id then rest else r ∷ rest

-- The filters of `ListRun`; an empty one lets everything through.
pub record Filters : Type 0 where
  pub users : List Text
  pub fss : List Text
  pub ids : List Text
  pub names : List Text

unfoldable pub is_in : List Text → Text → Bool
unfolding text_eq
is_in [] t = false
is_in (x ∷ xs) t = text_eq x t || is_in xs t

abbrev pub passes : List Text → Text → Bool
passes [] t = true
passes (x ∷ xs) t = is_in (x ∷ xs) t

unfoldable pub matches : Filters → Run → Bool
unfolding is_in
matches f r =
    passes f.users r.user_name
    && (passes f.fss r.fs_name && (passes f.ids r.id && passes f.names r.name))

unfoldable pub rows_after : Filters → ℕ → List Run → List Run
unfolding matches
rows_after f pk [] = []
rows_after f pk (r ∷ runs) =
    let rest = rows_after f pk runs in if ltb pk r.pk && matches f r then r ∷ rest else rest

-- `ListRun`. The query asks for no order: `arrange` is the one in which the database gives the rows
-- that it selects, of which the limit takes the first.
unfoldable pub list_runs : (List Run → List Run) → Filters → ℕ → ℕ → List Run → List Run
unfolding rows_after
list_runs arrange f pk zero runs = arrange (rows_after f pk runs)
list_runs arrange f pk (suc max_keys) runs = take (suc max_keys) (arrange (rows_after f pk runs))

-- The key of `GetLastRun`, which asks for the order of the keys: of a table in this order, and zero
-- of an empty one.
abbrev pub last_pk : List Run → ℕ
last_pk [] = 0
last_pk (r ∷ []) = r.pk
last_pk (r ∷ s ∷ runs) = last_pk (s ∷ runs)

-- runList[len(runList)-1]
abbrev pub last_of_page : Run → List Run → Run
last_of_page r [] = r
last_of_page r (q ∷ rows) = last_of_page q rows

-- `ListRunsByStatus` with `RunActiveStatus`.
abbrev pub is_active : RunStatus → Bool
is_active pending = true
is_active running = true
is_active terminating = true
is_active initiating = true
is_active _ = false

unfoldable pub active_runs : List Run → List Run
active_runs [] = []
active_runs (r ∷ runs) =
    let rest = active_runs runs in if is_active r.status then r ∷ rest else rest
