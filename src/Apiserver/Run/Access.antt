-- ===== src/Apiserver/Run/Access.antt =====
-- pkg/apiserver/controller/run/run.go: who may stop, retry and delete which runs.
use paddle_flow.Prelude.{
  Bool, Bool-cases, Option, Text, ap, codes, false, if◌then◌else◌, inl, inr, none, not, refl, some,
  some-inj, subst, sym, text_eq, text_eq→eq, true, ◌∙◌, ◌≡◌, ◌⊎◌,
}
use paddle_flow.Apiserver.Status.{is_run_final_status}
use paddle_flow.Apiserver.Runs.{Run, delete_rows, get_run}
use paddle_flow.Apiserver.Runs.Rows.{get_run-delete_rows}
use paddle_flow.Apiserver.Run.{
  ErrorCode, lower_text, is_root_user, access_denied, action_not_allowed, internal_error,
  run_not_found, Db, Engine, Reply, Server, delete_run, done, get_run_by_id, may_access, refused,
  stop_run,
}
use paddle_flow.Apiserver.Run.Starting.{retry_run}

-- The user is root, whatever the case of the letters, or the one that the run belongs to.
abbrev pub MayAccess : Text → Run → Type 0
MayAccess user r = (lower_text user ≡ codes "root") ⊎ (user ≡ r.user_name)

may_access-MayAccess : (user : Text) (r : Run) → may_access user r ≡ true → MayAccess user r
unfolding is_root_user
may_access-MayAccess user r e = elim (Bool-cases (text_eq (lower_text user) (codes "root"))) [
  | inl root ↦ inl (text_eq→eq (lower_text user) (codes "root") root)
  | inr other ↦ inr (text_eq→eq user r.user_name (rw other at e))
]

-- A request about a run is refused and leaves the server as it is, or the run is there and the user
-- may access it.
pub data IsGuarded {A : Type 0} (s : Server) (user id : Text) : Reply A × Server → Type 0 where
  is_refused : (e : ErrorCode) → IsGuarded s user id (refused e, s)
  is_allowed :
      (answer : Reply A × Server) (r : Run)
      → get_run s.runs id ≡ some r
      → MayAccess user r
      → IsGuarded s user id answer

get_run_by_id-IsGuarded :
    (s : Server) (user id : Text) (db : Db) → IsGuarded s user id (get_run_by_id s user id db, s)
unfolding get_run_by_id
get_run_by_id-IsGuarded s user id db = at_get db.gets (get_run s.runs id) refl
  where
    at_get :
        (gets : Bool) (o : Option Run)
        → get_run s.runs id ≡ o
        → IsGuarded s user id (
          if not gets then refused run_not_found else elim o [
            | none ↦ refused run_not_found
            | some r ↦ if may_access user r then done r else refused access_denied
          ],
          s,
        )
    at_get false o e = is_refused run_not_found
    at_get true none e = is_refused run_not_found
    at_get true (some r) e = elim (Bool-cases (may_access user r)) [
      | inl a ↦ rw a (is_allowed (done r, s) r e (may_access-MayAccess user r a))
      | inr a ↦ rw a (is_refused access_denied)
    ]

-- What reads the run first by `GetRunByID` is guarded as that is.
read_first-IsGuarded :
    {A : Type 0} (s : Server) (user id : Text) (db : Db) (next : Run → Reply A × Server)
    → IsGuarded s user id (elim (get_run_by_id s user id db) as (λ x. Reply A × Server) [
      | refused e ↦ (refused e, s)
      | done r ↦ next r
    ])
read_first-IsGuarded {A = A} s user id db next =
    at_reply (get_run_by_id s user id db) (get_run_by_id-IsGuarded s user id db)
  where
    at_reply :
        (y : Reply Run)
        → IsGuarded s user id (y, s)
        → IsGuarded s user id
            (elim y as (λ x. Reply A × Server) [ refused e ↦ (refused e, s) | done r ↦ next r ])
    at_reply (refused e) g = is_refused e
    at_reply (done r) (is_allowed answer q found access) = is_allowed (next r) q found access

delete_run-IsGuarded :
    (s : Server) (user id : Text) (db : Db) → IsGuarded s user id (delete_run s user id db)
unfolding delete_run
delete_run-IsGuarded s user id db = at_get db.gets (get_run s.runs id) refl
  where
    at_get :
        (gets : Bool) (o : Option Run)
        → get_run s.runs id ≡ o
        → IsGuarded s user id (
            if not gets then (refused internal_error, s) else elim o [
              | none ↦ (refused run_not_found, s)
              | some r ↦
                  if not (may_access user r)
                  then (refused access_denied, s)
                  else if not (is_run_final_status r.status)
                  then (refused action_not_allowed, s)
                  else if not db.deletes
                  then (refused internal_error, s)
                  else (done tt, record s { runs = delete_rows s.runs id })
            ])
    at_get false o e = is_refused internal_error
    at_get true none e = is_refused run_not_found
    at_get true (some r) e = elim (Bool-cases (may_access user r)) [
      | inl a ↦ rw a (is_allowed _ r e (may_access-MayAccess user r a))
      | inr a ↦ rw a (is_refused access_denied)
    ]

-- Whatever the database answers and others do meanwhile, a request to read, stop, retry or delete a
-- run is refused and leaves the server as it is, or there is a run with this identity and the user
-- is root or the one that it belongs to.
pub requests-IsGuarded :
    (engine : Engine) (s : Server) (user id : Text) (between : Server → Server) (msg : Text)
    (db : Db)
    → IsGuarded s user id (get_run_by_id s user id db, s)
      × IsGuarded s user id (stop_run s user id between db)
      × IsGuarded s user id (retry_run engine s user id between msg db)
      × IsGuarded s user id (delete_run s user id db)
unfolding stop_run retry_run
requests-IsGuarded engine s user id between msg db = (
  get_run_by_id-IsGuarded s user id db,
  read_first-IsGuarded s user id db _,
  read_first-IsGuarded s user id db _,
  delete_run-IsGuarded s user id db,
)

-- Whatever the database answers, a deletion leaves each run as it is, or it is the run that is
-- named, which the user may access and which has ended, and it is gone.
pub delete_run_lem :
    (s : Server) (user id : Text) (db : Db) (other : Text) (r : Run)
    → get_run s.runs other ≡ some r
    → (get_run (delete_run s user id db).1.runs other ≡ some r)
      ⊎ ((id ≡ other)
          × (may_access user r ≡ true)
          × (is_run_final_status r.status ≡ true)
          × (get_run (delete_run s user id db).1.runs other ≡ none))
unfolding delete_run
delete_run_lem s user id db other r found = at_get db.gets (get_run s.runs id) refl
  where
    tested : Bool → Bool → Bool → Reply Unit × Server
    tested access final deletes =
        if not access
        then (refused access_denied, s)
        else if not final
        then (refused action_not_allowed, s)
        else if not deletes
        then (refused internal_error, s)
        else (done tt, record s { runs = delete_rows s.runs id })

    result : Bool → Option Run → Reply Unit × Server
    result gets o = if not gets then (refused internal_error, s) else elim o [
      | none ↦ (refused run_not_found, s)
      | some q ↦ tested (may_access user q) (is_run_final_status q.status) db.deletes
    ]

    Deleted : Server → Type 0
    Deleted t =
        (get_run t.runs other ≡ some r)
        ⊎ ((id ≡ other)
            × (may_access user r ≡ true)
            × (is_run_final_status r.status ≡ true)
            × (get_run t.runs other ≡ none))

    at_same :
        (q : Run)
        → get_run s.runs id ≡ some q
        → may_access user q ≡ true
        → is_run_final_status q.status ≡ true
        → Deleted (record s { runs = delete_rows s.runs id })
    at_same q e access final = elim (Bool-cases (text_eq id other)) [
      | inr differ ↦ inl (get_run-delete_rows s.runs id other ∙ rw differ found)
      | inl same ↦
          let here : id ≡ other = text_eq→eq id other same in
          let this : q ≡ r = some-inj (sym e ∙ ap (get_run s.runs) here ∙ found) in
          inr (
            here,
            subst (λ x. may_access user x ≡ true) this access,
            subst (λ x. is_run_final_status x.status ≡ true) this final,
            get_run-delete_rows s.runs id other ∙ rw same refl,
          )
    ]

    at_tests :
        (q : Run)
        → get_run s.runs id ≡ some q
        → (access final deletes : Bool) → may_access user q ≡ access
        → is_run_final_status q.status ≡ final
        → Deleted (tested access final deletes).1
    at_tests q e false final deletes a g = inl found
    at_tests q e true false deletes a g = inl found
    at_tests q e true true false a g = inl found
    at_tests q e true true true a g = at_same q e a g

    at_get : (gets : Bool) (o : Option Run) → get_run s.runs id ≡ o → Deleted (result gets o).1
    at_get false o e = inl found
    at_get true none e = inl found
    at_get true (some q) e =
        at_tests q e (may_access user q) (is_run_final_status q.status) db.deletes refl refl
