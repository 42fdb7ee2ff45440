-- ===== src/Apiserver/Run/Listing/Walk.antt =====
-- pkg/apiserver/controller/run/run.go: a user who follows the markers of `ListRun`.
use paddle_flow.Prelude.{
  List, Option, Text, false, if◌then◌else◌, none, some, suc, text_empty, true, zero, ℕ, ◌++◌, ◌>>=◌,
  ◌≡◌,
}
use paddle_flow.Apiserver.Runs.{Filters, Run, rows_after}
use paddle_flow.Apiserver.Runs.Pages.{IsAscending, IsByKey}
use paddle_flow.Apiserver.Run.{Db, Server, done, refused}
use paddle_flow.Apiserver.Run.Listing.{Markers, RunBrief, list_run, own_filter}

-- A marker is never empty and gives its key back.
pub record IsFaithful (m : Markers) : Type 0 where
  pub marker : ℕ → Text
  pub encrypts : (pk : ℕ) → m.encrypt pk ≡ some (marker pk)
  pub not_empty : (pk : ℕ) → text_empty (marker pk) ≡ false
  pub decrypts : (pk : ℕ) → m.decrypt (marker pk) ≡ some pk

module _ (m : Markers) (s : Server) (user : Text) (max_keys : ℕ) (f : Filters) (db : Db) where
  -- Lists page after page, from a marker on, at most as many as there is fuel.
  unfoldable pub walk : ℕ → Text → Option (List RunBrief)
  unfolding list_run
  walk zero marker = none
  walk (suc k) marker = elim (list_run m s user marker max_keys f db) [
    | refused e ↦ none
    | done page ↦
        if page.is_truncated
        then walk k page.next_marker >>= (λ rest. some (page.run_list ++ rest))
        else some page.run_list
  ]

module _ (m : Markers) (faithful : IsFaithful m) (s : Server) (user : Text) (n : ℕ) (f : Filters)
    (db : Db) (up : IsAscending s.runs) (by_key : IsByKey db.arrange) (works : db.gets ≡ true) where
  abbrev listed : ℕ → List Run
  listed pk = rows_after (own_filter user f) pk s.runs
