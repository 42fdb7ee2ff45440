-- ===== src/Apiserver/Runs/Rows.antt =====
-- pkg/apiserver/models/run.go: what changes of the table do to the runs that are read from it.
use paddle_flow.Prelude.{
  Bool-cases, List, Text, [], ap, arith, if◌then◌else◌, inl, inr, none, none≢some, refl, some,
  some-inj, text_eq, text_eq_iff, text_eq_refl, text_eq→eq, true, ◌∙◌, ◌∷◌, ◌≡◌,
}
use paddle_flow.Apiserver.Runs.{Run, delete_rows, get_run, update_run, updated, new_text}

id-updated : (r c : Run) → (updated r c).id ≡ new_text r.id c.id
unfolding updated
id-updated r c = refl

pub new_text_same : (t : Text) → new_text t t ≡ t
new_text_same [] = refl
new_text_same (c ∷ t) = refl

-- A change that does not name another identity is read back at its run.
pub get_run-update_run :
    (runs : List Run) (id : Text) (c r : Run)
    → new_text id c.id ≡ id
    → get_run runs id ≡ some r
    → get_run (update_run runs id c) id ≡ some (updated r c)
unfolding get_run update_run
get_run-update_run [] id c r e h = absurd (none≢some h)
get_run-update_run (q ∷ runs) id c r e h = elim (Bool-cases (text_eq q.id id)) [
  | inl t ↦
      let there : text_eq (updated q c).id id ≡ true =
        ap (λ i. text_eq i id)
          (id-updated q c ∙ ap (λ i. new_text i c.id) (text_eq→eq q.id id t) ∙ e)
        ∙ text_eq_refl id in
      let here = some-inj (rw (t, get_run) at h) in
      rw (t, update_run, there, get_run) (ap (λ x. some (updated x c)) here)
  | inr t ↦ rw (t, update_run, get_run, t) (get_run-update_run runs id c r e (rw (t, get_run) at h))
]

-- A deletion takes the rows with the identity and no other.
pub get_run-delete_rows :
    (runs : List Run) (id other : Text)
    → get_run (delete_rows runs id) other ≡ (if text_eq id other then none else get_run runs other)
unfolding get_run delete_rows
get_run-delete_rows [] id other = ground arith
get_run-delete_rows (r ∷ runs) id other = ground (
  arith,
  text_eq_iff r.id id,
  text_eq_iff r.id other,
  text_eq_iff id other,
  get_run-delete_rows runs id other,
)
