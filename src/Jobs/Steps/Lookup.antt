-- ===== src/Jobs/Steps/Lookup.antt =====
-- Where a statement of the jobs table leaves the row of a given job.
use mathlib.Core.Option
use yesnas_server.Prelude.{
  ◌≡◌, refl, String, Bool, true, false, Option, none, some, List, [], ◌∷◌, str_eq, str_eq_iff,
  if◌then◌else◌, arith, Bool-cases, inl, inr,
}
use yesnas_server.Prelude.Table.{
  first_where, update_where, delete_where, first_where-update_where, first_where-delete_where_self,
  first_where-delete_where_other,
}
use yesnas_server.Prelude.Text.{trim_space}
use yesnas_server.Jobs.Model.{Job}
use yesnas_server.Jobs.Statements.{has_id, insert_job, delete_job}

abbrev pub find : String → List Job → Option Job
find id = first_where (has_id id)

pub find-update_where :
    (k : String) (p : Job → Bool) (f : Job → Job) (t : List Job)
    → ((j : Job) → (f j).id ≡ j.id)
    → find k (update_where p f t) ≡ Option.map (λ j. if p j then f j else j) (find k t)
find-update_where k p f t keep = first_where-update_where (has_id k) p f t (λ j. rw (keep j) refl)

pub find-insert_job :
    (k : String) (new : Job) (t : List Job) (j : Job)
    → find k t ≡ some j
    → find k (insert_job new t) ≡ some j
unfolding insert_job first_where
find-insert_job k new [] j h = absurd (ground arith)
find-insert_job k new (x ∷ t) j h = ground (arith, find-insert_job k new t j)

pub find-insert_job-none :
    (k : String) (new : Job) (t : List Job)
    → find k t ≡ none
    → find k (insert_job new t) ≡ (if str_eq new.id k then some new else none)
unfolding insert_job first_where
find-insert_job-none k new [] h = refl
find-insert_job-none k new (x ∷ t) h = ground (arith, find-insert_job-none k new t)

pub find-delete_none :
    (k : String) (p : Job → Bool) (t : List Job)
    → find k t ≡ none
    → find k (delete_where p t) ≡ none
unfolding first_where delete_where
find-delete_none k p [] h = refl
find-delete_none k p (x ∷ t) h = ground (arith, find-delete_none k p t)

apart : (i k d : String) → str_eq i k ≡ true → str_eq d k ≡ false → str_eq i d ≡ false
apart i k d h e = ground (arith, str_eq_iff i k, str_eq_iff d k, str_eq_iff i d)

-- A deletion by id takes the row of that job and leaves the row of any other.
pub find-delete_job :
    (k id : String) (t : List Job)
    → find k (delete_job id t) ≡ (if str_eq (trim_space id) k then none else find k t)
unfolding delete_job
find-delete_job k id t = elim (Bool-cases (str_eq (trim_space id) k)) [
  | inl e ↦
      rw e (rw ((str_eq_iff (trim_space id) k).0 e) (first_where-delete_where_self (has_id k) t))
  | inr e ↦ rw e (
      first_where-delete_where_other (has_id k) (has_id (trim_space id)) t
        (λ j h. apart j.id k (trim_space id) h e))
]
