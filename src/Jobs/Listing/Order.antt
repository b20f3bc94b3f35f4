-- ===== src/Jobs/Listing/Order.antt =====
-- The order of a listing: internal/jobs/jobs.go, ListJobs, ORDER BY created_at DESC.
use yesnas_server.Prelude.{
  ℕ, ◌≤◌, ◌≡◌, refl, ◌∙◌, Bool, List, [], ◌∷◌, ltb, arith, All, Bool-cases, inl, inr,
}
use yesnas_server.Prelude.Table.{count_where}
use yesnas_server.Jobs.Model.{Job}
use yesnas_server.Jobs.Listing.{insert_newest, newest_first}

-- No row is followed by a newer one.
abbrev pub Descending : List Job → Type 0
Descending [] = Unit {0}
Descending (j ∷ t) = All (λ k. k.created_at ≤ j.created_at) t × Descending t

-- The same rows, each as often, in that order.
abbrev pub IsOrdered : List Job → List Job → Type 0
IsOrdered t rows = Descending rows × ((p : Job → Bool) → count_where p rows ≡ count_where p t)

All-insert_newest :
    (bound : ℕ) (j : Job) (t : List Job)
    → j.created_at ≤ bound
    → All (λ k. k.created_at ≤ bound) t
    → All (λ k. k.created_at ≤ bound) (insert_newest j t)
unfolding insert_newest
All-insert_newest bound j [] h a = (h, tt)
All-insert_newest bound j (k ∷ t) h a = elim (Bool-cases (ltb j.created_at k.created_at)) [
  | inl e ↦ rw e (a.0, All-insert_newest bound j t h a.1)
  | inr e ↦ rw e (h, a)
]

All-older :
    (low high : ℕ) (t : List Job)
    → low ≤ high
    → All (λ k. k.created_at ≤ low) t
    → All (λ k. k.created_at ≤ high) t
All-older low high [] h a = tt
All-older low high (k ∷ t) h a = (omega (arith, a.0), All-older low high t h a.1)

insert_newest-Descending : (j : Job) (t : List Job) → Descending t → Descending (insert_newest j t)
unfolding insert_newest
insert_newest-Descending j [] d = (tt, tt)
insert_newest-Descending j (k ∷ t) d = elim (Bool-cases (ltb j.created_at k.created_at)) [
  | inl e ↦
      rw e (All-insert_newest k.created_at j t (ground arith) d.0, insert_newest-Descending j t d.1)
  | inr e ↦
      let older : k.created_at ≤ j.created_at = ground arith in
      rw e ((older, All-older k.created_at j.created_at t older d.0), d)
]

newest_first-Descending : (t : List Job) → Descending (newest_first t)
unfolding newest_first
newest_first-Descending [] = tt
newest_first-Descending (j ∷ t) =
    insert_newest-Descending j (newest_first t) (newest_first-Descending t)

count_where-insert_newest :
    (p : Job → Bool) (j : Job) (t : List Job)
    → count_where p (insert_newest j t) ≡ count_where p (j ∷ t)
unfolding insert_newest count_where
count_where-insert_newest p j [] = refl
count_where-insert_newest p j (k ∷ t) = ground (arith, count_where-insert_newest p j t)

count_where-newest_first :
    (p : Job → Bool) (t : List Job) → count_where p (newest_first t) ≡ count_where p t
unfolding newest_first count_where
count_where-newest_first p [] = refl
count_where-newest_first p (j ∷ t) =
    count_where-insert_newest p j (newest_first t) ∙ ground (arith, count_where-newest_first p t)

pub newest_first-IsOrdered : (t : List Job) → IsOrdered t (newest_first t)
newest_first-IsOrdered t = (newest_first-Descending t, λ p. count_where-newest_first p t)
