-- ===== src/Jobs/Listing/Pages.antt =====
-- The pages of a listing: internal/jobs/jobs.go, ListJobs.
use Prim.Native.Char.{Char}
use native.Mathlib.Nat.{mod-eq_of_lt, mod-lt, mod-add-div'}
use yesnas_server.Prelude.{
  ℕ, zero, suc, ◌+◌, ◌-◌, ◌*◌, ◌%◌, ◌≤◌, ◌<◌, ◌≡◌, refl, ap, ◌∙◌, String, Bool, false, List, [],
  ◌∷◌, ◌++◌, ltb, arith, length, take, drop, Bool-cases, inl, inr, lt→ltb,
}
use yesnas_server.Prelude.Table.{count_where, select_where}
use yesnas_server.Jobs.Model.{Job}
use yesnas_server.Jobs.Listing.{
  insert_newest, newest_first, page_rows, offset_of, total_pages, page_size_of, JobListQuery,
  matches, selected,
}

zero_add : (b : ℕ) → 0 + b ≡ b
zero_add b = omega arith

zero_mul : (b : ℕ) → 0 * b ≡ 0
zero_mul b = omega arith

suc_plus : (a b : ℕ) → suc a + b ≡ suc (a + b)
suc_plus a b = omega arith

none_left : (n : ℕ) → ltb 0 n ≡ false → n ≡ 0
none_left n h = ground arith

length-insert_newest : (j : Job) (t : List Job) → length (insert_newest j t) ≡ suc (length t)
unfolding insert_newest
length-insert_newest j [] = refl
length-insert_newest j (k ∷ t) = ground (arith, length-insert_newest j t)

length-newest_first : (t : List Job) → length (newest_first t) ≡ length t
unfolding newest_first
length-newest_first [] = refl
length-newest_first (j ∷ t) =
    length-insert_newest j (newest_first t) ∙ ap suc (length-newest_first t)

pub count_where-length :
    (p : Job → Bool) (t : List Job) → length (select_where p t) ≡ count_where p t
unfolding select_where count_where
count_where-length p [] = refl
count_where-length p (j ∷ t) = ground (arith, count_where-length p t)

-- The offset of a page that does not wrap.
offset_of_lem :
    (page size : ℕ) → page * size < 0x8000000000000000 → offset_of (suc page) size ≡ page * size
unfolding offset_of
offset_of_lem page size h =
    let first : suc page - 1 ≡ page = omega arith in
    let small : (page * size) % 0x10000000000000000 ≡ page * size =
      mod-eq_of_lt (omega (arith, h)) in
    rw first (rw small (rw (lt→ltb (page * size) 0x8000000000000000 h) refl))

take_none : (b : ℕ) → ◌≡◌ {A = List Job} [] (take b [])
take_none zero = refl
take_none (suc b) = refl

take_split : (a b : ℕ) (rows : List Job) → take (a + b) rows ≡ take a rows ++ take b (drop a rows)
take_split zero b rows = rw (zero_add b) refl
take_split (suc a) b [] = rw (suc_plus a b) (take_none b)
take_split (suc a) b (j ∷ rows) = rw (suc_plus a b) (ap (λ t. j ∷ t) (take_split a b rows))

take_all : (n : ℕ) (rows : List Job) → length rows ≤ n → take n rows ≡ rows
take_all zero [] h = refl
take_all zero (j ∷ rows) h = absurd (omega (arith, h))
take_all (suc n) [] h = refl
take_all (suc n) (j ∷ rows) h = ap (λ t. j ∷ t) (take_all n rows (omega (arith, h)))

-- The pages 1 to n, one after the other.
unfoldable pub first_pages : ℕ → ℕ → List Job → List Job
first_pages zero size rows = []
first_pages (suc n) size rows = first_pages n size rows ++ page_rows (suc n) size rows

first_pages_lem :
    (n size : ℕ) (rows : List Job)
    → n * size < 0x8000000000000000
    → first_pages n size rows ≡ take (n * size) rows
unfolding first_pages page_rows
first_pages_lem zero size rows h = rw (zero_mul size) refl
first_pages_lem (suc n) size rows h =
    let more : suc n * size ≡ n * size + size = omega arith in
    let earlier : n * size < 0x8000000000000000 = omega (arith, h, more) in
    rw more (
      rw
        (
          take_split (n * size) size rows,
          first_pages_lem n size rows earlier,
          offset_of_lem n size earlier,
        )
        refl)

total_pages_lem :
    (total size : ℕ)
    → 0 < size
    → (total ≤ total_pages total size * size) × (total_pages total size * size ≤ total + size)
unfolding total_pages
total_pages_lem total size h = elim (Bool-cases (ltb 0 total)) [
  | inl some_rows ↦
      let parts = mod-add-div' (total + size - 1) size in
      let rest = mod-lt (total + size - 1) h in
      rw some_rows (omega (arith, parts, rest, h), omega (arith, parts, rest, h))
  | inr no_rows ↦ rw no_rows (omega (arith, none_left total no_rows), omega arith)
]

page_size_bounds : (query : JobListQuery) → (1 ≤ page_size_of query) × (page_size_of query ≤ 100)
unfolding page_size_of
page_size_bounds query = (ground arith, ground arith)

count_where-le : (p : Job → Bool) (t : List Job) → count_where p t ≤ length t
unfolding count_where
count_where-le p [] = omega arith
count_where-le p (j ∷ t) = ground (arith, count_where-le p t)

-- The pages of a table from the first to the last that a listing counts, one after the other, are
-- all the rows that match, in the order of the query: no row is missing and none comes twice. For a
-- table of fewer than 2 ^ 63 - 200 rows.
pub total_pages-first_pages :
    (wide : Char → Char) (like : String → Job → Bool) (query : JobListQuery) (t : List Job)
    → length t + 200 < 0x8000000000000000
    → first_pages
        (total_pages (count_where (matches wide like query) t) (page_size_of query))
        (page_size_of query)
        (selected wide like query t)
      ≡ selected wide like query t
unfolding selected
total_pages-first_pages wide like query t h =
    let test = matches wide like query in
    let size = page_size_of query in
    let total = count_where test t in
    let bounds = page_size_bounds query in
    let enough = total_pages_lem total size (omega (arith, bounds.0)) in
    let fewer = count_where-le test t in
    let rows = newest_first (select_where test t) in
    let many : length rows ≡ total =
      length-newest_first (select_where test t) ∙ count_where-length test t in
    first_pages_lem (total_pages total size) size rows (omega (arith, enough.1, bounds.1, fewer, h))
    ∙ take_all (total_pages total size * size) rows (omega (arith, many, enough.0))
