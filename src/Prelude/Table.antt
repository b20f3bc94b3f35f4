-- ===== src/Prelude/Table.antt =====
-- A database table as the list of its rows in insertion order, and the statements on it:
-- SELECT ... WHERE, UPDATE ... WHERE, DELETE ... WHERE and COUNT(1) ... WHERE.
use Prim.Native.Nat.{ℕ, suc, ◌<◌}
use mathlib.Core.Path.{◌≡◌, refl, ap, subst}
use mathlib.Core.Logic.{inl, inr}
use mathlib.Core.Bool.{Bool, true, false}
use mathlib.Core.Option
use mathlib.Core.Option.{Option, none, some}
use mathlib.Core.List.{List, [], ◌∷◌, ◌++◌, map}
use native.Mathlib.Omega.{arith}
use yesnas_server.Prelude.Tests.{if◌then◌else◌, Bool-cases}
use yesnas_server.Prelude.Lists.{All, length}

module _ {ℓ} {A : Type ℓ} where
  unfoldable pub select_where : (A → Bool) → List A → List A
  select_where p [] = []
  select_where p (x ∷ xs) = if p x then x ∷ select_where p xs else select_where p xs

  unfoldable pub first_where : (A → Bool) → List A → Option A
  first_where p [] = none
  first_where p (x ∷ xs) = if p x then some x else first_where p xs

  unfoldable pub update_where : (A → Bool) → (A → A) → List A → List A
  update_where p f [] = []
  update_where p f (x ∷ xs) = (if p x then f x else x) ∷ update_where p f xs

  unfoldable pub delete_where : (A → Bool) → List A → List A
  delete_where p [] = []
  delete_where p (x ∷ xs) = if p x then delete_where p xs else x ∷ delete_where p xs

  unfoldable pub count_where : (A → Bool) → List A → ℕ
  count_where p [] = 0
  count_where p (x ∷ xs) = let rest = count_where p xs in if p x then suc rest else rest

  -- A row that is found satisfies the test.
  pub first_where_holds :
      (p : A → Bool) (t : List A) (x : A) → first_where p t ≡ some x → p x ≡ true
  unfolding first_where
  first_where_holds p [] x h = ground arith
  first_where_holds p (y ∷ t) x h = ground (arith, first_where_holds p t x)

  pub first_where-none :
      (p : A → Bool) (t : List A) → first_where p t ≡ none → All (λ x. p x ≡ false) t
  unfolding first_where
  first_where-none p [] h = tt
  first_where-none p (x ∷ t) h = elim (Bool-cases (p x)) [
    | inl e ↦ ground arith
    | inr e ↦ (e, first_where-none p t (ground arith))
  ]

  -- A test that holds of fewer rows finds none either.
  pub first_where-none_le :
      (q p : A → Bool) (t : List A)
      → ((x : A) → q x ≡ true → p x ≡ true)
      → first_where p t ≡ none
      → first_where q t ≡ none
  unfolding first_where
  first_where-none_le q p [] le h = refl
  first_where-none_le q p (x ∷ t) le h = ground (arith, le x, first_where-none_le q p t le)

  pub first_where-append_one :
      (p : A → Bool) (t : List A) (x : A)
      → first_where p t ≡ none
      → p x ≡ true
      → first_where p (t ++ x ∷ []) ≡ some x
  unfolding first_where
  first_where-append_one p [] x h e = rw e refl
  first_where-append_one p (y ∷ t) x h e = ground (arith, e, first_where-append_one p t x)

  pub first_where-All {κ} :
      (P : A → Type κ) (p : A → Bool) (t : List A) (x : A)
      → All P t
      → first_where p t ≡ some x
      → P x
  unfolding first_where
  first_where-All P p [] x all h = absurd (ground arith)
  first_where-All P p (y ∷ t) x all h = elim (Bool-cases (p y)) [
    | inl e ↦ subst P (ground (arith, e, h)) all.0
    | inr e ↦ first_where-All P p t x all.1 (ground (arith, e, h))
  ]

  pub count_where-append_one :
      (p : A → Bool) (t : List A) (x : A)
      → count_where p (t ++ x ∷ []) ≡ (if p x then suc (count_where p t) else count_where p t)
  unfolding count_where
  count_where-append_one p [] x = refl
  count_where-append_one p (y ∷ t) x = ground (arith, count_where-append_one p t x)

  pub count_where-pos :
      (q p : A → Bool) (t : List A) (x : A)
      → first_where q t ≡ some x
      → p x ≡ true
      → 0 < count_where p t
  unfolding first_where count_where
  count_where-pos q p [] x h e = absurd (ground arith)
  count_where-pos q p (y ∷ t) x h e = elim (Bool-cases (p y)) [
    | inl b ↦ rw b (omega arith)
    | inr b ↦ rw b (count_where-pos q p t x (ground arith) e)
  ]

  -- An update that keeps the test of a row acts on the row that the test finds.
  pub first_where-update_where :
      (q p : A → Bool) (f : A → A) (t : List A)
      → ((x : A) → q (f x) ≡ q x)
      → first_where q (update_where p f t)
        ≡ Option.map (λ x. if p x then f x else x) (first_where q t)
  unfolding first_where update_where
  first_where-update_where q p f [] keep = refl
  first_where-update_where q p f (x ∷ t) keep =
      ground (arith, keep x, first_where-update_where q p f t keep)

  pub first_where-delete_where_self :
      (p : A → Bool) (t : List A) → first_where p (delete_where p t) ≡ none
  unfolding first_where delete_where
  first_where-delete_where_self p [] = refl
  first_where-delete_where_self p (x ∷ t) = ground (arith, first_where-delete_where_self p t)

  -- Deleting rows that a test refuses leaves what the test finds.
  pub first_where-delete_where_other :
      (q p : A → Bool) (t : List A)
      → ((x : A) → q x ≡ true → p x ≡ false)
      → first_where q (delete_where p t) ≡ first_where q t
  unfolding first_where delete_where
  first_where-delete_where_other q p [] apart = refl
  first_where-delete_where_other q p (x ∷ t) apart =
      ground (arith, apart x, first_where-delete_where_other q p t apart)

  pub map-update_where {κ} :
      {B : Type κ} (key : A → B) (p : A → Bool) (f : A → A) (t : List A)
      → ((x : A) → key (f x) ≡ key x)
      → map key (update_where p f t) ≡ map key t
  unfolding update_where
  map-update_where key p f [] keep = refl
  map-update_where key p f (x ∷ t) keep = ground (arith, keep x, map-update_where key p f t keep)

  pub length-update_where :
      (p : A → Bool) (f : A → A) (t : List A) → length (update_where p f t) ≡ length t
  unfolding update_where
  length-update_where p f [] = refl
  length-update_where p f (x ∷ t) = ap suc (length-update_where p f t)

module _ {ℓ κ} {A : Type ℓ} (P : A → Type κ) (p : A → Bool) where
  pub All-update_where :
      (f : A → A) (t : List A)
      → ((x : A) → p x ≡ true → P x → P (f x))
      → All P t
      → All P (update_where p f t)
  unfolding update_where
  All-update_where f [] keep h = tt
  All-update_where f (x ∷ t) keep h = elim (Bool-cases (p x)) [
    | inl e ↦ rw e (keep x e h.0, All-update_where f t keep h.1)
    | inr e ↦ rw e (h.0, All-update_where f t keep h.1)
  ]

  pub All-delete_where : (t : List A) → All P t → All P (delete_where p t)
  unfolding delete_where
  All-delete_where [] h = tt
  All-delete_where (x ∷ t) h = elim (Bool-cases (p x)) [
    | inl e ↦ rw e (All-delete_where t h.1)
    | inr e ↦ rw e (h.0, All-delete_where t h.1)
  ]

  pub All-select_where : (t : List A) → All P t → All P (select_where p t)
  unfolding select_where
  All-select_where [] h = tt
  All-select_where (x ∷ t) h = elim (Bool-cases (p x)) [
    | inl e ↦ rw e (h.0, All-select_where t h.1)
    | inr e ↦ rw e (All-select_where t h.1)
  ]
