-- ===== src/Files/Pages.antt =====
-- internal/files/files.go: paginate, the part of a listing that a request asks for.
use yesnas_server.Prelude.{
  ℕ, zero, suc, ◌+◌, ◌-◌, ◌<◌, ◌≤◌, not, Option, none, some, List, [], ◌∷◌, ◌≡◌, refl, ap, sym, ◌∙◌,
  length, take, drop, ltb, if◌then◌else◌, inl, inr, arith, Bool-cases,
}

-- The sum is an int: from 2 ^ 63 on it is negative, and then the slice expression panics, which
-- is `none`. The limit and the offset are not negative.
unfoldable pub paginate {ℓ} : {A : Type ℓ} → List A → ℕ → ℕ → Option (List A)
paginate items limit offset =
    let end = offset + limit in
    if not (ltb offset (length items))
    then some []
    else if ltb 9223372036854775807 end
    then none
    else if ltb (length items) end
    then some (take (length items - offset) (drop offset items))
    else some (take (end - offset) (drop offset items))

module _ {ℓ} {A : Type ℓ} where
  take-all : (n : ℕ) (xs : List A) → length xs ≤ n → take n xs ≡ xs
  take-all zero [] h = refl
  take-all zero (x ∷ xs) h = absurd (ground (arith, h))
  take-all (suc n) [] h = refl
  take-all (suc n) (x ∷ xs) h = ap (◌∷◌ x) (take-all n xs (ground (arith, h)))

  length-drop : (n : ℕ) (xs : List A) → length (drop n xs) ≡ length xs - n
  length-drop zero xs = omega arith
  length-drop (suc n) [] = omega arith
  length-drop (suc n) (x ∷ xs) = omega (arith, length-drop n xs)

  drop-all : (n : ℕ) (xs : List A) → length xs ≤ n → drop n xs ≡ []
  drop-all zero [] h = refl
  drop-all zero (x ∷ xs) h = absurd (ground (arith, h))
  drop-all (suc n) [] h = refl
  drop-all (suc n) (x ∷ xs) h = drop-all n xs (ground (arith, h))

  take-none : (n : ℕ) (xs : List A) → xs ≡ [] → take n xs ≡ []
  take-none zero xs h = refl
  take-none (suc n) [] h = refl
  take-none (suc n) (x ∷ xs) h = absurd (ground (arith, h))

  -- When the sum of the offset and the limit is an int, paginate does not panic and returns the
  -- elements from the offset on, as many as the limit allows.
  pub paginate-take :
      (items : List A) (limit offset : ℕ)
      → offset + limit < 9223372036854775808
      → paginate items limit offset ≡ some (take limit (drop offset items))
  unfolding paginate
  paginate-take items limit offset small = elim (Bool-cases (ltb offset (length items))) [
    | inr beyond ↦
        rw
          (
            beyond,
            take-none limit (drop offset items) (drop-all offset items (ground (arith, beyond))),
          )
          refl
    | inl inside ↦ elim (Bool-cases (ltb 9223372036854775807 (offset + limit))) [
      | inl over ↦ absurd (ground (arith, over, small))
      | inr fits ↦ elim (Bool-cases (ltb (length items) (offset + limit))) [
        | inl short ↦
            rw (inside, fits, short)
              (ap some (
                take-all (length items - offset) (drop offset items)
                  (ground (arith, length-drop offset items))
                ∙ sym (
                    take-all limit (drop offset items)
                      (ground (arith, length-drop offset items, short)))))
        | inr full ↦
            rw (inside, fits, full)
              (ap (λ n. some (take n (drop offset items))) (ground (arith, inside)))
      ]
    ]
  ]
