-- ===== src/Files/Uploads/Bytes.antt =====
-- Files by their path, and the bytes that a patch leaves in a file.
use yesnas_server.Prelude.{
  ℕ, zero, suc, ◌+◌, ◌-◌, ◌≤◌, String, false, none, some, List, [], ◌∷◌, ◌++◌, ◌≡◌, refl, ap, sym,
  ◌∙◌, length, take, drop, length-append, str_eq, str_eq_refl, str_eq_iff, if◌then◌else◌, inl, inr,
  arith, Bool-cases,
}
use mathlib.Core.List.{append-nil, append_assoc}
use yesnas_server.Files.Uploads.{at, without, with_file, zeros, write_at}

module _ {ℓ} {Content : Type ℓ} where
  pub at-with_file :
      (path : String) (content : Content) (files : List (String × Content))
      → at path (with_file path content files) ≡ some content
  at-with_file path content files = rw (str_eq_refl path) refl

  pub at-without-other :
      (path other : String) (files : List (String × Content))
      → str_eq path other ≡ false
      → at path (without other files) ≡ at path files
  at-without-other path other [] h = refl
  at-without-other path other ((name, content) ∷ files) h = elim (Bool-cases (str_eq other name)) [
    | inl e ↦
        let same = (str_eq_iff other name).0 e in
        rw (e, ap (str_eq path) (sym same) ∙ h) (at-without-other path other files h)
    | inr e ↦ rw e (
        ap (λ o. if str_eq path name then some content else o)
          (at-without-other path other files h))
  ]

  pub at-with_file-other :
      (path other : String) (content : Content) (files : List (String × Content))
      → str_eq path other ≡ false
      → at path (with_file other content files) ≡ at path files
  at-with_file-other path other content files h = rw h (at-without-other path other files h)

pub take-append : (xs ys : List ℕ) → take (length xs) (xs ++ ys) ≡ xs
take-append [] ys = refl
take-append (x ∷ xs) ys = ap (◌∷◌ x) (take-append xs ys)

length-take : (n : ℕ) (xs : List ℕ) → length (take n xs) ≡ n → n ≤ length xs
length-take zero xs h = omega arith
length-take (suc n) [] h = absurd (ground (arith, h))
length-take (suc n) (x ∷ xs) h = omega (arith, length-take n xs (ground (arith, h)))

zeros-none : (n : ℕ) → n ≡ 0 → zeros n ≡ []
zeros-none zero h = refl
zeros-none (suc n) h = absurd (ground (arith, h))

-- After the bytes behind `log` were written, the file begins with `log` and the bytes.
pub take-write_at :
    (offset : ℕ) (bytes file log : List ℕ)
    → take offset file ≡ log
    → offset ≡ length log
    → take (offset + length bytes) (write_at offset bytes file) ≡ log ++ bytes
unfolding write_at
take-write_at offset bytes file log e n =
    let whole : offset ≤ length file = length-take offset file (ap length e ∙ sym n) in
    let filled = zeros-none (offset - length file) (omega (arith, whole)) in
    let size : offset + length bytes ≡ length (log ++ bytes) =
      omega (arith, n, length-append log bytes) in
    rw (e, filled, append-nil log, size)
      (take-append (log ++ bytes) (drop (length (log ++ bytes)) file))

-- The bytes before them stay.
pub take-write_at-before :
    (offset : ℕ) (bytes file log : List ℕ)
    → take offset file ≡ log
    → offset ≡ length log
    → take offset (write_at offset bytes file) ≡ log
unfolding write_at
take-write_at-before offset bytes file log e n =
    rw
      (
        e,
        append_assoc log (zeros (offset - length file)) bytes,
        append_assoc log (zeros (offset - length file) ++ bytes)
            (drop (offset + length bytes) file),
        n,
      )
      (take-append log
        (zeros (length log - length file) ++ bytes ++ drop (length log + length bytes) file))

pub at-without {ℓ} :
    {Content : Type ℓ} (path : String) (files : List (String × Content))
    → at path (without path files) ≡ none
at-without path [] = refl
at-without path ((name, content) ∷ files) = elim (Bool-cases (str_eq path name)) [
  | inl e ↦ rw e (at-without path files)
  | inr e ↦ rw (e, e) (at-without path files)
]
