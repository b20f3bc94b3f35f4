-- ===== src/Auth/Password.antt =====
-- internal/users/password.go: the encoded form of a password and the test against it. HMAC-SHA256,
-- base64 and the bytes of a text are parameters.
use Prim.Native.Char.{Char, code}
use Prim.Native.String
use yesnas_server.Prelude.{
  ℕ, zero, suc, ◌+◌, ◌-◌, ◌*◌, ◌/◌, ◌%◌, String, Bool, true, false, Option, none, some, List, [],
  ◌∷◌, ◌++◌, ◌&&◌, str_eq, ltb, leb, ◌==◌, if◌then◌else◌, length, take, refl, ◌≡◌,
}
use yesnas_server.Prelude.Text.{trim_space, is_empty}

pub record Crypto : Type 0 where
  pub utf8 : String → List ℕ
  pub hmac : List ℕ → List ℕ → List ℕ
  pub encode_base64 : List ℕ → String
  pub decode_base64 : String → Option (List ℕ)

abbrev pub password_hash_prefix : String
password_hash_prefix = "yesnas_pbkdf2_sha256"

abbrev pub password_iterations : ℕ
password_iterations = 120000

abbrev pub password_key_bytes : ℕ
password_key_bytes = 32

abbrev pub hash_len : ℕ
hash_len = 32

abbrev onto_first : Char → List String → List String
onto_first c [] = (String.◌∷◌ c String.[]) ∷ []
onto_first c (s ∷ parts) = String.◌∷◌ c s ∷ parts

-- strings.Split(s, "$").
unfoldable pub split_dollar : String → List String
split_dollar String.[] = "" ∷ []
split_dollar (String.◌∷◌ c s) =
    let rest = split_dollar s in if code c == 36 then "" ∷ rest else onto_first c rest

abbrev is_digit : Char → Bool
is_digit c = leb 48 (code c) && leb (code c) 57

unfoldable pub digits_value : ℕ → String → Option ℕ
digits_value acc String.[] = some acc
digits_value acc (String.◌∷◌ c s) =
    let rest = digits_value (10 * acc + (code c - 48)) s in if is_digit c then rest else none

-- strconv.Atoi and the test `err != nil || iterations <= 0` on its result, for a 64-bit int.
unfoldable pub positive_value : String → Option ℕ
unfolding digits_value
positive_value s = if is_empty s then none else elim (digits_value 0 s) [
  | none ↦ none
  | some n ↦ if ltb 0 n && ltb n 0x8000000000000000 then some n else none
]

unfoldable pub positive_atoi : String → Option ℕ
unfolding positive_value
positive_atoi String.[] = none
positive_atoi (String.◌∷◌ c s) =
    if code c == 43
    then positive_value s
    else if code c == 45
    then none
    else positive_value (String.◌∷◌ c s)

-- The exclusive or of the low bits of two numbers.
unfoldable pub xor_bits : ℕ → ℕ → ℕ → ℕ
xor_bits zero a b = 0
xor_bits (suc bits) a b = (a % 2 + b % 2) % 2 + 2 * xor_bits bits (a / 2) (b / 2)

unfoldable pub xor_bytes : List ℕ → List ℕ → List ℕ
unfolding xor_bits
xor_bytes (a ∷ t) (b ∷ u) = xor_bits 8 a b ∷ xor_bytes t u
xor_bytes [] _ = []
xor_bytes (a ∷ t) [] = []

-- The inner loop of pbkdf2SHA256: `rounds` more rounds on u and t.
unfoldable pub pbkdf2_rounds : Crypto → List ℕ → ℕ → List ℕ → List ℕ → List ℕ
pbkdf2_rounds crypto password zero u t = t
pbkdf2_rounds crypto password (suc rounds) u t =
    let next = crypto.hmac password u in
    pbkdf2_rounds crypto password rounds next (xor_bytes t next)

abbrev pub big_endian : ℕ → List ℕ
big_endian block =
    (block / 0x1000000) % 256 ∷ (block / 0x10000) % 256 ∷ (block / 256) % 256 ∷ block % 256 ∷ []

unfoldable pub pbkdf2_block : Crypto → List ℕ → List ℕ → ℕ → ℕ → List ℕ
pbkdf2_block crypto password salt iterations block =
    let u = crypto.hmac password (salt ++ big_endian block) in
    pbkdf2_rounds crypto password (iterations - 1) u u

unfoldable pub pbkdf2_blocks : Crypto → List ℕ → List ℕ → ℕ → ℕ → ℕ → List ℕ
pbkdf2_blocks crypto password salt iterations block zero = []
pbkdf2_blocks crypto password salt iterations block (suc left) =
    pbkdf2_block crypto password salt iterations block
    ++ pbkdf2_blocks crypto password salt iterations (suc block) left

unfoldable pub pbkdf2_sha256 : Crypto → List ℕ → List ℕ → ℕ → ℕ → List ℕ
pbkdf2_sha256 crypto password salt iterations key_len =
    take key_len
      (pbkdf2_blocks crypto password salt iterations 1 ((key_len + hash_len - 1) / hash_len))

abbrev pub bytes_eq : List ℕ → List ℕ → Bool
bytes_eq [] [] = true
bytes_eq (a ∷ t) (b ∷ u) = a == b && bytes_eq t u
bytes_eq _ _ = false

-- `salt` is what the random source gave; `none` is its failure.
unfoldable pub hash_password : Crypto → Option (List ℕ) → String → Option String
hash_password crypto salt password = if is_empty (trim_space password) then none else elim salt [
  | none ↦ none
  | some bytes ↦
      let key =
        pbkdf2_sha256 crypto (crypto.utf8 password) bytes password_iterations password_key_bytes in
      some (
        String.◌++◌ password_hash_prefix (
          String.◌++◌ "$120000$" (
            String.◌++◌ (crypto.encode_base64 bytes) (String.◌++◌ "$" (crypto.encode_base64 key)))))
]

-- verifyPassword on the four parts.
unfoldable pub verify_parts : Crypto → String → ℕ → Option (List ℕ) → Option (List ℕ) → Bool
verify_parts crypto password iterations (some salt) (some expected) =
    bytes_eq (pbkdf2_sha256 crypto (crypto.utf8 password) salt iterations (length expected))
      expected
verify_parts crypto password iterations _ _ = false

abbrev verify_split : Crypto → String → List String → Bool
verify_split crypto password (prefix ∷ iterations ∷ salt ∷ expected ∷ []) =
    if str_eq prefix password_hash_prefix
    then elim (positive_atoi iterations) [
      | none ↦ false
      | some n ↦
          verify_parts crypto password n (crypto.decode_base64 salt) (crypto.decode_base64 expected)
    ]
    else false
verify_split crypto password _ = false

unfoldable pub verify_password : Crypto → String → String → Bool
unfolding split_dollar positive_atoi
verify_password crypto password encoded = verify_split crypto password (split_dollar encoded)

split_dollar_test : split_dollar "a$$b" ≡ "a" ∷ "" ∷ "b" ∷ []
unfolding split_dollar
split_dollar_test = refl

positive_atoi_test : positive_atoi "120000" ≡ some 120000
unfolding positive_atoi
positive_atoi_test = refl

xor_test : xor_bits 8 0xa5 0x0f ≡ 0xaa
unfolding xor_bits
xor_test = refl
