-- ===== src/Auth/Credentials.antt =====
-- internal/auth/auth.go, HandleLogin, and internal/users/store.go, Authenticate: who may log in.
use mathlib.Core.Path.{subst}
use yesnas_server.Prelude.{
  ◌≡◌, refl, ap, ◌∙◌, sym, String, true, false, some, str_eq, arith, Bool-cases, Option-cases, inl,
  inr,
}
use yesnas_server.Prelude.Text.{trim_space, to_lower}
use yesnas_server.Prelude.Table.{first_where}
use yesnas_server.Auth.Password.{verify_password}
use yesnas_server.Auth.Model.{User, Database, Request, Platform, Call}
use yesnas_server.Auth.Sessions.{
  is_disabled, create_session, new_session, authenticate, get_by_username,
}
use yesnas_server.Auth.Handlers.{handle_login, token_body, open_session}
use yesnas_server.Auth.Login.{authenticate-enabled, open_session-opens}

authenticate_inv :
    (go : Platform) (call : Call) (username password : String) (db : Database) (user : User)
    → authenticate go call username password db ≡ some user
    → (first_where (λ u. str_eq u.username (to_lower go.wide (trim_space username))) db.users
        ≡ some user)
      × (verify_password go.crypto password user.password_hash ≡ true)
unfolding authenticate get_by_username
authenticate_inv go call username password db user h =
    elim (Option-cases (get_by_username go call username db)) [
      | inl e ↦ absurd (ground (arith, e, h))
      | inr (item, e) ↦ elim (Bool-cases (verify_password go.crypto password item.password_hash)) [
        | inl proved ↦
            let same : item ≡ user = ground (arith, e, proved, h) in
            (
              ground (arith, e) ∙ ap some same,
              subst (λ x. verify_password go.crypto password x.password_hash ≡ true) same proved,
            )
        | inr wrong ↦ absurd (ground (arith, e, wrong, h))
      ]
    ]

-- A login that succeeds had a body with a name and a password; the user of the answer is the row
-- with that name, trimmed and in lower case, may log in, and the password fits the stored hash.
pub handle_login-verify_password :
    (go : Platform) (call : Call) (r : Request) (db : Database) (token expiry : String)
    (user : User)
    → (handle_login go call r db).0 ≡ token_body token expiry user
    → (given : String × String) × (r.login ≡ some given)
      × (first_where (λ u. str_eq u.username (to_lower go.wide (trim_space given.0))) db.users
          ≡ some user)
      × (is_disabled go user.status ≡ false)
      × (verify_password go.crypto given.1 user.password_hash ≡ true)
unfolding handle_login open_session create_session new_session
    yesnas_server.Auth.Sessions.request_ip
handle_login-verify_password go call r db token expiry user h = elim (Option-cases r.login) [
  | inl e ↦ absurd (ground (arith, e, h))
  | inr ((username, password), e) ↦
      elim (Option-cases (authenticate go call username password db)) [
        | inl denied ↦ absurd (ground (arith, e, denied, h))
        | inr (found, granted) ↦
            let opened : handle_login go call r db ≡ open_session go call r found db =
              rw (e, granted, handle_login) refl in
            let same =
              (open_session-opens go call r found user db token expiry
                (ap (λ x. x.0) (sym opened) ∙ h)).0 in
            let proved =
              subst (λ x. authenticate go call username password db ≡ some x) same granted in
            let facts = authenticate_inv go call username password db user proved in
            (
              (username, password),
              e,
              facts.0,
              authenticate-enabled go call username password db user proved,
              facts.1,
            )
      ]
]
