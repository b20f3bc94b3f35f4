-- ===== src/Auth/Handlers.antt =====
-- internal/auth/auth.go: the middleware and the handlers of login and logout.
use yesnas_server.Prelude.{
  ℕ, String, Bool, Option, none, some, [], ◌∷◌, ◌++◌, ◌&&◌, ◌||◌, not, str_eq, if◌then◌else◌,
}
use yesnas_server.Prelude.Text.{trim_space, is_empty}
use yesnas_server.Auth.Model.{
  User, Actor, Event, login_failed, login_succeeded, logout_succeeded, Database, Request, Platform,
  Call,
}
use yesnas_server.Auth.Sessions.{
  authenticate, create_session, lookup_session, revoke_session, extract_token,
}

-- What the middleware does with a request: the next handler, with an actor or without, or an error.
pub data Passage : Type 0 where
  passes : Option Actor → Passage
  refuses : ℕ → String → Passage

unfoldable pub is_public_request : Request → Bool
is_public_request r =
    str_eq r.method "OPTIONS"
    || (str_eq r.method "POST" && str_eq (trim_space r.path) "/api/v1/auth/login")

unfoldable pub middleware : Platform → Call → Request → Database → Passage
middleware go call r db =
    if is_public_request r
    then passes none
    else if is_empty (extract_token go r)
    then refuses 401 "AUTH_REQUIRED"
    else elim (lookup_session go call (extract_token go r) db) [
      | none ↦ refuses 401 "AUTH_INVALID"
      | some found ↦ passes (some found.0)
    ]

pub data Response : Type 0 where
  token_body : String → String → User → Response
  logged_out : Response
  api_error : ℕ → String → Response

abbrev log : Event → Database → Database
log event db = record db { events = db.events ++ event ∷ [] }

-- HandleLogin once the user is known.
unfoldable pub open_session : Platform → Call → Request → User → Database → Response × Database
open_session go call r user db =
    let (created, db') = create_session go call user r db in
    elim created [
      | none ↦ (api_error 500 "LOGIN_FAILED", db')
      | some (token, expiry) ↦
          (token_body token expiry user, log (login_succeeded user.id user.username) db')
    ]

unfoldable pub handle_login : Platform → Call → Request → Database → Response × Database
handle_login go call r db = elim r.login [
  | none ↦ (api_error 400 "INVALID_BODY", db)
  | some (username, password) ↦ elim (authenticate go call username password db) [
    | none ↦ (api_error 401 "LOGIN_FAILED", log (login_failed username) db)
    | some user ↦ open_session go call r user db
  ]
]

-- The token that HandleLogout uses: a header, else the body.
unfoldable pub logout_token : Platform → Request → String
logout_token go r =
    if is_empty (extract_token go r) && r.has_content
    then elim r.body_token [ none ↦ "" | some token ↦ trim_space token ]
    else extract_token go r

unfoldable pub handle_logout : Platform → Call → Request → Database → Response × Database
handle_logout go call r db =
    if is_empty (logout_token go r)
    then (api_error 400 "LOGOUT_TOKEN_REQUIRED", db)
    else elim (lookup_session go call (logout_token go r) db) [
      | none ↦ (api_error 401 "LOGOUT_FAILED", db)
      | some (actor, session) ↦
          if not call.revoke_ok then (api_error 500 "LOGOUT_FAILED", db) else (
            logged_out,
            log (logout_succeeded session.id actor.username) (revoke_session go call session.id db),
          )
    ]
