-- ===== src/Examples/SessionTable.antt =====
-- The sessions of internal/auth/auth.go at concrete inputs.
use yesnas_server.Prelude.{
  str_eq, ℕ, zero, suc, ◌+◌, ◌*◌, ◌/◌, ◌≡◌, ◌⊎◌, refl, ap, String, true, false, none, some, [], ◌∷◌,
  arith,
}
use yesnas_server.Prelude.Text.{trim_space, to_lower}
use yesnas_server.Prelude.FilePath.{has_prefix}
use yesnas_server.Prelude.Table.{first_where}
use yesnas_server.Auth.Password.{
  verify_password, verify_parts, pbkdf2_sha256, pbkdf2_blocks, pbkdf2_block, pbkdf2_rounds,
}
use yesnas_server.Auth.Model.{User, Session, Actor, Database, Request, Platform, Call, session_ttl}
use yesnas_server.Auth.Sessions.{
  lookup_session, extract_token, actor_of, new_session, authenticate, get_by_username,
  create_session, hash_token, joined, accept, is_expired, is_disabled, equal_fold,
}
use yesnas_server.Auth.Handlers.{
  is_public_request, middleware, handle_login, handle_logout, logout_token, open_session,
}
use yesnas_server.Auth.Access.{IsLive, middleware-IsLive, handle_logout-lookup_session}
use yesnas_server.Auth.Credentials.{handle_login-verify_password}
use yesnas_server.Auth.Login.{KeepsSeconds, handle_login-lookup_session}

-- A clock that writes seconds as strokes.
unfoldable strokes : ℕ → String
strokes zero = String.[]
strokes (suc n) = String.◌∷◌ "|" (strokes n)

unfoldable count_strokes : String → ℕ
count_strokes String.[] = 0
count_strokes (String.◌∷◌ c s) = suc (count_strokes s)

count_strokes-strokes : (n : ℕ) → count_strokes (strokes n) ≡ n
unfolding strokes count_strokes
count_strokes-strokes zero = refl
count_strokes-strokes (suc n) = ap suc (count_strokes-strokes n)

abbrev toy : Platform
toy = record {
  wide = λ c. c;
  fold = λ c. c;
  digest = λ s. s;
  format_time = λ t. strokes (t / 1000000000);
  parse_time = λ s. some (count_strokes s * 1000000000);
  split_host_port = λ _. none;
  crypto = record {
    utf8 = λ _. [];
    hmac = λ _ _. 7 ∷ [];
    encode_base64 = λ _. "Bw";
    decode_base64 = λ _. some (7 ∷ []);
  };
}

toy-KeepsSeconds : KeepsSeconds toy
toy-KeepsSeconds t _ =
    (t / 1000000000 * 1000000000, rw (count_strokes-strokes (t / 1000000000)) refl, omega arith)

abbrev user : User
user = record {
  id = "u1";
  username = "ann";
  display_name = none;
  is_admin = some true;
  avatar = none;
  password_hash = "yesnas_pbkdf2_sha256$1$Bw$Bw";
  status = "enabled";
  created_at = "";
  updated_at = none;
}

abbrev request : Request
request = record {
  method = "POST";
  path = "/api/v1/auth/logout";
  authorization = "Bearer t0ken";
  auth_token = "";
  forwarded_for = "";
  real_ip = "";
  remote_addr = "10.0.0.9";
  user_agent = "curl";
  has_content = false;
  body_token = none;
  login = some (" Ann", "secret");
}

abbrev call : Call
call = record {
  now = 5000000000;
  random_token = some "t0ken";
  fresh_id = "s1";
  read_ok = true;
  groups_ok = true;
  insert_ok = true;
  revoke_ok = true;
}

abbrev empty_db : Database
empty_db = record { users = user ∷ []; sessions = []; events = [] }

-- The database some time after a login: another session and another user have come.
abbrev later_db : Database
later_db = record {
  users = record user { id = "u0"; username = "bob" } ∷ user ∷ [];
  sessions =
      record (new_session toy call user request "other") { id = "s0" }
      ∷ new_session toy call user request "t0ken"
      ∷ [];
  events = [];
}

handle_login-lookup_session_example :
    lookup_session toy (record call { now = 9000000000 }) "t0ken" later_db
    ≡ some (actor_of user, new_session toy call user request "t0ken")
unfolding handle_login authenticate get_by_username verify_password open_session create_session
    to_lower trim_space first_where is_disabled pbkdf2_sha256 equal_fold verify_parts pbkdf2_blocks
    pbkdf2_block pbkdf2_rounds new_session hash_token
handle_login-lookup_session_example =
    handle_login-lookup_session toy call (record call { now = 9000000000 }) request empty_db
      later_db "t0ken" (toy.format_time (call.now + session_ttl)) user toy-KeepsSeconds refl refl
      refl refl refl refl refl (omega arith) (omega arith)

handle_login-verify_password_example :
    (given : String × String) × (request.login ≡ some given)
    × (first_where (λ u. str_eq u.username (to_lower toy.wide (trim_space given.0))) empty_db.users
        ≡ some user)
    × (is_disabled toy user.status ≡ false)
    × (verify_password toy.crypto given.1 user.password_hash ≡ true)
unfolding handle_login authenticate get_by_username verify_password open_session create_session
    to_lower trim_space first_where is_disabled pbkdf2_sha256 equal_fold verify_parts pbkdf2_blocks
    pbkdf2_block pbkdf2_rounds
handle_login-verify_password_example =
    handle_login-verify_password toy call request empty_db "t0ken"
      (toy.format_time (call.now + session_ttl)) user refl

-- A session without a time of its end.
abbrev session : Session
session = record (new_session toy call user request "t0ken") { expires_at = none }

abbrev db : Database
db = record { users = user ∷ []; sessions = session ∷ []; events = [] }

middleware-IsLive_example :
    ((is_public_request request ≡ true) × (some (actor_of user) ≡ none))
    ⊎ ((who : Actor) × (some (actor_of user) ≡ some who)
        × IsLive toy 5000000000 (extract_token toy request) db who)
unfolding middleware is_public_request extract_token lookup_session hash_token joined accept
    is_expired is_disabled equal_fold first_where trim_space to_lower has_prefix new_session
middleware-IsLive_example = middleware-IsLive toy call request db (some (actor_of user)) refl

handle_logout-lookup_session_example :
    lookup_session toy call (logout_token toy request) (handle_logout toy call request db).1 ≡ none
unfolding handle_logout logout_token extract_token lookup_session hash_token joined accept
    is_expired is_disabled equal_fold first_where trim_space to_lower has_prefix new_session
handle_logout-lookup_session_example =
    handle_logout-lookup_session toy call request db call (refl, tt) refl
