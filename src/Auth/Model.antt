-- ===== src/Auth/Model.antt =====
-- internal/auth/auth.go and internal/users/types.go: users, sessions, requests, and what the
-- server takes from Go's packages. Times are nanoseconds since 1970.
use Prim.Native.Char.{Char}
use yesnas_server.Prelude.{ℕ, String, Bool, Option, List}
use yesnas_server.Auth.Password.{Crypto}

-- The row of a user; the columns with COALESCE may be NULL.
pub record User : Type 0 where
  pub id : String
  pub username : String
  pub display_name : Option String
  pub is_admin : Option Bool
  pub avatar : Option String
  pub password_hash : String
  pub status : String
  pub created_at : String
  pub updated_at : Option String

pub data SessionStatus : Type 0 where
  active revoked : SessionStatus

pub record Session : Type 0 where
  pub id : String
  pub user_id : String
  pub token_hash : String
  pub status : SessionStatus
  pub ip_address : String
  pub user_agent : String
  pub created_at : String
  pub updated_at : String
  pub expires_at : Option String
  pub last_seen_at : Option String
  pub logged_out_at : Option String

-- identity.Actor.
pub record Actor : Type 0 where
  pub user_id : String
  pub username : String
  pub display_name : String
  pub is_admin : Bool

pub data Event : Type 0 where
  login_failed : String → Event
  login_succeeded : String → String → Event
  logout_succeeded : String → String → Event

pub record Database : Type 0 where
  pub users : List User
  pub sessions : List Session
  pub events : List Event

-- What the code reads of a request; `body_token` and `login` are its decoded bodies.
pub record Request : Type 0 where
  pub method : String
  pub path : String
  pub authorization : String
  pub auth_token : String
  pub forwarded_for : String
  pub real_ip : String
  pub remote_addr : String
  pub user_agent : String
  pub has_content : Bool
  pub body_token : Option String
  pub login : Option (String × String)

-- Go's packages: the cases of letters beyond ASCII, SHA-256 in hexadecimal, RFC 3339 and
-- net.SplitHostPort.
pub record Platform : Type 0 where
  pub wide : Char → Char
  pub fold : Char → Char
  pub digest : String → String
  pub format_time : ℕ → String
  pub parse_time : String → Option ℕ
  pub split_host_port : String → Option String
  pub crypto : Crypto

-- What one call meets: the time, the random token, a fresh identifier, and which statements reach
-- the database.
pub record Call : Type 0 where
  pub now : ℕ
  pub random_token : Option String
  pub fresh_id : String
  pub read_ok : Bool
  pub groups_ok : Bool
  pub insert_ok : Bool
  pub revoke_ok : Bool

-- 30 * 24 * time.Hour.
abbrev pub session_ttl : ℕ
session_ttl = 2592000000000000
