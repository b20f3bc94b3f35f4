-- ===== src/Auth/Sessions.antt =====
-- internal/auth/auth.go: sessions and tokens; internal/users/store.go: Authenticate.
use Prim.Native.Char.{Char, code}
use yesnas_server.Prelude.{
  ℕ, ◌+◌, String, Bool, true, false, Option, none, some, List, [], ◌∷◌, ◌++◌, ◌&&◌, ◌||◌, not,
  str_eq, ltb, ◌==◌, if◌then◌else◌, refl, ◌≡◌,
}
use yesnas_server.Prelude.Text.{trim_space, is_empty, to_lower}
use yesnas_server.Prelude.FilePath.{has_prefix}
use yesnas_server.Prelude.Table.{first_where, update_where}
use yesnas_server.Auth.Password.{verify_password}
use yesnas_server.Auth.Model.{
  User, Session, SessionStatus, active, revoked, Actor, Database, Request, Platform, Call,
  session_ttl,
}

-- strings.EqualFold: `fold` maps a letter beyond ASCII to the one that stands for its cases.
unfoldable pub equal_fold : (Char → Char) → String → String → Bool
unfolding to_lower
equal_fold fold a b = str_eq (to_lower fold a) (to_lower fold b)

unfoldable pub is_disabled : Platform → String → Bool
is_disabled go status = equal_fold go.fold (trim_space status) "disabled"

-- GetByUsername: the query, then the groups of the user.
unfoldable pub get_by_username : Platform → Call → String → Database → Option User
get_by_username go call username db =
    if call.read_ok && call.groups_ok
    then first_where (λ u. str_eq u.username (to_lower go.wide (trim_space username))) db.users
    else none

unfoldable pub authenticate : Platform → Call → String → String → Database → Option User
authenticate go call username password db = elim (get_by_username go call username db) [
  | none ↦ none
  | some item ↦
      if is_disabled go item.status
      then none
      else if not (verify_password go.crypto password item.password_hash)
      then none
      else some item
]

unfoldable pub hash_token : Platform → String → String
hash_token go token = go.digest (trim_space token)

unfoldable pub split_comma : String → String
split_comma String.[] = String.[]
split_comma (String.◌∷◌ c s) =
    let rest = split_comma s in if code c == 44 then String.[] else String.◌∷◌ c rest

unfoldable pub has_comma : String → Bool
has_comma String.[] = false
has_comma (String.◌∷◌ c s) = code c == 44 || has_comma s

unfoldable pub host_of : Platform → String → String
host_of go value = elim (go.split_host_port value) [
  | some host ↦ host
  | none ↦ if has_comma value then trim_space (split_comma value) else value
]

unfoldable pub first_non_empty : Platform → List String → String
unfolding host_of
first_non_empty go [] = ""
first_non_empty go (value ∷ values) =
    let rest = first_non_empty go values in
    if not (is_empty (trim_space value)) then host_of go value else rest

unfoldable pub request_ip : Platform → Request → String
request_ip go r = trim_space (
    first_non_empty go
      (trim_space r.forwarded_for ∷ trim_space r.real_ip ∷ trim_space r.remote_addr ∷ []))

unfoldable pub new_session : Platform → Call → User → Request → String → Session
new_session go call user r raw = record {
  id = call.fresh_id;
  user_id = user.id;
  token_hash = hash_token go raw;
  status = active;
  ip_address = request_ip go r;
  user_agent = trim_space r.user_agent;
  created_at = go.format_time call.now;
  updated_at = go.format_time call.now;
  expires_at = some (go.format_time (call.now + session_ttl));
  last_seen_at = some (go.format_time call.now);
  logged_out_at = none;
}

-- The columns id and token_hash of user_sessions are unique.
abbrev pub clashes : Session → Session → Bool
clashes new s = str_eq s.id new.id || str_eq s.token_hash new.token_hash

abbrev pub is_unused : Session → List Session → Bool
is_unused new t = elim (first_where (clashes new) t) [ none ↦ true | some _ ↦ false ]

-- CreateSession: the token and when it expires.
unfoldable pub create_session :
    Platform → Call → User → Request → Database → Option (String × String) × Database
create_session go call user r db = elim call.random_token [
  | none ↦ (none, db)
  | some raw ↦
      let new = new_session go call user r raw in
      if call.insert_ok && is_unused new db.sessions
      then (
        some (raw, go.format_time (call.now + session_ttl)),
        record db { sessions = db.sessions ++ new ∷ [] },
      )
      else (none, db)
]

abbrev pub has_token : String → Session → Bool
has_token hash s = str_eq s.token_hash hash

abbrev pub has_user_id : String → User → Bool
has_user_id id u = str_eq u.id id

-- The row of the JOIN: token_hash and the identifiers of users are unique.
unfoldable pub joined : String → Database → Option (Session × User)
joined hash db = elim (first_where (has_token hash) db.sessions) [
  | none ↦ none
  | some s ↦ elim (first_where (has_user_id s.user_id) db.users) [
    | none ↦ none
    | some u ↦ some (s, u)
  ]
]

-- Whether a session's time is over; a text that is no time does not end it.
unfoldable pub is_expired : Platform → ℕ → Session → Bool
is_expired go now s = elim s.expires_at [
  | none ↦ false
  | some text ↦
      not (is_empty (trim_space text))
      && elim (go.parse_time text) [ none ↦ false | some expiry ↦ ltb expiry now ]
]

abbrev pub is_active : SessionStatus → Bool
is_active active = true
is_active revoked = false

-- COALESCE(column, value).
abbrev pub coalesce {ℓ} : {A : Type ℓ} → Option A → A → A
coalesce none value = value
coalesce (some x) value = x

abbrev pub actor_of : User → Actor
actor_of u = record {
  user_id = u.id;
  username = u.username;
  display_name = coalesce u.display_name "";
  is_admin = coalesce u.is_admin false;
}

-- LookupSession from the row that it found.
unfoldable pub accept : Platform → ℕ → Session × User → Option (Actor × Session)
accept go now (s, u) =
    if not (is_active s.status)
    then none
    else if is_disabled go u.status
    then none
    else if is_expired go now s
    then none
    else some (actor_of u, s)

unfoldable pub lookup_session : Platform → Call → String → Database → Option (Actor × Session)
lookup_session go call token db =
    if is_empty (trim_space token)
    then none
    else if not call.read_ok
    then none
    else elim (joined (hash_token go (trim_space token)) db) [
      | none ↦ none
      | some row ↦ accept go call.now row
    ]

abbrev pub revoked_row : String → Session → Session
revoked_row now s = record s { status = revoked; updated_at = now; logged_out_at = some now }

unfoldable pub revoke_session : Platform → Call → String → Database → Database
revoke_session go call id db = record db {
  sessions =
      update_where (λ s. str_eq s.id (trim_space id)) (revoked_row (go.format_time call.now))
        db.sessions;
}

abbrev skip_bearer : String → String
skip_bearer
      (String.◌∷◌ _ (
        String.◌∷◌ _
          (String.◌∷◌ _ (String.◌∷◌ _ (String.◌∷◌ _ (String.◌∷◌ _ (String.◌∷◌ _ s))))))) =
    s
skip_bearer _ = ""

unfoldable pub extract_token : Platform → Request → String
extract_token go r =
    let header = trim_space r.authorization in
    if has_prefix "bearer " (to_lower go.wide header)
    then trim_space (skip_bearer header)
    else trim_space r.auth_token

split_comma_test : split_comma "10.0.0.1, 10.0.0.2" ≡ "10.0.0.1"
unfolding split_comma
split_comma_test = refl
