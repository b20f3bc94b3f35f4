-- ===== src/Auth/Login.antt =====
-- internal/auth/auth.go, HandleLogin and CreateSession: the session that a login opens.
use mathlib.Core.Path.{subst}
use yesnas_server.Prelude.{
  ℕ, ◌+◌, ◌≤◌, ◌<◌, ◌≡◌, refl, ap, ◌∙◌, sym, String, true, false, none, some, List, [], ◌∷◌, ◌++◌,
  ◌&&◌, str_eq_refl, ltb, arith, Bool-cases, Option-cases, inl, inr,
}
use yesnas_server.Prelude.Text.{trim_space, is_empty}
use yesnas_server.Prelude.Table.{first_where, first_where-none_le, first_where-append_one}
use yesnas_server.Auth.Model.{User, Session, Database, Request, Platform, Call, session_ttl}
use yesnas_server.Auth.Sessions.{
  hash_token, has_token, has_user_id, joined, is_active, is_disabled, is_expired, actor_of, accept,
  lookup_session, create_session, new_session, is_unused, clashes, authenticate, get_by_username,
}
use yesnas_server.Auth.Handlers.{handle_login, token_body, open_session}

-- The first instant of the year 10000, from which RFC 3339 cannot be read back.
abbrev pub year_10000 : ℕ
year_10000 = 253402300800000000000

-- RFC 3339 as the server writes it keeps a time before the year 10000 up to the second.
abbrev pub KeepsSeconds : Platform → Type 0
KeepsSeconds go =
    (t : ℕ)
    → t < year_10000
    → (s : ℕ) × (go.parse_time (go.format_time t) ≡ some s) × (t < s + 1000000000)

is_unused-has_token :
    (new : Session) (t : List Session)
    → is_unused new t ≡ true
    → first_where (has_token new.token_hash) t ≡ none
is_unused-has_token new t h =
    first_where-none_le (has_token new.token_hash) (clashes new) t (λ s e. ground (arith, e))
      (elim (Option-cases (first_where (clashes new) t)) [
        | inl e ↦ e
        | inr (s, e) ↦ absurd (ground (arith, e, h))
      ])

-- What CreateSession stored when it gave a token.
create_session-stores :
    (go : Platform) (call : Call) (user : User) (r : Request) (db : Database)
    (token expiry : String)
    → (create_session go call user r db).0 ≡ some (token, expiry)
    → ((create_session go call user r db).1.users ≡ db.users)
      × ((create_session go call user r db).1.sessions
          ≡ db.sessions ++ new_session go call user r token ∷ [])
      × (is_unused (new_session go call user r token) db.sessions ≡ true)
unfolding create_session new_session
create_session-stores go call user r db token expiry h = elim (Option-cases call.random_token) [
  | inl e ↦ absurd (ground (arith, e, h))
  | inr (raw, e) ↦
      elim (Bool-cases (call.insert_ok && is_unused (new_session go call user r raw) db.sessions)) [
        | inl made ↦
            let after = (create_session go call user r db).1 in
            let same : raw ≡ token = ground (arith, e, made, h) in
            subst
              (λ x.
                (after.users ≡ db.users)
                × (after.sessions ≡ db.sessions ++ new_session go call user r x ∷ [])
                × (is_unused (new_session go call user r x) db.sessions ≡ true))
              same
              (
                rw (e, made, create_session) refl,
                rw (e, made, create_session) refl,
                ground (arith, made),
              )
        | inr clash ↦ absurd (ground (arith, e, clash, h))
      ]
]

late : (s now : ℕ) → now ≤ s → ltb s now ≡ false
late s now h = ground (arith, h)

new_session-in_time :
    (go : Platform) (call : Call) (user : User) (r : Request) (token : String) (now : ℕ)
    → KeepsSeconds go
    → call.now + session_ttl < year_10000
    → now + 1000000000 ≤ call.now + session_ttl
    → is_expired go now (new_session go call user r token) ≡ false
unfolding is_expired new_session
new_session-in_time go call user r token now keeps era h =
    let (s, e, near) = keeps (call.now + session_ttl) era in
    elim (Bool-cases (is_empty (trim_space (go.format_time (call.now + session_ttl))))) [
      | inl blank ↦ rw blank refl
      | inr text ↦ rw (text, e, is_expired) (late s now (omega (arith, near, h)))
    ]

joined-found :
    (hash : String) (db : Database) (s : Session) (u : User)
    → first_where (has_token hash) db.sessions ≡ some s
    → first_where (has_user_id s.user_id) db.users ≡ some u
    → joined hash db ≡ some (s, u)
unfolding joined
joined-found hash db s u session user = rw (session, user, joined) refl

accept-found :
    (go : Platform) (now : ℕ) (s : Session) (u : User)
    → is_active s.status ≡ true
    → is_disabled go u.status ≡ false
    → is_expired go now s ≡ false
    → accept go now (s, u) ≡ some (actor_of u, s)
unfolding accept
accept-found go now s u in_use enabled in_time = rw (in_use, enabled, in_time, accept) refl

lookup_session-found :
    (go : Platform) (call : Call) (token : String) (db : Database) (row : Session × User)
    → is_empty (trim_space token) ≡ false
    → call.read_ok ≡ true
    → joined (hash_token go (trim_space token)) db ≡ some row
    → lookup_session go call token db ≡ accept go call.now row
unfolding lookup_session
lookup_session-found go call token db row text read found =
    rw (text, read, found, lookup_session) refl

-- The rows that a login leaves: the table finds the new session by its token, and the user.
create_session-rows :
    (go : Platform) (call : Call) (user : User) (r : Request) (db : Database)
    (token expiry : String)
    → (create_session go call user r db).0 ≡ some (token, expiry)
    → (first_where (has_token (hash_token go token)) (create_session go call user r db).1.sessions
        ≡ some (new_session go call user r token))
      × ((create_session go call user r db).1.users ≡ db.users)
unfolding new_session
create_session-rows go call user r db token expiry made =
    let new = new_session go call user r token in
    let (users, sessions, unused) = create_session-stores go call user r db token expiry made in
    (
      rw sessions (
          first_where-append_one (has_token new.token_hash) db.sessions new
            (is_unused-has_token new db.sessions unused) (str_eq_refl new.token_hash)),
      users,
    )

-- A session that its token finds, of a user who is found, is opened until its time is over.
new_session-lookup_session :
    (go : Platform) (call later : Call) (user : User) (r : Request) (db : Database) (token : String)
    → KeepsSeconds go
    → trim_space token ≡ token
    → is_empty token ≡ false
    → first_where (has_token (hash_token go token)) db.sessions
      ≡ some (new_session go call user r token)
    → first_where (has_user_id user.id) db.users ≡ some user
    → is_disabled go user.status ≡ false
    → later.read_ok ≡ true
    → call.now + session_ttl < year_10000
    → later.now + 1000000000 ≤ call.now + session_ttl
    → lookup_session go later token db ≡ some (actor_of user, new_session go call user r token)
unfolding new_session
new_session-lookup_session go call later user r db token keeps trimmed text session known enabled
      read era time =
    let new = new_session go call user r token in
    let row : joined (hash_token go (trim_space token)) db ≡ some (new, user) =
      rw trimmed (joined-found (hash_token go token) db new user session known) in
    lookup_session-found go later token db (new, user) (rw trimmed text) read row
    ∙ accept-found go later.now new user refl enabled
        (new_session-in_time go call user r token later.now keeps era time)

pub authenticate-enabled :
    (go : Platform) (call : Call) (username password : String) (db : Database) (user : User)
    → authenticate go call username password db ≡ some user
    → is_disabled go user.status ≡ false
unfolding authenticate
authenticate-enabled go call username password db user h =
    elim (Option-cases (get_by_username go call username db)) [
      | inl e ↦ absurd (ground (arith, e, h))
      | inr (item, e) ↦ elim (Bool-cases (is_disabled go item.status)) [
        | inl off ↦ absurd (ground (arith, e, off, h))
        | inr on ↦
            let same : item ≡ user = ground (arith, e, on, h) in
            subst (λ x. is_disabled go x.status ≡ false) same on
      ]
    ]

pub open_session-opens :
    (go : Platform) (call : Call) (r : Request) (found user : User) (db : Database)
    (token expiry : String)
    → (open_session go call r found db).0 ≡ token_body token expiry user
    → (found ≡ user)
      × ((create_session go call found r db).0 ≡ some (token, expiry))
      × ((open_session go call r found db).1.sessions
          ≡ (create_session go call found r db).1.sessions)
      × ((open_session go call r found db).1.users ≡ (create_session go call found r db).1.users)
unfolding open_session
open_session-opens go call r found user db token expiry h =
    elim (Option-cases (create_session go call found r db).0) [
      | inl e ↦ absurd (ground (arith, e, h))
      | inr ((t, x), e) ↦ (
        ground (arith, e, h),
        e ∙ ground (arith, e, h),
        rw (e, open_session) refl,
        rw (e, open_session) refl,
      )
    ]

-- What a login that succeeded did: the user may log in, and a session was stored.
handle_login-opens :
    (go : Platform) (call : Call) (r : Request) (db : Database) (token expiry : String)
    (user : User)
    → (handle_login go call r db).0 ≡ token_body token expiry user
    → (is_disabled go user.status ≡ false)
      × ((create_session go call user r db).0 ≡ some (token, expiry))
      × ((handle_login go call r db).1.sessions ≡ (create_session go call user r db).1.sessions)
      × ((handle_login go call r db).1.users ≡ (create_session go call user r db).1.users)
unfolding handle_login open_session create_session new_session
    yesnas_server.Auth.Sessions.request_ip
handle_login-opens go call r db token expiry user h = elim (Option-cases r.login) [
  | inl e ↦ absurd (ground (arith, e, h))
  | inr ((username, password), e) ↦
      elim (Option-cases (authenticate go call username password db)) [
        | inl denied ↦ absurd (ground (arith, e, denied, h))
        | inr (found, granted) ↦
            let opened : handle_login go call r db ≡ open_session go call r found db =
              rw (e, granted, handle_login) refl in
            let (same, made, sessions, users) =
              open_session-opens go call r found user db token expiry
                (ap (λ x. x.0) (sym opened) ∙ h) in
            subst
              (λ x.
                (is_disabled go x.status ≡ false)
                × ((create_session go call x r db).0 ≡ some (token, expiry))
                × ((handle_login go call r db).1.sessions
                    ≡ (create_session go call x r db).1.sessions)
                × ((handle_login go call r db).1.users ≡ (create_session go call x r db).1.users))
              same
              (
                authenticate-enabled go call username password db found granted,
                made,
                ap (λ x. x.1.sessions) opened ∙ sessions,
                ap (λ x. x.1.users) opened ∙ users,
              )
      ]
]

-- A login that succeeded before the year 10000 gives a token that opens a session of its user: in
-- every later call whose query succeeds and that comes at least a second before 30 days are over,
-- on every database that finds, by the token and by the user's identifier, the session that the
-- login stored and the user that the login found. For a token without white space, a table whose
-- users are told apart by their identifiers, and times kept up to the second.
pub handle_login-lookup_session :
    (go : Platform) (call later : Call) (r : Request) (db later_db : Database)
    (token expiry : String) (user : User)
    → KeepsSeconds go
    → (handle_login go call r db).0 ≡ token_body token expiry user
    → trim_space token ≡ token
    → is_empty token ≡ false
    → first_where (has_user_id user.id) db.users ≡ some user
    → first_where (has_token (hash_token go token)) later_db.sessions
      ≡ first_where (has_token (hash_token go token)) (handle_login go call r db).1.sessions
    → first_where (has_user_id user.id) later_db.users
      ≡ first_where (has_user_id user.id) (handle_login go call r db).1.users
    → later.read_ok ≡ true
    → call.now + session_ttl < year_10000
    → later.now + 1000000000 ≤ call.now + session_ttl
    → lookup_session go later token later_db
      ≡ some (actor_of user, new_session go call user r token)
handle_login-lookup_session go call later r db later_db token expiry user keeps h trimmed text known
      same_session same_user read era time =
    let (enabled, made, sessions, users) = handle_login-opens go call r db token expiry user h in
    let (row, kept) = create_session-rows go call user r db token expiry made in
    new_session-lookup_session go call later user r later_db token keeps trimmed text
      (same_session ∙ ap (first_where (has_token (hash_token go token))) sessions ∙ row)
      (same_user ∙ ap (first_where (has_user_id user.id)) (users ∙ kept) ∙ known) enabled read era
      time
