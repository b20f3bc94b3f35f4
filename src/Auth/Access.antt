-- ===== src/Auth/Access.antt =====
-- internal/auth/auth.go: who the middleware lets through, and how a session begins and ends.
use yesnas_server.Prelude.{
  ℕ, ◌≡◌, ◌⊎◌, refl, ap, ◌∙◌, sym, String, true, false, Option, none, some, str_eq, str_eq_refl,
  arith, Bool-cases, Option-cases, inl, inr, All,
}
use yesnas_server.Prelude.Text.{trim_space, is_empty}
use yesnas_server.Prelude.Table.{first_where, first_where-update_where, first_where-All}
use yesnas_server.Auth.Model.{User, Session, Actor, Database, Request, Platform, Call}
use yesnas_server.Auth.Sessions.{
  hash_token, has_token, has_user_id, joined, is_active, is_disabled, is_expired, actor_of, accept,
  lookup_session, revoke_session, revoked_row, extract_token,
}
use yesnas_server.Auth.Handlers.{
  is_public_request, middleware, passes, handle_logout, logged_out, logout_token,
}

-- A token that names a session in use, of a user who may log in, whose time is not over.
pub record IsLive (go : Platform) (now : ℕ) (token : String) (db : Database) (actor : Actor)
    : Type 0 where
  pub session : Session
  pub user : User
  pub found : joined (hash_token go (trim_space token)) db ≡ some (session, user)
  pub not_revoked : is_active session.status ≡ true
  pub enabled : is_disabled go user.status ≡ false
  pub in_time : is_expired go now session ≡ false
  pub is_actor : actor ≡ actor_of user

accept-IsLive :
    (go : Platform) (now : ℕ) (s : Session) (u : User) (actor : Actor) (session : Session)
    → accept go now (s, u) ≡ some (actor, session)
    → (is_active s.status ≡ true)
      × (is_disabled go u.status ≡ false)
      × (is_expired go now s ≡ false)
      × (actor ≡ actor_of u)
      × (session ≡ s)
unfolding accept
accept-IsLive go now s u actor session h = ground (arith, h)

lookup_session-joined :
    (go : Platform) (call : Call) (token : String) (db : Database) (found : Actor × Session)
    → lookup_session go call token db ≡ some found
    → (row : Session × User) × (joined (hash_token go (trim_space token)) db ≡ some row)
      × (accept go call.now row ≡ some found)
unfolding lookup_session
lookup_session-joined go call token db found h =
    elim (Option-cases (joined (hash_token go (trim_space token)) db)) [
      | inl e ↦ absurd (ground (arith, e, h))
      | inr (row, e) ↦ (row, e, ground (arith, e, h))
    ]

pub lookup_session-IsLive :
    (go : Platform) (call : Call) (token : String) (db : Database) (found : Actor × Session)
    → lookup_session go call token db ≡ some found
    → IsLive go call.now token db found.0
lookup_session-IsLive go call token db found h =
    let (row, e, ok) = lookup_session-joined go call token db found h in
    let facts = accept-IsLive go call.now row.0 row.1 found.0 found.1 ok in
    record {
      session = row.0;
      user = row.1;
      found = e;
      not_revoked = facts.0;
      enabled = facts.1;
      in_time = facts.2;
      is_actor = facts.3;
    }

-- The middleware hands a request to the next handler only if it is public, and then without an
-- actor, or if its token is live, and then with the actor of the session's user.
pub middleware-IsLive :
    (go : Platform) (call : Call) (r : Request) (db : Database) (actor : Option Actor)
    → middleware go call r db ≡ passes actor
    → ((is_public_request r ≡ true) × (actor ≡ none))
      ⊎ ((who : Actor) × (actor ≡ some who) × IsLive go call.now (extract_token go r) db who)
unfolding middleware
middleware-IsLive go call r db actor h = elim (Bool-cases (is_public_request r)) [
  | inl e ↦ inl (e, ground (arith, e, h))
  | inr e ↦ elim (Option-cases (lookup_session go call (extract_token go r) db)) [
    | inl missing ↦ absurd (ground (arith, e, missing, h))
    | inr (found, ok) ↦ inr (
      found.0,
      ground (arith, e, ok, h),
      lookup_session-IsLive go call (extract_token go r) db found ok,
    )
  ]
]

joined-session :
    (hash : String) (db : Database) (row : Session × User)
    → joined hash db ≡ some row
    → first_where (has_token hash) db.sessions ≡ some row.0
unfolding joined
joined-session hash db row h = elim (Option-cases (first_where (has_token hash) db.sessions)) [
  | inl e ↦ absurd (ground (arith, e, h))
  | inr (s, e) ↦ elim (Option-cases (first_where (has_user_id s.user_id) db.users)) [
    | inl missing ↦ absurd (ground (arith, e, missing, h))
    | inr (u, found) ↦ ground (arith, e, found, h)
  ]
]

-- The session that a lookup accepts is the row that its token names.
lookup_session-row :
    (go : Platform) (call : Call) (token : String) (db : Database) (actor : Actor)
    (session : Session)
    → lookup_session go call token db ≡ some (actor, session)
    → first_where (has_token (hash_token go (trim_space token))) db.sessions ≡ some session
lookup_session-row go call token db actor session h =
    let (row, e, ok) = lookup_session-joined go call token db (actor, session) h in
    let facts = accept-IsLive go call.now row.0 row.1 actor session ok in
    joined-session (hash_token go (trim_space token)) db row e ∙ ap some (sym facts.4)

-- A token whose row is revoked opens nothing.
revoked-lookup_session :
    (go : Platform) (call : Call) (token : String) (db : Database) (s : Session)
    → first_where (has_token (hash_token go (trim_space token))) db.sessions ≡ some s
    → is_active s.status ≡ false
    → lookup_session go call token db ≡ none
revoked-lookup_session go call token db s row over =
    elim (Option-cases (lookup_session go call token db)) [
      | inl e ↦ e
      | inr (found, e) ↦
          let live = lookup_session-IsLive go call token db found e in
          let named =
            joined-session (hash_token go (trim_space token)) db (live.session, live.user)
              live.found in
          absurd (ground (arith, sym row ∙ named, live.not_revoked, over))
    ]

revoke_session-row :
    (go : Platform) (call : Call) (hash : String) (db : Database) (s : Session)
    → first_where (has_token hash) db.sessions ≡ some s
    → trim_space s.id ≡ s.id
    → (gone : Session) × (first_where (has_token hash) (revoke_session go call s.id db).sessions
        ≡ some gone)
      × (is_active gone.status ≡ false)
unfolding revoke_session
revoke_session-row go call hash db s row trimmed =
    let now = go.format_time call.now in
    (
      revoked_row now s,
      first_where-update_where (has_token hash) (λ x. str_eq x.id (trim_space s.id))
            (revoked_row now) db.sessions (λ x. refl)
          ∙ rw (row, trimmed, str_eq_refl s.id) refl,
      refl,
    )

-- Go's identifiers of sessions have no white space around them.
abbrev pub IsTrimmed : Session → Type 0
IsTrimmed s = trim_space s.id ≡ s.id

-- What a logout that succeeded stored.
handle_logout-revokes :
    (go : Platform) (call : Call) (r : Request) (db : Database)
    → (handle_logout go call r db).0 ≡ logged_out
    → (found : Actor × Session) × (lookup_session go call (logout_token go r) db ≡ some found)
      × ((handle_logout go call r db).1.sessions ≡ (revoke_session go call found.1.id db).sessions)
      × ((handle_logout go call r db).1.users ≡ db.users)
unfolding handle_logout revoke_session
handle_logout-revokes go call r db h = elim (Bool-cases (is_empty (logout_token go r))) [
  | inl e ↦ absurd (ground (arith, e, h))
  | inr e ↦ elim (Option-cases (lookup_session go call (logout_token go r) db)) [
    | inl missing ↦ absurd (ground (arith, e, missing, h))
    | inr (found, ok) ↦ elim (Bool-cases call.revoke_ok) [
      | inl done ↦
          (found, ok, rw (e, ok, done, handle_logout) refl, rw (e, ok, done, handle_logout) refl)
      | inr failed ↦ absurd (ground (arith, e, ok, failed, h))
    ]
  ]
]

-- After a logout that succeeded, in a table whose identifiers of sessions have no white space around
-- them, the token that it used opens no session at any later time.
pub handle_logout-lookup_session :
    (go : Platform) (call : Call) (r : Request) (db : Database) (later : Call)
    → All IsTrimmed db.sessions
    → (handle_logout go call r db).0 ≡ logged_out
    → lookup_session go later (logout_token go r) (handle_logout go call r db).1 ≡ none
handle_logout-lookup_session go call r db later trimmed h =
    let (found, ok, sessions, users) = handle_logout-revokes go call r db h in
    let hash = hash_token go (trim_space (logout_token go r)) in
    let row = lookup_session-row go call (logout_token go r) db found.0 found.1 ok in
    let gone =
      revoke_session-row go call hash db found.1 row
        (first_where-All IsTrimmed (has_token hash) db.sessions found.1 trimmed row) in
    revoked-lookup_session go later (logout_token go r) (handle_logout go call r db).1 gone.0
      (rw sessions gone.1) gone.2
