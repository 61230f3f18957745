-- ===== src/Auth/Session.antt =====
-- packages/auth/src/session.ts: `createSession`, `validateSession`, `revokeSession`. The table of
-- sessions keeps only the hash of a token; the hash and the random bytes are parameters.
pub mod Life
use samohost.Prelude.{
  ℕ, ◌+◌, ◌-◌, ◌*◌, String, Bool, true, false, not, ◌&&◌, ◌||◌, ◌==◌, Option, none, some, List, [],
  ◌∷◌, ◌++◌, any, find, filter, ltb, if◌then◌else◌,
}

abbrev pub session_ttl_ms : ℕ
session_ttl_ms = 7 * 24 * 60 * 60 * 1000

pub record SessionUser : Type 0 where
  pub id : String
  pub login : String
  pub email : Option String
  pub role : String
  pub status : String

-- A row of app_users, without its password.
pub record AppUser : Type 0 where
  pub user : SessionUser
  pub archived_at : Option ℕ

-- A row of app_sessions.
pub record AppSession : Type 0 where
  pub id : String
  pub app_user_id : String
  pub token : String
  pub expires_at : ℕ

pub record Database : Type 0 where
  pub users : List AppUser
  pub sessions : List AppSession

-- A `ttlOverrideMs`, which may be negative.
pub data Ttl : Type 0 where
  ahead past : ℕ → Ttl

abbrev pub expiry : ℕ → Option Ttl → ℕ
expiry now none = now + session_ttl_ms
expiry now (some (ahead ms)) = now + ms
expiry now (some (past ms)) = now - ms

abbrev pub clashes : AppSession → AppSession → Bool
clashes new s = s.id == new.id || s.token == new.token

-- `INSERT`, which throws where the identifier or the token is there already.
abbrev pub insert_session : AppSession → Database → Option Database
insert_session new db =
    if any (clashes new) db.sessions
    then none
    else some (record db { sessions = db.sessions ++ new ∷ [] })

abbrev pub is_active_user : String → AppUser → Bool
is_active_user id u =
    u.user.id == id
    && (u.user.status == "active" && (elim u.archived_at [ none ↦ true | some _ ↦ false ]))

abbrev pub user_of : Option AppUser → Option SessionUser
user_of none = none
user_of (some u) = some u.user

abbrev pub returned : List ℕ → Option Database → Option (List ℕ × Database)
returned raw none = none
returned raw (some next) = some (raw, next)

abbrev pub first_of : Option SessionUser → Option SessionUser → Option SessionUser
first_of none later = later
first_of (some u) later = some u

module _ (hash_token : List ℕ → String) where
  abbrev pub new_session : List ℕ → String → String → ℕ → Option Ttl → AppSession
  new_session raw id user_id now ttl = record {
    id = id;
    app_user_id = user_id;
    token = hash_token raw;
    expires_at = expiry now ttl;
  }

  -- The raw token and the identifier are the random bytes that the code draws.
  unfoldable pub create_session :
      List ℕ → String → String → ℕ → Option Ttl → Database → Option (List ℕ × Database)
  create_session raw id user_id now ttl db =
      returned raw (insert_session (new_session raw id user_id now ttl) db)

  abbrev pub matches : List ℕ → ℕ → AppSession → Bool
  matches raw now s = s.token == hash_token raw && ltb now s.expires_at

  -- The first row of the join.
  unfoldable pub joined : List ℕ → ℕ → List AppUser → List AppSession → Option SessionUser
  joined raw now users [] = none
  joined raw now users (s ∷ rest) =
      let later = joined raw now users rest in
      if matches raw now s
      then first_of (user_of (find (is_active_user s.app_user_id) users)) later
      else later

  unfoldable pub validate_session : Database → ℕ → List ℕ → Option SessionUser
  validate_session db now raw = joined raw now db.users db.sessions

  unfoldable pub revoke_session : List ℕ → Database → Database
  revoke_session raw db = record db {
    sessions = filter (λ s. not (s.token == hash_token raw)) db.sessions;
  }
