-- ===== src/Auth/Guard.antt =====
-- packages/auth/src/middleware.ts: `requireAuth`, which answers 401 or attaches the user and goes on.
pub mod SignedIn
use samohost.Prelude.{ℕ, String, Option, none, some, List, []}
use samohost.Auth.Session.{SessionUser, Database, validate_session}
use samohost.Auth.Cookie.{parse_cookie_token}

pub data Guarded : Type 0 where
  -- 401, with the body of the error; `next` is not called.
  unauthorized : Guarded
  -- `req.user` is set, and `next` is called.
  authorized : SessionUser → Guarded

abbrev pub cookie_or_empty : Option (List ℕ) → List ℕ
cookie_or_empty none = []
cookie_or_empty (some header) = header

abbrev pub for_user : Option SessionUser → Guarded
for_user none = unauthorized
for_user (some user) = authorized user

module _ (hash_token : List ℕ → String) where
  abbrev pub for_token : Database → ℕ → Option (List ℕ) → Guarded
  for_token db now none = unauthorized
  for_token db now (some token) = for_user (validate_session hash_token db now token)

  unfoldable pub require_auth : Database → ℕ → Option (List ℕ) → Guarded
  require_auth db now cookie = for_token db now (parse_cookie_token (cookie_or_empty cookie))
