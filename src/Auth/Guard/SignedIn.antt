-- ===== src/Auth/Guard/SignedIn.antt =====
-- What the guard lets through, from the sign-in to the sign-out.
use samohost.Prelude.{
  ℕ, ◌≤◌, ◌<◌, ◌≡◌, ◌∙◌, ap, String, Option, some, List, All, find, ◌⊎◌, inl, inr, ltb, arith,
  if◌then◌else◌, Bool-cases, ltb→lt,
}
use samohost.Auth.Session.{
  AppUser, Database, Ttl, expiry, is_active_user, user_of, create_session, revoke_session,
  validate_session,
}
use samohost.Auth.Session.Life.{validate_session-created, validate_session-revoked}
use samohost.Auth.Cookie.RoundTrip.{
  IsToken, IsOtherCookie, with_others, parse_cookie_token-with_others,
}
use samohost.Auth.Guard.{unauthorized, authorized, for_user, for_token, require_auth}

ltb-cases : (a b : ℕ) → (a < b) ⊎ (b ≤ a)
ltb-cases a b = elim (Bool-cases (ltb a b)) [
  | inl e ↦ inl (ltb→lt a b e)
  | inr e ↦ inr (ground (arith, e))
]

module _ (hash_token : List ℕ → String) where
  require_auth-with_others :
      (db : Database) (now : ℕ) (others : List (List ℕ)) (token : List ℕ)
      → IsToken token
      → All IsOtherCookie others
      → require_auth hash_token db now (some (with_others others token))
        ≡ for_user (validate_session hash_token db now token)
  unfolding require_auth
  require_auth-with_others db now others token h hs =
      ap (for_token hash_token db now) (parse_cookie_token-with_others others token h hs)

  -- A request that carries the cookie of a new session, after any cookies of other names, is let
  -- through as the session's user, who is active and not archived, until the session ends, and is
  -- refused from then on; it is refused at any time after the token is revoked.
  pub require_auth-session :
      (raw : List ℕ) (id user_id : String) (now : ℕ) (ttl : Option Ttl) (db next : Database)
      (others : List (List ℕ)) (later : ℕ) (u : AppUser)
      → create_session hash_token raw id user_id now ttl db ≡ some (raw, next)
      → find (is_active_user user_id) db.users ≡ some u
      → IsToken raw
      → All IsOtherCookie others
      → (require_auth hash_token next later (some (with_others others raw))
          ≡ (if ltb later (expiry now ttl) then authorized u.user else unauthorized))
        × (require_auth hash_token
              (revoke_session hash_token raw next)
              later
              (some (with_others others raw))
            ≡ unauthorized)
  require_auth-session raw id user_id now ttl db next others later u h found is_token other = (
    require_auth-with_others next later others raw is_token other ∙ seen (ltb-cases later _),
    require_auth-with_others (revoke_session hash_token raw next) later others raw is_token other
        ∙ ap for_user (validate_session-revoked hash_token raw next later).0,
  )
    where
      seen :
          (later < expiry now ttl) ⊎ (expiry now ttl ≤ later)
          → for_user (validate_session hash_token next later raw)
            ≡ (if ltb later (expiry now ttl) then authorized u.user else unauthorized)
      seen (inl before) =
          let (early, late, _) =
            validate_session-created hash_token raw id user_id now ttl db h later in
          ap for_user (early before ∙ ap user_of found) ∙ ground (arith, before)
      seen (inr after) =
          let (early, late, _) =
            validate_session-created hash_token raw id user_id now ttl db h later in
          ap for_user (late after) ∙ ground (arith, after)
