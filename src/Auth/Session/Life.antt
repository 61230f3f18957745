-- ===== src/Auth/Session/Life.antt =====
-- The life of a session: from its creation to its end or its revocation.
use samohost.Prelude.{
  ℕ, ◌≤◌, ◌<◌, ◌≡◌, ◌≢◌, ◌⊎◌, refl, ◌∙◌, ap, sym, inl, inr, String, Bool, true, false, not, ◌&&◌,
  ◌==◌, Option, none, some, List, [], ◌∷◌, ◌++◌, any, find, filter, ltb, arith, Bool-cases, eq_iff,
  eq_refl, if◌then◌else◌,
}
use samohost.Auth.Session.{
  SessionUser, AppUser, AppSession, Database, Ttl, expiry, clashes, insert_session, is_active_user,
  user_of, returned, first_of, new_session, create_session, joined, validate_session,
  revoke_session,
}

module _ (hash_token : List ℕ → String) where
  -- No session of the list has the token's hash.
  joined-absent :
      (raw : List ℕ) (now : ℕ) (users : List AppUser) (ss : List AppSession)
      → any (λ (s : AppSession). s.token == hash_token raw) ss ≡ false
      → joined hash_token raw now users ss ≡ none
  unfolding joined
  joined-absent raw now users [] h = refl
  joined-absent raw now users (s ∷ ss) h = ground (arith, h, joined-absent raw now users ss)

  joined-append :
      (raw : List ℕ) (now : ℕ) (users : List AppUser) (ss : List AppSession) (new : AppSession)
      → joined hash_token raw now users (ss ++ new ∷ [])
        ≡ first_of (joined hash_token raw now users ss) (joined hash_token raw now users (new ∷ []))
  unfolding joined
  joined-append raw now users [] new = refl
  joined-append raw now users (s ∷ ss) new = ground (arith, joined-append raw now users ss new)

  unclashed :
      (new : AppSession) (ss : List AppSession)
      → any (clashes new) ss ≡ false
      → any (λ (s : AppSession). s.token == new.token) ss ≡ false
  unclashed new [] h = refl
  unclashed new (s ∷ ss) h = ground (arith, h, unclashed new ss)

  inserted :
      (new : AppSession) (db : Database) {next : Database}
      → insert_session new db ≡ some next
      → (any (clashes new) db.sessions ≡ false)
        × (next ≡ record db { sessions = db.sessions ++ new ∷ [] })
  inserted new db {next} h = split (any (clashes new) db.sessions) refl h
    where
      split :
          (b : Bool)
          → any (clashes new) db.sessions ≡ b
          → (if b then none else some (record db { sessions = db.sessions ++ new ∷ [] }))
            ≡ some next
          → (any (clashes new) db.sessions ≡ false)
            × (next ≡ record db { sessions = db.sessions ++ new ∷ [] })
      split true e h = cc
      split false e h = (e, cc)

  created :
      (raw : List ℕ) (id user_id : String) (now : ℕ) (ttl : Option Ttl) (db : Database)
      {token : List ℕ} {next : Database}
      → create_session hash_token raw id user_id now ttl db ≡ some (token, next)
      → (token ≡ raw)
        × (insert_session (new_session hash_token raw id user_id now ttl) db ≡ some next)
  unfolding create_session
  created raw id user_id now ttl db {token} {next} h =
      split (insert_session (new_session hash_token raw id user_id now ttl) db) h
    where
      split :
          (o : Option Database)
          → returned raw o ≡ some (token, next)
          → (token ≡ raw) × (o ≡ some next)
      split none h = cc
      split (some n) h = (cc, cc)

  first_of-none : (o : Option SessionUser) → first_of o none ≡ o
  first_of-none none = refl
  first_of-none (some u) = refl

  -- What the row of a new session adds to a search.
  joined-new :
      (raw other : List ℕ) (id user_id : String) (now later : ℕ) (ttl : Option Ttl)
      (users : List AppUser)
      → joined hash_token other later users (new_session hash_token raw id user_id now ttl ∷ []) ≡ (
          if hash_token raw == hash_token other && ltb later (expiry now ttl)
          then user_of (find (is_active_user user_id) users)
          else none)
  unfolding joined
  joined-new raw other id user_id now later ttl users =
      ap (λ x. if hash_token raw == hash_token other && ltb later (expiry now ttl) then x else none)
        (first_of-none (user_of (find (is_active_user user_id) users)))

  validate_session-new :
      (raw other : List ℕ) (id user_id : String) (now later : ℕ) (ttl : Option Ttl) (db : Database)
      → validate_session hash_token
          (record db {
            sessions = db.sessions ++ new_session hash_token raw id user_id now ttl ∷ [];
          })
          later
          other
        ≡ first_of (validate_session hash_token db later other) (
            if hash_token raw == hash_token other && ltb later (expiry now ttl)
            then user_of (find (is_active_user user_id) db.users)
            else none)
  unfolding validate_session
  validate_session-new raw other id user_id now later ttl db =
      joined-append other later db.users db.sessions (new_session hash_token raw id user_id now ttl)
      ∙ ap (first_of (joined hash_token other later db.users db.sessions))
          (joined-new raw other id user_id now later ttl db.users)

  -- A new session is its user's, if the user is active and not archived, until it ends, and nobody's
  -- from then on; sessions of tokens with another hash are what they were.
  pub validate_session-created :
      (raw : List ℕ) (id user_id : String) (now : ℕ) (ttl : Option Ttl) (db : Database)
      {token : List ℕ} {next : Database}
      → create_session hash_token raw id user_id now ttl db ≡ some (token, next)
      → (later : ℕ)
      → (later < expiry now ttl
          → validate_session hash_token next later token
            ≡ user_of (find (is_active_user user_id) db.users))
        × (expiry now ttl ≤ later → validate_session hash_token next later token ≡ none)
        × ((other : List ℕ)
            → hash_token other ≢ hash_token token
            → validate_session hash_token next later other
              ≡ validate_session hash_token db later other)
  unfolding validate_session
  validate_session-created raw id user_id now ttl db {token} {next} h later =
      let new = new_session hash_token raw id user_id now ttl in
      let (same, stored) = created raw id user_id now ttl db h in
      let (apart, list) = inserted new db stored in
      let absent = joined-absent raw later db.users db.sessions (unclashed new db.sessions apart) in
      let seen = λ (other : List ℕ).
        ap (λ (d : Database). validate_session hash_token d later other) list
        ∙ validate_session-new raw other id user_id now later ttl db in
      let own = ap (validate_session hash_token next later) same ∙ seen raw in
      let here = eq_refl (hash_token raw) in
      (
        λ early. own ∙ ground (arith, absent, here, early),
        λ late. own ∙ ground (arith, absent, here, late),
        λ other apart_hash. seen other ∙ unrelated other (ap hash_token same) apart_hash,
      )
    where
      unrelated :
          (other : List ℕ)
          → hash_token token ≡ hash_token raw
          → hash_token other ≢ hash_token token
          → first_of (validate_session hash_token db later other) (
              if hash_token raw == hash_token other && ltb later (expiry now ttl)
              then user_of (find (is_active_user user_id) db.users)
              else none)
            ≡ validate_session hash_token db later other
      unrelated other same apart = elim (Bool-cases (hash_token raw == hash_token other)) [
        | inl e ↦ absurd (apart (sym ((eq_iff (hash_token raw) (hash_token other)).0 e) ∙ sym same))
        | inr e ↦
            ap
              (λ b. first_of (validate_session hash_token db later other) (
                if b && ltb later (expiry now ttl)
                then user_of (find (is_active_user user_id) db.users)
                else none))
              e
            ∙ first_of-none (validate_session hash_token db later other)
      ]

  joined-revoked :
      (raw other : List ℕ) (later : ℕ) (users : List AppUser) (ss : List AppSession)
      → hash_token other ≢ hash_token raw
      → joined hash_token other later users (filter (λ s. not (s.token == hash_token raw)) ss)
        ≡ joined hash_token other later users ss
  unfolding joined
  joined-revoked raw other later users [] apart = refl
  joined-revoked raw other later users (s ∷ ss) apart =
      by_token (Bool-cases (s.token == hash_token raw)) (Bool-cases (s.token == hash_token other))
        (joined-revoked raw other later users ss apart)
    where
      by_token :
          (s.token == hash_token raw ≡ true) ⊎ (s.token == hash_token raw ≡ false)
          → (s.token == hash_token other ≡ true) ⊎ (s.token == hash_token other ≡ false)
          → joined hash_token other later users (filter (λ s. not (s.token == hash_token raw)) ss)
            ≡ joined hash_token other later users ss
          → joined hash_token other later users
              (filter (λ s. not (s.token == hash_token raw)) (s ∷ ss))
            ≡ joined hash_token other later users (s ∷ ss)
      by_token (inl a) (inl b) rest = absurd (
          apart
            (sym ((eq_iff s.token (hash_token other)).0 b) ∙ (eq_iff s.token (hash_token raw)).0 a))
      by_token (inl a) (inr b) rest = ground (arith, a, b, rest)
      by_token (inr a) b rest = ground (arith, a, rest)

  revoked-absent :
      (raw : List ℕ) (ss : List AppSession)
      → any
          (λ (s : AppSession). s.token == hash_token raw)
          (filter (λ s. not (s.token == hash_token raw)) ss)
        ≡ false
  revoked-absent raw [] = refl
  revoked-absent raw (s ∷ ss) = ground (arith, revoked-absent raw ss)

  -- A revoked token is nobody's session, at any time, and tokens with another hash are what they
  -- were.
  pub validate_session-revoked :
      (raw : List ℕ) (db : Database) (later : ℕ)
      → (validate_session hash_token (revoke_session hash_token raw db) later raw ≡ none)
        × ((other : List ℕ)
            → hash_token other ≢ hash_token raw
            → validate_session hash_token (revoke_session hash_token raw db) later other
              ≡ validate_session hash_token db later other)
  unfolding validate_session revoke_session
  validate_session-revoked raw db later = (
    joined-absent raw later db.users (filter (λ s. not (s.token == hash_token raw)) db.sessions)
        (revoked-absent raw db.sessions),
    λ other apart. joined-revoked raw other later db.users db.sessions apart,
  )
