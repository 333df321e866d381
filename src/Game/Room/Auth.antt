-- ===== src/Game/Room/Auth.antt =====
-- BattleRoom.onAuth, with authenticateCredential of
-- apps/server/src/persistence/productionRoomDependencies.ts.
use burning_space.Base.{
  ℕ, Bool, true, false, not, ◌&&◌, Option, none, some, ◌≡◌, ◌==◌, if◌then◌else◌, arith, refl, inl,
  inr, Bool-cases, Option-cases, find_where, find_where_holds,
}
use burning_space.Persistence.Schema.{CredentialRow, Db}
use burning_space.Persistence.Credentials.{has_hash, is_unrevoked}
use burning_space.Persistence.SessionBinding.{BindFreshSessionAuth}
use burning_space.Game.Numbers.{Numbers}
use burning_space.Security.PeerRateLimiter.{
  PeerRateLimiterOptions, PeerRateLimiter, PeerRateLimitResult, consumed, throws,
  bucket_capacity_reached, consume_peer,
}

-- `false`, a ServerError with its code, an error of the limiter, or the identity.
pub data AuthAnswer : Type 0 where
  refused persistence_unavailable auth_rate_limited identity_rejected limiter_failed : AuthAnswer
  authenticated : BindFreshSessionAuth → AuthAnswer

-- What onAuth reads. `world` is that of the installed dependencies, if they are, `peer` the key that
-- getAuthPeerKey answers or none where it throws, `safe` the writer's isControlSafe at the two places
-- that read it, and `verifier` what parseCredential makes of the credential, if it is well formed.
pub record AuthRequest : Type 0 where
  pub origin_allowed : Bool
  pub world : Option ℕ
  pub peer : Option ℕ
  pub now : ℕ
  pub bucket_now : ℕ
  pub safe : Bool
  pub safe_again : Bool
  pub verifier : Option ℕ

abbrev pub is_allowed : {F : Numbers} → PeerRateLimitResult F → Bool
is_allowed (consumed result) = result.allowed
is_allowed _ = false

abbrev pub identity_of : ℕ → CredentialRow → BindFreshSessionAuth
identity_of world row = record {
  player_id = row.player_id;
  credential_id = row.credential_id;
  world_id = world;
}

-- `authenticateCredential`.
abbrev pub authenticate_credential : ℕ → Bool → Option ℕ → Db → Option BindFreshSessionAuth
authenticate_credential world false verifier db = none
authenticate_credential world true none db = none
authenticate_credential world true (some verifier) db =
    elim (find_where (λ row. has_hash verifier row && is_unrevoked row) db.credentials) [
      | none ↦ none
      | some row ↦ some (identity_of world row)
    ]

abbrev pub answer_of : ℕ → Option BindFreshSessionAuth → AuthAnswer
answer_of world none = identity_rejected
answer_of world (some auth) =
    if auth.world_id == world then authenticated auth else identity_rejected

abbrev pub after_limiter : {F : Numbers} → ℕ → AuthRequest → PeerRateLimitResult F → Db → AuthAnswer
after_limiter world request throws db = limiter_failed
after_limiter world request bucket_capacity_reached db = auth_rate_limited
after_limiter world request (consumed result) db =
    if not result.allowed
    then auth_rate_limited
    else if not request.safe
    then persistence_unavailable
    else answer_of world (authenticate_credential world request.safe_again request.verifier db)

module _ (F : Numbers) (options : PeerRateLimiterOptions F) where
  abbrev pub limited_auth :
      ℕ → ℕ → AuthRequest → Db → PeerRateLimiter F → AuthAnswer × PeerRateLimiter F
  limited_auth world peer request db limiter =
      let taken = consume_peer F options peer request.now request.bucket_now limiter in
      (after_limiter world request taken.0 db, taken.1)

  abbrev pub auth_of :
      AuthRequest → Option ℕ → Option ℕ → Db → PeerRateLimiter F → AuthAnswer × PeerRateLimiter F
  auth_of request none peer db limiter = (persistence_unavailable, limiter)
  auth_of request (some world) none db limiter = (auth_rate_limited, limiter)
  auth_of request (some world) (some peer) db limiter = limited_auth world peer request db limiter

  -- The limiter after the request, whatever the answer.
  unfoldable pub on_auth : AuthRequest → Db → PeerRateLimiter F → AuthAnswer × PeerRateLimiter F
  on_auth request db limiter =
      if request.origin_allowed
      then auth_of request request.world request.peer db limiter
      else (refused, limiter)

  -- A credential of the tables that is not revoked, with the verifier, and its identity.
  abbrev pub IsIdentityOf : BindFreshSessionAuth → ℕ → Db → Type 0
  IsIdentityOf auth verifier db =
      (row : CredentialRow) × (find_where (λ row. has_hash verifier row && is_unrevoked row)
          db.credentials
        ≡ some row)
      × (has_hash verifier row ≡ true)
      × (is_unrevoked row ≡ true)
      × (auth.player_id ≡ row.player_id)
      × (auth.credential_id ≡ row.credential_id)

  authenticate_credential-found :
      (world : ℕ) (safe : Bool) (verifier : Option ℕ) (db : Db) (auth : BindFreshSessionAuth)
      → authenticate_credential world safe verifier db ≡ some auth
      → (v : ℕ) × (safe ≡ true)
        × (verifier ≡ some v)
        × (auth.world_id ≡ world)
        × IsIdentityOf auth v db
  authenticate_credential-found world false verifier db auth e = cc
  authenticate_credential-found world true none db auth e = cc
  authenticate_credential-found world true (some v) db auth e =
      let p = λ (row : CredentialRow). has_hash v row && is_unrevoked row in
      elim (Option-cases (find_where p db.credentials)) [
        | inl f ↦ ground arith
        | inr (row, f) ↦
            let held = find_where_holds p db.credentials f in
            (
              v,
              refl,
              refl,
              ground arith,
              (row, f, ground (arith, held), ground (arith, held), ground arith, ground arith),
            )
      ]

  answer_of-authenticated :
      (world : ℕ) (found : Option BindFreshSessionAuth) (auth : BindFreshSessionAuth)
      → answer_of world found ≡ authenticated auth
      → found ≡ some auth
  answer_of-authenticated world none auth e = cc
  answer_of-authenticated world (some a) auth e = elim (Bool-cases (a.world_id == world)) [
    | inl w ↦ ground arith
    | inr w ↦ ground arith
  ]

  after_limiter-authenticated :
      (world : ℕ) (request : AuthRequest) (result : PeerRateLimitResult F) (db : Db)
      (auth : BindFreshSessionAuth)
      → after_limiter world request result db ≡ authenticated auth
      → (v : ℕ) × (is_allowed result ≡ true)
        × (request.safe ≡ true)
        × (request.safe_again ≡ true)
        × (request.verifier ≡ some v)
        × (auth.world_id ≡ world)
        × IsIdentityOf auth v db
  after_limiter-authenticated world request throws db auth e = cc
  after_limiter-authenticated world request bucket_capacity_reached db auth e = cc
  after_limiter-authenticated world request (consumed result) db auth e =
      elim (Bool-cases result.allowed) [
        | inr a ↦ ground arith
        | inl a ↦ elim (Bool-cases request.safe) [
          | inr s ↦ ground arith
          | inl s ↦
              let answered : answer_of world
                    (authenticate_credential world request.safe_again request.verifier db)
                  ≡ authenticated auth =
                ground arith in
              let (v, again, shown, there, identity) =
                authenticate_credential-found world request.safe_again request.verifier db auth (
                  answer_of-authenticated world
                    (authenticate_credential world request.safe_again request.verifier db) auth
                    answered) in
              (v, a, s, again, shown, there, identity)
        ]
      ]

  -- Who is let in: an answer that authenticates came to an allowed origin, while the dependencies of
  -- a world were installed, from a peer that the limiter admitted, while the writer's authority was
  -- safe; and the identity, which is for that world, is that of a credential of the tables that is
  -- not revoked and has the verifier of the credential that was shown.
  pub on_auth-authenticated :
      (request : AuthRequest) (db : Db) (limiter : PeerRateLimiter F) (auth : BindFreshSessionAuth)
      → (on_auth request db limiter).0 ≡ authenticated auth
      → (peer v : ℕ) × (request.origin_allowed ≡ true)
        × (request.world ≡ some auth.world_id)
        × (request.peer ≡ some peer)
        × (is_allowed (consume_peer F options peer request.now request.bucket_now limiter).0 ≡ true)
        × (request.safe ≡ true)
        × (request.safe_again ≡ true)
        × (request.verifier ≡ some v)
        × IsIdentityOf auth v db
  unfolding on_auth
  on_auth-authenticated request db limiter auth e = elim (Bool-cases request.origin_allowed) [
    | inr o ↦ ground arith
    | inl o ↦ elim (Option-cases request.world) [
      | inl w ↦ ground arith
      | inr (world, w) ↦ elim (Option-cases request.peer) [
        | inl p ↦ ground arith
        | inr (peer, p) ↦
            let taken = consume_peer F options peer request.now request.bucket_now limiter in
            let limited : after_limiter world request taken.0 db ≡ authenticated auth =
              ground arith in
            let (v, allowed, safe, again, shown, there, identity) =
              after_limiter-authenticated world request taken.0 db auth limited in
            (peer, v, o, ground arith, p, allowed, safe, again, shown, identity)
      ]
    ]
  ]
