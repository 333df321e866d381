-- ===== src/Examples/Sessions.antt =====
-- The theorems on the sessions of the room, applied to one of its players.
use burning_space.Game.Room.Auth
use burning_space.Examples.{tables}
use burning_space.Security.PeerRateLimiter.{PeerRateLimiterOptions, PeerRateLimiter, consume_peer}
use burning_space.Game.Room.Auth.{AuthRequest, IsIdentityOf, on_auth, on_auth-authenticated}
use burning_space.Examples.Messages.{profile_fields, profile}
use burning_space.Game.Room.Tick.{update_simulation}
use burning_space.Base.{
  ℕ, ◌≡◌, ◌⊎◌, ◌+◌, refl, arith, none, some, true, false, Bool, Option, List, [], ◌∷◌,
}
use burning_space.Persistence.Schema.{red}
use burning_space.Persistence.Authority.{player_accepted}
use burning_space.Persistence.SessionBinding
use burning_space.Persistence.SessionBinding.{
  SessionBinding, is_current_generation, BindFreshSessionAuth,
}
use burning_space.Examples.FixedPoint.{fixed}
use burning_space.Examples.Rooms.{room, setting, limit, classes, participant, binding}
use burning_space.Game.Messages.{object}
use burning_space.Game.Profile.{JoinProfile, player_text, red_text}
use burning_space.Game.Room.{BattleRoom, or_else}
use burning_space.Game.Room.Events.{ticks, after_event, RoomEvent, after_events}
use burning_space.Game.Room.Profiles.{
  PendingProfile, begin_profile, complete_profile, release_session_lease,
}
use burning_space.Game.Room.Sessions.{
  PendingReconnect, begin_leave, begin_reconnect, complete_reconnect, leave_marked, pending_of,
  revalidate_credential,
}
use burning_space.Game.Room.Generations.Runs.{complete_profile-superseded}
use burning_space.Game.Room.Leases.{IsHolding, complete_profile-lease}
use burning_space.Game.Room.Reconnects.{AsksOf, reconnect-reopened, reconnect-without_lease}

abbrev pending : PendingProfile
pending = record {
  session_id = 1;
  player_id = 11;
  credential_id = 21;
  generation = 0;
  profile = profile;
}

abbrev begun_room : BattleRoom fixed
begun_room = (begin_profile fixed classes limit true 1 2000 (object profile_fields) room).0

-- The session leaves, and a tick passes, before the transaction completes.
abbrev between : List (RoomEvent fixed)
between = ticks false (50000, 0) 2010 2010 ∷ []

abbrev left_room : BattleRoom fixed
left_room = or_else (after_events fixed setting between (begin_leave fixed 1 begun_room)) room

complete_profile-superseded_example :
    complete_profile fixed setting.codes_of pending
      (participant 1)
      false
      true
      true
      (some (player_accepted red 41))
      left_room
    ≡ (left_room, release_session_lease 11 41 ∷ [])
unfolding begin_profile after_events after_event update_simulation
    burning_space.Security.TokenBucket.consume burning_space.Base.Maps.get
    burning_space.Game.Profile.validate_profile burning_space.Game.Nickname.validate_nickname
    begin_leave burning_space.Game.Room.Ships.neutralize_input
complete_profile-superseded_example =
    complete_profile-superseded fixed setting true 1 2000 (object profile_fields) room begun_room
      begun_room left_room pending [] between (participant 1) false true true
      (player_accepted red 41) (ground arith) refl refl refl refl refl

complete_profile-lease_example :
    ((((complete_profile fixed setting.codes_of pending
            (participant 1)
            true
            true
            true
            (some (player_accepted red 41))
            room).1
          ≡ [])
        × IsHolding fixed 1 red 41
            (complete_profile fixed setting.codes_of pending
              (participant 1)
              true
              true
              true
              (some (player_accepted red 41))
              room).0)
      ⊎ ((complete_profile fixed setting.codes_of pending
            (participant 1)
            true
            true
            true
            (some (player_accepted red 41))
            room).1
          ≡ release_session_lease 11 41 ∷ []))
    × ((complete_profile fixed setting.codes_of pending (participant 1) true true true none room).1
        ≡ [])
    × ((complete_profile fixed setting.codes_of pending
          (participant 1)
          true
          true
          true
          none
          room).0.bindings
        ≡ room.bindings)
    × ((complete_profile fixed setting.codes_of pending
          (participant 1)
          true
          true
          true
          none
          room).0.ships
        ≡ room.ships)
complete_profile-lease_example =
    complete_profile-lease fixed setting.codes_of pending (participant 1) true true true red 41 room

abbrev back_room : BattleRoom fixed
back_room = (begin_reconnect fixed 5 true 1 room).0

abbrev reconnect : PendingReconnect
reconnect = pending_of fixed 1 binding (some (participant 1))

reconnect-reopened_example :
    AsksOf binding true reconnect.query
    × (true ≡ true)
    × (true ≡ true)
    × (true ≡ true)
    × (is_current_generation 1 (binding.connection_generation + 1) back_room.bindings ≡ true)
unfolding begin_reconnect complete_reconnect burning_space.Base.Maps.get
reconnect-reopened_example =
    reconnect-reopened fixed 5 true true true 1 room back_room back_room binding reconnect refl refl
      refl

reconnect-without_lease_example :
    (r1 : BattleRoom fixed) × (p : PendingReconnect) × (begin_reconnect fixed 5 true 1
        (leave_marked fixed 1 31 false room)
      ≡ (r1, some p))
    × (p.query ≡ revalidate_credential)
    × ((complete_reconnect fixed p true true r1).reopened ≡ true)
    × (after : SessionBinding) × (SessionBinding.get 1
          (complete_reconnect fixed p true true r1).room.bindings
        ≡ some after)
    × (after.control_allowed ≡ true)
    × (after.lease_id ≡ none)
reconnect-without_lease_example = reconnect-without_lease fixed 5 31 1 room binding refl refl

-- The peer 7 shows the credential of the player 2.
abbrev peer_options : PeerRateLimiterOptions fixed
peer_options = record { bucket = limit; max_buckets = 10; idle_eviction_ms = 60000 }

abbrev no_peers : PeerRateLimiter fixed
no_peers = record { limiter = λ key. none; last_access_at = [] }

abbrev request : AuthRequest
request = record {
  origin_allowed = true;
  world = some 1;
  peer = some 7;
  now = 1000;
  bucket_now = 1000;
  safe = true;
  safe_again = true;
  verifier = some 99;
}

abbrev identity : BindFreshSessionAuth
identity = record { player_id = 2; credential_id = 4; world_id = 1 }

on_auth-authenticated_example :
    (peer v : ℕ) × (request.origin_allowed ≡ true)
    × (request.world ≡ some identity.world_id)
    × (request.peer ≡ some peer)
    × (Auth.is_allowed
          (consume_peer fixed peer_options peer request.now request.bucket_now no_peers).0
        ≡ true)
    × (request.safe ≡ true)
    × (request.safe_again ≡ true)
    × (request.verifier ≡ some v)
    × IsIdentityOf fixed peer_options identity v tables
unfolding on_auth consume_peer burning_space.Security.TokenBucket.consume
on_auth-authenticated_example =
    on_auth-authenticated fixed peer_options request tables no_peers identity refl
