-- ===== src/Game/Room/Profiles.antt =====
-- BattleRoom.ts: handleSetProfile, split at the await of its durable transaction.
use burning_space.Base.{
  ℕ, ◌-◌, Bool, true, false, not, ◌&&◌, ◌||◌, Option, none, some, List, [], ◌∷◌, ltb, if◌then◌else◌,
}
use burning_space.Base.Maps.{get, put, delete}
use burning_space.Persistence.Schema.{Faction}
use burning_space.Persistence.Authority.{
  ProfileTransactionResult, spectator_accepted, player_accepted, faction_conflict, identity_taken,
}
use burning_space.Persistence.SessionBinding
use burning_space.Persistence.SessionBinding.{
  SessionBinding, is_control_allowed, is_current_generation, set_lease, clear_lease, active,
}
use burning_space.Security.TokenBucket.{
  TokenBucketRateLimiterOptions, TokenBucketConsumeResult, consume,
}
use burning_space.Game.Numbers.{Numbers}
use burning_space.Game.Schema.{ParticipantState, JoinMode, player, spectator}
use burning_space.Game.Messages.{JsValue}
use burning_space.Game.Nickname.{TextClasses}
use burning_space.Game.Combat.{is_faction}
use burning_space.Game.Profile.{
  ProfileValidationResult, JoinProfile, accepted, rejected, validate_profile,
}
use burning_space.Game.Room.{
  BattleRoom, ProfileRejection, profile_accepted, profile_rejected, rate_limited, no_participant,
  mode_or_faction_fixed, retry, faction_assigned, identity_elsewhere, faulty, send, send_room_info,
  is_process_authority_safe,
}
use burning_space.Game.Room.Ships.{upsert_ship, remove_ship}

-- A transaction that the room asks for without waiting for an answer that it uses.
pub data RoomEffect : Type 0 where
  -- playerId and leaseId.
  release_session_lease : ℕ → ℕ → RoomEffect

-- A profile transaction under way, with the generation read before it began.
pub record PendingProfile : Type 0 where
  pub session_id : ℕ
  pub player_id : ℕ
  pub credential_id : ℕ
  pub generation : ℕ
  pub profile : JoinProfile

abbrev pub is_same_faction : Option Faction → Option Faction → Bool
is_same_faction none none = true
is_same_faction (some f) (some g) = is_faction f g
is_same_faction _ _ = false

abbrev pub is_same_mode : JoinMode → JoinMode → Bool
is_same_mode player player = true
is_same_mode spectator spectator = true
is_same_mode _ _ = false

-- `now - lastNoticeAt < PROFILE_RATE_LIMIT_NOTICE_INTERVAL_MS`.
abbrev pub is_noticed : ℕ → Option ℕ → Bool
is_noticed now none = false
is_noticed now (some noticed) = ltb (now - noticed) 1000

abbrev pub is_refused_mode : ParticipantState → JoinProfile → Bool
is_refused_mode participant profile =
    participant.profile_ready
    && (not (is_same_mode participant.mode profile.mode)
        || not (is_same_faction participant.faction profile.faction))

abbrev pub reason_of : ProfileTransactionResult → ProfileRejection
reason_of faction_conflict = faction_assigned
reason_of identity_taken = identity_elsewhere
reason_of _ = retry

-- The lease that a transaction acquired is released.
abbrev pub compensation : ℕ → ProfileTransactionResult → List RoomEffect
compensation player_id (player_accepted faction lease) = release_session_lease player_id lease ∷ []
compensation player_id _ = []

module _ (F : Numbers) where
  abbrev pub reject : ℕ → ProfileRejection → BattleRoom F → BattleRoom F
  reject session reason = send F (profile_rejected session reason)

  -- `sendGenericProfileRejection`, whose client is joined or not.
  abbrev pub reject_if_joined : Bool → ℕ → ProfileRejection → BattleRoom F → BattleRoom F
  reject_if_joined joined session reason room = if joined then reject session reason room else room

  abbrev pub send_bounded_profile_rate_limit_notice : ℕ → ℕ → BattleRoom F → BattleRoom F
  send_bounded_profile_rate_limit_notice session now room =
      if is_noticed now (get session room.last_profile_rate_limit_notice_at)
      then room
      else reject session rate_limited (record room {
        last_profile_rate_limit_notice_at = put session now room.last_profile_rate_limit_notice_at;
      })

  abbrev pub begin_bound :
      Bool
      → ℕ
      → JoinProfile
      → Option SessionBinding
      → BattleRoom F
      → BattleRoom F × Option PendingProfile
  begin_bound joined session profile none room = (reject_if_joined joined session retry room, none)
  begin_bound joined session profile (some binding) room = (
    room,
    some (record {
      session_id = session;
      player_id = binding.player_id;
      credential_id = binding.credential_id;
      generation = binding.connection_generation;
      profile = profile;
    }),
  )

  abbrev pub begin_valid :
      Bool
      → ℕ
      → ParticipantState
      → ProfileValidationResult
      → BattleRoom F
      → BattleRoom F × Option PendingProfile
  begin_valid joined session participant (rejected fault) room =
      (reject session (faulty fault) room, none)
  begin_valid joined session participant (accepted profile) room =
      if is_refused_mode participant profile
      then (reject session mode_or_faction_fixed room, none)
      else begin_bound joined session profile (SessionBinding.get session room.bindings) room

  abbrev pub begin_admitted :
      TextClasses
      → Bool
      → ℕ
      → JsValue F
      → Option ParticipantState
      → BattleRoom F
      → BattleRoom F × Option PendingProfile
  begin_admitted classes joined session message none room =
      (reject session no_participant room, none)
  begin_admitted classes joined session message (some participant) room =
      begin_valid joined session participant (validate_profile classes message) room

  -- A limiter whose clock went back throws out of the handler.
  abbrev pub begin_limited :
      TextClasses
      → Bool
      → ℕ
      → ℕ
      → JsValue F
      → Option (TokenBucketConsumeResult F)
      → BattleRoom F
      → BattleRoom F × Option PendingProfile
  begin_limited classes joined session now message none room = (room, none)
  begin_limited classes joined session now message (some result) room =
      if result.allowed
      then begin_admitted classes joined session message (get session room.participants) room
      else (send_bounded_profile_rate_limit_notice session now room, none)

  -- `handleSetProfile` up to the await.
  unfoldable pub begin_profile :
      TextClasses
      → TokenBucketRateLimiterOptions F
      → Bool
      → ℕ
      → ℕ
      → JsValue F
      → BattleRoom F
      → BattleRoom F × Option PendingProfile
  begin_profile classes options joined session now message room =
      let taken = consume F options session now room.profile_message_limiter in
      if is_control_allowed session room.bindings
      then begin_limited classes joined session now message taken.0
          (record room { profile_message_limiter = taken.1 })
      else (room, none)

  abbrev pub as_player : PendingProfile → Faction → ParticipantState → ParticipantState
  as_player pending faction participant = record participant {
    nickname = pending.profile.nickname;
    mode = player;
    faction = some faction;
    profile_ready = true;
  }

  abbrev pub as_spectator : PendingProfile → ParticipantState → ParticipantState
  as_spectator pending participant = record participant {
    nickname = pending.profile.nickname;
    mode = spectator;
    faction = none;
    profile_ready = true;
  }

  -- The participant that the handler found, changed, and told of it.
  abbrev pub acknowledge : PendingProfile → ParticipantState → BattleRoom F → BattleRoom F
  acknowledge pending participant room = send_room_info F (
      send F (profile_accepted pending.session_id participant)
        (record room { participants = put pending.session_id participant room.participants }))

  abbrev pub accept_spectator : PendingProfile → ParticipantState → BattleRoom F → BattleRoom F
  accept_spectator pending participant room =
      let removed = remove_ship F pending.session_id room in
      acknowledge pending (as_spectator pending participant)
        (record removed { inputs = delete pending.session_id removed.inputs })

  module _ (codes_of : ℕ → List ℕ) where
    abbrev pub accept_player :
        PendingProfile → ParticipantState → Faction → ℕ → BattleRoom F → BattleRoom F
    accept_player pending participant faction lease room =
        let spawned =
          upsert_ship F codes_of pending.session_id pending.profile.nickname faction room in
        acknowledge pending (as_player pending faction participant)
          (record spawned { bindings = set_lease pending.session_id lease active spawned.bindings })

    -- Whether `upsertShip` returns, or a subclass' one throws, is `spawns`.
    abbrev pub settle :
        PendingProfile
        → ParticipantState
        → Bool
        → Bool
        → ProfileTransactionResult
        → BattleRoom F
        → BattleRoom F × List RoomEffect
    settle pending participant joined spawns spectator_accepted room =
        (accept_spectator pending participant room, [])
    settle pending participant joined true (player_accepted faction lease) room =
        (accept_player pending participant faction lease room, [])
    settle pending participant joined false (player_accepted faction lease) room = (
      reject_if_joined joined pending.session_id retry
          (record room { bindings = clear_lease pending.session_id room.bindings }),
      release_session_lease pending.player_id lease ∷ [],
    )
    settle pending participant joined spawns refused room =
        (reject_if_joined joined pending.session_id (reason_of refused) room, [])

    abbrev pub complete_current :
        PendingProfile
        → ParticipantState
        → Bool
        → Bool
        → Bool
        → ProfileTransactionResult
        → BattleRoom F
        → BattleRoom F × List RoomEffect
    complete_current pending participant joined spawns safe result room =
        let checked = is_process_authority_safe F safe room in
        if checked.0
        then settle pending participant joined spawns result checked.1
        else (checked.1, compensation pending.player_id result)

    -- `handleSetProfile` from the await on: no result if the transaction threw. `participant` is the
    -- object that the handler read before.
    unfoldable pub complete_profile :
        PendingProfile
        → ParticipantState
        → Bool
        → Bool
        → Bool
        → Option ProfileTransactionResult
        → BattleRoom F
        → BattleRoom F × List RoomEffect
    complete_profile pending participant joined spawns safe none room =
        (reject_if_joined joined pending.session_id retry room, [])
    complete_profile pending participant joined spawns safe (some result) room =
        if is_current_generation pending.session_id pending.generation room.bindings
        then complete_current pending participant joined spawns safe result room
        else (room, compensation pending.player_id result)
