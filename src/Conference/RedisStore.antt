-- ===== src/Conference/RedisStore.antt =====
-- platform/app/services/redis_conference_store.py. What `json` writes and reads back is taken as
-- the value itself.
use seeds.Base.{String, ◌==◌, Option, none, some, List, [], ◌∷◌, format, if◌then◌else◌}
use seeds.Dict.{Dict}
use seeds.Act.{pure, ◌>>=◌, ◌>>◌}
use seeds.Conference.Model.{ConferenceCallState}
use seeds.Conference.World.{
  VonageParticipantInfo, redis_set, redis_get, redis_expire, redis_hset, redis_hget, redis_hdel,
  redis_hgetall, redis_delete, redis_keys, External, Io, ask, perform,
}

unfoldable pub key : String → String
key conf_id = format ("conf:" ∷ conf_id ∷ ":state" ∷ [])

unfoldable pub participants_key : String → String
participants_key conf_id = format ("conf:" ∷ conf_id ∷ ":participants" ∷ [])

-- the loop of `get_participant_by_leg_id`
unfoldable pub find_leg : String → Dict VonageParticipantInfo → Option VonageParticipantInfo
find_leg call_leg_id [] = none
find_leg call_leg_id ((k, info) ∷ rest) =
    if info.call_leg_id == call_leg_id then some info else find_leg call_leg_id rest

module _ (x : External) where
  unfoldable pub save : String → ConferenceCallState → Io (Unit {0})
  save conf_id state = do
    perform x (redis_set (key conf_id) state)
    perform x (redis_expire (key conf_id) x.settings.redis_conference_ttl_seconds)

  unfoldable pub load : String → Io (Option ConferenceCallState)
  load conf_id = ask (redis_get (key conf_id)) (λ history. x.redis_state history (key conf_id))

  unfoldable pub save_participant : String → VonageParticipantInfo → Io (Unit {0})
  save_participant conf_id info = do
    perform x (redis_hset (participants_key conf_id) info.phone_number info)
    perform x (redis_expire (participants_key conf_id) x.settings.redis_conference_ttl_seconds)

  unfoldable pub get_participant : String → String → Io (Option VonageParticipantInfo)
  get_participant conf_id phone =
      ask (redis_hget (participants_key conf_id) phone)
        (λ history. x.redis_leg history (participants_key conf_id) phone)

  unfoldable pub get_all_participants : String → Io (Dict VonageParticipantInfo)
  get_all_participants conf_id =
      ask (redis_hgetall (participants_key conf_id))
        (λ history. x.redis_legs history (participants_key conf_id))

  unfoldable pub get_participant_by_leg_id : String → String → Io (Option VonageParticipantInfo)
  get_participant_by_leg_id conf_id call_leg_id = do
    all_data ← get_all_participants conf_id
    pure (find_leg call_leg_id all_data)

  unfoldable pub delete_participant : String → String → Io (Unit {0})
  delete_participant conf_id phone = perform x (redis_hdel (participants_key conf_id) phone)

  unfoldable pub delete : String → Io (Unit {0})
  delete conf_id = perform x (redis_delete (key conf_id ∷ participants_key conf_id ∷ []))

  -- the identifiers of the stored conferences; `redis_active` gives them as cut out of the keys
  unfoldable pub list_active : Io (List String)
  list_active = ask (redis_keys "conf:*:state") (λ history. x.redis_active history)
