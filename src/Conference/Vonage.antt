-- ===== src/Conference/Vonage.antt =====
-- platform/app/providers/vonage_api.py: the calls that a conference makes through Vonage.
use seeds.Base.{
  ℕ, zero, suc, String, ◌==◌, Bool, true, false, not, Option, none, some, List, [], ◌∷◌, map,
  is_given, if◌then◌else◌,
}
use seeds.Dict.{Dict, get, keys, values}
use seeds.Act.{maybe, Act, pure, gets, reading, catch, write, ◌>>=◌, ◌>>◌, when}
use seeds.Act.Gather.{gather}
use seeds.Conference.World.{
  talk, conversation, connect, VonageParticipantInfo, LegAction, hangup, mute, unmute, transfer,
  get_call, update_call, create_talk, sleep, External, Io, ask, perform,
}
use seeds.Conference.Dialing.{Line, VonageApi, add_participant_to_conference, io}
use seeds.Conference.RedisStore.{
  save_participant, get_participant, get_participant_by_leg_id, get_all_participants,
  delete_participant,
}

-- `participant.conference_conv_id == self.vonage_conv_id`, either of which may be `None`
abbrev same_conv : Option String → Option String → Bool
same_conv none none = true
same_conv (some a) (some b) = a == b
same_conv _ _ = false

module _ (x : External) where
  -- `voice.get_call`, guarded by `except`: `none` where it failed
  unfoldable pub answered_status : String → Io Bool
  answered_status leg =
      catch
        (ask (get_call leg) (λ history. x.status_of history leg) >>= λ status.
          pure (elim status [ none ↦ false | some s ↦ s == "answered" ]))
        (λ e. pure false)

  unfoldable pub try_connecting_websocket : VonageApi → VonageParticipantInfo → Io Bool
  try_connecting_websocket api participant = do
    answered ← answered_status participant.call_leg_id
    if not answered then pure false else do
      attached ←
          catch
            (perform x (
                update_call participant.call_leg_id
                  (transfer (connect api.ws_server_url ∷ conversation api.conf_id false ∷ [])))
              >> pure true)
            (λ e. pure false)
      if attached then (perform x (sleep 2000) >> pure true) else pure false

  -- `for i in range(0, len(participants), 3)`: three calls at a time, a second apart
  unfoldable pub dial_batches : List (String × Bool) → Act Line (Unit {0})
  dial_batches [] = pure tt
  dial_batches (a ∷ []) = gather (λ p. add_participant_to_conference x p.0 p.1 none) (a ∷ [])
  dial_batches (a ∷ b ∷ []) =
      gather (λ p. add_participant_to_conference x p.0 p.1 none) (a ∷ b ∷ [])
  dial_batches (a ∷ b ∷ c ∷ []) =
      gather (λ p. add_participant_to_conference x p.0 p.1 none) (a ∷ b ∷ c ∷ [])
  dial_batches (a ∷ b ∷ c ∷ d ∷ rest) = do
    gather (λ p. add_participant_to_conference x p.0 p.1 none) (a ∷ b ∷ c ∷ [])
    io (perform x (sleep 1000))
    dial_batches (d ∷ rest)

  -- a conference always has a teacher's number; the empty text stands for a missing one
  unfoldable pub start_conf : Option String → List String → Act Line (Unit {0})
  start_conf teacher_phone student_phones = do
    write (λ l. record l { api = record l.api { teacher_phone_number = teacher_phone } })
    dial_batches (
        (elim teacher_phone [ none ↦ "" | some t ↦ t ], false)
        ∷ map (λ sp. (sp, true)) student_phones)

  -- the loop of `end_conf`: an answered leg is hung up, and a failure is logged
  unfoldable pub hang_up_all : List VonageParticipantInfo → Io (Unit {0})
  hang_up_all [] = pure tt
  hang_up_all (p ∷ rest) = do
    catch
        (do
          status ← ask (get_call p.call_leg_id) (λ history. x.status_of history p.call_leg_id)
          when (elim status [ none ↦ false | some s ↦ s == "answered" ])
              (perform x (update_call p.call_leg_id hangup)))
        (λ e. pure tt)
    hang_up_all rest

  unfoldable pub end_conf : Act Line (Unit {0})
  end_conf = do
    write (λ l. record l { api = record l.api { is_websocket_connected = false } })
    api ← gets (λ l. l.api)
    when api.redis_store (
        io
          (do participants ← get_all_participants x api.conf_id; hang_up_all (values participants)))

  unfoldable pub attach_if_needed : VonageParticipantInfo → Act Line (Unit {0})
  attach_if_needed participant = reading λ l. when (not l.api.is_websocket_connected) (do
    b ← io (try_connecting_websocket l.api participant)
    write (λ l'. record l' { api = record l'.api { is_websocket_connected = b } }))

  unfoldable pub handle_call_transfer : VonageApi → String → String → Act Line (Option String)
  handle_call_transfer api uuid conversation_uuid_to = do
    found ← io (get_participant_by_leg_id x api.conf_id uuid)
    maybe found (pure none) λ participant. do
      write (λ l. record l {
        api = record l.api {
          vonage_conv_id =
              if is_given l.api.vonage_conv_id
              then l.api.vonage_conv_id
              else some conversation_uuid_to;
        };
      })
      let moved = record participant { conference_conv_id = some conversation_uuid_to }
      io (save_participant x api.conf_id moved)
      attach_if_needed moved
      pure (some participant.phone_number)

  unfoldable pub handle_call_transfer_event : String → String → Act Line (Option String)
  handle_call_transfer_event uuid conversation_uuid_to = reading λ l.
      if l.api.redis_store then handle_call_transfer l.api uuid conversation_uuid_to else pure none

  unfoldable pub add_participant : String → Option String → Act Line (Unit {0})
  add_participant phone announce_text = reading λ l.
      add_participant_to_conference x phone
        (elim l.api.teacher_phone_number [ none ↦ true | some t ↦ not (phone == t) ]) announce_text

  -- what is done to a participant's leg, if the store has one
  unfoldable pub on_leg : String → LegAction → Io (Unit {0}) → Act Line (Unit {0})
  on_leg phone action next = reading λ l. when l.api.redis_store (
      io (
        get_participant x l.api.conf_id phone >>= λ found.
        maybe found (pure tt) λ p. perform x (update_call p.call_leg_id action) >> next))

  unfoldable pub remove_participant : String → Act Line (Unit {0})
  remove_participant phone =
      reading λ l. on_leg phone hangup (delete_participant x l.api.conf_id phone)

  unfoldable pub mute_participant : String → Act Line (Unit {0})
  mute_participant phone = on_leg phone mute (pure tt)

  unfoldable pub unmute_participant : String → Act Line (Unit {0})
  unmute_participant phone = on_leg phone unmute (pure tt)

  -- the service has `create_talk`; where that fails, the text is sent as a new plan
  unfoldable pub play_tts_to_call_leg : String → String → String → Io Bool
  play_tts_to_call_leg conf_id leg text = catch (perform x (create_talk leg text) >> pure true) λ e.
      catch
        (perform x (update_call leg (transfer (talk text ∷ conversation conf_id false ∷ [])))
          >> pure true)
        (λ e'. pure false)

  -- a number with no leg is passed over
  unfoldable pub play_to_leg : String → String → Option VonageParticipantInfo → Io (Unit {0})
  play_to_leg conf_id text none = pure tt
  play_to_leg conf_id text (some info) = do
    played ← play_tts_to_call_leg conf_id info.call_leg_id text
    pure tt

  unfoldable pub play_to :
      String → String → Dict VonageParticipantInfo → List String → Io (Unit {0})
  play_to conf_id text legs [] = pure tt
  play_to conf_id text legs (phone ∷ rest) = do
    play_to_leg conf_id text (get phone legs)
    play_to conf_id text legs rest

  -- an empty list of numbers means everybody
  abbrev recipients_or_all : List String → Dict VonageParticipantInfo → List String
  recipients_or_all [] legs = keys legs
  recipients_or_all (p ∷ ps) legs = p ∷ ps

  unfoldable pub play_announcement_to_conference : String → List String → Act Line (Unit {0})
  play_announcement_to_conference text phone_numbers = reading λ l. when l.api.redis_store (
      io (do
        legs ← get_all_participants x l.api.conf_id
        play_to l.api.conf_id text legs (recipients_or_all phone_numbers legs)))

  -- one round of `reconnect_websocket`: the first leg of the conference that can be attached
  unfoldable pub reconnect_round : List VonageParticipantInfo → Act Line (Unit {0})
  reconnect_round [] = pure tt
  reconnect_round (p ∷ rest) = reading λ l.
      if l.api.is_websocket_connected
      then pure tt
      else (if same_conv p.conference_conv_id l.api.vonage_conv_id
          then (do
            b ← io (try_connecting_websocket l.api p)
            write (λ l'. record l' { api = record l'.api { is_websocket_connected = b } })
            reconnect_round rest)
          else reconnect_round rest)

  -- the `while` loop, for at most so many rounds; `none` means that none of them attached
  unfoldable pub reconnect_rounds : ℕ → Act Line (Option (Unit {0}))
  reconnect_rounds zero = pure none
  reconnect_rounds (suc rounds) = do
    api ← gets (λ l. l.api)
    participants ← io (get_all_participants x api.conf_id)
    reconnect_round (values participants)
    connected ← gets (λ l. l.api.is_websocket_connected)
    if connected then pure (some tt) else do io (perform x (sleep 2000)); reconnect_rounds rounds

  unfoldable pub reconnect_websocket : ℕ → Act Line (Option (Unit {0}))
  reconnect_websocket rounds = reading λ l. if not l.api.redis_store then pure (some tt) else do
    write (λ l'. record l' { api = record l'.api { is_websocket_connected = false } })
    reconnect_rounds rounds
