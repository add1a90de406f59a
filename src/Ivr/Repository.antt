-- ===== src/Ivr/Repository.antt =====
-- `IVRRepository` of platform/app/repositories/ivr_repository.py: the documents of the calls that go
-- on, with the pending key press of a call, and any sequence of the operations on them.
-- A call to the database acts at once, so that the calls of several tasks are a sequence of these.
pub mod Contract
pub mod Refine
pub mod Once
use seeds.Base.{
  ℕ, suc, String, ◌==◌, Bool, true, false, not, ◌&&◌, Option, none, some, List, [], ◌∷◌, ◌++◌,
  is_some, eqb,
}
use seeds.Ivr.Model.{IvrCallState, PendingDtmf, StreamPlaybackInfo, Ncco}
use seeds.Ivr.Collection.{Collection, Upserted, duplicate_key}

abbrev pub any_doc : IvrCallState → Bool
any_doc d = true

-- The document that `$set` leaves: all of the new one but the fields of the pending key press.
abbrev pub saved_over : IvrCallState → IvrCallState → IvrCallState
saved_over new d = record new {
  pending_dtmf = d.pending_dtmf;
  last_dtmf_message_id = d.last_dtmf_message_id;
}

abbrev pub next_version : ℕ → IvrCallState → IvrCallState
next_version now s = record s { version = suc s.version; updated_at = some now }

abbrev pub without_dtmf : IvrCallState → IvrCallState
without_dtmf s = record s { pending_dtmf = none; last_dtmf_message_id = none }

abbrev pub is_version : ℕ → IvrCallState → Bool
is_version v d = eqb d.version v

-- the caller's object, whose version a successful save raises
unfoldable pub save_result : IvrCallState → Upserted → Bool × IvrCallState
save_result s duplicate_key = (false, s)
save_result s _ = (true, record s { version = suc s.version })

abbrev pub waiting_for : String → ℕ → PendingDtmf
waiting_for message_id now = record {
  message_id = message_id;
  waiting = true;
  ncco = none;
  should_hangup = none;
  created_at = now;
}

abbrev pub awaiting : ℕ → String → IvrCallState → IvrCallState
awaiting now message_id d = record d {
  pending_dtmf = some (waiting_for message_id now);
  updated_at = some now;
}

abbrev pub recorded : ℕ → String → IvrCallState → IvrCallState
recorded now message_id d = record d {
  last_dtmf_message_id = some message_id;
  updated_at = some now;
}

abbrev pub emptied : ℕ → IvrCallState → IvrCallState
emptied now d = record d { pending_dtmf = none; updated_at = some now }

-- `{"pending_dtmf.message_id": message_id}`, and with `"pending_dtmf.waiting": True`
unfoldable pub is_pending : String → IvrCallState → Bool
is_pending message_id d = elim d.pending_dtmf [
  | none ↦ false
  | some marker ↦ marker.message_id == message_id
]

unfoldable pub is_waiting : String → IvrCallState → Bool
is_waiting message_id d = elim d.pending_dtmf [
  | none ↦ false
  | some marker ↦ (marker.message_id == message_id) && marker.waiting
]

unfoldable pub answered : ℕ → List Ncco → Bool → IvrCallState → IvrCallState
answered now ncco should_hangup d = elim d.pending_dtmf [
  | none ↦ d
  | some marker ↦ record d {
    pending_dtmf =
        some
          (record marker { waiting = false; ncco = some ncco; should_hangup = some should_hangup });
    updated_at = some now;
  }
]

-- `marker and not marker["waiting"] and marker.get("ncco") is not None`
abbrev pub is_answer : PendingDtmf → Bool
is_answer marker = not marker.waiting && is_some marker.ncco

unfoldable pub is_seen : String → IvrCallState → Bool
is_seen message_id d = elim d.last_dtmf_message_id [ none ↦ false | some last ↦ last == message_id ]

unfoldable pub is_answered : String → IvrCallState → Bool
is_answered message_id d = elim d.pending_dtmf [
  | none ↦ false
  | some marker ↦ (marker.message_id == message_id) && is_answer marker
]

unfoldable pub put_field :
    String
    → (StreamPlaybackInfo → StreamPlaybackInfo)
    → List StreamPlaybackInfo
    → List StreamPlaybackInfo
put_field play_id f [] = []
put_field play_id f (i ∷ rest) = elim (i.play_id == play_id) [
  | true ↦ f i ∷ rest
  | false ↦ i ∷ put_field play_id f rest
]

unfoldable pub has_play : String → List StreamPlaybackInfo → Bool
has_play play_id [] = false
has_play play_id (i ∷ rest) = elim (i.play_id == play_id) [
  | true ↦ true
  | false ↦ has_play play_id rest
]

module _ {C : Type 0} (col : Collection C IvrCallState) where
  -- what is found; `from_mongo`, which reads it or refuses it, is applied where the service asks
  unfoldable pub find_ongoing_call : String → C → Option IvrCallState
  find_ongoing_call call_id c = col.find_one call_id c

  unfoldable pub find_by_conversation_uuid : String → C → Option IvrCallState
  find_by_conversation_uuid uuid c = col.find_where (λ d. d.current_conversation_uuid == uuid) c

  -- whether it was saved, and the caller's object after it
  unfoldable pub save_ongoing_call : ℕ → IvrCallState → C → (Bool × IvrCallState) × C
  save_ongoing_call now s c =
      let new = next_version now s in
      let (r, c') =
        col.upsert_one s.id (is_version s.version) (saved_over new) (without_dtmf new) c in
      (save_result s r, c')

  unfoldable pub set_dtmf_waiting : ℕ → String → String → C → Bool × C
  set_dtmf_waiting now call_leg_id message_id c =
      col.update_one call_leg_id any_doc (awaiting now message_id) c

  unfoldable pub is_dtmf_duplicate : String → String → C → Bool
  is_dtmf_duplicate call_leg_id message_id c = elim (col.find_one call_leg_id c) [
    | none ↦ false
    | some d ↦ elim (is_seen message_id d) [ true ↦ true | false ↦ is_answered message_id d ]
  ]

  unfoldable pub record_dtmf_processed : ℕ → String → String → C → Bool × C
  record_dtmf_processed now call_leg_id message_id c =
      col.update_one call_leg_id any_doc (recorded now message_id) c

  unfoldable pub peek_dtmf_result : String → String → C → Option PendingDtmf
  peek_dtmf_result call_leg_id message_id c = elim (col.find_one call_leg_id c) [
    | none ↦ none
    | some d ↦ elim (is_pending message_id d) [ true ↦ d.pending_dtmf | false ↦ none ]
  ]

  unfoldable pub pop_dtmf_result : ℕ → String → String → C → Option PendingDtmf × C
  pop_dtmf_result now call_leg_id message_id c =
      let (r, c') = col.find_one_and_update call_leg_id (is_pending message_id) (emptied now) c in
      (elim r [ none ↦ none | some d ↦ d.pending_dtmf ], c')

  unfoldable pub try_claim_dtmf_result : ℕ → String → String → List Ncco → Bool → C → Bool × C
  try_claim_dtmf_result now call_leg_id message_id ncco should_hangup c =
      col.update_one call_leg_id (is_waiting message_id) (answered now ncco should_hangup) c

  unfoldable pub push_stream_playback : ℕ → String → StreamPlaybackInfo → C → Bool × C
  push_stream_playback now id item c =
      col.update_one id any_doc
        (λ d. record d { stream_playback = d.stream_playback ++ item ∷ []; updated_at = some now })
        c

  unfoldable pub set_playback_field :
      ℕ → String → String → (StreamPlaybackInfo → StreamPlaybackInfo) → C → Bool × C
  set_playback_field now id play_id f c =
      col.update_one id (λ d. has_play play_id d.stream_playback)
        (λ d. record d {
          stream_playback = put_field play_id f d.stream_playback;
          updated_at = some now;
        })
        c

-- The operations that the tasks of the webhook and of the consumer carry out on calls.
pub data Operation : Type 0 where
  save : ℕ → IvrCallState → Operation
  await_key : ℕ → String → String → Operation
  claim : ℕ → String → String → List Ncco → Bool → Operation
  pop : ℕ → String → String → Operation
  processed : ℕ → String → String → Operation
  ask_duplicate : String → String → Operation

-- What an operation answers.
pub data Answer : Type 0 where
  told : Bool → Answer
  given : Option PendingDtmf → Answer

module _ {C : Type 0} (col : Collection C IvrCallState) where
  unfoldable pub perform : Operation → C → Answer × C
  perform (save now s) c = let (r, c') = save_ongoing_call col now s c in (told r.0, c')
  perform (await_key now k m) c = let (b, c') = set_dtmf_waiting col now k m c in (told b, c')
  perform (claim now k m ncco h) c =
      let (b, c') = try_claim_dtmf_result col now k m ncco h c in (told b, c')
  perform (pop now k m) c = let (r, c') = pop_dtmf_result col now k m c in (given r, c')
  perform (processed now k m) c = let (b, c') = record_dtmf_processed col now k m c in (told b, c')
  perform (ask_duplicate k m) c = (told (is_dtmf_duplicate col k m c), c)

  -- the operations with what they answered, the first one first
  unfoldable pub perform_all : List Operation → C → List (Operation × Answer) × C
  perform_all [] c = ([], c)
  perform_all (o ∷ rest) c =
      let (a, c') = perform o c in let (t, c'') = perform_all rest c' in ((o, a) ∷ t, c'')
