-- ===== src/Ivr/Service/Lifecycle/Progress.antt =====
-- An event of a call that is not its end: what it does to the state that a key press has stored.
use seeds.Base.{String, ◌≡◌, refl, true, false, some, arith, ap, ◌∙◌}
use seeds.Dict.{Dict}
use seeds.Act.{
  Exn, Reply, handled, value_error, Act, done, raised, cancelled, pure, raise, reading, catch,
  maybe, ◌>>=◌,
}
use seeds.Ivr.Model.{IvrCallState, StatusUpdate}
use seeds.Ivr.Collection.{Collection}
use seeds.Ivr.Repository.{any_doc}
use seeds.Ivr.Service.{
  read_call, write_call, Surroundings, Service, carried, db, delivered, disturbed, now,
}
use seeds.Ivr.Service.Dtmf.{attempt, is_readable, from_mongo}
use seeds.Ivr.Service.Lifecycle.{
  IvrCallStatus, status_of, is_end, CallEvent, with_status, set_fields, set_call, kept_in,
  note_status, on_status, unless_value_error, process_call_event,
}

excused-same {ℓ} : {S : Type ℓ} (e : Exn) (s : S) → (unless_value_error e s).1 ≡ s
unfolding unless_value_error pure raise
excused-same value_error s = refl
excused-same _ s = refl

handled-same {ℓ} :
    {S : Type ℓ} (r : Reply (Unit {0})) (s : S) → (handled unless_value_error r s).1 ≡ s
handled-same (done u) s = refl
handled-same (raised e) s = excused-same e s
handled-same cancelled s = refl

module _ {C : Type 0} (col : Collection C IvrCallState) (x : Surroundings C) (k : String) where
  open col use {find_one, find-update_one}

  -- the document is there at the first read
  attempt-first :
      (d : IvrCallState) (s : Service C)
      → x.carries s.calls read_call ≡ carried
      → find_one k (x.meanwhile s.calls s.ongoing) ≡ some d
      → attempt col x (λ c. (find_one k c, c)) read_call 1000 5 s
        ≡ (done (some d), disturbed x read_call s)
  unfolding attempt db delivered ◌>>=◌ pure maybe
  attempt-first d s sent there = rw (sent, there) refl

  set_fields-written :
      (e : CallEvent) (f : IvrCallState → Dict StatusUpdate → IvrCallState) (d : IvrCallState)
      (updates : Dict StatusUpdate) (c : C)
      → find_one k c ≡ some d
      → with_status e d ≡ some updates
      → set_fields col x k e f c ≡ (true, (col.update_one k any_doc (λ old. f d updates) c).1)
  unfolding set_fields
  set_fields-written e f d updates c there fits = rw (set_fields, there) (rw fits refl)

  set_call-done :
      (e : CallEvent) (f : IvrCallState → Dict StatusUpdate → IvrCallState) (d : IvrCallState)
      (updates : Dict StatusUpdate) (s : Service C)
      → x.carries s.calls write_call ≡ carried
      → find_one k (x.meanwhile s.calls s.ongoing) ≡ some d
      → with_status e d ≡ some updates
      → find_one k (set_call col x k e f s).1.ongoing ≡ some (f d updates)
  unfolding set_call db delivered ◌>>=◌ pure
  set_call-done e f d updates s sent there fits =
      let c = x.meanwhile s.calls s.ongoing in
      rw (sent, set_fields-written e f d updates c there fits)
        (ground (arith, find-update_one k k any_doc (λ old. f d updates) c, there))

  process_call_event-found :
      (conversation_uuid : String) (e : CallEvent) (status : IvrCallStatus) (d : IvrCallState)
      (s : Service C)
      → status_of e.status ≡ some status
      → is_end status ≡ false
      → x.carries s.calls read_call ≡ carried
      → find_one k (x.meanwhile s.calls s.ongoing) ≡ some d
      → is_readable d.duration ≡ true
      → process_call_event col x k conversation_uuid e s
        ≡ catch
            (note_status col x k conversation_uuid e d)
            unless_value_error
            (disturbed x read_call s)
  unfolding process_call_event ◌>>=◌ from_mongo pure maybe on_status
  process_call_event-found conversation_uuid e status d s known goes_on sent there readable =
      rw (attempt-first d s sent there, readable, known, goes_on) refl

  -- what is caught leaves the object as it is
  catch-same :
      (m : Act (Service C) (Unit {0})) (s : Service C) → (catch m unless_value_error s).1 ≡ (m s).1
  unfolding catch
  catch-same m s = handled-same (m s).0 (m s).1

  -- An event that is not final writes back the state that was read before it, also over a key press
  -- that was stored since. Where the first read of its processing gives `d`, whose duration is a text
  -- or missing, and the document has come to be `f` when the write is carried out, which has room for
  -- the status under its time, then the call is in the state of `d`, under the version and with the
  -- keys pressed of `f`.
  pub process_call_event-overwrites :
      (conversation_uuid : String) (e : CallEvent) (status : IvrCallStatus) (d f : IvrCallState)
      (updates : Dict StatusUpdate) (s : Service C)
      → status_of e.status ≡ some status
      → is_end status ≡ false
      → x.carries s.calls read_call ≡ carried
      → find_one k (x.meanwhile s.calls s.ongoing) ≡ some d
      → is_readable d.duration ≡ true
      → let t = disturbed x read_call s in
        x.carries t.calls write_call ≡ carried
        → find_one k (x.meanwhile t.calls t.ongoing) ≡ some f
        → with_status e f ≡ some updates
        → (g : IvrCallState) × (find_one k
              (process_call_event col x k conversation_uuid e s).1.ongoing
            ≡ some g)
          × (g.current_state_id ≡ d.current_state_id)
          × (g.version ≡ f.version)
          × (g.user_actions ≡ f.user_actions)
  unfolding note_status reading
  process_call_event-overwrites conversation_uuid e status d f updates s known goes_on sent there
        readable stored meanwhile fits =
      let t = disturbed x read_call s in
      (
        kept_in d.current_state_id (now x t) conversation_uuid e f updates,
        ap (λ r. find_one k r.1.ongoing)
              (process_call_event-found conversation_uuid e status d s known goes_on sent there
                readable)
            ∙ ap (λ u. find_one k u.ongoing)
                (catch-same (note_status col x k conversation_uuid e d) t)
            ∙ set_call-done e (kept_in d.current_state_id (now x t) conversation_uuid e) f updates t
                stored meanwhile fits,
        refl,
        refl,
        refl,
      )
