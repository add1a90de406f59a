-- ===== src/Ivr/Service/Lifecycle/Archive.antt =====
-- The end of a call: its document is moved to the logs, and what a late key press does to that.
use seeds.Base.{
  ℕ, zero, suc, String, ◌≡◌, refl, Bool, true, false, ◌⊎◌, inl, inr, Option, none, some, List, ◌≢◌,
  ap, if◌then◌else◌, arith, subst, ◌∙◌, eqb,
}
use seeds.Act.{
  Exn, Reply, handled, value_error, other_error, Act, done, raise, raised, cancelled, catch, write,
  pure, reading, maybe, ◌>>=◌, ◌>>◌,
}
use seeds.Act.Yields.{
  Yields, After, Yields-pure, Yields-if, Yields-maybe, Yields-bind, Yields-any, Yields-raise,
  Yields-weaken, Anyhow, Anything, Yields-done,
}
use seeds.Act.Fails.{
  IfRaised, Fails, Fails-pure, Fails-raise, Fails-if, Fails-maybe, Fails-catch, Fails-bind,
}
use seeds.Dict.{Dict}
use seeds.Ivr.Model.{IvrCallState, StatusUpdate}
use seeds.Ivr.Collection.{Collection}
use seeds.Ivr.Repository.{
  save_ongoing_call, without_dtmf, next_version, is_version, saved_over, save_result,
}
use seeds.Ivr.Service.{
  ask, sleep, Request, read_call, write_call, archive_call, answer_of, Surroundings, Service,
  Carried, carried, failed, cut_off, db, delivered, disturbed, now,
}
use seeds.Ivr.Service.Dtmf.{attempt, is_readable, from_mongo}
use seeds.Ivr.Service.Lifecycle.{
  IvrCallStatus, status_of, is_end, CallEvent, put_log, set_fields, set_call, unless_value_error,
  stopped, end_call, on_status, process_call_event,
}

module _ {C : Type 0} (col : Collection C IvrCallState) (x : Surroundings C) (k : String) where
  open col use {find_one, find-delete_one, find-update_one, find-upsert_one, upsert_one-upserted}

  -- no document of the call
  abbrev pub IsGone : Service C → Type 0
  IsGone s = find_one k s.ongoing ≡ none

  -- what a read gave is what stands in the collection
  abbrev Read : Option IvrCallState → Service C → Type 0
  Read o s = find_one k s.ongoing ≡ o

  delivered-Read :
      (r : Carried) (s : Service C)
      → let m = delivered (λ c. (find_one k c, c)) r s in After Read m.0 m.1
  unfolding delivered
  delivered-Read carried s = refl
  delivered-Read (failed b e) s = tt
  delivered-Read (cut_off b) s = tt

  Yields-lookup : (q : Request) → Yields Anyhow Read (db x q (λ c. (find_one k c, c)))
  unfolding db
  Yields-lookup q = record {
    yields = λ s u. delivered-Read (x.carries s.calls q) (disturbed x q s);
  }

  -- nothing was found, and nothing is there
  abbrev Missed : Option IvrCallState → Service C → Type 0
  Missed none s = IsGone s
  Missed (some d) s = Unit

  Yields-one_attempt :
      (delay : ℕ) (b : Bool) (rest : Act (Service C) (Option IvrCallState))
      → (b ≡ false → Yields Anyhow Missed rest)
      → Yields Anyhow Missed (
          db x read_call (λ c. (find_one k c, c)) >>= λ found.
          maybe found (if b then pure none else ask x (sleep delay) >> rest) λ a. pure (some a))
  Yields-one_attempt delay b rest h = Yields-bind _ _ (Yields-lookup read_call) (λ o.
      Yields-maybe o _ _
        (λ e.
          Yields-if b _ _ (λ t. Yields-pure none (λ s r. r ∙ e))
            (λ f. Yields-weaken _ (Yields-bind _ _ (Yields-any _) (λ u. h f))))
        (λ d e. Yields-pure (some d) (λ s r. tt)))

  Yields-attempt :
      (delay n : ℕ)
      → Yields Anyhow Missed (attempt col x (λ c. (find_one k c, c)) read_call delay (suc n))
  unfolding attempt
  Yields-attempt delay zero = Yields-one_attempt delay (eqb 0 0) (pure none) (λ e. cc e)
  Yields-attempt delay (suc n) =
      Yields-one_attempt delay (eqb (suc n) 0) _ (λ e. Yields-attempt delay n)

  delivered-Gone :
      (r : Carried) (s : Service C)
      → let m = delivered {A = Unit {0}} (λ c. (tt, col.delete_one k c)) r s in
        After (λ u. IsGone) m.0 m.1
  unfolding delivered
  delivered-Gone carried s = ground (arith, find-delete_one k k s.ongoing)
  delivered-Gone (failed b e) s = tt
  delivered-Gone (cut_off b) s = tt

  -- a document is there that `from_mongo` refuses
  pub record IsStuck (s : Service C) : Type 0 where
    pub left : IvrCallState
    pub found : find_one k s.ongoing ≡ some left
    pub refused : is_readable left.duration ≡ false

  -- a ValueError comes only of such a document
  abbrev Refused : Exn → Service C → Type 0
  Refused err s = err ≡ value_error → IsStuck s

  -- the database and the other services raise other exceptions
  abbrev pub IsSane : Type 0
  IsSane = (h : List Request) (q : Request) (b : Bool) → x.carries h q ≢ failed b value_error

  module _ (sane : IsSane) where
    delivered-Refused {ℓ} :
        {A : Type ℓ} (f : C → A × C) (r : Carried) (s : Service C)
        → ((b : Bool) → r ≢ failed b value_error)
        → IfRaised Refused (delivered f r s).0 (delivered f r s).1
    unfolding delivered
    delivered-Refused f carried s h = tt
    delivered-Refused f (failed b err) s h = λ e. absurd (h b (ap (failed b) e))
    delivered-Refused f (cut_off b) s h = tt

    Fails-db {ℓ} : {A : Type ℓ} (q : Request) (f : C → A × C) → Fails Anyhow Refused (db x q f)
    unfolding db
    Fails-db q f = record {
      fails = λ s u.
          delivered-Refused f (x.carries s.calls q) (disturbed x q s) (λ b. sane s.calls q b);
    }

    answer-Refused :
        (r : Carried) (s : Service C)
        → ((b : Bool) → r ≢ failed b value_error)
        → IfRaised Refused (answer_of r) s
    answer-Refused carried s h = tt
    answer-Refused (failed b err) s h = λ e. absurd (h b (ap (failed b) e))
    answer-Refused (cut_off b) s h = tt

    Fails-put_log : (d : IvrCallState) → Fails Anyhow Refused (put_log col x k d)
    unfolding put_log ask write
    Fails-put_log d =
        Fails-bind {M = Anything} _ _
          (record {
            fails = λ s u.
                answer-Refused (x.carries s.calls (archive_call k)) _
                  (λ b. sane s.calls (archive_call k) b);
          })
          (Yields-any _) (λ u. record { fails = λ s v. tt })

    Fails-set_call :
        (e : CallEvent) (f : IvrCallState → Dict StatusUpdate → IvrCallState)
        → Fails Anyhow Refused (set_call col x k e f)
    unfolding set_call
    Fails-set_call e f =
        Fails-bind {M = Anything} _ _ (Fails-db write_call (set_fields col x k e f)) (Yields-any _)
          (λ b. Fails-if b _ _ (Fails-pure tt) (Fails-raise other_error (λ s u q. cc q)))

    Fails-checked :
        (d : IvrCallState) (b : Bool)
        → is_readable d.duration ≡ b
        → Fails
            (Read (some d))
            Refused
            (if b then pure {S = Service C} (some d) else raise value_error)
    Fails-checked d true e = Fails-pure (some d)
    Fails-checked d false e =
        Fails-raise value_error (λ s r q. record { left = d; found = r; refused = e })

    Fails-from_mongo :
        (o : Option IvrCallState) → Fails (Read o) Refused (from_mongo {S = Service C} o)
    unfolding from_mongo
    Fails-from_mongo none = Fails-pure none
    Fails-from_mongo (some d) = Fails-checked d (is_readable d.duration) refl

    Fails-end_call :
        (conversation_uuid : String) (e : CallEvent)
        → Fails Anyhow Refused (end_call col x k conversation_uuid e)
    unfolding end_call reading
    Fails-end_call conversation_uuid e =
        Fails-bind {M = Anything} _ _
          (record {
            fails = λ s u. (Fails-set_call e (stopped (now x s) conversation_uuid e)).fails s tt;
          })
          (Yields-any _)
          (λ u. Fails-bind {M = Read} _ _ (Fails-db read_call _) (Yields-lookup read_call) (λ o.
            Fails-bind {M = Anything} _ _ (Fails-from_mongo o) (Yields-any _) (λ final_doc.
              Fails-bind {M = Anything} _ _
                (Fails-maybe final_doc _ _ (Fails-pure tt) (λ d p.
                  Fails-bind {M = Anything} _ _ (Fails-put_log d) (Yields-any _)
                    (λ v. Fails-catch _ _ (λ err. Fails-pure tt))))
                (Yields-any _) (λ v. Fails-db write_call (λ c. (tt, col.delete_one k c))))))

  Yields-end_call :
      (conversation_uuid : String) (e : CallEvent)
      → Yields Anyhow (λ u. IsGone) (end_call col x k conversation_uuid e)
  unfolding end_call db
  Yields-end_call conversation_uuid e = Yields-bind _ _ (Yields-any _) (λ u.
      Yields-bind _ _ (Yields-any _) (λ found. Yields-bind _ _ (Yields-any _) (λ final_doc.
        Yields-bind _ _ (Yields-any _) (λ v. record {
          yields = λ s w. delivered-Gone (x.carries s.calls write_call) (disturbed x write_call s);
        }))))

  Yields-from_mongo :
      (o : Option IvrCallState) → Yields (Missed o) Missed (from_mongo {S = Service C} o)
  unfolding from_mongo
  Yields-from_mongo none = Yields-pure none (λ s g. g)
  Yields-from_mongo (some d) =
      Yields-if (is_readable d.duration) _ _ (λ e. Yields-pure (some d) (λ s u. tt))
        (λ e. Yields-raise value_error)

  -- no document of the call, or one that cannot be read
  abbrev Ended : Unit {0} → Service C → Type 0
  Ended u s = IsGone s ⊎ IsStuck s

  excused :
      (err : Exn) (s : Service C)
      → Refused err s
      → After Ended (unless_value_error err s).0 (unless_value_error err s).1
  unfolding unless_value_error pure raise
  excused value_error s h = inr (h refl)
  excused _ s h = tt

  caught :
      (r : Reply (Unit {0})) (s : Service C)
      → After (λ u. IsGone) r s
      → IfRaised Refused r s
      → After Ended (handled unless_value_error r s).0 (handled unless_value_error r s).1
  caught (done u) s g h = inl g
  caught (raised err) s g h = excused err s h
  caught cancelled s g h = tt

  Yields-archived :
      IsSane
      → (conversation_uuid : String) (e : CallEvent)
      → Yields Anyhow Ended (catch (end_call col x k conversation_uuid e) unless_value_error)
  unfolding catch
  Yields-archived sane conversation_uuid e = record {
    yields = λ s u.
        let m = end_call col x k conversation_uuid e s in
        caught m.0 m.1 ((Yields-end_call conversation_uuid e).yields s tt)
          ((Fails-end_call sane conversation_uuid e).fails s tt);
  }

  Yields-process_call_event :
      IsSane
      → (conversation_uuid : String) (e : CallEvent) (status : IvrCallStatus)
      → status_of e.status ≡ some status
      → is_end status ≡ true
      → Yields Anyhow Ended (process_call_event col x k conversation_uuid e)
  unfolding process_call_event on_status maybe
  Yields-process_call_event sane conversation_uuid e status known final =
      Yields-bind _ _ (Yields-bind _ _ (Yields-attempt 1000 4) Yields-from_mongo) (λ found.
        Yields-maybe found _ _ (λ p. Yields-pure tt (λ s m. inl (subst (λ o. Missed o s) p m)))
          (λ d p. rw (known, final) (Yields-weaken _ (Yields-archived sane conversation_uuid e))))

  -- Where no request fails with a ValueError, an event with a final status is processed, and this
  -- returns, no document of the call is left among the calls that go on, whether there was one, or the
  -- event came too early or again; or one is left whose duration is no text, so that it cannot be read.
  pub process_call_event-ended :
      IsSane
      → (conversation_uuid : String) (e : CallEvent) (status : IvrCallStatus) (s : Service C)
      → status_of e.status ≡ some status
      → is_end status ≡ true
      → (process_call_event col x k conversation_uuid e s).0 ≡ done tt
      → let c = (process_call_event col x k conversation_uuid e s).1 in IsGone c ⊎ IsStuck c
  process_call_event-ended sane conversation_uuid e status s known final h =
      Yields-done (process_call_event col x k conversation_uuid e)
        (Yields-process_call_event sane conversation_uuid e status known final) s tt tt h

  -- a save where no document is
  save-revived :
      (time : ℕ) (d : IvrCallState) (c : C)
      → find_one k c ≡ none
      → d.id ≡ k
      → let (r, c') = save_ongoing_call col time d c in
        (r.0 ≡ true) × (find_one k c' ≡ some (without_dtmf (next_version time d)))
  unfolding save_ongoing_call save_result
  save-revived time d c gone own =
      let new = next_version time d in
      ground (
        arith,
        upsert_one-upserted d.id (is_version d.version) (saved_over new) (without_dtmf new) c,
        find-upsert_one d.id k (is_version d.version) (saved_over new) (without_dtmf new) c,
        gone,
        own,
      )

  -- A key press that was being processed when the call ended brings the call back: where no request
  -- fails with a ValueError, and an event with a final status was processed and this returned, a save
  -- of a document of the call that was read before is done, and the call stands among the calls that
  -- go on again; unless a document was left whose duration is no text.
  pub process_call_event-revived :
      IsSane
      → (conversation_uuid : String) (e : CallEvent) (status : IvrCallStatus) (s : Service C)
        (time : ℕ) (d : IvrCallState)
      → status_of e.status ≡ some status
      → is_end status ≡ true
      → d.id ≡ k
      → (process_call_event col x k conversation_uuid e s).0 ≡ done tt
      → let after = (process_call_event col x k conversation_uuid e s).1 in
        let (r, c) = save_ongoing_call col time d after.ongoing in
        ((r.0 ≡ true) × (find_one k c ≡ some (without_dtmf (next_version time d)))) ⊎ IsStuck after
  process_call_event-revived sane conversation_uuid e status s time d known final own h =
      elim (process_call_event-ended sane conversation_uuid e status s known final h) [
        | inl gone ↦ inl (save-revived time d _ gone own)
        | inr stuck ↦ inr stuck
      ]
