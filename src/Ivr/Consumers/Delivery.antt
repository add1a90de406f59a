-- ===== src/Ivr/Consumers/Delivery.antt =====
-- What becomes of a message that is delivered twice.
use seeds.Base.{
  ℕ, String, ◌≡◌, refl, true, Option, none, some, truthy, is_given, arith, ap, ◌∙◌, text_or,
}
use seeds.Act.{done, pure, reading, ◌>>=◌}
use seeds.Ivr.Model.{IvrCallState}
use seeds.Ivr.Collection.{Collection}
use seeds.Ivr.Repository.{any_doc, recorded, is_seen, is_dtmf_duplicate, record_dtmf_processed}
use seeds.Ivr.Service.{
  read_call, write_call, Surroundings, Service, Carried, carried, failed, cut_off, db, delivered,
  disturbed, now,
}
use seeds.Ivr.Consumers.{DtmfMessage, record_processed, process_leg, find_leg, process}

module _ {C : Type 0} (col : Collection C IvrCallState) (x : Surroundings C) where
  open col use {find_one, find-update_one, update_one-matched}

  duplicate-seen :
      (k m : String) (d : IvrCallState) (c : C)
      → find_one k c ≡ some d
      → d.last_dtmf_message_id ≡ some m
      → is_dtmf_duplicate col k m c ≡ true
  unfolding is_dtmf_duplicate is_seen
  duplicate-seen k m d c there seen = ground (arith, there, seen)

  -- the last key press of a call is known
  process_leg-seen :
      (m : DtmfMessage) (k : String) (d : IvrCallState) (s : Service C)
      → x.carries s.calls read_call ≡ carried
      → find_one k (x.meanwhile s.calls s.ongoing) ≡ some d
      → d.last_dtmf_message_id ≡ some m.message_id
      → process_leg col x m k s ≡ (done tt, disturbed x read_call s)
  unfolding process_leg db delivered ◌>>=◌ pure
  process_leg-seen m k d s sent there seen =
      rw (sent, duplicate-seen k m.message_id d (x.meanwhile s.calls s.ongoing) there seen) refl

  process-leg :
      (m : DtmfMessage) (k : String) (s : Service C)
      → is_given m.conversation_uuid ≡ true
      → m.call_leg_id ≡ some k
      → truthy k ≡ true
      → process col x m s ≡ process_leg col x m k s
  unfolding process find_leg ◌>>=◌ pure
  process-leg m k s conversation leg known =
      let named : text_or (some k) "" ≡ k = ground (arith, known) in
      let given : is_given m.call_leg_id ≡ true = rw leg known in
      let step : process col x m s ≡ process_leg col x m (text_or m.call_leg_id "") s =
        rw (conversation, given) (rw given refl) in
      step
      ∙ ap (λ j. process_leg col x m (text_or j "") s) leg
      ∙ ap (λ j. process_leg col x m j s) named

  marked :
      (k m : String) (time : ℕ) (c : C) (o : Option IvrCallState)
      → find_one k c ≡ o
      → (record_dtmf_processed col time k m c).0 ≡ true
      → (d : IvrCallState) × (find_one k (record_dtmf_processed col time k m c).1 ≡ some d)
        × (d.last_dtmf_message_id ≡ some m)
  unfolding record_dtmf_processed
  marked k m time c none e h =
      absurd (ground (arith, update_one-matched k any_doc (recorded time m) c, e, h))
  marked k m time c (some d) e h =
      (recorded time m d, ground (arith, find-update_one k k any_doc (recorded time m) c, e), refl)

  delivered-recorded :
      (k m : String) (time : ℕ) (r : Carried) (s : Service C)
      → (delivered (record_dtmf_processed col time k m) r s).0 ≡ done true
      → (d : IvrCallState) × (find_one k
            (delivered (record_dtmf_processed col time k m) r s).1.ongoing
          ≡ some d)
        × (d.last_dtmf_message_id ≡ some m)
  unfolding delivered
  delivered-recorded k m time carried s h =
      marked k m time s.ongoing (find_one k s.ongoing) refl (ground (arith, h))
  delivered-recorded k m time (failed b e) s h = cc h
  delivered-recorded k m time (cut_off b) s h = cc h

  -- Where the answer to a key press was marked as processed, a second delivery of its message does
  -- nothing but read the call: the machine makes no step, nothing is stored, and nothing is sent; if
  -- the message names its call, the read is carried out, and no other task changes this call meanwhile.
  pub process-twice :
      (m : DtmfMessage) (k : String) (s : Service C)
      → is_given m.conversation_uuid ≡ true
      → m.call_leg_id ≡ some k
      → truthy k ≡ true
      → (record_processed col x k m.message_id s).0 ≡ done true
      → let t = (record_processed col x k m.message_id s).1 in
        x.carries t.calls read_call ≡ carried
        → find_one k (x.meanwhile t.calls t.ongoing) ≡ find_one k t.ongoing
        → process col x m t ≡ (done tt, disturbed x read_call t)
  unfolding record_processed reading db
  process-twice m k s conversation leg known h sent quiet =
      let (d, there, seen) =
        delivered-recorded k m.message_id (now x s) (x.carries s.calls write_call)
          (disturbed x write_call s) h in
      process-leg m k _ conversation leg known ∙ process_leg-seen m k d _ sent (quiet ∙ there) seen
