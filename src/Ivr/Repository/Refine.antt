-- ===== src/Ivr/Repository/Refine.antt =====
-- The repository keeps its contract: what is stored shows as the calls of the contract.
use seeds.Ivr.Repository.{
  is_version, saved_over, without_dtmf, next_version, any_doc, awaiting, recorded, emptied,
}
use seeds.Base.{String, ◌≡◌, refl, true, false, Option, none, some, List, [], ◌∷◌, arith, map}
use seeds.Ivr.Model.{IvrCallState, PendingDtmf}
use seeds.Ivr.Collection.{Collection}
use seeds.Ivr.Repository.{
  Operation, save, await_key, claim, pop, processed, ask_duplicate, Answer, told, given, perform,
  perform_all, save_ongoing_call, set_dtmf_waiting, try_claim_dtmf_result, pop_dtmf_result,
  record_dtmf_processed, is_dtmf_duplicate, is_waiting, is_pending, answered, is_seen, is_answered,
  save_result,
}
use seeds.Ivr.Repository.Contract.{
  Box, empty, awaits, holds, Call, Calls, content_of, Told, yes_no, letter, take, open_for, filled,
  saved, awaited, claimed, popped, marked, duplicate, step, steps,
}

abbrev pub box_of : Option PendingDtmf → Box
box_of none = empty
box_of (some p) = elim p.waiting [
  | true ↦ awaits p.message_id
  | false ↦ holds p.message_id p.ncco p.should_hangup
]

abbrev pub call_of : IvrCallState → Call
call_of d = record {
  version = d.version;
  content = content_of d;
  box = box_of d.pending_dtmf;
  last = d.last_dtmf_message_id;
}

abbrev pub shown : Option IvrCallState → Option Call
shown none = none
shown (some d) = some (call_of d)

abbrev pub told_of : Answer → Told
told_of (told b) = yes_no b
told_of (given p) = letter (box_of p)

abbrev pub told_all : List (Operation × Answer) → List (Operation × Told)
told_all = map λ e. (e.0, told_of e.1)

module _ {C : Type 0} (col : Collection C IvrCallState) where
  open col use {
    find_one, update_one-matched, find-update_one, upsert_one-upserted, find-upsert_one,
    find_one_and_update-found, find-find_one_and_update,
  }

  abbrev pub view : C → Calls
  view c k = shown (find_one k c)

  told-step : (o : Operation) (c : C) → told_of (perform col o c).0 ≡ (step o (view c)).0
  unfolding perform step save_ongoing_call saved save_result set_dtmf_waiting awaited
      try_claim_dtmf_result claimed open_for is_waiting pop_dtmf_result popped take is_pending
      record_dtmf_processed marked is_dtmf_duplicate duplicate filled is_seen is_answered
  told-step (save now s) c =
      let new = next_version now s in
      ground (
        arith,
        upsert_one-upserted s.id (is_version s.version) (saved_over new) (without_dtmf new) c,
      )
  told-step (await_key now k m) c = ground (arith, update_one-matched k any_doc (awaiting now m) c)
  told-step (claim now k m ncco h) c =
      ground (arith, update_one-matched k (is_waiting m) (answered now ncco h) c)
  told-step (pop now k m) c =
      ground (arith, find_one_and_update-found k (is_pending m) (emptied now) c)
  told-step (processed now k m) c = ground (arith, update_one-matched k any_doc (recorded now m) c)
  told-step (ask_duplicate k m) c = ground arith

  shown-step :
      (o : Operation) (c : C) (j : String) → view (perform col o c).1 j ≡ (step o (view c)).1 j
  unfolding perform step save_ongoing_call saved set_dtmf_waiting awaited try_claim_dtmf_result
      claimed open_for is_waiting answered pop_dtmf_result popped take is_pending
      record_dtmf_processed marked
  shown-step (save now s) c j =
      let new = next_version now s in
      ground
        (arith, find-upsert_one s.id j (is_version s.version) (saved_over new) (without_dtmf new) c)
  shown-step (await_key now k m) c j =
      ground (arith, find-update_one k j any_doc (awaiting now m) c)
  shown-step (claim now k m ncco h) c j =
      ground (arith, find-update_one k j (is_waiting m) (answered now ncco h) c)
  shown-step (pop now k m) c j =
      ground (arith, find-find_one_and_update k j (is_pending m) (emptied now) c)
  shown-step (processed now k m) c j =
      ground (arith, find-update_one k j any_doc (recorded now m) c)
  shown-step (ask_duplicate k m) c j = refl

  -- Each operation answers as the contract says, and leaves the calls as the contract does.
  perform_refines :
      (o : Operation) (c : C)
      → (told_of (perform col o c).0, view (perform col o c).1) ≡ step o (view c)
  perform_refines o c i = (told-step o c i, λ j. shown-step o c j i)

  -- Whatever operations the tasks carry out, in any order, on any calls: they are answered as the
  -- contract says, and what is stored in the end shows as the calls that the contract leaves.
  pub perform_all_refines :
      (os : List Operation) (c : C)
      → let (t, c') = perform_all col os c in (told_all t, view c') ≡ steps os (view c)
  unfolding perform_all steps
  perform_all_refines [] c = refl
  perform_all_refines (o ∷ os) c =
      rw (← perform_refines o c, ← perform_all_refines os (perform col o c).1) refl
