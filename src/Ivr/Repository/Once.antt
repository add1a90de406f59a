-- ===== src/Ivr/Repository/Once.antt =====
-- What happens at most once, whatever the tasks do: a save of a version, a claim of an answer, and
-- the delivery of it.
use seeds.Base.{
  ℕ, ◌+◌, ◌≤◌, String, ◌==◌, ◌≡◌, refl, Bool, true, false, Option, none, some, List, [], ◌∷◌, ◌&&◌,
  eqb, leb, is_some, arith, ap,
}
use seeds.Ivr.Model.{IvrCallState}
use seeds.Ivr.Collection.{Collection}
use seeds.Ivr.Repository.{
  Operation, save, await_key, claim, pop, processed, ask_duplicate, perform_all,
}
use seeds.Ivr.Repository.Contract.{
  Box, holds, Call, Calls, Told, yes_no, letter, take, open_for, saved, awaited, claimed, popped,
  marked, step, steps,
}
use seeds.Ivr.Repository.Refine.{view, told_all, perform_all_refines}

abbrev pub sum_of {ℓ} : {A : Type ℓ} → (A → ℕ) → List A → ℕ
sum_of f [] = 0
sum_of f (a ∷ rest) = f a + sum_of f rest

abbrev pub one_if : Bool → ℕ
one_if true = 1
one_if false = 0

-- What every operation takes from a store, all of them together take from it.
within :
    (gain : Operation × Told → ℕ) (cost : Operation → ℕ) (room : Calls → ℕ)
    → ((o : Operation) (calls : Calls)
        → gain (o, (step o calls).0) + room (step o calls).1 ≤ room calls + cost o)
    → (os : List Operation) (calls : Calls)
    → sum_of gain (steps os calls).0 ≤ room calls + sum_of cost os
unfolding steps
within gain cost room h [] calls = omega arith
within gain cost room h (o ∷ os) calls =
    omega (arith, h o calls, within gain cost room h os (step o calls).1)

-- a save of this version of this call that was done
abbrev pub is_save : String → ℕ → Operation × Told → Bool
is_save k v (save now s, yes_no b) = (s.id == k) && eqb s.version v && b
is_save k v _ = false

-- a claim for this key press that was granted
abbrev pub is_claim : String → String → Operation × Told → Bool
is_claim k m (claim now j n ncco h, yes_no b) = (j == k) && (n == m) && b
is_claim k m _ = false

abbrev pub is_await : String → String → Operation → Bool
is_await k m (await_key now j n) = (j == k) && (n == m)
is_await k m _ = false

-- an answer to this key press that was taken out
abbrev pub is_delivery : String → String → Operation × Told → Bool
is_delivery k m (pop now j n, letter (holds i ncco h)) = (j == k) && (n == m) && is_some ncco
is_delivery k m _ = false

abbrev pub save_room : ℕ → Option Call → ℕ
save_room v none = 1
save_room v (some call) = one_if (leb call.version v)

abbrev pub claim_room : String → Option Call → ℕ
claim_room m none = 0
claim_room m (some call) = one_if (open_for m call.box)

abbrev holds_answer : String → Box → Bool
holds_answer m (holds n ncco h) = (n == m) && is_some ncco
holds_answer m _ = false

abbrev pub answer_room : String → Option Call → ℕ
answer_room m none = 0
answer_room m (some call) = one_if (holds_answer m call.box)

save-takes :
    (k : String) (v : ℕ) (o : Operation) (calls : Calls)
    → one_if (is_save k v (o, (step o calls).0)) + save_room v ((step o calls).1 k)
      ≤ save_room v (calls k) + 0
unfolding step saved awaited claimed popped marked
save-takes k v (save now s) calls = ground arith
save-takes k v (await_key now j n) calls = ground arith
save-takes k v (claim now j n ncco h) calls = ground arith
save-takes k v (pop now j n) calls = ground arith
save-takes k v (processed now j n) calls = ground arith
save-takes k v (ask_duplicate j n) calls = omega arith

claim-takes :
    (k m : String) (o : Operation) (calls : Calls)
    → one_if (is_claim k m (o, (step o calls).0)) + claim_room m ((step o calls).1 k)
      ≤ claim_room m (calls k) + one_if (is_await k m o)
unfolding step saved awaited claimed popped marked open_for
claim-takes k m (save now s) calls = ground arith
claim-takes k m (await_key now j n) calls = ground arith
claim-takes k m (claim now j n ncco h) calls = ground arith
claim-takes k m (pop now j n) calls = ground arith
claim-takes k m (processed now j n) calls = ground arith
claim-takes k m (ask_duplicate j n) calls = omega arith

delivery-takes :
    (k m : String) (o : Operation) (calls : Calls)
    → one_if (is_delivery k m (o, (step o calls).0))
        + (answer_room m ((step o calls).1 k) + claim_room m ((step o calls).1 k))
      ≤ answer_room m (calls k) + claim_room m (calls k) + one_if (is_await k m o)
unfolding step saved awaited claimed popped marked open_for take
delivery-takes k m (save now s) calls = ground arith
delivery-takes k m (await_key now j n) calls = ground arith
delivery-takes k m (claim now j n ncco h) calls = ground arith
delivery-takes k m (pop now j n) calls = ground arith
delivery-takes k m (processed now j n) calls = ground arith
delivery-takes k m (ask_duplicate j n) calls = omega arith

sum_of-zero : (os : List Operation) → sum_of (λ o. 0) os ≡ 0
sum_of-zero [] = refl
sum_of-zero (o ∷ os) = omega (arith, sum_of-zero os)

save_room-le : (v : ℕ) (call : Option Call) → save_room v call ≤ 1
save_room-le v none = omega arith
save_room-le v (some call) = ground arith

module _ {C : Type 0} (col : Collection C IvrCallState) where
  -- the operations of the tasks with what they were told
  abbrev pub trace : List Operation → C → List (Operation × Told)
  trace os c = told_all (perform_all col os c).0

  trace-steps : (os : List Operation) (c : C) → trace os c ≡ (steps os (view col c)).0
  trace-steps os c = ap (λ r. r.0) (perform_all_refines col os c)

  -- Whatever the tasks do, in any order, at most one save of a given version of a given call is done,
  -- as long as the document of the call is not deleted: no save overwrites what another task saved
  -- since its own read.
  pub save_ongoing_call-once :
      (k : String) (v : ℕ) (os : List Operation) (c : C)
      → sum_of (λ e. one_if (is_save k v e)) (trace os c) ≤ 1
  save_ongoing_call-once k v os c = rw (trace-steps os c) (
      omega (
        arith,
        within (λ e. one_if (is_save k v e)) (λ o. 0) (λ calls. save_room v (calls k))
            (save-takes k v) os (view col c),
        sum_of-zero os,
        save_room-le v (view col c k),
      ))

  -- Whatever the tasks do, in any order, an answer to a key press is claimed at most as often as the
  -- key press was announced, and once more where it was waited for before.
  pub try_claim_dtmf_result-once :
      (k m : String) (os : List Operation) (c : C)
      → sum_of (λ e. one_if (is_claim k m e)) (trace os c)
        ≤ claim_room m (view col c k) + sum_of (λ o. one_if (is_await k m o)) os
  try_claim_dtmf_result-once k m os c = rw (trace-steps os c) (
      within (λ e. one_if (is_claim k m e)) (λ o. one_if (is_await k m o))
        (λ calls. claim_room m (calls k)) (claim-takes k m) os (view col c))

  -- Whatever the tasks do, in any order, the answer to a key press is taken out at most as often as
  -- the key press was announced, and once more where it was waited for or answered before.
  pub pop_dtmf_result-once :
      (k m : String) (os : List Operation) (c : C)
      → sum_of (λ e. one_if (is_delivery k m e)) (trace os c)
        ≤ answer_room m (view col c k)
          + claim_room m (view col c k)
          + sum_of (λ o. one_if (is_await k m o)) os
  pop_dtmf_result-once k m os c = rw (trace-steps os c) (
      within (λ e. one_if (is_delivery k m e)) (λ o. one_if (is_await k m o))
        (λ calls. answer_room m (calls k) + claim_room m (calls k)) (delivery-takes k m) os
        (view col c))
