-- ===== src/Conference/Dialing/Retry.antt =====
-- How often a call is tried, and who is called.
use seeds.Base.{
  ℕ, zero, suc, ◌+◌, ◌≤◌, ◌≡◌, refl, Bool, true, false, List, [], ◌∷◌, arith, if◌then◌else◌,
}
use seeds.Act.{raised, Exn, catch, raise, ◌>>=◌}
use seeds.Conference.World.{Effect, create_call, sleep, External, CallData, ask, perform}
use seeds.Conference.Dialing.{create_call_from, create_call_with_retry, is_transient, backoff}

abbrev pub is_create_call : Effect → Bool
is_create_call (create_call d) = true
is_create_call _ = false

-- the calls to `voice.create_call` in a history
abbrev pub attempts : List Effect → ℕ
attempts [] = 0
attempts (e ∷ h) = if is_create_call e then suc (attempts h) else attempts h

module _ (x : External) where
  attempts-create_call_from :
      (left attempt : ℕ) (d : CallData) (h : List Effect)
      → attempts (create_call_from x left attempt d h).1 ≤ left + attempts h
  unfolding create_call_from catch raise ask perform ◌>>=◌
  attempts-create_call_from zero attempt d h = omega arith
  attempts-create_call_from (suc left) attempt d h = ground (
    arith,
    attempts-create_call_from left (suc attempt) d (sleep (backoff attempt) ∷ create_call d ∷ h),
  )

  -- A call is tried at most as often as `max_retries` says, whatever the service answers.
  pub create_call_with_retry-attempts :
      (d : CallData) (n : ℕ) (h : List Effect)
      → attempts (create_call_with_retry x d n h).1 ≤ n + attempts h
  unfolding create_call_with_retry
  create_call_with_retry-attempts d n h = attempts-create_call_from n 0 d h

  -- An error of the first attempt that is neither a rate limit nor a network error is raised at once,
  -- with no wait and no further attempt.
  pub create_call_with_retry-raises :
      (d : CallData) (n : ℕ) (h : List Effect) (e : Exn)
      → x.created h d ≡ raised e
      → is_transient e ≡ false
      → create_call_with_retry x d (suc n) h ≡ (raised e, create_call d ∷ h)
  unfolding create_call_with_retry create_call_from catch raise ask
  create_call_with_retry-raises d n h e r t = rw (r, t) refl
