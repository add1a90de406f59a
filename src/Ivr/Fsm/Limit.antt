-- ===== src/Ivr/Fsm/Limit.antt =====
-- The daily limit of listening.
use seeds.Base.{
  ℕ, ◌+◌, ◌*◌, ◌/◌, ◌≤◌, ◌<◌, ◌≡◌, refl, Option, none, some, true, false, List, ◌∷◌, arith, ◌⊎◌,
}
use seeds.Act.{◌>>=◌, done}
use seeds.Ivr.Machine.{Action, LimitCheck, IvrCallState, External, Session, find_usage, add_usage}
use seeds.Ivr.Fsm.{find_usage_of, perform, over_limit, check_limit, apply_limit, used_of}

module _ (x : External) where
  within-limit :
      (used d : ℕ)
      → over_limit x used d ≡ false
      → used + d / 1000 ≤ x.ivr_daily_listening_limit_seconds
  unfolding over_limit
  within-limit used d h = ground arith

  over-limit :
      (used d : ℕ)
      → over_limit x used d ≡ true
      → (x.ivr_daily_listening_limit_seconds * 1000 < used * 1000 + d)
        ⊎ (x.ivr_daily_listening_limit_seconds ≤ used)
  unfolding over_limit
  over-limit used d h = ground arith

  check_limit-found :
      (c : LimitCheck) (s : Session) (found : Option ℕ)
      → x.usage s.calls s.doc.phone_number ≡ done found
      → check_limit x c s
        ≡ apply_limit x c
            (record s.doc { daily_limit_check = none })
            found
            (record s {
              doc = record s.doc { daily_limit_check = none };
              calls = find_usage s.doc.phone_number ∷ s.calls;
            })
  unfolding check_limit find_usage_of ◌>>=◌
  check_limit-found c s found h = rw h refl

  apply_limit-within :
      (c : LimitCheck) (doc : IvrCallState) (found : Option ℕ) (s : Session)
      → (apply_limit x c doc found s).0 ≡ done none
      → ((apply_limit x c doc found s).1.calls
          ≡ add_usage doc.phone_number (c.duration_ms / 1000) doc.tenant_id c.school_id ∷ s.calls)
        × (used_of found + c.duration_ms / 1000 ≤ x.ivr_daily_listening_limit_seconds)
  unfolding apply_limit perform ◌>>=◌
  apply_limit-within c doc found s h = ground (arith, within-limit (used_of found) c.duration_ms)

  apply_limit-over :
      (c : LimitCheck) (doc : IvrCallState) (found : Option ℕ) (s : Session) (actions : List Action)
      → (apply_limit x c doc found s).0 ≡ done (some actions)
      → ((apply_limit x c doc found s).1.calls ≡ s.calls)
        × ((x.ivr_daily_listening_limit_seconds * 1000 < used_of found * 1000 + c.duration_ms)
            ⊎ (x.ivr_daily_listening_limit_seconds ≤ used_of found))
  unfolding apply_limit perform ◌>>=◌
  apply_limit-over c doc found s actions h =
      ground (arith, over-limit (used_of found) c.duration_ms)

  -- Where the table of usage gives `found` for the caller and the limit does not stop the call, the
  -- recording's whole seconds are added to the entry of this caller, once and as the last call, and
  -- with them the caller is still within the daily limit.
  pub check_limit-within :
      (c : LimitCheck) (s : Session) (found : Option ℕ)
      → x.usage s.calls s.doc.phone_number ≡ done found
      → (check_limit x c s).0 ≡ done none
      → ((check_limit x c s).1.calls
          ≡ add_usage s.doc.phone_number (c.duration_ms / 1000) s.doc.tenant_id c.school_id
            ∷ find_usage s.doc.phone_number
            ∷ s.calls)
        × (used_of found + c.duration_ms / 1000 ≤ x.ivr_daily_listening_limit_seconds)
  check_limit-within c s found h =
      rw (check_limit-found c s found h) (λ r. apply_limit-within c _ found _ r)

  -- Where the limit stops the call, no usage is added, and the recording would have taken the caller
  -- over the limit, or the limit was used up.
  pub check_limit-over :
      (c : LimitCheck) (s : Session) (found : Option ℕ) (actions : List Action)
      → x.usage s.calls s.doc.phone_number ≡ done found
      → (check_limit x c s).0 ≡ done (some actions)
      → ((check_limit x c s).1.calls ≡ find_usage s.doc.phone_number ∷ s.calls)
        × ((x.ivr_daily_listening_limit_seconds * 1000 < used_of found * 1000 + c.duration_ms)
            ⊎ (x.ivr_daily_listening_limit_seconds ≤ used_of found))
  check_limit-over c s found actions h =
      rw (check_limit-found c s found h) (λ r. apply_limit-over c _ found _ actions r)
