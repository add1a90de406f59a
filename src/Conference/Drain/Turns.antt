-- ===== src/Conference/Drain/Turns.antt =====
-- The queue runs dry, and a conference that has ended stays so.
use seeds.Base.{
  ℕ, zero, suc, ◌≤◌, ◌≡◌, refl, Bool, true, false, List, [], ◌∷◌, ◌++◌, arith, subst, sym, ◌∙◌, ap,
  Bool-cases, inl, inr,
}
use seeds.Act.{write}
use seeds.Conference.World.{External}
use seeds.Conference.Call.{ConferenceCall, ConferenceEvent, queue_event, is_queue_processing}
use seeds.Conference.Call
use seeds.Conference.Events.{run_head, process_next, process_turns, Moment, arrives, turn, live}
use seeds.Conference.Drain.{Facts, facts_of, Quiet, Quiet-self, one_sink, sinks, same_processing}
use seeds.Conference.Drain.Queue.{
  Grown, total, left_by, weight-left_by, runs_after, execute_event-Grown,
}

module _ (x : External) (rounds : ℕ) where
  -- after the event at the head
  after_head :
      (b : Facts) (e : ConferenceEvent) (q : List ConferenceEvent) (c : ConferenceCall)
      → Quiet b (e ∷ q) c
      → Grown (runs_after e b) (left_by e (total q)) (run_head x rounds (e ∷ q) c)
  unfolding run_head
  after_head b e q c h =
      (execute_event-Grown x rounds e).leads (record c { event_queue = q })
        (record {
          running_is = h.running_is;
          task_is = λ p. same_processing c (record c { event_queue = q }) refl (h.task_is p);
          queue_is = refl;
          few = omega (arith, h.few);
        })

  empty_queue : (q : List ConferenceEvent) → total q ≤ 0 → q ≡ []
  empty_queue [] h = refl
  empty_queue (e ∷ q) h = ground (arith, weight-left_by e (total q), h)

  -- the task is there, and no event that ends it waits
  abbrev steady_facts : Bool → Facts
  steady_facts b = record { runs = b; steady = true; sinks_at_most = 0 }

  stays_steady :
      (e : ConferenceEvent) (b : Bool)
      → one_sink e ≤ 0
      → (b' : Bool) × (runs_after e (steady_facts b) ≡ steady_facts b')
  stays_steady Call.end_conference b h = (false, refl)
  stays_steady Call.sink_conference b h = absurd (omega (arith, h))
  stays_steady _ b h = (b, refl)

  turn-taken :
      (c : ConferenceCall) (q : List ConferenceEvent)
      → is_queue_processing c ≡ true
      → c.event_queue ≡ q
      → process_next x rounds c ≡ run_head x rounds q c
  unfolding process_next
  turn-taken c q t e = rw t (ap (λ w. run_head x rounds w c) e)

  abbrev Drained : ConferenceCall → Type 0
  Drained c = (c.event_queue ≡ []) × (is_queue_processing c ≡ true)

  drains :
      (n : ℕ) (b : Bool) (q : List ConferenceEvent) (c : ConferenceCall)
      → Quiet (steady_facts b) q c
      → total q ≤ n
      → Drained (process_turns x rounds n c)
  unfolding process_turns run_head
  drains zero b q c h le = (h.queue_is ∙ empty_queue q le, h.task_is refl)
  drains (suc n) b [] c h le =
      subst (λ d. Drained (process_turns x rounds n d))
        (sym (turn-taken c [] (h.task_is refl) h.queue_is)) (drains n b [] c h (omega arith))
  drains (suc n) b (e ∷ q) c h le =
      let g = after_head (steady_facts b) e q c h in
      let (b', same) = stays_steady e b (omega (arith, h.few)) in
      let quiet : Quiet (steady_facts b') g.waiting (run_head x rounds (e ∷ q) c) =
        subst (λ f. Quiet f g.waiting (run_head x rounds (e ∷ q) c)) same g.quiet in
      subst (λ d. Drained (process_turns x rounds n d))
        (sym (turn-taken c (e ∷ q) (h.task_is refl) h.queue_is))
        (drains n b' g.waiting (run_head x rounds (e ∷ q) c) quiet
          (omega (arith, g.bounded, weight-left_by e (total q), le)))

  -- Where the task of the queue is there and no event that ends the task waits, the queue is empty after
  -- as many turns as the waiting events cost (two for a change of a call's status and for an expired
  -- countdown, one for any other), if no event arrives meanwhile, and the task is still there. This
  -- holds whatever the services answer and wherever a handler is cut off.
  pub process_turns-drains :
      (n : ℕ) (c : ConferenceCall)
      → is_queue_processing c ≡ true
      → sinks c.event_queue ≡ 0
      → total c.event_queue ≤ n
      → ((process_turns x rounds n c).event_queue ≡ [])
        × (is_queue_processing (process_turns x rounds n c) ≡ true)
  process_turns-drains n c there none_sinks le =
      drains n c.state.is_running c.event_queue c
        (record {
          running_is = refl;
          task_is = λ p. there;
          queue_is = refl;
          few = omega (arith, none_sinks);
        })
        le

  stays : (e : ConferenceEvent) (b : Facts) → b.runs ≡ false → (runs_after e b).runs ≡ false
  stays Call.end_conference b h = refl
  stays Call.sink_conference b h = refl
  stays _ b h = h

  not_running-run_head :
      (q : List ConferenceEvent) (c : ConferenceCall)
      → c.event_queue ≡ q
      → c.state.is_running ≡ false
      → (run_head x rounds q c).state.is_running ≡ false
  unfolding run_head
  not_running-run_head [] c e h = h
  not_running-run_head (e ∷ q) c eq h =
      let quiet : Quiet (facts_of c) (e ∷ q) c =
        subst (λ w. Quiet (facts_of c) w c) eq (Quiet-self c) in
      let g = after_head (facts_of c) e q c quiet in g.quiet.running_is ∙ stays e (facts_of c) h

  not_running-process_next :
      (c : ConferenceCall)
      → c.state.is_running ≡ false
      → (process_next x rounds c).state.is_running ≡ false
  unfolding process_next
  not_running-process_next c h = elim (Bool-cases (is_queue_processing c)) [
    | inl t ↦ rw t (not_running-run_head c.event_queue c refl h)
    | inr n ↦ rw n h
  ]

  -- A conference that does not run does not run after any sequence of arriving events and turns.
  pub live-stays_ended :
      (ms : List Moment) (c : ConferenceCall)
      → c.state.is_running ≡ false
      → (live x rounds ms c).state.is_running ≡ false
  unfolding live queue_event write
  live-stays_ended [] c h = h
  live-stays_ended (arrives e ∷ ms) c h =
      live-stays_ended ms (record c { event_queue = c.event_queue ++ e ∷ [] }) h
  live-stays_ended (turn ∷ ms) c h =
      live-stays_ended ms (process_next x rounds c) (not_running-process_next c h)

  -- Once the event that ends the conference is taken from the queue, the conference does not run,
  -- whichever of its calls fail, and does not after any sequence of arriving events and turns.
  pub live-ended :
      (q : List ConferenceEvent) (ms : List Moment) (c : ConferenceCall)
      → c.event_queue ≡ Call.end_conference ∷ q
      → (live x rounds ms (run_head x rounds c.event_queue c)).state.is_running ≡ false
  live-ended q ms c h = live-stays_ended ms (run_head x rounds c.event_queue c) (
      subst (λ w. (run_head x rounds w c).state.is_running ≡ false) (sym h)
        (let quiet : Quiet (facts_of c) (Call.end_conference ∷ q) c =
            subst (λ w. Quiet (facts_of c) w c) h (Quiet-self c) in
          (after_head (facts_of c) Call.end_conference q c quiet).quiet.running_is))
