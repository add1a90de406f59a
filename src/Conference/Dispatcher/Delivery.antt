-- ===== src/Conference/Dispatcher/Delivery.antt =====
-- What a webhook changes.
use seeds.Base.{
  String, ◌≡◌, refl, ◌≢◌, Option, none, some, List, [], ◌∷◌, ◌++◌, append-nil, length, ◌≤◌, arith,
  ap, sym, ◌∙◌,
}
use seeds.Dict.{Dict, get, get-insert_self, get-insert_ne}
use seeds.Act.{write}
use seeds.Conference.Call.{ConferenceCall, ConferenceEvent, queue_event}
use seeds.Conference.Manager.{Manager, get_conference}
use seeds.Conference.CallerState.{CallerState, get_current_state}
use seeds.Conference.Events.Status.{validate_status, get_conf_call_status_change_event}
use seeds.Conference.CallerState.Updates.{get_current_state-update_state}
use seeds.Conference.Dispatcher.{
  status_event, transfer_event, enqueue, deliver, dispatch_to, dispatch_conference_event,
}

enqueue-ne :
    (k j : String) (e : ConferenceEvent) (c : ConferenceCall) (g : Manager)
    → k ≢ j
    → get j (enqueue k e c g).conferences ≡ get j g.conferences
unfolding enqueue
enqueue-ne k j e c g ne = get-insert_ne k j _ g.conferences ne

enqueue_self :
    (k : String) (e : ConferenceEvent) (c : ConferenceCall) (g : Manager)
    → get k (enqueue k e c g).conferences
      ≡ some (record c { event_queue = c.event_queue ++ e ∷ [] })
unfolding enqueue queue_event write
enqueue_self k e c g = get-insert_self k _ g.conferences

deliver-ne :
    (k j : String) (c : ConferenceCall) (g : Manager) (callers : CallerState)
    (o : Option (String × String)) (t : Option ConferenceEvent)
    → k ≢ j
    → (get j (deliver k c g callers o t).0.conferences ≡ get j g.conferences)
      × (get_current_state j (deliver k c g callers o t).1 ≡ get_current_state j callers)
unfolding deliver
deliver-ne k j c g callers (some (s, p)) t ne =
    (enqueue-ne k j _ c g ne, (get_current_state-update_state k p j _ callers ne).1)
deliver-ne k j c g callers none (some e) ne = (enqueue-ne k j e c g ne, refl)
deliver-ne k j c g callers none none ne = (refl, refl)

deliver-one :
    (k : String) (c : ConferenceCall) (g : Manager) (callers : CallerState)
    (o : Option (String × String)) (t : Option ConferenceEvent)
    → get k g.conferences ≡ some c
    → (es : List ConferenceEvent) × (get k (deliver k c g callers o t).0.conferences
        ≡ some (record c { event_queue = c.event_queue ++ es }))
      × (length es ≤ 1)
unfolding deliver
deliver-one k c g callers (some (s, p)) t found =
    let e = get_conf_call_status_change_event (validate_status s) p in
    (e ∷ [], enqueue_self k e c g, omega arith)
deliver-one k c g callers none (some e) found = (e ∷ [], enqueue_self k e c g, omega arith)
deliver-one k c g callers none none found = (
  [],
  found ∙ ap (λ q. some (record c { event_queue = q })) (sym (append-nil c.event_queue)),
  omega arith,
)

dispatch-found :
    (d : Dict String) (k : String) (c : ConferenceCall) (g : Manager) (callers : CallerState)
    → get k g.conferences ≡ some c
    → dispatch_conference_event d k g callers
      ≡ deliver k c g callers (status_event d) (transfer_event d)
unfolding dispatch_conference_event dispatch_to get_conference
dispatch-found d k c g callers found = rw (found, dispatch_conference_event) refl

-- A webhook for a conference adds at most one event to that conference's queue, behind those that
-- wait, and changes nothing else of it; any other conference, and what a long poll of it sees, stays
-- as it was. Condition: the conference is registered.
pub dispatch_conference_event-one :
    (d : Dict String) (k j : String) (c : ConferenceCall) (g : Manager) (callers : CallerState)
    → get k g.conferences ≡ some c
    → k ≢ j
    → ((es : List ConferenceEvent) × (get k (dispatch_conference_event d k g callers).0.conferences
          ≡ some (record c { event_queue = c.event_queue ++ es }))
        × (length es ≤ 1))
      × (get j (dispatch_conference_event d k g callers).0.conferences ≡ get j g.conferences)
      × (get_current_state j (dispatch_conference_event d k g callers).1
          ≡ get_current_state j callers)
dispatch_conference_event-one d k j c g callers found ne =
    let others = deliver-ne k j c g callers (status_event d) (transfer_event d) ne in
    rw (dispatch-found d k c g callers found)
      (deliver-one k c g callers (status_event d) (transfer_event d) found, others.0, others.1)
