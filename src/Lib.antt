-- ===== src/Lib.antt =====
-- Models of the SEEDS platform, a service that runs telephone lessons: conferences of a teacher and
-- students, and menus of recordings behind a number (platform/app).
--
-- A conference (platform/app/services/conference_service.py) holds a state and a queue of events.
-- Webhooks, routes and keys put events into the queue, and one task takes them out and runs them;
-- a handler calls the telephone service, the audio socket, Redis, the database and the client's
-- connection, and any of these calls may return, raise, or be cut off by the time limit. The menus
-- (platform/app/services/fsm) are a state machine that a caller steps through by pressing keys.
--
-- Which file models which part:
-- - Conference/Model.antt: the records and enumerations of platform/app/models.
-- - Conference/World.antt: what is outside. Each call is an effect, the calls so far are the history,
--   and an `External` answers a call by the history, so that every sequence of answers is possible.
-- - Conference/RedisStore.antt: platform/app/services/redis_conference_store.py.
-- - Conference/Dialing.antt, Conference/Vonage.antt: platform/app/providers/vonage_api.py, the
--   dialling of one participant with its attempts, and the operations of the provider.
-- - Conference/Call.antt: `ConferenceCall` of conference_service.py, its attributes and methods.
-- - Conference/Events.antt and the files below it: platform/app/services/confevents, a function for
--   each class; `execute_event` chooses by class, `process_next` is a turn of the task of the queue,
--   taken only while that task is there,
--   and `live` mixes turns with arriving events in any order.
-- - Conference/Manager.antt: `ConferenceCallManager` of conference_service.py.
-- - Conference/Dispatcher.antt: platform/app/services/conference_event_dispatcher.py.
-- - Conference/CallerState.antt: platform/app/services/caller_state_service.py.
-- - Conference/Validity.antt, Conference/Drain.antt and the files below them: proofs on the events.
-- - Ivr/Model.antt: the documents of calls to the menus (platform/app/models/ivr_state.py).
-- - Ivr/Machine.antt: platform/app/services/fsm (fsm.py, state.py, transition.py), the parameters of
--   its operations, and the actions of platform/app/providers/vonage_actions: how a machine is built.
-- - Ivr/Fsm.antt: the steps of a machine (`get_next_actions` of fsm.py) and the effects of its
--   operations; proofs in the files below both.
-- - Ivr/Stored.antt: a machine as it is stored, `serialize` and `deserialize` of fsm.py, and the
--   `to_json` and `from_json` of its parts.
-- - Authz.antt: platform/app/platform/authz, the guards of tenants and of owners.
-- - Ivr/Speed.antt: platform/app/services/fsm/instantiation/speed_control.py.
-- - Ivr/ChildId.antt, Ivr/Paging.antt: platform/app/services/fsm/instantiation/insti.py, the ids of the
--   children of a menu, over code points, and its pages.
-- - Ivr/Quiz.antt: platform/app/services/fsm/instantiation/quiz.py, as the list of what it adds to a
--   machine; marks are whole numbers.
-- - Ivr/Accumulator.antt: the actions as the telephone service takes them (action_factory.py,
--   action_accumulator.py and the `get` methods of platform/app/providers/vonage_actions).
-- - Ivr/Collection.antt: a collection of the document database, as an interface of operations and
--   their laws; Ivr/Collection/Tables.antt is a dict that keeps them.
-- - Ivr/Repository.antt: platform/app/repositories/ivr_repository.py, over any such collection;
--   Ivr/Repository/Contract.antt is what it promises, in terms of versions and a letter box.
-- - Ivr/Service.antt and the files below it: platform/app/services/ivr_service.py. Dtmf.antt has the
--   key presses, Lifecycle.antt the events of a call, Calls.antt the start of a call and the cache of
--   machines; Stale.antt, Archive.antt, Progress.antt and Starting.antt have proofs on them.
-- - Ivr/Consumers.antt: dtmf_consumer.py, call_event_consumer.py and call_webhook_consumer.py of
--   platform/app/consumers, and the webhook for a key press of
--   platform/app/controllers/ivr_webhook_controller.py.
-- - Translation/Model.antt: platform/app/repositories/translation_repository.py, the changes of one
--   document; Translation/Served.antt: which text is served after them, and the contract of it.
-- - Translation/Requests.antt, Translation/Serve.antt and the files below it: the translation of a route
--   in platform/app/services/translation_service.py; Translation/Batches.antt: its chunks, and those of
--   platform/app/providers/translation_provider.py; Translation/Approval.antt: approval, one by one and
--   in bulk.
-- - Translation/Placeholders.antt: placeholder_protector.py and glossary_normalizer.py of
--   platform/app/services.
-- - ContentJob.antt and the files below it: platform/app/consumers/content_job_consumer.py and
--   platform/app/repositories/content_job_repository.py.
-- - Act.antt and the files below it: coroutines over an object, and rules for what holds after them,
--   on every outcome (Keeps, Goes), where they return (Returns, Reaches, Yields) or raise (Fails).
-- - Base.antt, Dict.antt: shared names, texts, numbers and Python's dict.
-- - Conference/Samples.antt, Conference/Examples.antt, Conference/Cases.antt,
--   Ivr/Samples.antt, Ivr/Examples.antt, Ivr/Cases.antt, Ivr/Quiz/Cases.antt, Ivr/ChildId/Cases.antt,
--   Authz/Cases.antt, Translation/Cases.antt, ContentJob/Cases.antt: the theorems at concrete inputs.
--
-- Choices: an instant is a natural number of milliseconds; seconds of audio and speeds are counted in
-- hundredths, and the length of a recording in milliseconds. `asyncio.gather` runs its coroutines one
-- after the other, which is one of the orders that the event loop may choose. The loop of
-- `reconnect_websocket` has no bound in the source, where the time limit of an event (15 seconds) cuts
-- it off; here it has a bound on its rounds, any number, and its result says whether it attached. So
-- has `wait_for_dtmf_result`, which the clock ends; the loops of several attempts count them as the
-- source does, three for a content job. All other loops end by their lists.
--
-- The tasks of the menus share documents in the database and nothing else but the cache of machines.
-- Each operation of the database acts at once on one document. In the service, other tasks may change
-- the documents in any way before each request, and a request that fails may have taken effect. The
-- documents of calls are as `from_mongo` takes them, save that the duration may be no text, which it
-- refuses.
--
-- Not modelled: the audio that is relayed and analysed; the builders of menus from content other than
-- that of quizzes, save for the ids and the pages of menus; the checking of tokens; the loops that poll the
-- queues; the routes other than the webhook for a key press; the other repositories; content import,
-- textbook remediation and the clients; the requests of the providers of translations, and how a quality
-- is computed (it is kept as what it is computed from); the times of writes to translations and jobs;
-- logging; the random part of the waits between attempts. Python's regular expressions are parameters.
pub mod Base
pub mod Dict
pub mod Act
pub mod Authz
pub mod Conference
pub mod Ivr
pub mod Translation
pub mod ContentJob
