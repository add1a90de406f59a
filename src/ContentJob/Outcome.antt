-- ===== src/ContentJob/Outcome.antt =====
-- What a job leaves behind: its status, its reason and the content.
use seeds.Base.{
  ℕ, zero, suc, ◌+◌, String, ◌≡◌, refl, sym, ap, subst, ◌∙◌, Bool, true, false, Option, none, some,
  List, ◌∷◌, if◌then◌else◌, arith,
}
use seeds.Act.{Exn, Reply, done, raised, cancelled, Act, pure, catch, handled, ◌>>◌, timeout_error}
use seeds.Act.Yields.{
  After, Yields, Yields-done, Yields-pure, Yields-raise, Yields-bind, Yields-maybe, Yields-any,
  Yields-catch, Yields-if, Yields-imply, Yields-weaken, Anyhow,
}
use seeds.Act.Fails.{
  IfRaised, Fails, Fails-raised, Fails-pure, Fails-raise, Fails-if, Fails-maybe, Fails-catch,
  Fails-bind,
}
use seeds.ContentJob.{
  JobStatus, running, completed, failed, Job, Content, Call, mark, sleep, Write, status_set,
  content_saved, Ended, stored, broken, cut, Outside, Desk, is_retried, ask, settle, store, pause,
  mark_job, save_content, attempt, try_attempts, process_audio_content_job, wait_for,
  timeout_reason, is_timeout, run_claimed, job_status_of,
}

settle-Yields :
    (P : List Write → Type 0) (w : Write) (e : Ended) (s : Desk)
    → P s.log
    → After (λ a t. (l : List Write) × P l × (t.log ≡ w ∷ l)) (settle e w s).0 (settle e w s).1
unfolding settle
settle-Yields P w stored s p = (s.log, p, refl)
settle-Yields P w (broken took e) s p = tt
settle-Yields P w (cut took) s p = tt

Yields-store :
    (P : List Write → Type 0) (ends : List Call → Call → Ended) (c : Call) (w : Write)
    → Yields (λ s. P s.log) (λ a s. (l : List Write) × P l × (s.log ≡ w ∷ l)) (store ends c w)
unfolding store
Yields-store P ends c w = record {
  yields = λ s p. settle-Yields P w (ends s.calls c) (record s { calls = c ∷ s.calls }) p;
}

-- the last two writes: the content, and that the job is completed
abbrev pub IsFinished : Job → List Write → Type 0
IsFinished job log =
    (c : Content) × (l : List Write) × (log
      ≡ status_set job.id completed none ∷ content_saved job.content_id c ∷ l)

module _ (x : Outside) (job : Job) where
  Yields-finish :
      (c : Content)
      → Yields
          (λ s. (l : List Write) × Unit {0} × (s.log ≡ content_saved job.content_id c ∷ l))
          (λ a s. IsFinished job s.log)
          (mark_job x job.id completed none)
  unfolding mark_job
  Yields-finish c =
      Yields-imply _
        (λ a s h. (c, h.1.0, h.2 ∙ ap (λ r. status_set job.id completed none ∷ r) h.1.2))
        (Yields-store
          (λ log. (l : List Write) × Unit {0} × (log ≡ content_saved job.content_id c ∷ l)) x.writes
          _ (status_set job.id completed none))

  Yields-attempt : Yields Anyhow (λ a s. IsFinished job s.log) (attempt x job)
  unfolding attempt save_content
  Yields-attempt = Yields-bind _ _ (Yields-any _) (λ found.
      Yields-maybe found _ _ (λ e. Yields-raise _)
        (λ c e. Yields-bind _ _ (Yields-any _) (λ items. Yields-bind _ _ (Yields-any _) (λ spoken.
          Yields-bind _ _
            (Yields-store (λ l. Unit) x.writes _ (content_saved job.content_id spoken))
            (λ a. Yields-finish spoken)))))

  -- where no exception is left over, the job is finished
  abbrev Left : Option Exn → Desk → Type 0
  Left o s = o ≡ none → IsFinished job s.log

  Yields-tried : Yields Anyhow Left (catch (attempt x job >> pure none) (λ e. pure (some e)))
  Yields-tried =
      Yields-catch _ _ (Yields-bind _ _ Yields-attempt (λ a. Yields-pure none (λ s h n. h)))
        (λ e. Yields-pure (some e) (λ s h n. cc n))

  Yields-try_attempts : (n seconds : ℕ) → Yields Anyhow Left (try_attempts x job (suc n) seconds)
  unfolding try_attempts
  Yields-try_attempts zero seconds = Yields-bind _ _ Yields-tried (λ o.
      Yields-maybe o _ _ (λ e. Yields-pure none (λ s h n. h e))
        (λ e f. Yields-pure (some e) (λ s h n. cc n)))
  Yields-try_attempts (suc n) seconds = Yields-bind _ _ Yields-tried (λ o.
      Yields-maybe o _ _ (λ e. Yields-pure none (λ s h n. h e))
        (λ e f.
          Yields-if (is_retried e)
            (pause x seconds >> try_attempts x job (suc n) (seconds + seconds)) (pure (some e))
            (λ t.
              Yields-bind (pause x seconds) (λ a. try_attempts x job (suc n) (seconds + seconds))
                (Yields-any _) (λ a. Yields-weaken _ (Yields-try_attempts n (seconds + seconds))))
            (λ t. Yields-pure (some e) (λ s h n. cc n))))

  Yields-process : Yields Anyhow (λ a s. IsFinished job s.log) (process_audio_content_job x job)
  unfolding process_audio_content_job
  Yields-process = Yields-bind _ _ (Yields-any _) (λ a.
      Yields-bind _ _ (Yields-weaken _ (Yields-try_attempts 2 1)) (λ o.
        Yields-maybe o _ _ (λ e. Yields-pure tt (λ s h. h e))
          (λ e f. Yields-bind _ _ (Yields-any _) (λ b. Yields-raise e))))

-- Where the processing of a job returns, the last two writes are its content and that it is completed.
pub process_audio_content_job-IsFinished :
    (x : Outside) (job : Job) (s : Desk)
    → (process_audio_content_job x job s).0 ≡ done tt
    → IsFinished job (process_audio_content_job x job s).1.log
process_audio_content_job-IsFinished x job s h =
    Yields-done (process_audio_content_job x job) (Yields-process x job) s tt tt h

cut_or_done :
    (E : Exn → Desk → Type 0) (b : Bool) (s : Desk)
    → IfRaised {A = Unit {0}} E (if b then cancelled else done tt) s
cut_or_done E true s = tt
cut_or_done E false s = tt

-- Failures, where no write of a status fails.
module _ (x : Outside) (job : Job)
    (reliable : (h : List Call) (status : JobStatus) (reason : Option String)
      → x.writes h (mark job.id status reason) ≡ stored) where
  mark_job-done :
      (status : JobStatus) (reason : Option String) (s : Desk)
      → mark_job x job.id status reason s ≡ (
        done tt,
        record {
          calls = mark job.id status reason ∷ s.calls;
          log = status_set job.id status reason ∷ s.log;
        },
      )
  unfolding mark_job store settle
  mark_job-done status reason s = rw (reliable s.calls status reason) refl

  -- the job is marked with a reason
  abbrev HasReason : String → List Write → Type 0
  HasReason reason log = job_status_of job.id log ≡ some (failed, some reason)

  Fails-mark_job :
      (E : Exn → Desk → Type 0) (status : JobStatus) (reason : Option String)
      → Fails Anyhow E (mark_job x job.id status reason)
  Fails-mark_job E status reason = record {
    fails = λ s p. subst (λ r. IfRaised E r.0 r.1) (sym (mark_job-done status reason s)) tt;
  }

  Yields-mark_failed :
      (reason : String)
      → Yields Anyhow (λ a s. HasReason reason s.log) (mark_job x job.id failed (some reason))
  unfolding job_status_of
  Yields-mark_failed reason = record {
    yields = λ s p.
        subst (λ r. After (λ a s. HasReason reason s.log) r.0 r.1)
          (sym (mark_job-done failed (some reason) s)) (ground arith);
  }

  Fails-pause : (E : Exn → Desk → Type 0) (seconds : ℕ) → Fails Anyhow E (pause x seconds)
  unfolding pause ask
  Fails-pause E seconds = record {
    fails =
        λ s p. cut_or_done E (x.is_cut_off s.calls) (record s { calls = sleep seconds ∷ s.calls });
  }

  Fails-try_attempts :
      (E : Exn → Desk → Type 0) (n seconds : ℕ) → Fails Anyhow E (try_attempts x job n seconds)
  unfolding try_attempts
  Fails-try_attempts E zero seconds = Fails-pure none
  Fails-try_attempts E (suc zero) seconds =
      Fails-bind _ _ (Fails-catch _ _ (λ e. Fails-pure (some e))) (Yields-any _)
        (λ o. Fails-maybe o _ _ (Fails-pure none) (λ e f. Fails-pure (some e)))
  Fails-try_attempts E (suc (suc n)) seconds =
      Fails-bind _ _ (Fails-catch _ _ (λ e. Fails-pure (some e))) (Yields-any _) (λ o.
        Fails-maybe o _ _ (Fails-pure none) (λ e f.
          Fails-if (is_retried e)
            (pause x seconds >> try_attempts x job (suc n) (seconds + seconds)) (pure (some e))
            (Fails-bind (pause x seconds) (λ a. try_attempts x job (suc n) (seconds + seconds))
              (Fails-pause E seconds) (Yields-any _)
              (λ a. Fails-try_attempts E (suc n) (seconds + seconds)))
            (Fails-pure (some e))))

  Fails-process :
      Fails Anyhow (λ e s. HasReason (x.show_error e) s.log) (process_audio_content_job x job)
  unfolding process_audio_content_job
  Fails-process = Fails-bind _ _ (Fails-mark_job _ running none) (Yields-any _) (λ a.
      Fails-bind _ _ (Fails-try_attempts _ 3 1) (Yields-any _) (λ o.
        Fails-maybe o _ _ (Fails-pure tt) (λ e f.
          Fails-bind _ _ (Fails-mark_job _ failed (some (x.show_error e)))
            (Yields-mark_failed (x.show_error e)) (λ b. Fails-raise e (λ s h. h)))))

-- Where no write of a status fails, and the processing of a job raises, the job is marked as failed, with
-- the text of the exception as the reason.
pub process_audio_content_job-failed :
    (x : Outside) (job : Job) (s : Desk) (e : Exn)
    → ((h : List Call) (status : JobStatus) (reason : Option String)
        → x.writes h (mark job.id status reason) ≡ stored)
    → (process_audio_content_job x job s).0 ≡ raised e
    → job_status_of job.id (process_audio_content_job x job s).1.log
      ≡ some (failed, some (x.show_error e))
process_audio_content_job-failed x job s e reliable h =
    Fails-raised (process_audio_content_job x job) (Fails-process x job reliable) s e tt h

-- what follows the processing, from how it ended
abbrev after_wait :
    Outside → (Exn → Act Desk (Unit {0})) → Reply (Unit {0}) × Desk → Reply (Unit {0}) × Desk
after_wait x handler p =
    let q : Reply (Unit {0}) × Desk = elim p.0 [
      | done a ↦ (done a, p.1)
      | raised e ↦ (raised e, p.1)
      | cancelled ↦ if x.is_late p.1.calls then (raised timeout_error, p.1) else (cancelled, p.1)
    ] in
    handled handler q.0 q.1

timed_out :
    (x : Outside) (job : Job) (s : Desk)
    → (process_audio_content_job x job s).0 ≡ raised timeout_error
    → run_claimed x job s
      ≡ mark_job x job.id failed (some timeout_reason) (process_audio_content_job x job s).1
unfolding run_claimed wait_for catch is_timeout
timed_out x job s h =
    ap
      (λ r.
        after_wait x
          (λ e. if is_timeout e then mark_job x job.id failed (some timeout_reason) else pure tt)
          (r, (process_audio_content_job x job s).1))
      h

-- Where no write of a status fails, and a TimeoutError that a call of the last attempt raised ends the
-- processing of a job before its time limit, the reason that is kept is the time limit all the same.
pub run_claimed-timed_out :
    (x : Outside) (job : Job) (s : Desk)
    → ((h : List Call) (status : JobStatus) (reason : Option String)
        → x.writes h (mark job.id status reason) ≡ stored)
    → (process_audio_content_job x job s).0 ≡ raised timeout_error
    → ((run_claimed x job s).0 ≡ done tt)
      × (job_status_of job.id (run_claimed x job s).1.log ≡ some (failed, some timeout_reason))
unfolding job_status_of
run_claimed-timed_out x job s reliable h =
    let t : Desk = (process_audio_content_job x job s).1 in
    let e : run_claimed x job s ≡ (
      done tt,
      record {
        calls = mark job.id failed (some timeout_reason) ∷ t.calls;
        log = status_set job.id failed (some timeout_reason) ∷ t.log;
      },
    ) =
      timed_out x job s h ∙ mark_job-done x job reliable failed (some timeout_reason) t in
    (ap (λ r. r.0) e, ap (λ r. job_status_of job.id r.1.log) e ∙ ground arith)
