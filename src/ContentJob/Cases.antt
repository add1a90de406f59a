-- ===== src/ContentJob/Cases.antt =====
-- The theorems on jobs, at one job.
use seeds.Base.{
  ℕ, ◌+◌, ◌≤◌, String, ◌==◌, ◌≡◌, refl, Bool, true, false, Option, none, some, List, [], ◌∷◌,
  if◌then◌else◌, arith,
}
use seeds.Act.{Exn, Reply, done, raised, cancelled, timeout_error, runtime_error}
use seeds.ContentJob.{
  Job, AudioItem, Title, Content, Call, Outside, Desk, Write, JobStatus, running, completed, failed,
  stored, status_set, content_saved, process_audio_content_job, run_claimed, timeout_reason,
  job_status_of,
}
use seeds.ContentJob.Attempts.{reads, process_audio_content_job-attempts}
use seeds.ContentJob.Outcome.{
  IsFinished, process_audio_content_job-IsFinished, process_audio_content_job-failed,
  run_claimed-timed_out,
}

abbrev job : Job
job = record { id = "j1"; content_id = "c1" }

abbrev title : Title
title = record { english = "Optics"; local = "Drushti"; audio_url = none }

abbrev content : Content
content = record {
  language = "kn";
  is_pull_model = true;
  audio_content = record { audio_url = "https://in/a.mp3"; duration_seconds = none } ∷ [];
  title = title;
  theme = title;
}

-- the content is read with the given reply
abbrev outside : Reply (Option Content) → Outside
outside reply = record {
  writes = λ h c. stored;
  steps = λ h c. done tt;
  claims = λ h. done (some job);
  contents = λ h id. reply;
  is_empty = λ h url. false;
  duration = λ h. done (some 12);
  uploads = λ h container name. done "https://out/a.wav";
  theme_url = λ h name. raised runtime_error;
  is_cut_off = λ h. false;
  is_late = λ h. false;
  show_error = λ e. "error";
  strip = λ text. text;
  is_mp3 = λ url. true;
  path_parts = λ url. "in" ∷ "a.mp3" ∷ [];
  join = λ parts. "a.mp3";
  without_suffix = λ path. "a";
}

abbrev desk : Desk
desk = record { calls = []; log = [] }

process_audio_content_job-IsFinished_example :
    IsFinished job (process_audio_content_job (outside (done (some content))) job desk).1.log
unfolding process_audio_content_job seeds.Act.◌>>=◌ seeds.ContentJob.mark_job seeds.ContentJob.store
    seeds.ContentJob.settle seeds.ContentJob.try_attempts seeds.ContentJob.attempt
    seeds.ContentJob.ask seeds.Act.maybe seeds.ContentJob.process_items
    seeds.ContentJob.process_item seeds.Base.String-discrete seeds.ContentJob.process_audio_item
    seeds.ContentJob.step seeds.ContentJob.check_download seeds.ContentJob.blob_path
    seeds.ContentJob.joined_path seeds.Act.catch seeds.Act.pure seeds.Act.raise seeds.Act.reading
    seeds.ContentJob.is_retried seeds.ContentJob.pause seeds.ContentJob.process_tts_for_content
    seeds.ContentJob.save_content seeds.ContentJob.speak_new_theme seeds.ContentJob.speak_theme
    seeds.ContentJob.speak_title seeds.ContentJob.upload_file
process_audio_content_job-IsFinished_example =
    process_audio_content_job-IsFinished (outside (done (some content))) job desk refl

-- a content that is not found
process_audio_content_job-failed_example :
    job_status_of "j1" (process_audio_content_job (outside (done none)) job desk).1.log
    ≡ some (failed, some "error")
unfolding process_audio_content_job seeds.Act.◌>>=◌ seeds.ContentJob.mark_job seeds.ContentJob.store
    seeds.ContentJob.settle seeds.ContentJob.try_attempts seeds.ContentJob.attempt
    seeds.ContentJob.ask seeds.Act.maybe seeds.ContentJob.is_retried
process_audio_content_job-failed_example =
    process_audio_content_job-failed (outside (done none)) job desk runtime_error
      (λ h status reason. refl) refl

-- a database that does not answer in time, though the job is not late
run_claimed-timed_out_example :
    ((run_claimed (outside (raised timeout_error)) job desk).0 ≡ done tt)
    × (job_status_of "j1" (run_claimed (outside (raised timeout_error)) job desk).1.log
        ≡ some (failed, some timeout_reason))
unfolding process_audio_content_job seeds.Act.◌>>=◌ seeds.ContentJob.mark_job seeds.ContentJob.store
    seeds.ContentJob.settle seeds.ContentJob.try_attempts seeds.ContentJob.attempt
    seeds.ContentJob.ask seeds.Act.maybe seeds.ContentJob.is_retried seeds.ContentJob.pause
run_claimed-timed_out_example =
    run_claimed-timed_out (outside (raised timeout_error)) job desk (λ h status reason. refl) refl

process_audio_content_job-attempts_example :
    reads (process_audio_content_job (outside (raised timeout_error)) job desk).1.calls ≤ 3
process_audio_content_job-attempts_example =
    process_audio_content_job-attempts (outside (raised timeout_error)) job desk
