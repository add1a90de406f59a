-- ===== src/ContentJob.antt =====
-- The processing of the recordings of a content, platform/app/consumers/content_job_consumer.py with
-- platform/app/repositories/content_job_repository.py. Every call may fail, or be cut off by the time limit
-- of a job or by the end of the task; a write that fails may have taken effect.
pub mod Outcome
pub mod Attempts
pub mod Cases
use seeds.Base.{
  ℕ, zero, suc, ◌+◌, String, ◌==◌, truthy, format, Bool, true, false, not, ◌&&◌, ◌||◌, Option, none,
  some, List, [], ◌∷◌, ◌++◌, if◌then◌else◌,
}
use seeds.Act.{
  Exn, Reply, done, raised, cancelled, Act, pure, raise, reading, catch, write, when, maybe, ◌>>=◌,
  ◌>>◌, value_error, runtime_error, connection_error, timeout_error, network_error,
}

pub data JobStatus : Type 0 where
  claimed running completed failed : JobStatus

pub record Job : Type 0 where
  pub id : String
  pub content_id : String

pub record AudioItem : Type 0 where
  pub audio_url : String
  pub duration_seconds : Option ℕ

pub record Title : Type 0 where
  pub english : String
  pub local : String
  pub audio_url : Option String

pub record Content : Type 0 where
  pub language : String
  pub is_pull_model : Bool
  pub audio_content : List AudioItem
  pub title : Title
  pub theme : Title

pub data Call : Type 0 where
  open_storage claim_next_pending : Call
  mark : String → JobStatus → Option String → Call
  find_content save_processed : String → Call
  make_temp_input make_temp_output write_file transcode read_file extract_duration : Call
  download : String → Call
  upload : String → String → Call
  synthesize : String → String → Call
  theme_exists : String → Call
  sleep : ℕ → Call

-- a write that took effect
pub data Write : Type 0 where
  status_set : String → JobStatus → Option String → Write
  content_saved : String → Content → Write

-- how a write ends, and whether a failed one took effect
pub data Ended : Type 0 where
  stored : Ended
  broken : Bool → Exn → Ended
  cut : Bool → Ended

pub record Outside : Type 0 where
  pub writes : List Call → Call → Ended
  -- the calls that answer nothing
  pub steps : List Call → Call → Reply (Unit {0})
  pub claims : List Call → Reply (Option Job)
  pub contents : List Call → String → Reply (Option Content)
  -- whether the download is empty; the duration, if the output is a number; the address of an upload
  pub is_empty : List Call → String → Bool
  pub duration : List Call → Reply (Option ℕ)
  pub uploads : List Call → String → String → Reply String
  pub theme_url : List Call → String → Reply String
  -- whether a wait is cut off, and whether a call was cut off by the time limit of the job
  pub is_cut_off : List Call → Bool
  pub is_late : List Call → Bool
  -- Python on texts: `str` of an exception, `strip`, `lower().endswith(".mp3")`, the parts of the path of an
  -- address that are not empty, `"/".join`, and `rsplit(".", 1)[0]` where there is a dot
  pub show_error : Exn → String
  pub strip : String → String
  pub is_mp3 : String → Bool
  pub path_parts : String → List String
  pub join : List String → String
  pub without_suffix : String → String

pub record Desk : Type 0 where
  pub calls : List Call
  pub log : List Write

abbrev pub max_retries : ℕ
max_retries = 3

-- `_TRANSIENT_ERRORS`; a network error stands for any other OSError
unfoldable pub is_retried : Exn → Bool
is_retried connection_error = true
is_retried timeout_error = true
is_retried network_error = true
is_retried _ = false

abbrev pub timeout_reason : String
timeout_reason = "Job exceeded timeout of 5 minutes"

unfoldable pub is_timeout : Exn → Bool
is_timeout timeout_error = true
is_timeout _ = false

unfoldable pub ask {ℓ} : {A : Type ℓ} → Call → (List Call → Reply A) → Act Desk A
ask c answer s = (answer s.calls, record s { calls = c ∷ s.calls })

abbrev logged : Bool → Write → Desk → Desk
logged true w s = record s { log = w ∷ s.log }
logged false w s = s

unfoldable pub settle : Ended → Write → Act Desk (Unit {0})
settle stored w s = (done tt, record s { log = w ∷ s.log })
settle (broken took e) w s = (raised e, logged took w s)
settle (cut took) w s = (cancelled, logged took w s)

unfoldable pub store : (List Call → Call → Ended) → Call → Write → Act Desk (Unit {0})
store ends c w s = settle (ends s.calls c) w (record s { calls = c ∷ s.calls })

module _ (x : Outside) where
  unfoldable pub step : Call → Act Desk (Unit {0})
  step c = ask c (λ h. x.steps h c)

  -- `asyncio.sleep`
  unfoldable pub pause : ℕ → Act Desk (Unit {0})
  pause seconds = ask (sleep seconds) (λ h. if x.is_cut_off h then cancelled else done tt)

  -- `mark_running`, `mark_completed`, `mark_failed`
  unfoldable pub mark_job : String → JobStatus → Option String → Act Desk (Unit {0})
  mark_job id status reason = store x.writes (mark id status reason) (status_set id status reason)

  unfoldable pub upload_file : String → String → Act Desk String
  upload_file container name = ask (upload container name) (λ h. x.uploads h container name)

  -- `_parse_blob_url_simple`, of which the path is used
  unfoldable pub joined_path : List String → Act Desk String
  joined_path [] = raise value_error
  joined_path (container ∷ []) = raise value_error
  joined_path (container ∷ p ∷ ps) = pure (x.join (p ∷ ps))

  unfoldable pub blob_path : String → Act Desk String
  blob_path url = joined_path (x.path_parts url)

  unfoldable pub check_download : String → Act Desk (Unit {0})
  check_download url =
      reading (λ s. if x.is_empty s.calls url then raise runtime_error else pure tt)

  -- `_process_audio_item`; removing the temporary files raises nothing
  unfoldable pub process_audio_item : String → Act Desk (String × Option ℕ)
  process_audio_item url = do
    step make_temp_input
    step make_temp_output
    step (download url)
    check_download url
    step write_file
    step transcode
    step read_file
    seconds ← catch (ask extract_duration x.duration) (λ e. pure none)
    path ← blob_path url
    new_url ← upload_file "output-container" (format (x.without_suffix path ∷ ".wav" ∷ []))
    pure (new_url, seconds)

  unfoldable pub process_item : AudioItem → Act Desk AudioItem
  process_item item =
      if not (truthy item.audio_url) || not (x.is_mp3 item.audio_url) then pure item else (do
        processed ← process_audio_item item.audio_url
        pure (record {
          audio_url = processed.0;
          duration_seconds = elim processed.1 [ none ↦ item.duration_seconds | some n ↦ some n ];
        }))

  unfoldable pub process_items : List AudioItem → Act Desk (List AudioItem)
  process_items [] = pure []
  process_items (i ∷ is) = do item ← process_item i; rest ← process_items is; pure (item ∷ rest)

  -- `_process_tts_for_content`: the title, and the theme unless its recording is there already
  unfoldable pub speak_title : String → Content → Act Desk Content
  speak_title content_id c =
      if truthy (x.strip c.title.local)
      then (do
        step (synthesize c.language (x.strip c.title.local))
        url ← upload_file "experience-titles" (format (content_id ∷ "/1.0.mp3" ∷ []))
        pure (record c { title = record c.title { audio_url = some url } }))
      else pure c

  unfoldable pub speak_new_theme : Content → Act Desk Content
  speak_new_theme c =
      if truthy (x.strip c.theme.local)
      then (do
        step (synthesize c.language (x.strip c.theme.local))
        url ← upload_file "theme-titles" (format (x.strip c.theme.english ∷ "/1.0.mp3" ∷ []))
        pure (record c { theme = record c.theme { audio_url = some url } }))
      else pure c

  unfoldable pub speak_theme : Content → Act Desk Content
  speak_theme c =
      let name : String = format (x.strip c.theme.english ∷ "/1.0.mp3" ∷ []) in
      if truthy (x.strip c.theme.english)
      then catch
          (ask (theme_exists name) (λ h. x.theme_url h name) >>= λ url.
            pure (record c { theme = record c.theme { audio_url = some url } }))
          (λ e. speak_new_theme c)
      else pure c

  unfoldable pub process_tts_for_content : String → Content → Act Desk Content
  process_tts_for_content content_id c = speak_title content_id c >>= λ titled. speak_theme titled

  -- what is saved: the content with its new recordings, marked as processed
  unfoldable pub save_content : String → Content → Act Desk (Unit {0})
  save_content content_id c =
      store x.writes (save_processed content_id) (content_saved content_id c)

  -- one attempt
  unfoldable pub attempt : Job → Act Desk (Unit {0})
  attempt job = do
    found ← ask (find_content job.content_id) (λ h. x.contents h job.content_id)
    maybe found (raise runtime_error) (λ c. do
      items ← process_items c.audio_content
      spoken ←
          (let updated : Content = record c { audio_content = items } in
            if c.is_pull_model
            then process_tts_for_content job.content_id updated
            else pure updated)
      save_content job.content_id spoken
      mark_job job.id completed none)

  -- the loop, with the attempts that are left; what it returns is `last_exc` where no attempt succeeded
  unfoldable pub try_attempts : Job → ℕ → ℕ → Act Desk (Option Exn)
  try_attempts job zero seconds = pure none
  try_attempts job (suc n) seconds = do
    failure ← catch (attempt job >> pure none) (λ e. pure (some e))
    maybe failure (pure none) (λ e. elim n [
      | zero ↦ pure (some e)
      | suc k ↦
          if is_retried e
          then pause seconds >> try_attempts job n (seconds + seconds)
          else pure (some e)
    ])

  -- `_process_audio_content_job`
  unfoldable pub process_audio_content_job : Job → Act Desk (Unit {0})
  process_audio_content_job job = do
    mark_job job.id running none
    last_exc ← try_attempts job max_retries 1
    maybe last_exc (pure tt) (λ e. mark_job job.id failed (some (x.show_error e)) >> raise e)

  -- `asyncio.wait_for`: a job that is cut off by its time limit raises TimeoutError
  unfoldable pub wait_for : Act Desk (Unit {0}) → Act Desk (Unit {0})
  wait_for m s =
      let (r, t) = m s in
      elim r [
        | done a ↦ (done a, t)
        | raised e ↦ (raised e, t)
        | cancelled ↦ if x.is_late t.calls then (raised timeout_error, t) else (cancelled, t)
      ]

  unfoldable pub run_claimed : Job → Act Desk (Unit {0})
  run_claimed job =
      catch (wait_for (process_audio_content_job job))
        (λ e. if is_timeout e then mark_job job.id failed (some timeout_reason) else pure tt)

  -- one round of `_run_loop`, where the storage can be opened
  unfoldable pub poll : Act Desk (Unit {0})
  poll =
      catch (ask claim_next_pending x.claims >>= λ job. maybe job (pause 10) run_claimed)
        (λ e. pause 10)

-- what the task has last written of a job
unfoldable pub job_status_of : String → List Write → Option (JobStatus × Option String)
job_status_of id [] = none
job_status_of id (status_set j status reason ∷ log) =
    if j == id then some (status, reason) else job_status_of id log
job_status_of id (content_saved j c ∷ log) = job_status_of id log
