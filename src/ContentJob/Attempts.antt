-- ===== src/ContentJob/Attempts.antt =====
-- How often a job reads its content.
use seeds.Base.{
  ℕ, zero, suc, ◌+◌, ◌≤◌, String, ◌≡◌, refl, Bool, true, false, Option, none, some, List, [], ◌∷◌,
  if◌then◌else◌, arith,
}
use seeds.Act.{Reply, pure, catch, ◌>>◌}
use seeds.Act.Keeps.{
  Keeps, Keeps-pure, Keeps-raise, Keeps-reading, Keeps-if, Keeps-catch, Keeps-bind, Keeps-maybe,
}
use seeds.Act.Goes.{
  Goes, Goes-weaken, Goes-after, Goes-before, Goes-maybe, Goes-if, Goes-caught, Goes-then,
}
use seeds.ContentJob.{
  JobStatus, Job, AudioItem, Content, Call, find_content, Write, Ended, stored, broken, cut,
  Outside, Desk, is_retried, ask, settle, store, step, pause, mark_job, upload_file, joined_path,
  blob_path, check_download, process_audio_item, process_item, process_items, speak_title,
  speak_new_theme, speak_theme, process_tts_for_content, save_content, attempt, try_attempts,
  process_audio_content_job,
}

abbrev is_read : Call → Bool
is_read (find_content id) = true
is_read _ = false

-- how often a content was read
abbrev pub reads : List Call → ℕ
reads [] = 0
reads (c ∷ cs) = if is_read c then suc (reads cs) else reads cs

module _ (n : ℕ) where
  abbrev AtMost : Desk → Type 0
  AtMost s = reads s.calls ≤ n

  Keeps-ask {ℓ} :
      {A : Type ℓ} (c : Call) (answer : List Call → Reply A)
      → is_read c ≡ false
      → Keeps AtMost (ask c answer)
  unfolding ask
  Keeps-ask c answer e = record { after = λ s h. ground (arith, e, h) }

  Keeps-settle : (e : Ended) (w : Write) → Keeps AtMost (settle e w)
  unfolding settle
  Keeps-settle stored w = record { after = λ s h. h }
  Keeps-settle (broken true e) w = record { after = λ s h. h }
  Keeps-settle (broken false e) w = record { after = λ s h. h }
  Keeps-settle (cut true) w = record { after = λ s h. h }
  Keeps-settle (cut false) w = record { after = λ s h. h }

  Keeps-store :
      (ends : List Call → Call → Ended) (c : Call) (w : Write)
      → is_read c ≡ false
      → Keeps AtMost (store ends c w)
  unfolding store
  Keeps-store ends c w e = record {
    after = λ s h. (Keeps-settle (ends s.calls c) w).after _ (ground (arith, e, h));
  }

  module _ (x : Outside) where
    Keeps-step : (c : Call) → is_read c ≡ false → Keeps AtMost (step x c)
    unfolding step
    Keeps-step c e = Keeps-ask c _ e

    Keeps-check_download : (url : String) → Keeps AtMost (check_download x url)
    unfolding check_download
    Keeps-check_download url = Keeps-reading _ (λ s. Keeps-if _ _ _ (Keeps-raise _) (Keeps-pure _))

    Keeps-joined_path : (parts : List String) → Keeps AtMost (joined_path x parts)
    unfolding joined_path
    Keeps-joined_path [] = Keeps-raise _
    Keeps-joined_path (c ∷ []) = Keeps-raise _
    Keeps-joined_path (c ∷ p ∷ ps) = Keeps-pure _

    Keeps-blob_path : (url : String) → Keeps AtMost (blob_path x url)
    unfolding blob_path
    Keeps-blob_path url = Keeps-joined_path (x.path_parts url)

    Keeps-upload_file : (container name : String) → Keeps AtMost (upload_file x container name)
    unfolding upload_file
    Keeps-upload_file container name = Keeps-ask _ _ refl

    Keeps-process_audio_item : (url : String) → Keeps AtMost (process_audio_item x url)
    unfolding process_audio_item
    Keeps-process_audio_item url = Keeps-bind _ _ (Keeps-step _ refl) (λ a.
        Keeps-bind _ _ (Keeps-step _ refl) (λ b. Keeps-bind _ _ (Keeps-step _ refl) (λ c.
          Keeps-bind _ _ (Keeps-check_download url) (λ d. Keeps-bind _ _ (Keeps-step _ refl) (λ e.
            Keeps-bind _ _ (Keeps-step _ refl) (λ f. Keeps-bind _ _ (Keeps-step _ refl) (λ g.
              Keeps-bind _ _ (Keeps-catch _ _ (Keeps-ask _ _ refl) (λ h. Keeps-pure _)) (λ seconds.
                Keeps-bind _ _ (Keeps-blob_path url)
                  (λ path. Keeps-bind _ _ (Keeps-upload_file _ _) (λ new_url. Keeps-pure _))))))))))

    Keeps-process_item : (item : AudioItem) → Keeps AtMost (process_item x item)
    unfolding process_item
    Keeps-process_item item =
        Keeps-if _ _ _ (Keeps-pure _)
          (Keeps-bind _ _ (Keeps-process_audio_item item.audio_url) (λ p. Keeps-pure _))

    Keeps-process_items : (items : List AudioItem) → Keeps AtMost (process_items x items)
    unfolding process_items
    Keeps-process_items [] = Keeps-pure _
    Keeps-process_items (i ∷ items) =
        Keeps-bind _ _ (Keeps-process_item i)
          (λ item. Keeps-bind _ _ (Keeps-process_items items) (λ rest. Keeps-pure _))

    Keeps-speak_title : (id : String) (c : Content) → Keeps AtMost (speak_title x id c)
    unfolding speak_title
    Keeps-speak_title id c =
        Keeps-if _ _ _
          (Keeps-bind _ _ (Keeps-step _ refl)
            (λ a. Keeps-bind _ _ (Keeps-upload_file _ _) (λ url. Keeps-pure _)))
          (Keeps-pure _)

    Keeps-speak_new_theme : (c : Content) → Keeps AtMost (speak_new_theme x c)
    unfolding speak_new_theme
    Keeps-speak_new_theme c =
        Keeps-if _ _ _
          (Keeps-bind _ _ (Keeps-step _ refl)
            (λ a. Keeps-bind _ _ (Keeps-upload_file _ _) (λ url. Keeps-pure _)))
          (Keeps-pure _)

    Keeps-speak_theme : (c : Content) → Keeps AtMost (speak_theme x c)
    unfolding speak_theme
    Keeps-speak_theme c =
        Keeps-if _ _ _
          (Keeps-catch _ _ (Keeps-bind _ _ (Keeps-ask _ _ refl) (λ url. Keeps-pure _))
            (λ e. Keeps-speak_new_theme c))
          (Keeps-pure _)

    Keeps-process_tts_for_content :
        (id : String) (c : Content) → Keeps AtMost (process_tts_for_content x id c)
    unfolding process_tts_for_content
    Keeps-process_tts_for_content id c =
        Keeps-bind _ _ (Keeps-speak_title id c) (λ titled. Keeps-speak_theme titled)

    Keeps-mark_job :
        (id : String) (status : JobStatus) (reason : Option String)
        → Keeps AtMost (mark_job x id status reason)
    unfolding mark_job
    Keeps-mark_job id status reason = Keeps-store _ _ _ refl

    Keeps-save_content : (id : String) (c : Content) → Keeps AtMost (save_content x id c)
    unfolding save_content
    Keeps-save_content id c = Keeps-store _ _ _ refl

    Keeps-pause : (seconds : ℕ) → Keeps AtMost (pause x seconds)
    unfolding pause
    Keeps-pause seconds = Keeps-ask _ _ refl

Goes-read :
    (n : ℕ) {A : Type 0} (id : String) (answer : List Call → Reply A)
    → Goes (AtMost n) (AtMost (suc n)) (ask (find_content id) answer)
unfolding ask
Goes-read n id answer = record { leads = λ s h. omega (arith, h) }

module _ (x : Outside) (job : Job) where
  Goes-attempt : (n : ℕ) → Goes (AtMost n) (AtMost (suc n)) (attempt x job)
  unfolding attempt
  Goes-attempt n = Goes-before _ _ (Goes-read n _ _) (λ found.
      Keeps-maybe found _ _ (Keeps-raise _) (λ c.
        Keeps-bind _ _ (Keeps-process_items (suc n) x c.audio_content) (λ items.
          Keeps-bind _ _
            (Keeps-if _ _ _ (Keeps-process_tts_for_content (suc n) x _ _) (Keeps-pure _))
            (λ spoken.
              Keeps-bind _ _ (Keeps-save_content (suc n) x _ _)
                (λ a. Keeps-mark_job (suc n) x _ _ _)))))

  Goes-tried :
      (n : ℕ)
      → Goes (AtMost n) (AtMost (suc n)) (catch (attempt x job >> pure none) (λ e. pure (some e)))
  Goes-tried n =
      Goes-caught _ _ (Goes-before _ _ (Goes-attempt n) (λ a. Keeps-pure _)) (λ e. Keeps-pure _)

  Goes-try_attempts :
      (k n m seconds : ℕ) → n + k ≤ m → Goes (AtMost n) (AtMost m) (try_attempts x job k seconds)
  unfolding try_attempts
  Goes-try_attempts zero n m seconds l =
      Goes-weaken _ (λ s h. omega (arith, h, l)) (Keeps-pure none)
  Goes-try_attempts (suc zero) n m seconds l =
      Goes-then _ _ (λ s h. omega (arith, h, l)) (Goes-tried n)
        (λ o.
          Goes-weaken _ (λ s h. omega (arith, h, l))
            (Keeps-maybe o _ _ (Keeps-pure none) (λ e. Keeps-pure (some e))))
  Goes-try_attempts (suc (suc k)) n m seconds l =
      Goes-then _ _ (λ s h. omega (arith, h, l)) (Goes-tried n)
        (λ o. Goes-maybe o _ _ (Goes-weaken _ (λ s h. omega (arith, h, l)) (Keeps-pure none)) (λ e.
          Goes-if (is_retried e) (pause x seconds >> try_attempts x job (suc k) (seconds + seconds))
            (pure (some e))
            (Goes-after (pause x seconds) (λ a. try_attempts x job (suc k) (seconds + seconds))
              (λ s h. omega (arith, h, l)) (Keeps-pause (suc n) x seconds)
              (λ a. Goes-try_attempts (suc k) (suc n) m (seconds + seconds) (omega (arith, l))))
            (Goes-weaken _ (λ s h. omega (arith, h, l)) (Keeps-pure (some e)))))

  Goes-process : (n : ℕ) → Goes (AtMost n) (AtMost (n + 3)) (process_audio_content_job x job)
  unfolding process_audio_content_job
  Goes-process n =
      Goes-after _ _ (λ s h. omega (arith, h)) (Keeps-mark_job n x _ _ _)
        (λ a. Goes-before _ _ (Goes-try_attempts 3 n (n + 3) 1 (omega arith)) (λ o.
          Keeps-maybe o _ _ (Keeps-pure tt)
            (λ e. Keeps-bind _ _ (Keeps-mark_job (n + 3) x _ _ _) (λ b. Keeps-raise e))))

-- However the processing of a job ends, it has made at most three attempts: it has read its content at most
-- three times.
pub process_audio_content_job-attempts :
    (x : Outside) (job : Job) (s : Desk)
    → reads (process_audio_content_job x job s).1.calls ≤ reads s.calls + 3
process_audio_content_job-attempts x job s =
    (Goes-process x job (reads s.calls)).leads s (omega arith)
