-- ===== src/Ivr/Service/Stale.antt =====
-- A key press that the machine takes is answered only with what was stored: no answer where the
-- document was changed since it was read.
use seeds.Base.{
  ℕ, suc, ◌+◌, String, ◌≡◌, refl, Bool, true, false, Option, none, some, List, [], ◌∷◌, length,
  length-append, arith, ap, sym, subst, ◌∙◌,
}
use seeds.Act.{Reply, done, raised, cancelled, reading}
use seeds.Act.Yields.{
  Yields, After, Yields-pure, Yields-if, Yields-bind, Yields-any, Yields-given, Yields-imply,
  Anyhow, Yields-done,
}
use seeds.Ivr.Model.{IvrCallState, Ncco}
use seeds.Ivr.Machine.{Action, Fsm, Session}
use seeds.Ivr.Fsm.{get_next_actions}
use seeds.Ivr.Fsm.Document.{IsOf, IsOf-get_next_actions}
use seeds.Ivr.Collection.{Collection}
use seeds.Ivr.Repository.{
  save_ongoing_call, save_result, saved_over, next_version, is_version, without_dtmf,
}
use seeds.Ivr.Service.{
  Surroundings, Service, Carried, carried, failed, cut_off, db, delivered, disturbed, now,
  write_call,
}
use seeds.Ivr.Service.Dtmf.{
  Pressed, press, press_all, press_keys, save_call, save_then, advance, reply_with, pressed,
}

module _ {C : Type 0} (col : Collection C IvrCallState) (x : Surroundings C) where
  open col use {find_one, upsert_one-upserted, find-upsert_one}

  -- the call stands in the collection as this document left it
  pub record IsStored (d : IvrCallState) (s : Service C) : Type 0 where
    pub stored : IvrCallState
    pub found : find_one d.id s.ongoing ≡ some stored
    pub version_is : stored.version ≡ suc d.version
    pub state_is : stored.current_state_id ≡ d.current_state_id
    pub actions_are : stored.user_actions ≡ d.user_actions

  -- the document that a save leaves
  abbrev landed : IvrCallState → Option IvrCallState → IvrCallState
  landed new none = without_dtmf new
  landed new (some e) = saved_over new e

  find-save :
      (time : ℕ) (d : IvrCallState) (c : C)
      → (save_ongoing_call col time d c).0.0 ≡ true
      → find_one d.id (save_ongoing_call col time d c).1
        ≡ some (landed (next_version time d) (find_one d.id c))
  unfolding save_ongoing_call save_result
  find-save time d c h =
      let new = next_version time d in
      ground (
        arith,
        find-upsert_one d.id d.id (is_version d.version) (saved_over new) (without_dtmf new) c,
        upsert_one-upserted d.id (is_version d.version) (saved_over new) (without_dtmf new) c,
      )

  landed-fields :
      (time : ℕ) (d : IvrCallState) (o : Option IvrCallState)
      → let e = landed (next_version time d) o in
        (e.version ≡ suc d.version)
        × ((e.current_state_id ≡ d.current_state_id) × (e.user_actions ≡ d.user_actions))
  landed-fields time d none = (refl, (refl, refl))
  landed-fields time d (some e) = (refl, (refl, refl))

  save-IsStored :
      (time : ℕ) (d : IvrCallState) (s : Service C)
      → (save_ongoing_call col time d s.ongoing).0.0 ≡ true
      → IsStored d (record s { ongoing = (save_ongoing_call col time d s.ongoing).1 })
  save-IsStored time d s h =
      let f = landed-fields time d (find_one d.id s.ongoing) in
      record {
        stored = landed (next_version time d) (find_one d.id s.ongoing);
        found = find-save time d s.ongoing h;
        version_is = f.0;
        state_is = f.1.0;
        actions_are = f.1.1;
      }

  -- where a save says that it was done
  abbrev Saved : IvrCallState → Bool × IvrCallState → Service C → Type 0
  Saved d r s = r.0 ≡ true → IsStored d s

  delivered-Saved :
      (time : ℕ) (d : IvrCallState) (r : Carried) (s : Service C)
      → let m = delivered (save_ongoing_call col time d) r s in After (Saved d) m.0 m.1
  unfolding delivered
  delivered-Saved time d carried s = save-IsStored time d s
  delivered-Saved time d (failed b e) s = tt
  delivered-Saved time d (cut_off b) s = tt

  Yields-save_call : (d : IvrCallState) → Yields Anyhow (Saved d) (save_call col x d)
  unfolding save_call reading db
  Yields-save_call d = record {
    yields = λ s p.
        delivered-Saved (now x s) d (x.carries s.calls write_call) (disturbed x write_call s);
  }

  -- an answer comes with the stored document
  abbrev pub Answered : IvrCallState → Bool → Option (List Ncco) × Bool → Service C → Type 0
  Answered d h (none, b) s = b ≡ false
  Answered d h (some ncco, b) s = (b ≡ h) × IsStored d s

  pub Yields-save_then :
      (d : IvrCallState) (ncco : List Ncco) (h : Bool)
      → Yields Anyhow (Answered d h) (save_then col x d ncco h)
  unfolding save_then
  Yields-save_then d ncco h = Yields-bind (save_call col x d) _ (Yields-save_call d) (λ r.
      Yields-if r.0 _ _ (λ e. Yields-pure _ (λ s saved. (refl, saved e)))
        (λ e. Yields-pure _ (λ s saved. refl)))

  -- What a run of the machine keeps of a document, after `n` keys.
  pub record Follows (d : IvrCallState) (n : ℕ) (e : IvrCallState) : Type 0 where
    pub id_is : e.id ≡ d.id
    pub version_is : e.version ≡ d.version
    pub length_is : length e.user_actions ≡ length d.user_actions + n

  abbrev Followed : IvrCallState → ℕ → Pressed → Service C → Type 0
  Followed d n p s = Follows d n p.doc

  pressed-Follows :
      (key : String) (time : ℕ) (d : IvrCallState) (r : List Action × String) (t : Session)
      → IsOf d t
      → Follows d 1 (pressed key time d r t).doc
  pressed-Follows key time d r t h = record {
    id_is = ap (λ e. e.id) h.same;
    version_is = ap (λ e. e.version) h.same;
    length_is = length-append t.doc.user_actions _ ∙ ap (λ e. length e.user_actions + 1) h.same;
  }

  After-press :
      (key : String) (time : ℕ) (d : IvrCallState) (r : Reply (List Action × String)) (t : Session)
      (s : Service C)
      → IsOf d t
      → After (Followed d 1) (reply_with r (λ a. pressed key time d a t)) s
  After-press key time d (done a) t s h = pressed-Follows key time d a t h
  After-press key time d (raised e) t s h = tt
  After-press key time d cancelled t s h = tt

  Yields-press :
      (key : String) (time : ℕ) (m : Fsm) (d : IvrCallState)
      → Yields Anyhow (Followed d 1) (press col x key time m d)
  unfolding press
  Yields-press key time m d = record {
    yields = λ s p.
        let begin : Session = record { fsm = m; doc = d; calls = s.machine_calls } in
        let r = get_next_actions x.machine key begin in
        After-press key time d r.0 r.1 _
          ((IsOf-get_next_actions d x.machine key).after begin (record { same = refl }));
  }

  Follows-trans :
      (d e f : IvrCallState) (n k : ℕ) → Follows d n e → Follows e k f → Follows d (n + k) f
  Follows-trans d e f n k h g = record {
    id_is = g.id_is ∙ h.id_is;
    version_is = g.version_is ∙ h.version_is;
    length_is = omega (arith, g.length_is, h.length_is);
  }

  Yields-press_all :
      (keys : List String) (time n : ℕ) (d : IvrCallState) (p : Pressed)
      → Follows d n p.doc
      → Yields Anyhow (Followed d (n + length keys)) (press_all col x keys time p)
  unfolding press_all
  Yields-press_all [] time n d p h = Yields-pure p (λ s u. record {
    id_is = h.id_is;
    version_is = h.version_is;
    length_is = omega (arith, h.length_is);
  })
  Yields-press_all (key ∷ keys) time n d p h =
      Yields-bind (press col x key time p.fsm p.doc) _ (Yields-press key time p.fsm p.doc) (λ q.
        Yields-given _ (λ g.
          subst (λ k. Yields Anyhow (Followed d k) (press_all col x keys time q)) (omega arith)
            (Yields-press_all keys time (n + 1) d q (Follows-trans d p.doc q.doc n 1 h g))))

  -- no key at all is one input
  abbrev pub inputs : List String → ℕ
  inputs [] = 1
  inputs (key ∷ keys) = suc (length keys)

  Yields-press_keys :
      (digits : List String) (time : ℕ) (m : Fsm) (d : IvrCallState)
      → Yields Anyhow (Followed d (inputs digits)) (press_keys col x digits time m d)
  unfolding press_keys
  Yields-press_keys [] time m d = Yields-press "" time m d
  Yields-press_keys (key ∷ keys) time m d =
      subst
        (λ k.
          Yields Anyhow (Followed d k)
            (press_all col x (key ∷ keys) time (record { next_actions = []; fsm = m; doc = d })))
        (omega arith)
        (Yields-press_all (key ∷ keys) time 0 d (record { next_actions = []; fsm = m; doc = d })
          (record { id_is = refl; version_is = refl; length_is = omega arith }))

  -- what an answer to key presses comes with
  abbrev pub Advanced : IvrCallState → ℕ → Option (List Ncco) × Bool → Service C → Type 0
  Advanced d n (none, hangup) s = hangup ≡ false
  Advanced d n (some ncco, hangup) s =
      (e : IvrCallState) × (find_one d.id s.ongoing ≡ some e)
      × (e.version ≡ suc d.version)
      × (length e.user_actions ≡ length d.user_actions + n)

  advanced :
      (d e : IvrCallState) (n : ℕ) (h : Bool) (r : Option (List Ncco) × Bool) (s : Service C)
      → Follows d n e
      → Answered e h r s
      → Advanced d n r s
  advanced d e n h (none, b) s f q = q
  advanced d e n h (some ncco, b) s f (q, st) = (
    st.stored,
    ap (λ k. find_one k s.ongoing) (sym f.id_is) ∙ st.found,
    st.version_is ∙ ap suc f.version_is,
    ap length st.actions_are ∙ f.length_is,
  )

  Yields-advance :
      (digits : List String) (m : Fsm) (d : IvrCallState)
      → Yields Anyhow (Advanced d (inputs digits)) (advance col x digits m d)
  unfolding advance
  Yields-advance digits m d = Yields-bind _ _ (Yields-any _) (λ time.
      Yields-bind (press_keys col x digits time m d) _ (Yields-press_keys digits time m d) (λ p.
        Yields-given _ (λ f.
          Yields-imply _ (λ r s q. advanced d p.doc (inputs digits) _ r s f q)
            (Yields-save_then p.doc _ _))))

  -- Where `advance`, which lets the machine take the keys of one press, answers actions, the stored
  -- document has the next version after the one given, and one more action for each key (one, where
  -- there was no key); where it answers none, the caller is not to be disconnected.
  pub advance-stored :
      (digits : List String) (m : Fsm) (d : IvrCallState) (s : Service C)
      (r : Option (List Ncco) × Bool)
      → (advance col x digits m d s).0 ≡ done r
      → Advanced d (inputs digits) r (advance col x digits m d s).1
  advance-stored digits m d s r e = Yields-done _ (Yields-advance digits m d) s r tt e
