-- ===== src/Conference/Manager/Registry.antt =====
-- What the registry finds, and what a restoration leaves as it is.
use seeds.Base.{
  String, ◌≡◌, ◌≢◌, Bool, true, false, none, some, List, [], ◌∷◌, All, arith, is_some, sym, ap,
  true≢false, ◌∙◌,
}
use seeds.Dict.{Dict, get, contains, get-insert_ne}
use seeds.Act.{write}
use seeds.Act.Keeps.{Keeps, Keeps-pure, Keeps-bind, Keeps-maybe, Keeps-reading_with, Keeps-if_with}
use seeds.Conference.World.{External, Io}
use seeds.Conference.Model.{ConferenceCallState}
use seeds.Conference.Call.{ConferenceCall}
use seeds.Conference.Manager.{
  Manager, Factories, io, find_by_phone, get_conference_from_phone_number, restore_one, restore_new,
  restore_all, restore_from_redis,
}

abbrev pub takes_part : String → String × ConferenceCall → Bool
takes_part phone (k, c) = contains phone c.state.participants

find_by_phone-some :
    (phone : String) (d : Dict ConferenceCall) (c : ConferenceCall)
    → find_by_phone phone d ≡ some c
    → contains phone c.state.participants ≡ true
unfolding find_by_phone
find_by_phone-some phone [] c h = cc
find_by_phone-some phone ((k, c') ∷ d) c h = ground (arith, find_by_phone-some phone d c)

find_by_phone-none :
    (phone : String) (d : Dict ConferenceCall)
    → find_by_phone phone d ≡ none
    → All (λ e. takes_part phone e ≡ false) d
unfolding find_by_phone
find_by_phone-none phone [] h = tt
find_by_phone-none phone ((k, c) ∷ d) h = ground (arith, find_by_phone-none phone d)

-- A conference that is found for a number has this number among its participants.
pub get_conference_from_phone_number-some :
    (phone : String) (g : Manager) (c : ConferenceCall)
    → get_conference_from_phone_number phone g ≡ some c
    → contains phone c.state.participants ≡ true
unfolding get_conference_from_phone_number
get_conference_from_phone_number-some phone g c h = find_by_phone-some phone g.conferences c h

-- Where no conference is found for a number, no registered conference has it among its participants.
pub get_conference_from_phone_number-none :
    (phone : String) (g : Manager)
    → get_conference_from_phone_number phone g ≡ none
    → All (λ e. takes_part phone e ≡ false) g.conferences
unfolding get_conference_from_phone_number
get_conference_from_phone_number-none phone g h = find_by_phone-none phone g.conferences h

-- A conference is registered under a name.
pub record Has (k : String) (c : ConferenceCall) (g : Manager) : Type 0 where
  pub at : get k g.conferences ≡ some c

module _ {k : String} {c : ConferenceCall} (x : External) (f : Factories) where
  Has-io {κ} : {A : Type κ} (m : Io A) → Keeps (Has k c) (io m)
  unfolding io
  Has-io m = record { after = λ g h. record { at = h.at } }

  Has-restore_one :
      (j : String) (s : ConferenceCallState) → j ≢ k → Keeps (Has k c) (restore_one x f j s)
  unfolding restore_one write
  Has-restore_one j s ne =
      Keeps-bind _ _ (Has-io _) (λ ps. record {
        after = λ g h. record { at = get-insert_ne j k _ g.conferences ne ∙ h.at };
      })

  other-name : (j : String) (g : Manager) → Has k c g → contains j g.conferences ≡ false → j ≢ k
  other-name j g h missing e =
      true≢false (sym (ap is_some (ap (λ i. get i g.conferences) e ∙ h.at)) ∙ missing)

  Has-restore_new : (j : String) → Keeps (Has k c) (restore_new x f j)
  unfolding restore_new
  Has-restore_new j = Keeps-reading_with _ (λ g h.
      Keeps-if_with _ _ _ (λ known. Keeps-pure tt)
        (λ missing. Keeps-bind _ _ (Has-io _) (λ state.
          Keeps-maybe state _ _ (Keeps-pure tt)
            (λ s. Has-restore_one j s (other-name j g h missing)))))

  Has-restore_all : (ids : List String) → Keeps (Has k c) (restore_all x f ids)
  unfolding restore_all
  Has-restore_all [] = Keeps-pure tt
  Has-restore_all (j ∷ ids) = Keeps-bind _ _ (Has-restore_new j) (λ u. Has-restore_all ids)

-- Restoring the conferences that Redis holds leaves every conference that this process has
-- registered exactly as it is, also where a read fails on the way.
pub restore_from_redis-keeps :
    (x : External) (f : Factories) (k : String) (c : ConferenceCall) (g : Manager)
    → get k g.conferences ≡ some c
    → get k (restore_from_redis x f g).1.conferences ≡ some c
unfolding restore_from_redis
restore_from_redis-keeps x f k c g h =
    ((Keeps-bind _ _ (Has-io x f _) (λ ids. Has-restore_all x f ids)).after g
      (record { at = h })).at
