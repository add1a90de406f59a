-- ===== src/Ivr/Repository/Contract.antt =====
-- What the repository promises to its callers, without documents: a call has a content under a
-- version, which is written only by who knows the version; a letter box for the answer to one key
-- press, filled once and emptied by who takes it; and the mark of the last key press.
use seeds.Base.{
  ℕ, suc, String, ◌==◌, Bool, true, false, Option, none, some, List, [], ◌∷◌, is_some, eqb,
  if◌then◌else◌,
}
use seeds.Ivr.Model.{IvrCallState, Ncco}
use seeds.Ivr.Repository.{Operation, save, await_key, claim, pop, processed, ask_duplicate}

pub data Box : Type 0 where
  empty : Box
  awaits : String → Box
  holds : String → Option (List Ncco) → Option Bool → Box

pub record Call : Type 0 where
  pub version : ℕ
  pub content : IvrCallState
  pub box : Box
  pub last : Option String

abbrev pub Calls : Type 0
Calls = String → Option Call

-- The content of a document: what neither the version nor the key presses are about.
abbrev pub content_of : IvrCallState → IvrCallState
content_of d = record d {
  version = 0;
  updated_at = none;
  pending_dtmf = none;
  last_dtmf_message_id = none;
}

-- What is told of a letter: the time is forgotten.
pub data Told : Type 0 where
  yes_no : Bool → Told
  letter : Box → Told

unfoldable pub take : String → Box → Bool
take m empty = false
take m (awaits n) = n == m
take m (holds n _ _) = n == m

unfoldable pub open_for : String → Box → Bool
open_for m (awaits n) = n == m
open_for m _ = false

unfoldable pub filled : String → Box → Bool
filled m (holds n ncco h) = if n == m then is_some ncco else false
filled m _ = false

unfoldable pub saved : IvrCallState → Option Call → Bool × Option Call
saved s none = (
  true,
  some (record { version = suc s.version; content = content_of s; box = empty; last = none }),
)
saved s (some call) =
    if eqb call.version s.version
    then (true, some (record call { version = suc s.version; content = content_of s }))
    else (false, some call)

unfoldable pub awaited : String → Option Call → Bool × Option Call
awaited m none = (false, none)
awaited m (some call) = (true, some (record call { box = awaits m }))

unfoldable pub claimed : String → List Ncco → Bool → Option Call → Bool × Option Call
claimed m ncco h none = (false, none)
claimed m ncco h (some call) =
    if open_for m call.box
    then (true, some (record call { box = holds m (some ncco) (some h) }))
    else (false, some call)

unfoldable pub popped : String → Option Call → Box × Option Call
popped m none = (empty, none)
popped m (some call) =
    if take m call.box then (call.box, some (record call { box = empty })) else (empty, some call)

unfoldable pub marked : String → Option Call → Bool × Option Call
marked m none = (false, none)
marked m (some call) = (true, some (record call { last = some m }))

unfoldable pub duplicate : String → Option Call → Bool
duplicate m none = false
duplicate m (some call) = elim call.last [
  | none ↦ filled m call.box
  | some n ↦ if n == m then true else filled m call.box
]

-- a call under its name is changed, and no other
abbrev pub at : String → Option Call → Calls → Calls
at k call calls j = if k == j then call else calls j

unfoldable pub step : Operation → Calls → Told × Calls
step (save now s) calls = let (b, call) = saved s (calls s.id) in (yes_no b, at s.id call calls)
step (await_key now k m) calls = let (b, call) = awaited m (calls k) in (yes_no b, at k call calls)
step (claim now k m ncco h) calls =
    let (b, call) = claimed m ncco h (calls k) in (yes_no b, at k call calls)
step (pop now k m) calls = let (box, call) = popped m (calls k) in (letter box, at k call calls)
step (processed now k m) calls = let (b, call) = marked m (calls k) in (yes_no b, at k call calls)
step (ask_duplicate k m) calls = (yes_no (duplicate m (calls k)), calls)

unfoldable pub steps : List Operation → Calls → List (Operation × Told) × Calls
steps [] calls = ([], calls)
steps (o ∷ rest) calls =
    let (a, calls') = step o calls in let (t, calls'') = steps rest calls' in ((o, a) ∷ t, calls'')
