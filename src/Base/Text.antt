-- ===== src/Base/Text.antt =====
-- Texts as Python compares them: equality is decided, and the empty text is falsy.
use Prim.Native.String.{String, ◌++◌ as join}
use mathlib.Core.List.{List, [], ◌∷◌}
use mathlib.Core.Path.{◌≡◌, refl, sym, ◌∙◌}
use mathlib.Core.Logic.{◌≢◌}
use mathlib.Core.Bool.{Bool, true, false, not, false≢true}
use mathlib.Core.Option.{Option, none, some}
use text.Mathlib.Text.{◌==◌ as text_eq}
use text.Mathlib.TextEquality.{eq_iff}
use native.Mathlib.Omega.{arith}
use seeds.Base.Tests.{holds}

dec_text : (s t : String) (b : Bool) → text_eq s t ≡ b → Dec (s ≡ t)
dec_text s t true e = yes ((eq_iff s t).0 e)
dec_text s t false e = no (λ p. false≢true (sym e ∙ (eq_iff s t).1 p))

unfoldable pub String-discrete : Discrete String
unfolding dec_text
String-discrete s t = dec_text s t (text_eq s t) refl

infix 50 ◌==◌
abbrev pub ◌==◌ : String → String → Bool
s == t = holds (String-discrete s t)

-- `if text:`
abbrev pub truthy : String → Bool
truthy s = not (s == "")

-- `if text:` where the text may be `None`
abbrev pub is_given : Option String → Bool
is_given none = false
is_given (some s) = truthy s

-- `text or default`
abbrev pub text_or : Option String → String → String
text_or none d = d
text_or (some s) d = elim (truthy s) [ true ↦ s | false ↦ d ]

-- The pieces of an f-string, put together.
abbrev pub format : List String → String
format [] = ""
format (s ∷ rest) = join s (format rest)

pub text_ne : (s t : String) → (s == t) ≡ false → s ≢ t
text_ne s t h p = ground arith
