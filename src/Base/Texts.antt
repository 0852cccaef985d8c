-- ===== src/Base/Texts.antt =====
-- Branching, and tests on texts.
use Prim.Native.String.{String}
use mathlib.Core.Path.{◌≡◌, refl}
use mathlib.Core.Bool.{Bool, true, false}
use native.Mathlib.Omega.{arith}
use text.Mathlib.Text.{◌==◌ as str_eq}
use text.Mathlib.TextEquality.{eq_iff}

infix 1 if◌then◌else◌
abbrev pub if◌then◌else◌ {ℓ} : {A : Type ℓ} → Bool → A → A → A
if true then x else _ = x
if false then _ else y = y

-- Texts are compared by a decision, so that a branch has the equation or its negation.
decide_by : (s t : String) (b : Bool) → str_eq s t ≡ b → Dec (s ≡ t)
decide_by s t true h = yes ((eq_iff s t).0 h)
decide_by s t false h = no (λ e. different e)
  where
    different : s ≡ t → ⊥
    different e = cc (h, (eq_iff s t).1 e)

unfoldable pub String_discrete : Discrete String
unfolding decide_by
String_discrete s t = decide_by s t (str_eq s t) refl

-- `a === b` on texts.
abbrev pub is_same : String → String → Bool
is_same a b = elim (String_discrete a b) [ yes _ ↦ true | no _ ↦ false ]

pub is_same_refl : (a : String) → is_same a a ≡ true
is_same_refl a = ground arith

pub eq_of_is_same : (a b : String) → is_same a b ≡ true → a ≡ b
eq_of_is_same a b h = ground arith

pub ne_of_is_same : (a b : String) → is_same a b ≡ false → ¬ (a ≡ b)
ne_of_is_same a b h e = ground arith
