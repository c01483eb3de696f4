-- ===== src/Text/Characters.antt =====
-- A text as a native string.
use Prim.Native.Nat.{Ordering, compare, lt, eq, gt}
use Prim.Native.Char.{Char, char, nul, IsLt}
use Prim.Native.String.{String}
use bvault_app.Prelude.{ℕ, Option, some, none, [], ◌∷◌}
use bvault_app.Text.{Text}

-- `IsScalar` of the native characters, by its three comparisons.
abbrev IsBetween : Ordering → Ordering → Type 0
IsBetween lt q = IsLt q
IsBetween eq q = ⊥
IsBetween gt q = ⊥

abbrev IsCharacter : Ordering → Ordering → Ordering → Type 0
IsCharacter lt p q = Unit
IsCharacter eq p q = IsBetween p q
IsCharacter gt p q = IsBetween p q

abbrev between : (p q : Ordering) → Option (IsBetween p q)
between lt lt = some tt
between lt eq = none
between lt gt = none
between eq q = none
between gt q = none

abbrev character : (o p q : Ordering) → Option (IsCharacter o p q)
character lt p q = some tt
character eq p q = between p q
character gt p q = between p q

-- A number that is no character's, which no text has, becomes U+0000.
unfoldable pub char_of : ℕ → Char
char_of n = elim (character (compare n 55296) (compare 57343 n) (compare n 1114112)) [
  | none ↦ nul
  | some p ↦ char n p
]

unfoldable pub string_of : Text → String
unfolding char_of
string_of [] = String.[]
string_of (c ∷ cs) = String.◌∷◌ (char_of c) (string_of cs)
