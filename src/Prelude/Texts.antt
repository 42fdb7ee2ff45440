-- ===== src/Prelude/Texts.antt =====
-- Text as the list of its code points, with Go's comparison, strings.Split and trimming.
use Prim.Native.Nat.{ℕ}
use Prim.Native.Char.{code}
use Prim.Native.String.{String}
use mathlib.Core.Path.{◌≡◌, refl}
use mathlib.Core.Bool.{Bool, true, false, ◌&&◌, ◌||◌}
use mathlib.Core.Logic.{◌↔◌}
use mathlib.Core.List.{List, [], ◌∷◌, reverse}
use native.Mathlib.Omega.{arith}
use paddle_flow.Prelude.Tests.{◌==◌, if◌then◌else◌}

abbrev pub Text : Type 0
Text = List ℕ

abbrev pub codes : String → Text
codes String.[] = []
codes (String.◌∷◌ c s) = code c ∷ codes s

unfoldable pub text_eq : Text → Text → Bool
text_eq [] [] = true
text_eq (a ∷ s) (b ∷ t) = (a == b) && text_eq s t
text_eq _ _ = false

pub text_eq_refl : (s : Text) → text_eq s s ≡ true
unfolding text_eq
text_eq_refl [] = refl
text_eq_refl (a ∷ s) = ground (arith, text_eq_refl s)

pub text_eq→eq : (s t : Text) → text_eq s t ≡ true → s ≡ t
unfolding text_eq
text_eq→eq [] [] h = refl
text_eq→eq (a ∷ s) (b ∷ t) h = ground (arith, text_eq→eq s t)
text_eq→eq [] (b ∷ t) h = ground arith
text_eq→eq (a ∷ s) [] h = ground arith

pub eq→text_eq : (s t : Text) → s ≡ t → text_eq s t ≡ true
eq→text_eq s t e = rw (← e) (text_eq_refl s)

pub text_eq_iff : (s t : Text) → (text_eq s t ≡ true) ↔ (s ≡ t)
text_eq_iff s t = (text_eq→eq s t, eq→text_eq s t)

abbrev pub text_empty : Text → Bool
text_empty [] = true
text_empty (_ ∷ _) = false

-- strings.Split(s, sep) for a separator of one character: n separators give n + 1 parts.
abbrev split_onto : ℕ → Text → List Text → List Text
split_onto c part (p ∷ ps) = (c ∷ p) ∷ ps
split_onto c part [] = (c ∷ []) ∷ []

unfoldable pub split : ℕ → Text → List Text
split sep [] = [] ∷ []
split sep (c ∷ s) =
    let parts = split sep s in if c == sep then [] ∷ parts else split_onto c [] parts

-- Removes what `cut` accepts from the front, and from both ends.
unfoldable pub trim_left : (ℕ → Bool) → Text → Text
trim_left cut [] = []
trim_left cut (c ∷ s) = if cut c then trim_left cut s else c ∷ s

unfoldable pub trim : (ℕ → Bool) → Text → Text
unfolding trim_left
trim cut s = reverse (trim_left cut (reverse (trim_left cut s)))

-- unicode.IsSpace on the ASCII range, with U+0085 and U+00A0.
abbrev pub is_space : ℕ → Bool
is_space c =
    c == 9
    || (c == 10 || (c == 11 || (c == 12 || (c == 13 || (c == 32 || (c == 0x85 || c == 0xa0))))))

abbrev pub is_blank : ℕ → Bool
is_blank c = c == 32
