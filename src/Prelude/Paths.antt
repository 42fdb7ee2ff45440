-- ===== src/Prelude/Paths.antt =====
-- path.Clean, which drops empty and single-dot elements of a path and resolves double dots.
use Prim.Native.Nat.{ℕ}
use mathlib.Core.Path.{◌≡◌, refl}
use mathlib.Core.Logic.{◌≢◌}
use paddle_flow.Prelude.Lists.{All}
use mathlib.Core.Bool.{Bool, false, true≢false}
use mathlib.Core.List.{List, [], ◌∷◌, ◌++◌, reverse}
use native.Mathlib.Omega.{arith}
use paddle_flow.Prelude.Tests.{if◌then◌else◌}
use paddle_flow.Prelude.Texts.{Text, text_eq, split, codes}

abbrev pub slash : ℕ
slash = 47

-- The elements that are kept, the last one first.
abbrev pub parent : Bool → List Text → List Text
parent rooted [] = if rooted then [] else codes ".." ∷ []
parent rooted (e ∷ es) = if text_eq e (codes "..") then codes ".." ∷ e ∷ es else es

unfoldable pub resolved : Bool → List Text → List Text → List Text
resolved rooted kept [] = kept
resolved rooted kept (e ∷ es) =
    if text_eq e []
    then resolved rooted kept es
    else if text_eq e (codes ".")
    then resolved rooted kept es
    else if text_eq e (codes "..")
    then resolved rooted (parent rooted kept) es
    else resolved rooted (e ∷ kept) es

abbrev pub joined : List Text → Text
joined [] = []
joined (e ∷ []) = e
joined (e ∷ es) = e ++ slash ∷ joined es

abbrev pub is_rooted : Text → Bool
is_rooted [] = false
is_rooted (c ∷ s) = text_eq (c ∷ []) (slash ∷ [])

abbrev pub or_dot : Text → Text
or_dot [] = codes "."
or_dot (c ∷ s) = c ∷ s

unfoldable pub clean : Text → Text
unfolding split resolved text_eq
clean p =
    let elements = reverse (resolved (is_rooted p) [] (split slash p)) in
    if is_rooted p then slash ∷ joined elements else or_dot (joined elements)

-- `c` does not occur.
abbrev pub Lacks : ℕ → Text → Type 0
Lacks c s = All (λ d. d ≢ c) s

split_lacking : (c : ℕ) (s : Text) → Lacks c s → split c s ≡ s ∷ []
unfolding split
split_lacking c [] h = refl
split_lacking c (d ∷ s) (ne, h) = rw (split_lacking c s h) (ground (arith, ne))

split-append : (c : ℕ) (s t : Text) → Lacks c s → split c (s ++ c ∷ t) ≡ s ∷ split c t
unfolding split
split-append c [] t h = ground arith
split-append c (d ∷ s) t (ne, h) = rw (split-append c s t h) (ground (arith, ne))

-- An element that `clean` keeps as it is.
pub record IsName (e : Text) : Type 0 where
  pub not_empty : text_eq e [] ≡ false
  pub not_dot : text_eq e (codes ".") ≡ false
  pub not_dots : text_eq e (codes "..") ≡ false
  pub no_slash : Lacks slash e

resolved_name :
    (rooted : Bool) (kept : List Text) (e : Text) (es : List Text)
    → IsName e
    → resolved rooted kept (e ∷ es) ≡ resolved rooted (e ∷ kept) es
unfolding resolved
resolved_name rooted kept e es n = rw (n.not_empty, n.not_dot, n.not_dots) refl

rooted_name : (e t : Text) → IsName e → is_rooted (e ++ t) ≡ false
unfolding text_eq
rooted_name [] t n = absurd (true≢false n.not_empty)
rooted_name (c ∷ e) t n = ground (arith, n.no_slash.0)

or_dot_name : (e t : Text) → IsName e → or_dot (e ++ t) ≡ e ++ t
unfolding text_eq
or_dot_name [] t n = absurd (true≢false n.not_empty)
or_dot_name (c ∷ e) t n = refl

-- A path of three names is clean.
pub clean_three :
    (a b c : Text)
    → IsName a
    → IsName b
    → IsName c
    → clean (a ++ slash ∷ (b ++ slash ∷ c)) ≡ a ++ slash ∷ (b ++ slash ∷ c)
unfolding clean
clean_three a b c na nb nc =
    let parts : split slash (a ++ slash ∷ (b ++ slash ∷ c)) ≡ a ∷ b ∷ c ∷ [] =
      rw
        (
          split-append slash a (b ++ slash ∷ c) na.no_slash,
          split-append slash b c nb.no_slash,
          split_lacking slash c nc.no_slash,
        )
        refl in
    rw
      (
        rooted_name a (slash ∷ (b ++ slash ∷ c)) na,
        parts,
        resolved_name false [] a (b ∷ c ∷ []) na,
        resolved_name false (a ∷ []) b (c ∷ []) nb,
        resolved_name false (b ∷ a ∷ []) c [] nc,
      )
      (or_dot_name a (slash ∷ (b ++ slash ∷ c)) na)

-- A separator that does not occur before tells where to cut.
pub append-inj :
    (c : ℕ) (s s' t t' : Text)
    → Lacks c s
    → Lacks c s'
    → s ++ c ∷ t ≡ s' ++ c ∷ t'
    → (s ≡ s') × (t ≡ t')
append-inj c [] [] t t' h h' e = (refl, cc)
append-inj c [] (d ∷ s') t t' h h' e = absurd (h'.0 (cc))
append-inj c (d ∷ s) [] t t' h h' e = absurd (h.0 (cc))
append-inj c (d ∷ s) (d' ∷ s') t t' h h' e =
    let tails : s ++ c ∷ t ≡ s' ++ c ∷ t' = cc in
    let heads : d ≡ d' = cc in
    let (front, back) = append-inj c s s' t t' h.1 h'.1 tails in (cc, back)

-- A text that holds an underscore is a name if it has no slash.
pub IsName-underscore : (s t : Text) → Lacks slash s → Lacks slash t → IsName (s ++ 95 ∷ t)
unfolding text_eq
IsName-underscore [] t hs ht = record {
  not_empty = refl;
  not_dot = refl;
  not_dots = refl;
  no_slash = (omega arith, ht);
}
IsName-underscore (a ∷ []) t hs ht = record {
  not_empty = refl;
  not_dot = ground arith;
  not_dots = ground arith;
  no_slash = (hs.0, (omega arith, ht));
}
IsName-underscore (a ∷ b ∷ s) t hs ht =
    let rest = IsName-underscore s t hs.1.1 ht in
    record {
      not_empty = refl;
      not_dot = ground arith;
      not_dots = ground (arith, rest.not_empty);
      no_slash = (hs.0, (hs.1.0, rest.no_slash));
    }
