-- ===== src/Pipeline/Template.antt =====
-- pkg/pipeline/common.go: the references {{ name }} in a text, as its regular expressions find them.
use paddle_flow.Prelude.{
  Bool, List, Option, Text, [], if◌then◌else◌, leb, length, none, not, some, split, suc, text_empty,
  zero, ℕ, ◌&&◌, ◌++◌, ◌-◌, ◌==◌, ◌>>=◌, ◌||◌, ◌∷◌,
}

-- [a-zA-Z0-9_]
abbrev pub is_word : ℕ → Bool
is_word c = leb 48 c && leb c 57 || (leb 65 c && leb c 90 || (leb 97 c && leb c 122 || c == 95))

-- \s
abbrev pub is_gap : ℕ → Bool
is_gap c = c == 9 || (c == 10 || (c == 12 || (c == 13 || c == 32)))

-- The longest front whose characters `p` accepts, and the rest.
unfoldable pub span : (ℕ → Bool) → Text → Text × Text
span p [] = ([], [])
span p (c ∷ s) = let (front, rest) = span p s in if p c then (c ∷ front, rest) else ([], c ∷ s)

unfoldable pub strip : Text → Text → Option Text
strip [] s = some s
strip (c ∷ cs) [] = none
strip (c ∷ cs) (d ∷ s) = let rest = strip cs s in if c == d then rest else none

-- `row[0]` and `row[2]` of a match.
pub record Ref : Type 0 where
  pub whole : Text
  pub name : Text

-- ([a-zA-Z0-9_]*\.?[a-zA-Z0-9_]+)?: a dot belongs to the name only with a word behind it.
abbrev with_dot : Text → Text → Text × Text
with_dot front [] = (front, [])
with_dot front (c ∷ s) =
    let (word, rest) = span is_word s in
    if c == 46 && not (text_empty word) then (front ++ c ∷ word, rest) else (front, c ∷ s)

unfoldable pub match_name : Text → Text × Text
unfolding span
match_name s = let (front, rest) = span is_word s in with_dot front rest

abbrev opening : Text
opening = 123 ∷ 123 ∷ []

abbrev closing : Text
closing = 125 ∷ 125 ∷ []

-- A match at the front of a text.
unfoldable pub match_ref : Text → Option Ref
unfolding span strip match_name
match_ref s = do
  after_open ← strip opening s
  let (gap, at_name) = span is_gap after_open
  let (name, behind) = match_name at_name
  let (gap', at_close) = span is_gap behind
  _ ← strip closing at_close
  some (record { whole = opening ++ (gap ++ (name ++ (gap' ++ closing))); name = name })

-- `FindAllStringSubmatch`: the leftmost matches that do not overlap; the first argument counts the
-- characters that belong to a match already.
unfoldable pub find_refs : ℕ → Text → List Ref
unfolding match_ref
find_refs skip [] = []
find_refs (suc skip) (c ∷ s) = find_refs skip s
find_refs zero (c ∷ s) = elim (match_ref (c ∷ s)) [
  | none ↦ find_refs zero s
  | some r ↦ r ∷ find_refs (length r.whole - 1) s
]

-- strings.Replace(s, old, new, -1) for a text `old` that is not empty.
unfoldable pub replace_all : Text → Text → ℕ → Text → Text
unfolding strip
replace_all old new skip [] = []
replace_all old new (suc skip) (c ∷ s) = replace_all old new skip s
replace_all old new zero (c ∷ s) = elim (strip old (c ∷ s)) [
  | none ↦ c ∷ replace_all old new zero s
  | some _ ↦ new ++ replace_all old new (length old - 1) s
]

-- `parseParamName`: the step, which may be empty, and the name.
unfoldable pub parse_param_name : Text → Text × Text
unfolding split
parse_param_name name = elim (split b'.' name) [
  | [] ↦ ([], [])
  | p ∷ [] ↦ ([], p)
  | p ∷ q ∷ _ ↦ (p, q)
]
