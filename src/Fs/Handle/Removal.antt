-- ===== src/Fs/Handle/Removal.antt =====
-- Moving the last handle into the gap loses none (pkg/fs/client/vfs/handle.go).
use paddle_flow.Prelude.{
  ==_iff, Bool-cases, In, List, [], ap, inl, inr, refl, some, some-inj, subst, sym, ℕ, ◌==◌, ◌↔◌,
  ◌∙◌, ◌∷◌, ◌≡◌, ◌≢◌,
}
use mathlib.Core.Bool.{false≢true}
use paddle_flow.Fs.Handle.{Handle, all_but_last, cut_at, find_in, last_of, release_in}

-- No two handles have the same number.
abbrev pub Distinct : List Handle → Type 0
Distinct [] = Unit
Distinct (h ∷ hs) = ((k : Handle) → In k hs → k.fh ≢ h.fh) × Distinct hs

last_of-In : (h : Handle) (hs : List Handle) → In (last_of h hs) (h ∷ hs)
last_of-In h [] = inl refl
last_of-In h (k ∷ ks) = inr (last_of-In k ks)

all_but_last-In :
    (h : Handle) (hs : List Handle) (x : Handle) → In x (all_but_last h hs) → In x (h ∷ hs)
all_but_last-In h (k ∷ ks) x (inl e) = inl e
all_but_last-In h (k ∷ ks) x (inr i) = inr (all_but_last-In k ks x i)
all_but_last-In h [] x i = absurd i

In-cut_at : (hs : List Handle) (x : Handle) → In x (cut_at hs) → In x hs
In-cut_at [] x i = i
In-cut_at (h ∷ hs) x (inl e) = subst (λ y. In y (h ∷ hs)) e (last_of-In h hs)
In-cut_at (h ∷ hs) x (inr i) = all_but_last-In h hs x i

cut_at-In : (hs : List Handle) (x : Handle) → In x hs → In x (cut_at hs)
cut_at-In [] x i = i
cut_at-In (h ∷ []) x i = i
cut_at-In (h ∷ k ∷ ks) x (inl e) = inr (inl e)
cut_at-In (h ∷ k ∷ ks) x (inr i) = elim (cut_at-In (k ∷ ks) x i) [
  | inl e ↦ inl e
  | inr j ↦ inr (inr j)
]

cut_at-Distinct : (hs : List Handle) → Distinct hs → Distinct (cut_at hs)
cut_at-Distinct [] d = d
cut_at-Distinct (h ∷ []) d = d
cut_at-Distinct (h ∷ k ∷ ks) (apart, d) =
    let (last_apart, rest) = cut_at-Distinct (k ∷ ks) d in
    (
      λ x i. elim i [
        | inl e ↦
            λ q. apart (last_of k ks) (last_of-In k ks) (sym q ∙ ap (λ (y : Handle). y.fh) (sym e))
        | inr j ↦ last_apart x j
      ],
      (λ x i. apart x (all_but_last-In k ks x i), rest),
    )

pub find_in-In :
    (hs : List Handle) (fh : ℕ) (h : Handle) → find_in hs fh ≡ some h → In h hs × (h.fh ≡ fh)
unfolding find_in
find_in-In [] fh h e = cc
find_in-In (k ∷ ks) fh h e = elim (Bool-cases (k.fh == fh)) [
  | inl q ↦
      let same : k ≡ h = some-inj (rw q at e) in
      (inl same, sym (ap (λ (x : Handle). x.fh) same) ∙ (==_iff k.fh fh).0 q)
  | inr q ↦ let (i, f) = find_in-In ks fh h (rw q at e) in (inr i, f)
]

pub In-find_in :
    (hs : List Handle) (fh : ℕ) (h : Handle)
    → Distinct hs
    → In h hs
    → h.fh ≡ fh
    → find_in hs fh ≡ some h
unfolding find_in
In-find_in [] fh h d i e = absurd i
In-find_in (k ∷ ks) fh h d (inl q) e =
    rw ((==_iff k.fh fh).1 (ap (λ (x : Handle). x.fh) q ∙ e)) (ap some q)
In-find_in (k ∷ ks) fh h (apart, d) (inr i) e = elim (Bool-cases (k.fh == fh)) [
  | inl q ↦ absurd (apart h i (e ∙ sym ((==_iff k.fh fh).0 q)))
  | inr q ↦ rw q (In-find_in ks fh h d i e)
]

-- What is left in the list.
pub release_in-In :
    (hs : List Handle) (fh : ℕ) (x : Handle)
    → Distinct hs
    → In x (release_in hs fh) ↔ In x hs × (x.fh ≢ fh)
unfolding release_in
release_in-In [] fh x d = ((λ i. absurd i), (λ (i, _). i))
release_in-In (k ∷ ks) fh x (apart, d) = elim (Bool-cases (k.fh == fh)) [
  | inl q ↦
      let same : k.fh ≡ fh = (==_iff k.fh fh).0 q in
      rw q (
        λ i. (inr (In-cut_at ks x i), λ e. apart x (In-cut_at ks x i) (e ∙ sym same)),
        λ (i, other). elim i [
          | inl e ↦ absurd (other (sym (ap (λ (y : Handle). y.fh) e) ∙ same))
          | inr j ↦ cut_at-In ks x j
        ],
      )
  | inr q ↦
      let (forth, back) = release_in-In ks fh x d in
      rw q (
        λ i. elim i [
          | inl e ↦ (
            inl e,
            λ f. false≢true (sym q ∙ (==_iff k.fh fh).1 (ap (λ (y : Handle). y.fh) e ∙ f)),
          )
          | inr j ↦ (inr (forth j).0, (forth j).1)
        ],
        λ (i, other). elim i [ inl e ↦ inl e | inr j ↦ inr (back (j, other)) ],
      )
]

pub release_in-Distinct : (hs : List Handle) (fh : ℕ) → Distinct hs → Distinct (release_in hs fh)
unfolding release_in
release_in-Distinct [] fh d = d
release_in-Distinct (k ∷ ks) fh (apart, d) = elim (Bool-cases (k.fh == fh)) [
  | inl q ↦ rw q (cut_at-Distinct ks d)
  | inr q ↦ rw q (λ x i. apart x ((release_in-In ks fh x d).0 i).0, release_in-Distinct ks fh d)
]
