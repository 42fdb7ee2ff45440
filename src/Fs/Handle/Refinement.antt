-- ===== src/Fs/Handle/Refinement.antt =====
-- The table of handles is a map from inode and number to handle (pkg/fs/client/vfs/handle.go).
use paddle_flow.Prelude.{
  ==_iff, Bool, Bool-cases, In, In-append, List, Option, [], ap, arith, false, if◌then◌else◌, inl,
  inr, none, none≢some, refl, some, sym, true, ℕ, ◌&&◌, ◌++◌, ◌+◌, ◌<◌, ◌==◌, ◌^◌, ◌↔◌, ◌∙◌, ◌∷◌,
  ◌≡◌,
}
use mathlib.Core.Bool.{false≢true}
use paddle_flow.Fs.Handle.{
  Handle, Table, at_inode, find_handle, find_in, release_handle, release_in, new_handle, next_of,
}
use paddle_flow.Fs.Handle.Removal.{
  Distinct, In-find_in, find_in-In, release_in-Distinct, release_in-In,
}

-- At each inode the numbers differ, and they were given out before the next one.
pub record IsValid (v : Table) : Type 0 where
  pub distinct : (i : ℕ) → Distinct (v.handle_map i)
  pub given_out : (i : ℕ) (h : Handle) → In h (v.handle_map i) → h.fh < v.next_fh

find_in-none :
    (hs : List Handle) (fh : ℕ) (h : Handle) → find_in hs fh ≡ none → In h hs → h.fh ≡ fh → ⊥
unfolding find_in
find_in-none [] fh h e i q = i
find_in-none (k ∷ ks) fh h e i q = elim (Bool-cases (k.fh == fh)) [
  | inl r ↦ none≢some (sym (rw r at e))
  | inr r ↦ elim i [
    | inl f ↦ false≢true (sym r ∙ (==_iff k.fh fh).1 (ap (λ (x : Handle). x.fh) f ∙ q))
    | inr j ↦ find_in-none ks fh h (rw r at e) j q
  ]
]

-- Two lists with the same handles, of which no two have the same number, give the same answers.
find_in-same :
    (xs ys : List Handle) (fh : ℕ)
    → Distinct ys
    → ((h : Handle) → h.fh ≡ fh → In h xs ↔ In h ys)
    → find_in xs fh ≡ find_in ys fh
find_in-same xs ys fh d same = at_first (find_in xs fh) refl
  where
    at_second :
        find_in xs fh ≡ none → (o : Option Handle) → find_in ys fh ≡ o → none ≡ find_in ys fh
    at_second e none f = sym f
    at_second e (some h) f =
        let (i, q) = find_in-In ys fh h f in absurd (find_in-none xs fh h e ((same h q).1 i) q)

    at_first : (o : Option Handle) → find_in xs fh ≡ o → find_in xs fh ≡ find_in ys fh
    at_first none e = e ∙ at_second e (find_in ys fh) refl
    at_first (some h) e =
        let (i, q) = find_in-In xs fh h e in e ∙ sym (In-find_in ys fh h d ((same h q).0 i) q)

find_in-absent :
    (hs : List Handle) (fh : ℕ) → ((h : Handle) → In h hs → h.fh ≡ fh → ⊥) → find_in hs fh ≡ none
find_in-absent hs fh absent = at_result (find_in hs fh) refl
  where
    at_result : (o : Option Handle) → find_in hs fh ≡ o → find_in hs fh ≡ none
    at_result none e = e
    at_result (some h) e = let (i, q) = find_in-In hs fh h e in absurd (absent h i q)

module _ (v : Table) (valid : IsValid v) (inode : ℕ) where
  -- On a valid table `releaseHandle` takes away the handle of this inode and number and no other.
  pub release_handle-find_handle :
      (fh i k : ℕ)
      → find_handle (release_handle v inode fh) i k
        ≡ (if (i == inode) && (k == fh) then none else find_handle v i k)
  unfolding find_handle release_handle
  release_handle-find_handle fh i k = elim (Bool-cases (i == inode)) [
    | inl e ↦
        let same : i ≡ inode = (==_iff i inode).0 e in rw e (rw same (at_number (k == fh) refl))
    | inr e ↦ rw e refl
  ]
    where
      hs : List Handle
      hs = v.handle_map inode

      at_number :
          (b : Bool)
          → (k == fh) ≡ b
          → find_in (release_in hs fh) k ≡ (if b then none else find_in hs k)
      at_number true e =
          find_in-absent (release_in hs fh) k (λ h j q.
            ((release_in-In hs fh h (valid.distinct inode)).0 j).1 (q ∙ (==_iff k fh).0 e))
      at_number false e = find_in-same (release_in hs fh) hs k (valid.distinct inode) (λ h q.
          let (forth, back) = release_in-In hs fh h (valid.distinct inode) in
          (λ j. (forth j).0, λ j. back (j, λ r. false≢true (sym e ∙ (==_iff k fh).1 (sym q ∙ r)))))

  pub release_handle-IsValid : (fh : ℕ) → IsValid (release_handle v inode fh)
  unfolding release_handle
  release_handle-IsValid fh = record { distinct = distinct; given_out = given_out }
    where
      hs : List Handle
      hs = v.handle_map inode

      distinct : (i : ℕ) → Distinct (at_inode v.handle_map inode (release_in hs fh) i)
      distinct i = elim (Bool-cases (i == inode)) [
        | inl e ↦ rw e (release_in-Distinct hs fh (valid.distinct inode))
        | inr e ↦ rw e (valid.distinct i)
      ]

      given_out :
          (i : ℕ) (h : Handle)
          → In h (at_inode v.handle_map inode (release_in hs fh) i)
          → h.fh < v.next_fh
      given_out i h j = elim (Bool-cases (i == inode)) [
        | inl e ↦
            valid.given_out inode h ((release_in-In hs fh h (valid.distinct inode)).0 (rw e at j)).0
        | inr e ↦ valid.given_out i h (rw e at j)
      ]

find_in-append :
    (hs : List Handle) (h : Handle) (k : ℕ)
    → ((x : Handle) → In x hs → x.fh < h.fh)
    → find_in (hs ++ h ∷ []) k ≡ (if k == h.fh then some h else find_in hs k)
unfolding find_in
find_in-append [] h k lower = elim (Bool-cases (k == h.fh)) [
  | inl e ↦ rw e (rw ((==_iff h.fh k).1 (sym ((==_iff k h.fh).0 e))) refl)
  | inr e ↦ rw e (unequal (h.fh == k) refl e)
]
  where
    unequal :
        (b : Bool) → (h.fh == k) ≡ b → (k == h.fh) ≡ false → (if b then some h else none) ≡ none
    unequal false q e = refl
    unequal true q e = absurd (false≢true (sym e ∙ (==_iff k h.fh).1 (sym ((==_iff h.fh k).0 q))))
find_in-append (x ∷ hs) h k lower = elim (Bool-cases (x.fh == k)) [
  | inl e ↦
      let less : x.fh < h.fh = lower x (inl refl) in
      rw e (not_last (k == h.fh) refl (omega (arith, less, (==_iff x.fh k).0 e)))
  | inr e ↦ rw e (find_in-append hs h k (λ y i. lower y (inr i)))
]
  where
    not_last :
        (b : Bool)
        → (k == h.fh) ≡ b
        → k < h.fh
        → ◌≡◌ {A = Option Handle} (some x) (if b then some h else some x)
    not_last false q less = refl
    not_last true q less = absurd (omega (arith, less, (==_iff k h.fh).0 q))

append-Distinct :
    (hs : List Handle) (h : Handle)
    → Distinct hs
    → ((x : Handle) → In x hs → x.fh < h.fh)
    → Distinct (hs ++ h ∷ [])
append-Distinct [] h d lower = ((λ k i. absurd i), tt)
append-Distinct (x ∷ hs) h (apart, d) lower = (
  λ k i. elim (In-append k hs (h ∷ []) i) [
    | inl j ↦ apart k j
    | inr (inl e) ↦ λ q. omega (arith, lower x (inl refl), ap (λ (y : Handle). y.fh) e, q)
    | inr (inr j) ↦ absurd j
  ],
  append-Distinct hs h d (λ y i. lower y (inr i)),
)

module _ (v : Table) (valid : IsValid v) (inode : ℕ) (reader writer : Bool) where
  -- On a valid table `newHandle` adds the handle that it returns and changes no other.
  pub new_handle-find_handle :
      (i k : ℕ)
      → find_handle (new_handle v inode reader writer).1 i k ≡ (
          if (i == inode) && (k == (new_handle v inode reader writer).0.fh)
          then some (new_handle v inode reader writer).0
          else find_handle v i k)
  unfolding find_handle new_handle
  new_handle-find_handle i k = elim (Bool-cases (i == inode)) [
    | inl e ↦
        let same : i ≡ inode = (==_iff i inode).0 e in
        rw e (rw same (find_in-append (v.handle_map inode) _ k (valid.given_out inode)))
    | inr e ↦ rw e refl
  ]

  pub new_handle-IsValid : v.next_fh + 1 < 2 ^ 64 → IsValid (new_handle v inode reader writer).1
  unfolding new_handle
  new_handle-IsValid room = record { distinct = distinct; given_out = given_out }
    where
      h : Handle
      h = record { fh = v.next_fh; inode = inode; reader = reader; writer = writer }

      hs : List Handle
      hs = v.handle_map inode

      stays : next_of v.next_fh ≡ v.next_fh + 1
      stays = omega (arith, room)

      distinct : (i : ℕ) → Distinct (at_inode v.handle_map inode (hs ++ h ∷ []) i)
      distinct i = elim (Bool-cases (i == inode)) [
        | inl e ↦ rw e (append-Distinct hs h (valid.distinct inode) (valid.given_out inode))
        | inr e ↦ rw e (valid.distinct i)
      ]

      given_out :
          (i : ℕ) (x : Handle)
          → In x (at_inode v.handle_map inode (hs ++ h ∷ []) i)
          → x.fh < next_of v.next_fh
      given_out i x j = elim (Bool-cases (i == inode)) [
        | inl e ↦ elim (In-append x hs (h ∷ []) (rw e at j)) [
          | inl k ↦ omega (arith, stays, valid.given_out inode x k)
          | inr (inl q) ↦ omega (arith, stays, ap (λ (y : Handle). y.fh) q)
          | inr (inr k) ↦ absurd k
        ]
        | inr e ↦ omega (arith, stays, valid.given_out i x (rw e at j))
      ]
