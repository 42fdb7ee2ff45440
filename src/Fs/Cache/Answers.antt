-- ===== src/Fs/Cache/Answers.antt =====
-- pkg/fs/client/cache/cache.go: `ReadAt` on a sound store.
use paddle_flow.Prelude.{
  List, Option, Text, [], ap, arith, length, lookup, none, none≢some, pos, refl, some, subst, sym,
  ℕ, ◌%◌, ◌+◌, ◌/◌, ◌<◌, ◌∙◌, ◌∷◌, ◌≡◌, ◌≤◌,
}
use paddle_flow.Fs.Answer.{ok}
use paddle_flow.Fs.Disk.{Bytes, Os}
use paddle_flow.Fs.Cache.{Fill, Lru, Store, reader_key}
use paddle_flow.Fs.Cache.Reads.{Reading, read_at, read_block, read_cache, read_through}
use paddle_flow.Fs.Cache.Blocks.{IsRightAnswer, IsRightFill, Serves, block_of, read_block-IsSlice}
use paddle_flow.Fs.Cache.Kept.{Kept, read_cache_lem}
use paddle_flow.Fs.Cache.Traces.{IsNew, MayServe}
use paddle_flow.Fs.Cache.Sound.{IsSound, IsSound-issue, IsSound-shrink}
use paddle_flow.Fs.Cache.Through.{read_through-IsRightAnswer, read_through-IsThrough}
use paddle_flow.Fs.Cache.Moves.{Kept-reader_key, reader_key-IsNamed}

-- A call of `setCache` on a file that has an identity, with blocks of that file.
pub record IsPending (size : ℕ) (files : Text → Bytes) (meta : List (Text × Text)) (f : Fill)
    : Type 0 where
  pub has_identity : (id : Text) × (lookup f.id meta ≡ some id)
  pub right : IsRightFill size (files f.id) f

module _ (l : Lru) (hash : Text → ℕ) (size : ℕ) where
  -- What is true after `ReadAt`.
  pub record IsRead (files : Text → Bytes) (issued : List Text) (s : Store l) (name uuid : Text)
      (r : Reading l hash) : Type 0 where
    pub sound : IsSound l hash size files (uuid ∷ issued) r.store
    pub same_names :
        (other id : Text) → lookup other s.meta ≡ some id → lookup other r.store.meta ≡ some id
    pub fills : (g : Fill) → r.fill ≡ some g → IsPending size files r.store.meta g

  module _ (files : Text → Bytes) (issued : List Text) (s : Store l) (name : Text)
      (fd : ℕ → ℕ → Option Bytes) (uuid : Text) (os : Os) (new : IsNew issued uuid)
      (h : IsSound l hash size files issued s) where
    -- After the key is made and the cache is asked.
    record IsAsked (buf : Bytes) (off index : ℕ) (c : Option (Bytes × ℕ) × Store l) : Type 0 where
      sound : IsSound l hash size files (uuid ∷ issued) c.1
      same_conf : c.1.conf.block_size ≡ size
      has_identity : (id : Text) × (lookup name c.1.meta ≡ some id)
      same_names :
          (other id : Text) → lookup other s.meta ≡ some id → lookup other c.1.meta ≡ some id
      from_block :
          (a : Bytes × ℕ) → c.0 ≡ some a → a ≡ read_block (block_of size (files name) index) buf off

    asked :
        (buf : Bytes) (off index : ℕ)
        → IsAsked buf off index (
            let (key, t) = reader_key l hash s name uuid index in
            read_cache l hash t buf key off os)
    asked buf off index =
        let named = reader_key-IsNamed l hash size files issued s name uuid index new h in
        let r = reader_key l hash s name uuid index in
        let cached = read_cache_lem l r.1 hash buf r.0 off os in
        let after =
          IsSound-shrink l hash size files (uuid ∷ issued) r.1
            (read_cache l hash r.1 buf r.0 off os).1 cached.shrinks named.sound in
        let (id, e) = named.has_identity in
        record {
          sound = after;
          same_conf = after.same_size;
          has_identity =
              (id, subst (λ m. lookup name m ≡ some id) (sym cached.shrinks.same_meta) e);
          same_names = λ other i k.
              subst (λ m. lookup other m ≡ some i) (sym cached.shrinks.same_meta)
                (named.same_names other i k);
          from_block = λ a is.
              let (b, kept, answer) = cached.from_kept a is in
              let before = named.same_kept r.0 b kept in
              let under = subst (λ key. Kept l s key b) named.keyed before in
              answer
              ∙ ap (λ block. read_block block buf off)
                  (Kept-reader_key l hash size files issued s name index b h under);
        }

    finish : (found : Option (Bytes × ℕ)) → Store l → Bytes → ℕ → Reading l hash
    finish found u buf off = elim found [
      | some (filled, n) ↦ record { answer = ok (filled, pos n); store = u; fill = none }
      | none ↦ read_through l hash u name fd buf off
    ]

    finish-IsRead :
        (buf : Bytes) (off index r : ℕ) (c : Option (Bytes × ℕ) × Store l)
        → MayServe (files name) fd
        → IsAsked buf r index c
        → IsRead files issued s name uuid (finish c.0 c.1 buf off)
    unfolding finish
    finish-IsRead buf off index r (some a, u) serves q = record {
      sound = q.sound;
      same_names = q.same_names;
      fills = λ g no. absurd (none≢some no);
    }
    finish-IsRead buf off index r (none, u) serves q =
        let through = read_through-IsThrough l hash u name (files name) fd buf off serves in
        let same = sym through.same_store in
        let (id, e) = q.has_identity in
        record {
          sound = subst (IsSound l hash size files (uuid ∷ issued)) same q.sound;
          same_names =
              λ other i k. subst (λ t. lookup other t.meta ≡ some i) same (q.same_names other i k);
          fills = λ g is.
              let (named, right) = through.fills g is in
              let sized = subst (λ z. IsRightFill z (files name) g) q.same_conf right in
              record {
                has_identity = (
                  id,
                  subst (λ t. lookup g.id t.meta ≡ some id) same
                      (ap (λ n. lookup n u.meta) named ∙ e),
                );
                right = subst (λ n. IsRightFill size (files n) g) (sym named) sized;
              };
        }

    pub read_at-IsRead :
        (buf : Bytes) (off : ℕ)
        → MayServe (files name) fd
        → IsRead files issued s name uuid (read_at l hash s name fd buf off uuid os)
    unfolding read_at finish
    read_at-IsRead [] off serves = record {
      sound = IsSound-issue l hash size files issued s uuid new h;
      same_names = λ other id e. e;
      fills = λ g no. absurd (none≢some no);
    }
    read_at-IsRead (b ∷ buf) off serves =
        finish-IsRead (b ∷ buf) off (off / s.conf.block_size) (off % s.conf.block_size) _ serves
          (asked (b ∷ buf) (off % s.conf.block_size) (off / s.conf.block_size))

    finish-IsRightAnswer :
        (buf : Bytes) (off : ℕ) (c : Option (Bytes × ℕ) × Store l)
        → Serves (files name) fd
        → 0 < size
        → off % size + length buf ≤ size
        → off ≤ length (files name)
        → IsAsked buf (off % size) (off / size) c
        → IsRightAnswer (files name) buf off (finish c.0 c.1 buf off).answer
    unfolding finish
    finish-IsRightAnswer buf off (some a, u) serves some_size one_block inside q =
        let right = read_block-IsSlice size (files name) buf off some_size one_block in
        let block = read_block (block_of size (files name) (off / size)) buf (off % size) in
        (block.0, block.1, ap (λ x. ok (x.0, pos x.1)) (q.from_block a refl), right)
    finish-IsRightAnswer buf off (none, u) serves some_size one_block inside q =
        let same = sym q.same_conf in
        read_through-IsRightAnswer l hash u name (files name) fd buf off serves
          (subst (λ z. 0 < z) same some_size) (subst (λ z. off % z + length buf ≤ z) same one_block)
          inside

    -- On a sound store `ReadAt` of a file answers the bytes of the file.
    pub read_at-IsRightAnswer :
        (buf : Bytes) (off : ℕ)
        → Serves (files name) fd
        → 0 < size
        → off % size + length buf ≤ size
        → off ≤ length (files name)
        → IsRightAnswer (files name) buf off (read_at l hash s name fd buf off uuid os).answer
    unfolding read_at finish
    read_at-IsRightAnswer [] off serves some_size one_block inside =
        ([], 0, refl, record { count = omega arith; same_length = refl; bytes = refl })
    read_at-IsRightAnswer (b ∷ buf) off serves some_size one_block inside =
        subst
          (λ z.
            IsRightAnswer (files name) (b ∷ buf) off
              (let (key, t) = reader_key l hash s name uuid (off / z) in
                let (found, u) = read_cache l hash t (b ∷ buf) key (off % z) os in
                finish found u (b ∷ buf) off).answer)
          (sym h.same_size)
          (finish-IsRightAnswer (b ∷ buf) off _ serves some_size one_block inside
            (asked (b ∷ buf) (off % size) (off / size)))
