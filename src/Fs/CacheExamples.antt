-- ===== src/Fs/CacheExamples.antt =====
-- A small cache in memory and reads of a file of six bytes (pkg/fs/client/cache, vfs/reader.go).
use paddle_flow.Prelude.{
  Bool-cases, In, List, Option, Text, [], arith, clean, codes, drop, eq→text_eq, false, inl, inr,
  insert, lookup, lookup-insert, min, none, none≢some, pos, refl, slice, some, some-inj, sym, take,
  text_eq, text_eq_refl, text_eq→eq, true, ℕ, ◌%◌, ◌*◌, ◌+◌, ◌↔◌, ◌∙◌, ◌∷◌, ◌≡◌, ◌≢◌, ◌≤◌, ◌⊎◌,
}
use mathlib.Core.Bool.{true≢false}
use paddle_flow.Fs.Answer.{ok, panics}
use paddle_flow.Fs.Disk.{Bytes, Os}
use paddle_flow.Fs.Cache.{Config, Fill, Lru, Store, block_key, new_cache_store}
use paddle_flow.Fs.Cache.Keys.{block_key-inj}
use paddle_flow.Fs.Cache.Fills.{fill_block}
use paddle_flow.Fs.Cache.Reads.{read_at, read_block}
use paddle_flow.Fs.Cache.Blocks.{IsRightAnswer, IsSlice}
use paddle_flow.Fs.Cache.Invalidation.{stale_keys}
use paddle_flow.Fs.Cache.Traces.{IsNew, Reaches, World, after_read, here, next, read}
use paddle_flow.Fs.Cache.Runs.{at_start, read_at_lem}
use paddle_flow.Fs.Cache.Leaks.{Remembers, fill_block_leaks}
use paddle_flow.Fs.Cache.Stale.{stale_keys-IsStale}
use paddle_flow.Fs.Reader.{data_read}
use paddle_flow.Fs.Reader.Cached.{cached_reader, data_read-cached}
use paddle_flow.Fs.Reader.Behind.{data_read_behind}

lookup-insert-some :
    (k j : Text) (b d : Bytes) (c : List (Text × Bytes))
    → lookup j (insert k b c) ≡ some d
    → ((j ≡ k) × (d ≡ b)) ⊎ (lookup j c ≡ some d)
lookup-insert-some k j b d c e = elim (Bool-cases (text_eq k j)) [
  | inl same ↦
      inl
        (sym (text_eq→eq k j same), sym (some-inj (sym (lookup-insert k j b c ∙ rw same refl) ∙ e)))
  | inr other ↦ inr (sym (lookup-insert k j b c ∙ rw other refl) ∙ e)
]

nothing_new : (k : Text) (b : Bytes) → lookup k [] ≡ some b → ⊥
unfolding lookup
nothing_new k b e = none≢some e

-- A memory cache that never drops an entry.
abbrev table_cache : Lru
table_cache = record {
  C = List (Text × Bytes);
  new = [];
  get = λ c k. (lookup k c, c);
  set = λ c k b. insert k b c;
  remove = λ c k. c;
  age = λ c. c;
  Holds = λ c k b. lookup k c ≡ some b;
  new_holds = nothing_new;
  get_holds = λ c k b e. e;
  get_keeps = λ c k j b e. e;
  set_holds = λ c k j b d e. lookup-insert-some k j b d c e;
  remove_keeps = λ c k j b e. e;
  age_keeps = λ c j b e. e;
}

abbrev small : Config
small = record { mem_size = some 10; disk = none; block_size = 4 }

abbrev small_store : Store table_cache
small_store = record { mem = some []; disk = none; conf = small; meta = [] }

abbrev no_hash : Text → ℕ
no_hash t = 300

small_store_made : new_cache_store table_cache small none ≡ some small_store
unfolding new_cache_store
small_store_made = refl

abbrev pub six : Bytes
six = 1 ∷ 2 ∷ 3 ∷ 4 ∷ 5 ∷ 6 ∷ []

abbrev six_handle : ℕ → ℕ → Option Bytes
six_handle k off = some (take k (drop off six))

abbrev pub idle : Os
idle = record { now = 0; opens = true; reads = true; writes = true; walked = []; df = none }

texts_differ : (s t : Text) → text_eq s t ≡ false → s ≢ t
texts_differ s t h e = absurd (true≢false (sym (eq→text_eq s t e) ∙ h))

u1_u2 : codes "u1" ≢ codes "u2"
unfolding text_eq
u1_u2 = texts_differ (codes "u1") (codes "u2") refl

b_a : codes "b" ≢ codes "a"
unfolding text_eq
b_a = texts_differ (codes "b") (codes "a") refl

no_name : (name : Text) → lookup {V = Text} name [] ≡ none
unfolding lookup
no_name name = refl

first_id : IsNew [] (codes "u1")
first_id = record {
  plain = record {
    no_slash = (omega arith, (omega arith, tt));
    no_underscore = (omega arith, (omega arith, tt));
  };
  not_empty = refl;
  not_issued = λ m. m;
}

second_id : IsNew (codes "u1" ∷ []) (codes "u2")
second_id = record {
  plain = record {
    no_slash = (omega arith, (omega arith, tt));
    no_underscore = (omega arith, (omega arith, tt));
  };
  not_empty = refl;
  not_issued = λ m. elim m [ inl e ↦ u1_u2 e | inr n ↦ n ];
}

abbrev files : Text → Bytes
files name = six

-- After a first read of the file "a".
abbrev once_read : World table_cache
once_read =
    after_read table_cache no_hash (at_start table_cache no_hash small_store files) (codes "u1") (
      read_at table_cache no_hash small_store (clean (codes "a")) six_handle (0 ∷ 0 ∷ []) 1
        (codes "u1") idle)

once_read_reached :
    Reaches table_cache no_hash (at_start table_cache no_hash small_store files) once_read
once_read_reached = next here (
    read (at_start table_cache no_hash small_store files) (codes "a") six_handle (0 ∷ 0 ∷ []) 1
      (codes "u1") idle (λ k off. inr refl) first_id)

read_at_lem_example :
    IsRightAnswer six
      (0 ∷ 0 ∷ 0 ∷ [])
      5
      (read_at table_cache no_hash once_read.store
        (clean (codes "a"))
        six_handle
        (0 ∷ 0 ∷ 0 ∷ [])
        5
        (codes "u2")
        idle).answer
read_at_lem_example =
    read_at_lem table_cache no_hash small none small_store files once_read small_store_made
      once_read_reached (codes "a") six_handle (0 ∷ 0 ∷ 0 ∷ []) 5 (codes "u2") idle (λ k off. refl)
      second_id (omega arith) (omega arith)

data_read-cached_example :
    (part : Bytes) × (n : ℕ) × (data_read
        (cached_reader table_cache no_hash
          (λ k. once_read.store)
          (codes "a")
          six_handle
          (λ k. codes "u2")
          (λ k. idle))
        4
        (0 ∷ 0 ∷ 0 ∷ 0 ∷ 0 ∷ 0 ∷ 0 ∷ [])
        1
      ≡ ok (part, n))
    × IsSlice six (0 ∷ 0 ∷ 0 ∷ 0 ∷ 0 ∷ 0 ∷ 0 ∷ []) 1 part n
data_read-cached_example =
    data_read-cached table_cache no_hash small none small_store files (λ k. once_read)
      small_store_made (λ k. once_read_reached) (codes "a") six (λ k. refl) six_handle
      (0 ∷ 0 ∷ 0 ∷ 0 ∷ 0 ∷ 0 ∷ 0 ∷ []) 1 (λ k. codes "u2") (λ k. idle) (λ k off. refl)
      (λ k. second_id) (omega arith)

data_read_behind_example :
    data_read
      (cached_reader table_cache no_hash
        (λ k. small_store)
        (codes "a")
        six_handle
        (λ k. codes "u1")
        (λ k. idle))
      4
      (0 ∷ [])
      7
    ≡ panics
data_read_behind_example =
    data_read_behind table_cache no_hash small none small_store small_store_made (codes "a") six
      six_handle (codes "u1") idle (0 ∷ []) 7 (λ k off. refl) first_id (omega arith) (omega arith)
      (omega arith)

remembered : Remembers table_cache
remembered c k b = lookup-insert k k b c ∙ rw (text_eq_refl k) refl

-- What is left of `setCache` after the read of "a".
abbrev late_fill : Fill
late_fill = record { id = codes "a"; data_read = six; n = 6; index = 0; left = 0; blocks = 2 }

fill_block_leaks_example :
    (read_at table_cache no_hash
      (fill_block table_cache no_hash small_store late_fill (codes "u1") idle).0
      (codes "b")
      six_handle
      (0 ∷ 0 ∷ [])
      1
      (codes "u2")
      idle).answer
    ≡ ok (
      (read_block (slice 0 (min (0 + 4) 6) six) (0 ∷ 0 ∷ []) (1 % 4)).0,
      pos (read_block (slice 0 (min (0 + 4) 6) six) (0 ∷ 0 ∷ []) (1 % 4)).1,
    )
fill_block_leaks_example =
    fill_block_leaks table_cache no_hash remembered small_store [] late_fill 9 (codes "u1") idle
      refl refl (no_name (codes "a")) (codes "b") six_handle 0 (0 ∷ []) 1 (codes "u2") idle b_a
      (no_name (codes "b")) refl

block_key-inj_example : (codes "u1" ≡ codes "u1") × ◌≡◌ {A = ℕ} 3 3
block_key-inj_example =
    block_key-inj no_hash (codes "u1") (codes "u1") 3 3 first_id.plain first_id.plain refl

stale_keys-IsStale_example :
    In
      (block_key no_hash (codes "u1") 1)
      (stale_keys table_cache no_hash (6 + 1) (codes "u1") 4 6 0 0)
    ↔ ((i : ℕ) × (0 ≤ i)
        × (i * 4 ≤ 6)
        × (block_key no_hash (codes "u1") 1 ≡ block_key no_hash (codes "u1") i))
stale_keys-IsStale_example =
    stale_keys-IsStale table_cache no_hash (codes "u1") 4 6 (omega arith)
      (block_key no_hash (codes "u1") 1)
