-- ===== src/Fs/Reader/Whole.antt =====
-- pkg/fs/client/vfs/reader.go: a read ends and gives the bytes of the file; what a count below zero
-- leads to.
use paddle_flow.Prelude.{
  Bool-cases, ap, arith, drop, drop-drop, if◌then◌else◌, inl, inr, length, length-drop,
  length-patched, length-take, ltb, ltb→lt, min, negsuc, patched, pos, refl, slice, subst, suc, sym,
  take, take-patched, take_append, true, zero, ℕ, ◌%◌, ◌++◌, ◌+◌, ◌-◌, ◌<◌, ◌∙◌, ◌≡◌, ◌≤◌,
}
use native.Mathlib.Nat.{mod-lt}
use paddle_flow.Fs.Answer.{Answer, ok, panics}
use paddle_flow.Fs.Disk.{Bytes}
use paddle_flow.Fs.Cache.Blocks.{IsRightAnswer, IsSlice}
use paddle_flow.Fs.Reader.{BlockReader, data_read, end_of, read_loop}

-- A reader that answers the bytes of the file within one block.
abbrev pub IsRightReader : ℕ → Bytes → BlockReader → Type 0
IsRightReader size f reader =
    (k : ℕ) (chunk : Bytes) (o : ℕ)
    → o % size + length chunk ≤ size
    → o ≤ length f
    → IsRightAnswer f chunk o (reader k chunk o)

module _ (size : ℕ) (f : Bytes) (reader : BlockReader) (off : ℕ) (some_size : 0 < size)
    (right : IsRightReader size f reader) where
  -- The buffer holds the file's bytes up to `read`.
  record IsFilledTo (len : ℕ) (buf : Bytes) (read : ℕ) : Type 0 where
    same_length : length buf ≡ len
    in_buffer : read ≤ len
    in_file : off + read ≤ length f
    bytes : take read buf ≡ take read (drop off f)

  abbrev IsWhole : ℕ → Answer (Bytes × ℕ) → Type 0
  IsWhole len a =
      (filled : Bytes) × (n : ℕ) × (a ≡ ok (filled, n))
      × (n ≡ min len (length f - off))
      × (length filled ≡ len)
      × (take n filled ≡ take n (drop off f))

  -- After one more call of the reader.
  filled_more :
      (len : ℕ) (buf : Bytes) (read : ℕ) (part : Bytes) (n : ℕ)
      → IsFilledTo len buf read
      → read + length part ≤ len
      → n ≤ length part
      → off + (read + n) ≤ length f
      → take n part ≡ take n (drop (off + read) f)
      → IsFilledTo len (patched read part buf) (read + n)
  filled_more len buf read part n h room enough inside same = record {
    same_length = length-patched read part buf (omega (arith, room, h.same_length)) ∙ h.same_length;
    in_buffer = omega (arith, room, enough);
    in_file = inside;
    bytes =
        take-patched read n part buf (omega (arith, h.same_length, h.in_buffer)) enough
        ∙ ap (λ u. u ++ take n part) h.bytes
        ∙ ap (λ u. take read (drop off f) ++ u) (same ∙ ap (take n) (sym (drop-drop read off f)))
        ∙ take_append read n (drop off f);
  }

  read_loop_lem :
      (k len : ℕ) (buf : Bytes) (read : ℕ)
      → IsFilledTo len buf read
      → len < k + read
      → IsWhole len (read_loop k reader size buf off read)
  unfolding read_loop
  read_loop_lem zero len buf read h fuel = absurd (omega (arith, fuel, h.in_buffer))
  read_loop_lem (suc k) len buf read h fuel = elim (Bool-cases (ltb read (length buf))) [
    | inr e ↦
        let full : read ≡ len = ground (arith, e, h.same_length, h.in_buffer) in
        rw (e, read_loop) (buf, read, refl, omega (arith, full, h.in_file), h.same_length, h.bytes)
    | inl e ↦
        let o = off + read in
        let end = end_of size (length buf) off read in
        let chunk = slice read end buf in
        let more : read < length buf = ltb→lt read (length buf) e in
        let small : o % size < size = mod-lt o some_size in
        let width : length chunk ≡ end - read =
          omega
            (arith, more, small, length-take (end - read) (drop read buf), length-drop read buf) in
        let (part, n, answered, is) =
          right k chunk o (omega (arith, width)) (omega (arith, h.in_file)) in
        rw (e, answered, read_loop)
          (at_count k (read_loop_lem k len) part n chunk h e width more small is fuel)
  ]
    where
      at_count :
          (k : ℕ)
          → ((b : Bytes) (r : ℕ)
              → IsFilledTo len b r
              → len < k + r
              → IsWhole len (read_loop k reader size b off r))
          → (part : Bytes) (n : ℕ) (chunk : Bytes) → IsFilledTo len buf read
          → ltb read (length buf) ≡ true
          → length chunk ≡ end_of size (length buf) off read - read
          → read < length buf
          → (off + read) % size < size
          → IsSlice f chunk (off + read) part n
          → len < suc k + read
          → IsWhole len (elim (pos n) as (λ x. Answer (Bytes × ℕ)) [
            | pos zero ↦ ok (patched read part buf, read)
            | pos (suc m) ↦ read_loop k reader size (patched read part buf) off (read + suc m)
            | negsuc m ↦
                if ltb read (m + 1)
                then panics
                else read_loop k reader size (patched read part buf) off (read - (m + 1))
          ])
      at_count k ih part zero chunk h e width more small is fuel =
          let filled =
            filled_more len buf read part 0 h (omega (arith, is.same_length, width, h.same_length))
              (omega arith) (omega (arith, h.in_file)) refl in
          let same : read + 0 ≡ read = omega arith in
          (
            patched read part buf,
            read,
            refl,
            omega (arith, is.count, width, more, small, h.same_length, h.in_file),
            filled.same_length,
            subst (λ r. take r (patched read part buf) ≡ take r (drop off f)) same filled.bytes,
          )
      at_count k ih part (suc m) chunk h e width more small is fuel =
          ih (patched read part buf) (read + suc m)
            (filled_more len buf read part (suc m) h
              (omega (arith, is.same_length, width, h.same_length))
              (omega (arith, is.count, is.same_length)) (omega (arith, is.count, h.in_file))
              is.bytes)
            (omega (arith, fuel))

  -- A read of the file that begins within it ends and answers the bytes that the file holds there,
  -- as many as there are and the buffer has room for, when the calls of the reader are right.
  pub data_read-IsWhole :
      (buf : Bytes)
      → off ≤ length f
      → (filled : Bytes) × (n : ℕ) × (data_read reader size buf off ≡ ok (filled, n))
        × IsSlice f buf off filled n
  unfolding data_read
  data_read-IsWhole buf inside =
      let (filled, n, answered, count, same_length, bytes) =
        read_loop_lem (suc (length buf)) (length buf) buf 0
          (record {
            same_length = refl;
            in_buffer = omega arith;
            in_file = omega (arith, inside);
            bytes = refl;
          })
          (omega arith) in
      (filled, n, answered, record { count = count; same_length = same_length; bytes = bytes })
