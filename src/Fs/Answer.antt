-- ===== src/Fs/Answer.antt =====
-- What a call of the file system client comes to.
pub data Answer {ℓ} (A : Type ℓ) : Type ℓ where
  ok : A → Answer A
  io_error : Answer A
  panics : Answer A
  out_of_fuel : Answer A

abbrev pub on_ok {ℓ κ} : {A : Type ℓ} {B : Type κ} → Answer A → (A → Answer B) → Answer B
on_ok (ok a) f = f a
on_ok io_error f = io_error
on_ok panics f = panics
on_ok out_of_fuel f = out_of_fuel
