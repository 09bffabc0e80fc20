-- ===== src/Error.antt =====
-- src/error.rs: the error type of the crate, and `Result`. The text of a message is left out:
-- no code branches on it.

pub data Error : Type 0 where
  io_error protocol_error crypto_error json_error invalid_data other : Error

pub data Result {ℓ} (A : Type ℓ) : Type ℓ where
  ok : A → Result A
  err : Error → Result A

-- `Result::unwrap_or` of the standard library.
abbrev pub unwrap_or {ℓ} : {A : Type ℓ} → Result A → A → A
unwrap_or (ok a) d = a
unwrap_or (err e) d = d
