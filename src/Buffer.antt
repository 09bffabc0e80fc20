-- ===== src/Buffer.antt =====
-- src/util/buffer.rs: the byte buffer, its cursor and the bounds check that every read makes.
-- The field `data` is called `bytes`. A method takes the buffer and returns its `Result` with
-- the buffer as the call leaves it; on an error the buffer stays as the method left it, which
-- for `read_var_int` is behind the bytes that it took. Indices are `usize` and stay far below
-- 2 ^ 64, so `position + count` is written without a wrap.
pub mod Reads
pub mod Writes
pub mod View
pub mod Fixed
pub mod VarInt
pub mod RoundTrip
use skin_get_be_rust.Prelude.{
  ℕ, ◌+◌, ◌-◌, ◌<◌, min, Bool, List, [], ◌++◌, leb, ltb, length, get_or, take, drop, if◌then◌else◌,
}
use skin_get_be_rust.Error.{Result, ok, err, invalid_data}

pub record Buffer : Type 0 where
  pub bytes : List ℕ
  pub position : ℕ

-- A method of `&mut self` that returns `Result<A>`.
abbrev pub M : Type 0 → Type 0
M A = Buffer → Result A × Buffer

abbrev pub and_then : {A B : Type 0} → Result A × Buffer → (A → M B) → Result B × Buffer
and_then (ok a, b) f = f a b
and_then (err e, b) f = (err e, b)

-- The `?` operator.
infixl 5 ◌>>=◌ ◌>>◌
abbrev pub ◌>>=◌ : {A B : Type 0} → M A → (A → M B) → M B
◌>>=◌ m f b = and_then (m b) f

abbrev pub ◌>>◌ : {B : Type 0} → M (Unit {0}) → M B → M B
m >> k = m >>= λ _. k

abbrev pub return : {A : Type 0} → A → M A
return a b = (ok a, b)

abbrev pub empty : Buffer
empty = record { bytes = []; position = 0 }

-- `Buffer::from`
abbrev pub of_bytes : List ℕ → Buffer
of_bytes bytes = record { bytes = bytes; position = 0 }

abbrev pub has_remaining : Buffer → Bool
has_remaining b = ltb b.position (length b.bytes)

abbrev pub remaining : Buffer → ℕ
remaining b = if ltb b.position (length b.bytes) then length b.bytes - b.position else 0

-- `self.position + n <= self.data.len()`
abbrev pub holds : ℕ → Buffer → Bool
holds n b = leb (b.position + n) (length b.bytes)

-- `self.data[self.position + i]`; every use stands behind a bounds check.
abbrev pub byte_at : Buffer → ℕ → ℕ
byte_at b i = get_or b.bytes (b.position + i) 0

abbrev pub advance : ℕ → Buffer → Buffer
advance n b = record b { position = b.position + n }

-- A read of `n` bytes that are there, or the error with the cursor where it was.
abbrev pub guarded : {A : Type 0} → ℕ → (Buffer → A) → M A
guarded n value b = if holds n b then (ok (value b), advance n b) else (err invalid_data, b)

unfoldable pub read_bytes : ℕ → M (List ℕ)
read_bytes count = guarded count (λ b. take count (drop b.position b.bytes))

-- The slice `[self.position..]` panics past the end; `set_position` and the reads keep the
-- cursor inside the data.
unfoldable pub read_remaining : Buffer → List ℕ × Buffer
read_remaining b = (drop b.position b.bytes, record b { position = length b.bytes })

unfoldable pub peek_u8 : ℕ → Buffer → Result ℕ
peek_u8 offset b =
    if ltb (b.position + offset) (length b.bytes) then ok (byte_at b offset) else err invalid_data

unfoldable pub set_position : ℕ → Buffer → Buffer
set_position pos b = record b { position = min pos (length b.bytes) }

abbrev pub reset : Buffer → Buffer
reset b = record b { position = 0 }

abbrev pub IsByte : ℕ → Type 0
IsByte x = x < 256

-- What is still to be read.
abbrev pub unread : Buffer → List ℕ
unread b = drop b.position b.bytes
