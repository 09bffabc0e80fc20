-- ===== src/Bedrock/Login/Reading.antt =====
-- The reads of src/bedrock/login.rs on the fields of a written packet.
use skin_get_be_rust.Prelude.{
  ℕ, ◌^◌, ◌<◌, ◌≤◌, ◌≡◌, refl, ap, ◌∙◌, Bool, true, false, not, ◌||◌, ◌++◌, length, length-append,
  drop_prefix, ltb, ◌==◌, arith,
}
use skin_get_be_rust.Prelude.Bytes.{u32_bytes, u32_le_bytes}
use skin_get_be_rust.Prelude.Text.{Chars}
use skin_get_be_rust.Error.{ok}
use skin_get_be_rust.Buffer.{Buffer, M, ◌>>=◌, ◌>>◌, unread, remaining, read_bytes, advance}
use skin_get_be_rust.Buffer.View
use skin_get_be_rust.Buffer.VarInt.{read_var_int}
use skin_get_be_rust.Buffer.VarInt.Encode.{var_int32}
use skin_get_be_rust.Buffer.VarInt.RoundTrip.{read_var_int-var_int}
use skin_get_be_rust.Buffer.RoundTrip.{read_u32-bytes, read_u32_le-bytes}
use skin_get_be_rust.Buffer.Reads.{read_u32_le}
use skin_get_be_rust.Crypto.Jwt.{Encodings}
use skin_get_be_rust.Bedrock.Login.{
  ProtocolEncoding, u32_le, u32_be, var_int, ensure, lift, read_protocol, read_payload_length,
  read_text,
}
use skin_get_be_rust.Bedrock.Skin.{Bytes}
use skin_get_be_rust.Bedrock.Login.Written.{text_field, protocol_field, length_field}

-- A read that gives the value and leaves the bytes.
abbrev pub Gives : {A : Type 0} → M A → Buffer → A → Bytes → Type 0
Gives m b v rest = (c : Buffer) × (m b ≡ (ok v, c)) × (unread c ≡ rest)

pub bind-Gives :
    {A B : Type 0} (m : M A) (f : A → M B) (b : Buffer) (v : A) (mid : Bytes) (w : B) (rest : Bytes)
    → Gives m b v mid
    → ((c : Buffer) → unread c ≡ mid → Gives (f v) c w rest)
    → Gives (m >>= f) b w rest
bind-Gives m f b v mid w rest (c, e, left) next = let (d, k, end) = next c left in (d, rw e k, end)

advanced :
    (pre rest : Bytes) (n : ℕ) (b : Buffer)
    → unread b ≡ pre ++ rest
    → n ≡ length pre
    → unread (advance n b) ≡ rest
advanced pre rest n b h k = View.unread-advance b n ∙ rw h (drop_prefix pre rest n k)

pub ensure-Gives :
    (t : Bool) (b : Buffer) (rest : Bytes) → t ≡ true → unread b ≡ rest → Gives (ensure t) b tt rest
ensure-Gives true b rest h k = (b, refl, k)
ensure-Gives false b rest h k = cc

read_bytes-Gives :
    (p rest : Bytes) (b : Buffer)
    → 0 < length p
    → unread b ≡ p ++ rest
    → Gives (read_bytes (length p)) b p rest
read_bytes-Gives p rest b some_ h =
    let inside : b.position ≤ length b.bytes =
      omega (arith, View.length-unread b, ap length h, length-append p rest) in
    (
      advance (length p) b,
      View.read_bytes_lem b p rest inside h,
      advanced p rest (length p) b h refl,
    )

pub read_protocol-Gives :
    (protocol_encoding : ProtocolEncoding) (protocol : ℕ) (rest : Bytes) (b : Buffer)
    → protocol < 2 ^ 32
    → unread b ≡ protocol_field protocol_encoding protocol ++ rest
    → Gives (read_protocol protocol_encoding) b protocol rest
unfolding read_protocol
read_protocol-Gives u32_le protocol rest b small h = (
  advance 4 b,
  read_u32_le-bytes protocol b rest small h,
  advanced (u32_le_bytes protocol) rest 4 b h refl,
)
read_protocol-Gives u32_be protocol rest b small h = (
  advance 4 b,
  read_u32-bytes protocol b rest small h,
  advanced (u32_bytes protocol) rest 4 b h refl,
)
read_protocol-Gives var_int protocol rest b small h = (
  advance (length (var_int32 protocol)) b,
  read_var_int-var_int protocol b rest small h,
  advanced (var_int32 protocol) rest (length (var_int32 protocol)) b h refl,
)

-- A length is accepted when there are that many bytes, and some.
fits_lem :
    (n : ℕ) (body : Bytes) (c : Buffer)
    → 0 < n
    → n ≤ length body
    → unread c ≡ body
    → not (n == 0 || ltb (remaining c) n) ≡ true
fits_lem n body c some_ enough h =
    let left : remaining c ≡ length body = View.remaining-unread c ∙ ap length h in
    rw left (ground arith)

pub read_payload_length-Gives :
    (has_payload_length : Bool) (body : Bytes) (b : Buffer)
    → 0 < length body
    → length body < 2 ^ 32
    → unread b ≡ length_field has_payload_length body ++ body
    → Gives (read_payload_length has_payload_length) b tt body
unfolding read_payload_length
read_payload_length-Gives false body b some_ small h = (b, refl, h)
read_payload_length-Gives true body b some_ small h =
    bind-Gives read_var_int
      (λ payload_len c. ensure (not (payload_len == 0 || ltb (remaining c) payload_len)) c) b
      (length body) body tt body
      (
        advance (length (var_int32 (length body))) b,
        read_var_int-var_int (length body) b body small h,
        advanced (var_int32 (length body)) body (length (var_int32 (length body))) b h refl,
      )
      (λ c k.
        ensure-Gives (not (length body == 0 || ltb (remaining c) (length body))) c body
          (fits_lem (length body) body c some_ (omega arith) k) k)

module _ (e : Encodings) where
  pub read_text-Gives :
      (bytes : Bytes) (value : Chars) (rest : Bytes) (b : Buffer)
      → 0 < length bytes
      → length bytes < 2 ^ 32
      → e.from_utf8 bytes ≡ ok value
      → unread b ≡ text_field bytes ++ rest
      → Gives (read_text e) b value rest
  unfolding read_text
  read_text-Gives bytes value rest b some_ small decoded h =
      bind-Gives read_u32_le
        (λ len.
          (λ c. ensure (not (len == 0 || ltb (remaining c) len)) c)
          >> (read_bytes len >>= λ taken. lift (e.from_utf8 taken)))
        b (length bytes) (bytes ++ rest) value rest
        (
          advance 4 b,
          read_u32_le-bytes (length bytes) b (bytes ++ rest) small h,
          advanced (u32_le_bytes (length bytes)) (bytes ++ rest) 4 b h refl,
        )
        (λ c k.
          bind-Gives (λ d. ensure (not (length bytes == 0 || ltb (remaining d) (length bytes))) d)
            (λ _. read_bytes (length bytes) >>= λ taken. lift (e.from_utf8 taken)) c tt
            (bytes ++ rest) value rest
            (ensure-Gives (not (length bytes == 0 || ltb (remaining c) (length bytes))) c
              (bytes ++ rest)
              (fits_lem (length bytes) (bytes ++ rest) c some_
                (omega (arith, length-append bytes rest)) k)
              k)
            (λ d l.
              bind-Gives (read_bytes (length bytes)) (λ taken. lift (e.from_utf8 taken)) d bytes
                rest value rest (read_bytes-Gives bytes rest d some_ l)
                (λ f left. (f, rw decoded refl, left))))
