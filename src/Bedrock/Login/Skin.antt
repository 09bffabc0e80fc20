-- ===== src/Bedrock/Login/Skin.antt =====
-- The skin that `parse_login_packet` of src/bedrock/login.rs returns.
use skin_get_be_rust.Prelude.{
  ℕ, ◌*◌, ◌/◌, ◌%◌, ◌^◌, ◌<◌, ◌≤◌, ◌≡◌, ◌≢◌, ◌⊎◌, refl, ◌∙◌, Bool, true, false, Option, none, some,
  length, ==_iff, ◌==◌, arith, Bool-cases, inl, inr,
}
use mathlib.Core.Path.{subst}
use skin_get_be_rust.Prelude.Text.{Chars, codes, is_empty}
use skin_get_be_rust.Error.{Result, ok, err}
use skin_get_be_rust.Crypto.Jwt.{Encodings, get_payload, get_json_value}
use skin_get_be_rust.Bedrock.Skin.{Bytes, new, dimensions}
use skin_get_be_rust.Bedrock.Skin.Dimensions.{dimensions_area}
use skin_get_be_rust.Bedrock.Login.{
  ParsedLoginPacket, LoginFields, skin_dimensions, number_or_zero, decode_loose_base64, packet_of,
  with_data, with_image, with_skin, with_fields, probe, parse_login_packet,
}

skin_dimensions_area :
    (img_w img_h pixels : ℕ)
    → 64 ≤ pixels
    → pixels < 2 ^ 32
    → pixels % 64 ≡ 0
    → (skin_dimensions img_w img_h pixels).0 * (skin_dimensions img_w img_h pixels).1 ≡ pixels
skin_dimensions_area img_w img_h pixels low high whole =
    go (Bool-cases (img_w == 0)) (Bool-cases (img_h == 0)) (Bool-cases (img_w * img_h == pixels))
  where
    Test : Bool → Type 0
    Test b = (b ≡ true) ⊎ (b ≡ false)

    area : (dimensions pixels).0 * (dimensions pixels).1 ≡ pixels
    area = dimensions_area pixels low high ∙ omega arith

    go :
        Test (img_w == 0)
        → Test (img_h == 0)
        → Test (img_w * img_h == pixels)
        → (skin_dimensions img_w img_h pixels).0 * (skin_dimensions img_w img_h pixels).1 ≡ pixels
    go (inl w) h p = rw w area
    go (inr w) (inl h) p = rw (w, h) area
    go (inr w) (inr h) (inl p) = rw (w, h, p) ((==_iff (img_w * img_h) pixels).0 p)
    go (inr w) (inr h) (inr p) = rw (w, h, p) area

-- What a packet's skin is: pixels, and an image of the packet's dimensions when they are whole rows of 64.
pub record IsSized (packet : ParsedLoginPacket) : Type 0 where
  pub filled : 0 < length packet.skin_data
  pub pixels : length packet.skin_data % 4 ≡ 0
  pub image :
      length packet.skin_data < 2 ^ 34
      → length packet.skin_data % 256 ≡ 0
      → new packet.skin_width packet.skin_height packet.skin_data
        ≡ ok (record {
          width = packet.skin_width;
          height = packet.skin_height;
          rgba = packet.skin_data;
        })

new-ok :
    (width height : ℕ) (rgba : Bytes)
    → length rgba ≡ width * height * 4
    → new width height rgba ≡ ok (record { width = width; height = height; rgba = rgba })
new-ok width height rgba h = rw ((==_iff (length rgba) (width * height * 4)).1 h) refl

module _ (e : Encodings) (fields : LoginFields) (packet : ParsedLoginPacket) where
  packet_of-IsSized :
      (skin_json : Chars) (bytes : Bytes)
      → (length bytes == 0) ≡ false
      → length bytes % 4 ≡ 0
      → IsSized (packet_of e fields skin_json bytes)
  packet_of-IsSized skin_json bytes some_ four = record {
    filled = ground arith;
    pixels = four;
    image = λ small whole.
        (let img_w : ℕ = number_or_zero (get_json_value skin_json (codes "SkinImageWidth")) in
          let img_h : ℕ = number_or_zero (get_json_value skin_json (codes "SkinImageHeight")) in
          let size : ℕ × ℕ = skin_dimensions img_w img_h (length bytes / 4) in
          let positive : length bytes ≢ 0 = ground arith in
          let area =
            skin_dimensions_area img_w img_h (length bytes / 4) (omega arith) (omega arith)
              (omega arith) in
          new-ok size.0 size.1 bytes (quadruple (length bytes) (size.0 * size.1) area four));
  }
    where
      quadruple : (n a : ℕ) → a ≡ n / 4 → n % 4 ≡ 0 → n ≡ a * 4
      quadruple n a h k = omega arith

  with_data-IsSized :
      (skin_json : Chars) (o : Option Bytes)
      → with_data e fields skin_json o ≡ some packet
      → IsSized packet
  with_data-IsSized skin_json none h = cc
  with_data-IsSized skin_json (some bytes) h =
      go (Bool-cases (length bytes == 0)) (Bool-cases (length bytes % 4 == 0)) h
    where
      go :
          ((length bytes == 0) ≡ true) ⊎ ((length bytes == 0) ≡ false)
          → ((length bytes % 4 == 0) ≡ true) ⊎ ((length bytes % 4 == 0) ≡ false)
          → with_data e fields skin_json (some bytes) ≡ some packet
          → IsSized packet
      go (inl none_) four k =
          absurd
            (let no : ◌≡◌ {A = Option ParsedLoginPacket} none (some packet) = rw none_ at k in cc)
      go (inr some_) (inr odd) k = absurd (
          let no : ◌≡◌ {A = Option ParsedLoginPacket} none (some packet) = rw (some_, odd) at k in
          cc)
      go (inr some_) (inl four) k =
          let made : ◌≡◌ {A = Option ParsedLoginPacket} (some (packet_of e fields skin_json bytes))
              (some packet) =
            rw (some_, four) at k in
          let same : packet_of e fields skin_json bytes ≡ packet = cc made in
          subst IsSized same
            (packet_of-IsSized skin_json bytes some_ ((==_iff (length bytes % 4) 0).0 four))

  with_image-IsSized :
      (skin_json : Chars) (o : Option Chars)
      → with_image e fields skin_json o ≡ some packet
      → IsSized packet
  with_image-IsSized skin_json none h = cc
  with_image-IsSized skin_json (some v) h = elim (Bool-cases (is_empty v)) [
    | inl empty ↦
        absurd
          (let no : ◌≡◌ {A = Option ParsedLoginPacket} none (some packet) = rw empty at h in cc)
    | inr there ↦ with_data-IsSized skin_json (decode_loose_base64 e v) (rw there at h)
  ]

  with_skin-IsSized : (r : Result Chars) → with_skin e fields r ≡ some packet → IsSized packet
  with_skin-IsSized (err x) h = cc
  with_skin-IsSized (ok skin_json) h =
      with_image-IsSized skin_json (get_json_value skin_json (codes "SkinData")) h

-- A login packet is parsed or given up, never refused; the skin of a parsed one is not empty and of whole
-- pixels, and when it is of whole rows of 64 pixels and less than 16 GiB, its dimensions are accepted for it.
pub parse_login_packet-IsSized :
    (e : Encodings) (source : Bytes)
    → (parse_login_packet e source ≡ ok none)
      ⊎ ((packet : ParsedLoginPacket) × (parse_login_packet e source ≡ ok (some packet))
          × IsSized packet)
unfolding parse_login_packet
parse_login_packet-IsSized e source = go (probe e source)
  where
    given :
        (o : Option ParsedLoginPacket)
        → ((packet : ParsedLoginPacket) → o ≡ some packet → IsSized packet)
        → (◌≡◌ {A = Result (Option ParsedLoginPacket)} (ok o) (ok none))
          ⊎ ((packet : ParsedLoginPacket) × (◌≡◌ {A = Result (Option ParsedLoginPacket)}
                (ok o)
                (ok (some packet)))
              × IsSized packet)
    given none h = inl refl
    given (some packet) h = inr (packet, refl, h packet refl)

    go :
        (o : Option LoginFields)
        → (◌≡◌ {A = Result (Option ParsedLoginPacket)} (ok (with_fields e o)) (ok none))
          ⊎ ((packet : ParsedLoginPacket) × (◌≡◌ {A = Result (Option ParsedLoginPacket)}
                (ok (with_fields e o))
                (ok (some packet)))
              × IsSized packet)
    go none = inl refl
    go (some fields) =
        given (with_skin e fields (get_payload e fields.skin_jwt))
          (λ packet h. with_skin-IsSized e fields packet (get_payload e fields.skin_jwt) h)
