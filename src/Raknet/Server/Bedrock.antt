-- ===== src/Raknet/Server/Bedrock.antt =====
-- src/raknet/server/bedrock.rs: the sending of Bedrock packets. What a handler changes is a `World`; what it calls outside is `Outer`. A
-- sleep between two responses is left out, and no other handler runs in it.
pub mod Handle
pub mod Send
pub mod Capture
use skin_get_be_rust.Prelude.{
  ℕ, zero, suc, ◌+◌, ◌/◌, ◌%◌, ◌^◌, Bool, true, false, not, ◌&&◌, List, [], ◌∷◌, ◌++◌, Option, none,
  some, length, take, ltb, ◌==◌, if◌then◌else◌,
}
use skin_get_be_rust.Prelude.Map.{lookup, insert}
use skin_get_be_rust.Prelude.Text.{codes, chars_beq}
use skin_get_be_rust.Prelude.Decimal.{decimal}
use skin_get_be_rust.Error.{Result, ok, err, unwrap_or}
use skin_get_be_rust.Buffer.{Buffer, empty, of_bytes, read_remaining}
use skin_get_be_rust.Buffer.Reads.{read_u32}
use skin_get_be_rust.Buffer.VarInt.{read_var_int}
use skin_get_be_rust.Crypto.Jwt.{Encodings}
use skin_get_be_rust.Bedrock.Batch.{Codec, Packets, combine, compress_batch}
use skin_get_be_rust.Bedrock.Responses.{build_play_status, build_disconnect, build_network_settings}
use skin_get_be_rust.Bedrock.Version.{Fallbacks, resolve_version}
use skin_get_be_rust.Bedrock.Skin as Skin
use skin_get_be_rust.Bedrock.Skin.{
  Bytes, Files, ExtractedSkin, Saving, extract_skin, encode_png_rgba, save_login_capture,
}
use skin_get_be_rust.Bedrock.Login.{ParsedLoginPacket, parse_login_packet}
use skin_get_be_rust.Bedrock.Login.Legacy.{extract_legacy_login_fields}
use skin_get_be_rust.Raknet.Server.Session.{
  Chars, ClientSession, RakNetServer, SocketAddr, addr_eq, is_active_connection,
  drop_connection_state,
}
use skin_get_be_rust.Raknet.Server.Frames.{Sent, send_frame}

-- `files` are those of the capture directory, `loose_files` those under the working directory, and
-- `sends` counts the calls of `send_frame`.
pub record World : Type 0 where
  pub server : RakNetServer
  pub datagrams : List (List ℕ)
  pub files : Files
  pub loose_files : Files
  pub fallbacks : Fallbacks
  pub sends : ℕ

-- The crates and the system: the codecs, the disk, the JSON text of a capture, the UTF-8 bytes
-- of a text, the text of the path of a
-- file in the capture directory, the socket, the wall clock in seconds and milliseconds, the random number of a missing
-- name, and for each call of `send_frame` its random split id and its clock.
pub record Outer : Type 0 where
  pub codec : Codec
  pub encodings : Encodings
  pub disk : Skin.Outside
  pub sidecar : ParsedLoginPacket → Result Bytes
  pub shown_path : Chars → Chars
  pub send_to : List ℕ → SocketAddr → Result (Unit {0})
  pub to_utf8 : Chars → List ℕ
  pub seconds : ℕ
  pub milliseconds : ℕ
  pub random_name : ℕ
  pub split_id : ℕ → ℕ
  pub clock : ℕ → ℕ → ℕ

abbrev pub update :
    Option ClientSession
    → SocketAddr
    → (ClientSession → ClientSession)
    → RakNetServer
    → RakNetServer
update none addr f s = s
update (some session) addr f s = record s { connections = insert addr (f session) s.connections }

-- `if let Some(session) = conns.get_mut(..)`
unfoldable pub with_session :
    SocketAddr → (ClientSession → ClientSession) → RakNetServer → RakNetServer
with_session addr f s = update (lookup addr s.connections) addr f s

abbrev pub compression_of : Option ClientSession → Bool
compression_of none = false
compression_of (some session) = session.compression_enabled

-- The length of a packet in groups of seven bits; a `usize` has ten groups at most.
unfoldable pub length_groups : (fuel : ℕ) → ℕ → List ℕ
length_groups zero len = []
length_groups (suc fuel) len =
    let rest = length_groups fuel (len / 128) in
    if len / 128 == 0 then len % 128 ∷ [] else (len % 128 + 128) ∷ rest

unfoldable pub wrap_with_length : List ℕ → List ℕ
wrap_with_length packet = length_groups 10 (length packet) ++ packet

abbrev pub plain_batch : List ℕ → List ℕ
plain_batch wrapped = 0xfe ∷ wrapped

abbrev pub compressed_batch : List ℕ → Result (List ℕ) → List ℕ
compressed_batch wrapped (ok compressed) = 0xfe ∷ compressed
compressed_batch wrapped (err e) = plain_batch wrapped

-- A bundle that does not compress is sent with a tag in front.
abbrev pub compressed_bundle : List ℕ → Result (List ℕ) → List ℕ
compressed_bundle combined (ok compressed) = 0xfe ∷ compressed
compressed_bundle combined (err e) = 0xfe ∷ 0 ∷ combined

module _ (o : Outer) where
  -- `self.send_frame(body, reliability, .., to).await`, whose result is dropped
  unfoldable pub send_as : ℕ → List ℕ → SocketAddr → World → World
  send_as reliability body to w =
      let sent =
        send_frame o.send_to w.server body reliability to (o.split_id w.sends) (o.clock w.sends) in
      record w {
        server = sent.server;
        datagrams = w.datagrams ++ sent.datagrams;
        sends = w.sends + 1;
      }

  -- Reliable and ordered.
  abbrev pub send : List ℕ → SocketAddr → World → World
  send body to w = send_as 3 body to w

  unfoldable pub response_body : Bool → List ℕ → List ℕ
  response_body compression_enabled packet =
      if not compression_enabled
      then plain_batch (wrap_with_length packet)
      else compressed_batch (wrap_with_length packet)
          (compress_batch o.codec (wrap_with_length packet))

  unfoldable pub send_bedrock_response : List ℕ → SocketAddr → Bool → World → World
  send_bedrock_response packet to force_uncompressed w =
      send
        (response_body
          (if force_uncompressed then false else compression_of (lookup to w.server.connections))
          packet)
        to w

  abbrev pub bundle_body : Bool → List ℕ → List ℕ
  bundle_body compression_enabled combined =
      if compression_enabled
      then compressed_bundle combined (compress_batch o.codec combined)
      else plain_batch combined

  abbrev pub send_combined : Result (Unit {0}) × Buffer → SocketAddr → World → World
  send_combined (err e, b) to w = w
  send_combined (ok done, b) to w =
      send (bundle_body (compression_of (lookup to w.server.connections)) b.bytes) to w

  unfoldable pub send_bedrock_bundle : Packets → SocketAddr → World → World
  send_bedrock_bundle packets to w = send_combined (combine packets empty) to w

  unfoldable pub send_login_success_bundle : SocketAddr → World → World
  send_login_success_bundle to w =
      send_bedrock_bundle (build_play_status 0 ∷ build_disconnect 0 (codes "Skin captured") ∷ []) to
        w

  unfoldable pub send_play_status_response : ℕ → SocketAddr → World → World
  send_play_status_response status to w =
      send_bedrock_response (build_play_status status) to false w

  unfoldable pub send_disconnect_response : ℕ → Chars → SocketAddr → World → World
  send_disconnect_response reason message to w =
      send_bedrock_response (build_disconnect reason message) to false w

  unfoldable pub send_raknet_disconnect_notification : SocketAddr → World → World
  send_raknet_disconnect_notification to w = send (0x15 ∷ []) to w

  unfoldable pub send_network_settings_response : SocketAddr → World → World
  send_network_settings_response to w = send_bedrock_response build_network_settings to true w
