-- ===== src/Raknet/Server/Bedrock/Handle.antt =====
-- src/raknet/server/bedrock.rs: the handling of Bedrock packets: network settings, and the login with its
-- capture.
use skin_get_be_rust.Prelude.{
  ℕ, ◌%◌, ◌^◌, Bool, true, false, not, ◌&&◌, List, [], ◌∷◌, ◌++◌, Option, none, some, length, take,
  ltb, ◌==◌, if◌then◌else◌,
}
use skin_get_be_rust.Prelude.Text.{codes, chars_beq}
use skin_get_be_rust.Prelude.Decimal.{decimal}
use skin_get_be_rust.Error.{Result, ok, err, unwrap_or}
use skin_get_be_rust.Buffer.{Buffer, of_bytes, read_remaining}
use skin_get_be_rust.Buffer.Reads.{read_u32}
use skin_get_be_rust.Buffer.VarInt.{read_var_int}
use skin_get_be_rust.Bedrock.Version.{resolve_version}
use skin_get_be_rust.Bedrock.Skin as Skin
use skin_get_be_rust.Bedrock.Skin.{
  Bytes, Files, ExtractedSkin, Saving, extract_skin, encode_png_rgba, save_login_capture,
}
use skin_get_be_rust.Bedrock.Login.{ParsedLoginPacket, parse_login_packet}
use skin_get_be_rust.Bedrock.Login.Legacy.{extract_legacy_login_fields}
use skin_get_be_rust.Raknet.Server.Session.{
  Chars, ClientSession, SocketAddr, addr_eq, is_active_connection, drop_connection_state,
}
use skin_get_be_rust.Raknet.Server.Bedrock.{
  World, Outer, with_session, send_play_status_response, send_login_success_bundle,
  send_disconnect_response, send_raknet_disconnect_notification, send_network_settings_response,
}

module _ (o : Outer) where
  -- `sync_client_version` of src/raknet/server/mod.rs
  unfoldable pub sync_client_version : ℕ → World → World
  sync_client_version protocol w =
      let (version, fallbacks) = resolve_version protocol w.fallbacks in
      record w {
        fallbacks = fallbacks;
        server = record w.server { runtime_protocol_version = protocol; runtime_version = version };
      }

  abbrev pub shown : Option Chars → Option Chars
  shown none = none
  shown (some name) = some (o.shown_path name)

  abbrev pub logged_in : ParsedLoginPacket → Option Chars → Chars → ClientSession → ClientSession
  logged_in parsed path version session = record session {
    username = some parsed.player_name;
    skin_path = shown path;
    bedrock_protocol = parsed.protocol % 2 ^ 16;
    bedrock_version = version;
    connected = true;
  }

  -- What follows a capture that was saved: the session's fields, the three responses, and its end.
  unfoldable pub confirm : ParsedLoginPacket → Option Chars → SocketAddr → World → World
  confirm parsed path from w =
      let (version, fallbacks) = resolve_version parsed.protocol w.fallbacks in
      let noted = record w {
        fallbacks = fallbacks;
        server = with_session from (logged_in parsed path version) w.server;
      } in
      let bundled = send_login_success_bundle o from noted in
      let disconnected = send_disconnect_response o 0 (codes "Skin captured") from bundled in
      let notified = send_raknet_disconnect_notification o from disconnected in
      let closed =
        with_session from (λ session. record session { connected = false }) notified.server in
      record notified { server = drop_connection_state from closed }

  abbrev pub after_save : ParsedLoginPacket → SocketAddr → World → Option Saving → Option World
  after_save parsed from w none = none
  after_save parsed from w (some (err e, files)) = some (record w { files = files })
  after_save parsed from w (some (ok path, files)) =
      some (confirm parsed path from (record w { files = files }))

  abbrev pub capture : ParsedLoginPacket → SocketAddr → World → Result ExtractedSkin → Option World
  capture parsed from w (err e) = some w
  capture parsed from w (ok skin) = after_save parsed from w (
      save_login_capture o.disk parsed.player_name parsed.skin_id (o.sidecar parsed) skin
        w.server.config.savemode w.files)

  unfoldable pub handle_parsed : ParsedLoginPacket → SocketAddr → World → Option World
  handle_parsed parsed from w =
      capture parsed from (sync_client_version (parsed.protocol % 2 ^ 16) w)
        (Skin.new parsed.skin_width parsed.skin_height parsed.skin_data)

  abbrev pub legacy_path : Chars → ℕ → Chars
  legacy_path name ts = codes "skins/" ++ (name ++ b'_' ∷ decimal ts ++ codes ".png")

  abbrev pub named : Chars → Chars → ClientSession → ClientSession
  named name path session = record session { username = some name; skin_path = some path }

  abbrev pub has_png_header : Bytes → Bool
  has_png_header bytes =
      ltb 4 (length bytes) && chars_beq (take 4 bytes) (0x89 ∷ 0x50 ∷ 0x4e ∷ 0x47 ∷ [])

  -- `SkinExtractor::save_skin` of src/bedrock/skin.rs
  abbrev pub write_png_file : Chars → Files → Result Bytes → Result (Unit {0}) × Files
  write_png_file path files (err e) = (err e, files)
  write_png_file path files (ok png) = o.disk.write path png files

  abbrev pub in_directory :
      Result (Unit {0}) → Files → Result (Unit {0}) × Files → Result (Unit {0}) × Files
  in_directory (err e) files saved = (err e, files)
  in_directory (ok done) files saved = saved

  unfoldable pub save_skin : ExtractedSkin → Chars → Files → Result (Unit {0}) × Files
  save_skin skin path files =
      in_directory o.disk.create_dir_all files
        (write_png_file path files (encode_png_rgba o.disk skin.rgba skin.width skin.height))

  abbrev pub after_legacy_save :
      Chars → Chars → SocketAddr → World → Result (Unit {0}) × Files → World
  after_legacy_save name path from w (err e, files) = record w { loose_files = files }
  after_legacy_save name path from w (ok done, files) = record w {
    loose_files = files;
    server = with_session from (named name path) w.server;
  }

  abbrev pub save_legacy : Chars → Chars → SocketAddr → World → Result ExtractedSkin → World
  save_legacy name path from w (err e) = w
  save_legacy name path from w (ok skin) =
      after_legacy_save name path from w (save_skin skin path w.loose_files)

  abbrev pub keep_legacy : Chars → Bytes → Chars → SocketAddr → World → World
  keep_legacy name skin_bytes path from w =
      if has_png_header skin_bytes
      then record w {
        loose_files = (o.disk.write path skin_bytes w.loose_files).1;
        server = with_session from (named name path) w.server;
      }
      else if length skin_bytes % 4 == 0
      then save_legacy name path from w (extract_skin skin_bytes)
      else w

  abbrev pub compressing : ClientSession → ClientSession
  compressing session = record session { compression_enabled = true; compression_algo = none }

  unfoldable pub handle_legacy : SocketAddr → World → Option (Chars × Bytes) → World
  handle_legacy from w none = w
  handle_legacy from w (some (name, skin_bytes)) =
      let kept = keep_legacy name skin_bytes (legacy_path name o.seconds) from w in
      let greeted = send_play_status_response o 2 from kept in
      send_network_settings_response o from
        (record greeted { server = with_session from compressing greeted.server })

  abbrev pub handle_unparsed : Buffer → SocketAddr → World → World
  handle_unparsed b from w =
      handle_legacy from w (extract_legacy_login_fields o.encodings o.random_name b).0

  abbrev pub handle_login :
      Buffer → SocketAddr → World → Result (Option ParsedLoginPacket) → Option World
  handle_login b from w (ok (some parsed)) = handle_parsed parsed from w
  handle_login b from w (ok none) = some (handle_unparsed b from w)
  handle_login b from w (err e) = some (handle_unparsed b from w)

  -- None stands for a call that does not return.
  unfoldable pub handle_login_packet : Buffer → SocketAddr → World → Option World
  handle_login_packet b from w =
      let (remaining, drained) = read_remaining b in
      handle_login drained from w (parse_login_packet o.encodings remaining)

  -- A failed read of the protocol falls back on the server's.
  abbrev pub negotiated : ℕ → Chars → ClientSession → ClientSession
  negotiated proto ver session = record session {
    bedrock_protocol = proto % 2 ^ 16;
    bedrock_version = ver;
    compression_enabled = true;
    compression_algo = none;
  }

  unfoldable pub handle_network_settings : Buffer → SocketAddr → World → World
  handle_network_settings b from w =
      let proto = unwrap_or (read_u32 b).0 w.server.runtime_protocol_version in
      let (ver, fallbacks) = resolve_version proto w.fallbacks in
      send_network_settings_response o from (record w {
        fallbacks = fallbacks;
        server = with_session from (negotiated proto ver) w.server;
      })

  -- The id and the buffer behind it; a failed read leaves the first byte as the id.
  abbrev pub packet_id : ℕ → Result ℕ × Buffer → ℕ × Buffer
  packet_id first (ok id, b) = (id, b)
  packet_id first (err e, b) = (first, b)

  abbrev pub handle_by_id : SocketAddr → World → ℕ × Buffer → Option World
  handle_by_id from w (id, b) =
      if id == 1
      then handle_login_packet b from w
      else if id == 0xc1
      then some (handle_network_settings b from w)
      else some w

  unfoldable pub process_single_bedrock_packet : List ℕ → SocketAddr → World → Option World
  process_single_bedrock_packet [] from w = some w
  process_single_bedrock_packet (x ∷ packet) from w =
      if not (is_active_connection w.server from)
      then some w
      else handle_by_id from w (packet_id x (read_var_int (of_bytes (x ∷ packet))))
