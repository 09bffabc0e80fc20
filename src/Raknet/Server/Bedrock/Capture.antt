-- ===== src/Raknet/Server/Bedrock/Capture.antt =====
-- What a login packet leads to in src/raknet/server/bedrock.rs.
use skin_get_be_rust.Prelude.{
  ℕ, ◌+◌, ◌-◌, ◌%◌, ◌^◌, ◌<◌, ◌≡◌, ◌⊎◌, refl, sym, ap, ◌∙◌, true, false, List, Option, none, some,
  length, leb, ◌==◌, arith, inl, inr,
}
use skin_get_be_rust.Prelude.Map.{lookup, lookup-remove_self}
use skin_get_be_rust.Prelude.Text.{Chars, chars_eq}
use mathlib.Core.Path.{subst}
use skin_get_be_rust.Bedrock.Login.Skin.{IsSized, parse_login_packet-IsSized}
use skin_get_be_rust.Error.{Result, ok, err}
use skin_get_be_rust.Buffer.{Buffer, read_remaining, unread}
use skin_get_be_rust.Buffer.Reads.{read_u8}
use skin_get_be_rust.Buffer.VarInt.{read_var_int, read_var_int_loop}
use skin_get_be_rust.Crypto.Jwt.{Encodings}
use skin_get_be_rust.Bedrock.Skin as Skin
use skin_get_be_rust.Bedrock.Skin.{Bytes, Files, ExtractedSkin, Saving, exists, save_login_capture}
use skin_get_be_rust.Bedrock.Skin.Saved.{Faithful, save_login_capture_keeps}
use skin_get_be_rust.Bedrock.Login.{ParsedLoginPacket, parse_login_packet}
use skin_get_be_rust.Bedrock.Login.Legacy.{extract_legacy_login_fields}
use skin_get_be_rust.Raknet.Server.Session.{SocketAddr, addr_eq, drop_connection_state}
use skin_get_be_rust.Raknet.Server.Bedrock.{
  World, Outer, send_as, send_combined, send_login_success_bundle, send_bedrock_bundle,
  send_disconnect_response, send_raknet_disconnect_notification, send_bedrock_response,
}
use skin_get_be_rust.Raknet.Server.Bedrock.Handle.{
  confirm, after_save, capture, handle_parsed, sync_client_version, handle_legacy, handle_login,
  handle_login_packet,
}

-- The cursor of a drained buffer stands at the end, so a fallback on it finds nothing.
drained_refused :
    (e : Encodings) (random : ℕ) (bytes : List ℕ)
    → (extract_legacy_login_fields e random (record { bytes = bytes; position = length bytes })).0
      ≡ none
unfolding extract_legacy_login_fields read_var_int read_var_int_loop read_u8
drained_refused e random bytes =
    let none_left : leb (length bytes + 1) (length bytes) ≡ false = ground arith in
    rw none_left refl

-- A confirmed login ends its session and writes no file.
confirm-closed :
    (o : Outer) (parsed : ParsedLoginPacket) (path : Option Chars) (from : SocketAddr) (w : World)
    → lookup from (confirm o parsed path from w).server.connections ≡ none
unfolding confirm drop_connection_state
confirm-closed o parsed path from w = lookup-remove_self from _

bundle-files :
    (o : Outer) (r : Result (Unit {0}) × Buffer) (to : SocketAddr) (w : World)
    → (send_combined o r to w).files ≡ w.files
unfolding send_as
bundle-files o (err e, b) to w = refl
bundle-files o (ok done, b) to w = refl

confirm-files :
    (o : Outer) (parsed : ParsedLoginPacket) (path : Option Chars) (from : SocketAddr) (w : World)
    → (confirm o parsed path from w).files ≡ w.files
unfolding confirm send_login_success_bundle send_bedrock_bundle send_disconnect_response
    send_raknet_disconnect_notification send_bedrock_response send_as
confirm-files o parsed path from w = bundle-files o _ from _

-- How a login ends: nothing is found in it and nothing changes, or its session is over, or, when the
-- capture is not saved, no datagram is sent and the table of sessions stays.
abbrev pub Ended : Result (Option ParsedLoginPacket) → SocketAddr → World → World → Type 0
Ended parsing from w after =
    ((parsing ≡ ok none) × (after ≡ w))
    ⊎ ((lookup from after.server.connections ≡ none)
        ⊎ ((after.datagrams ≡ w.datagrams) × (after.server.connections ≡ w.server.connections)))

abbrev pub Kept : World → World → Type 0
Kept w after =
    (name : Chars) → exists name w.files ≡ true → lookup name after.files ≡ lookup name w.files

module _ (o : Outer) (f : Faithful o.disk) (parsed : ParsedLoginPacket) (from : SocketAddr)
    (w : World) (fewer : length w.files < 2 ^ 32 - 1)
    (mode : (w.server.config.savemode == 1) ≡ false)
    (parsing : Result (Option ParsedLoginPacket)) where
  after_save-Ended :
      (synced : World)
      → synced.datagrams ≡ w.datagrams
      → synced.server.connections ≡ w.server.connections
      → (saving : Saving)
      → ((name : Chars) → exists name w.files ≡ true → lookup name saving.1 ≡ lookup name w.files)
      → (after : World) × (after_save o parsed from synced (some saving) ≡ some after)
        × Kept w after
        × Ended parsing from w after
  after_save-Ended synced d c (err e, files) keeps =
      (record synced { files = files }, refl, keeps, inr (inr (d, c)))
  after_save-Ended synced d c (ok path, files) keeps =
      let saved : World = record synced { files = files } in
      (
        confirm o parsed path from saved,
        refl,
        λ name there. ap (lookup name) (confirm-files o parsed path from saved) ∙ keeps name there,
        inr (inl (confirm-closed o parsed path from saved)),
      )

  handle_parsed-Ended :
      (after : World) × (handle_parsed o parsed from w ≡ some after)
      × Kept w after
      × Ended parsing from w after
  unfolding handle_parsed sync_client_version
  handle_parsed-Ended = go (Skin.new parsed.skin_width parsed.skin_height parsed.skin_data)
    where
      synced : World
      synced = sync_client_version o (parsed.protocol % 2 ^ 16) w

      go :
          (r : Result ExtractedSkin)
          → (after : World) × (capture o parsed from synced r ≡ some after)
            × Kept w after
            × Ended parsing from w after
      go (err e) = (synced, refl, λ name there. refl, inr (inr (refl, refl)))
      go (ok skin) =
          let (saving, e, keeps) =
            save_login_capture_keeps o.disk f parsed.player_name parsed.skin_id (o.sidecar parsed)
              skin w.server.config.savemode w.files fewer mode in
          rw e (after_save-Ended synced refl refl saving keeps)

-- In the numbered save mode, with fewer than 2 ^ 32 - 1 captures, on a disk where a write touches its own file
-- only, a login is handled to its end and keeps every capture that was there. Either nothing was found in it
-- and nothing changes, or its session is over, or no datagram is sent and the table of sessions stays.
pub handle_login_packet-Ended :
    (o : Outer) (f : Faithful o.disk) (b : Buffer) (from : SocketAddr) (w : World)
    → length w.files < 2 ^ 32 - 1
    → (w.server.config.savemode == 1) ≡ false
    → (after : World) × (handle_login_packet o b from w ≡ some after)
      × Kept w after
      × Ended (parse_login_packet o.encodings (unread b)) from w after
unfolding handle_login_packet read_remaining handle_legacy
handle_login_packet-Ended o f b from w fewer mode =
    go (parse_login_packet-IsSized o.encodings (unread b))
  where
    parsing : Result (Option ParsedLoginPacket)
    parsing = parse_login_packet o.encodings (unread b)

    drained : Buffer
    drained = record b { position = length b.bytes }

    Handled : Result (Option ParsedLoginPacket) → Type 0
    Handled r =
        (after : World) × (handle_login o drained from w r ≡ some after)
        × Kept w after
        × Ended r from w after

    go :
        (parsing ≡ ok none)
          ⊎ ((parsed : ParsedLoginPacket) × (parsing ≡ ok (some parsed)) × IsSized parsed)
        → Handled parsing
    go (inl none_) = subst Handled (sym none_) (
      w,
      ap (λ (found : Option (Chars × Bytes)). some (handle_legacy o from w found))
          (drained_refused o.encodings o.random_name b.bytes),
      λ name there. refl,
      inl (refl, refl),
    )
    go (inr (parsed, e, sized)) =
        subst Handled (sym e) (handle_parsed-Ended o f parsed from w fewer mode (ok (some parsed)))
