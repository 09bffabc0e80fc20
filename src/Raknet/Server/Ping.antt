-- ===== src/Raknet/Server/Ping.antt =====
-- `handle_unconnected_ping` of src/raknet/server/handshake.rs: the reply with the server's text. `to_utf8`
-- gives the bytes of a text.
use skin_get_be_rust.Prelude.{
  ℕ, ◌/◌, ◌%◌, ◌^◌, List, [], ◌∷◌, ◌++◌, Option, none, some, length, take, drop, ltb, ◌==◌,
  if◌then◌else◌,
}
use skin_get_be_rust.Prelude.Bytes.{u16_bytes, u64_bytes}
use skin_get_be_rust.Prelude.Map.{lookup}
use skin_get_be_rust.Prelude.Text.{Chars, codes}
use skin_get_be_rust.Prelude.Decimal.{decimal}
use skin_get_be_rust.Error.{Result, ok, err, protocol_error}
use skin_get_be_rust.Raknet.Server.Session.{ClientSession, RakNetServer, SocketAddr, addr_eq}
use skin_get_be_rust.Raknet.Server.Replies.{magic}

-- The title changes every five seconds.
abbrev pub motd_title : ℕ → Chars
motd_title now =
    if now / 5 % 3 == 0
    then codes "Skin acquisition software!!"
    else if now / 5 % 3 == 1
    then codes "SkinGetBE"
    else codes "Created by androidprod"

-- The protocol and version of the session of the peer, or else of the server.
abbrev pub observed : Option ClientSession → RakNetServer → ℕ × Chars
observed none server = (server.runtime_protocol_version, server.runtime_version)
observed (some session) server = (session.bedrock_protocol, session.bedrock_version)

abbrev pub field : Chars → Chars
field s = s ++ (b';' ∷ [])

abbrev pub motd : ℕ → ℕ × Chars → RakNetServer → Chars
motd now (proto, ver) server =
    codes "MCPE;"
    ++ (field (motd_title now)
        ++ (field (decimal proto)
            ++ (field ver
                ++ (codes "0;100;"
                    ++ (field (decimal server.config.server_guid)
                        ++ (field (decimal server.config.server_guid)
                            ++ (codes "Creative;1;"
                                ++ (field (decimal server.config.server_port)
                                    ++ field (decimal server.config.server_port)))))))))

abbrev pub with_length : List ℕ → List ℕ
with_length bytes = u16_bytes (length bytes % 2 ^ 16) ++ bytes

unfoldable pub handle_unconnected_ping :
    (Chars → List ℕ) → ℕ → List ℕ → SocketAddr → RakNetServer → Result (List ℕ)
handle_unconnected_ping to_utf8 now packet from server =
    if ltb (length packet) 25
    then err protocol_error
    else ok (
        (0x1c ∷ take 8 (drop 1 packet))
        ++ (u64_bytes server.config.server_guid
            ++ (magic
                ++ with_length (
                    to_utf8 (motd now (observed (lookup from server.connections) server) server)))))
