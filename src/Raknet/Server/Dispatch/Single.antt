-- ===== src/Raknet/Server/Dispatch/Single.antt =====
-- A datagram with one frame, all through `handle_game_packet` of src/raknet/server/mod.rs.
use skin_get_be_rust.Prelude.{ℕ}
use skin_get_be_rust.Raknet.Server.Session.{RakNetServer, SocketAddr, addr_eq}
use skin_get_be_rust.Raknet.Server.Dispatch.{ensured, connect}
use skin_get_be_rust.Raknet.Server.Dispatch.Receive.{pruned}

-- The server as a datagram's payload finds it.
abbrev pub ready : ℕ → SocketAddr → RakNetServer → RakNetServer
ready now from server =
    ensured from (λ session. session) (ensured from connect (pruned now from server))
