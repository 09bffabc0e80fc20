-- ===== src/Tests/Dispatch.antt =====
-- Runs of the Bedrock handlers and of a datagram, on a world where every call outside succeeds.
use skin_get_be_rust.Prelude.{◌+◌, ◌≡◌, refl, arith, true, [], ◌∷◌, ◌++◌, none, some, take}
use skin_get_be_rust.Prelude.Map.{lookup}
use skin_get_be_rust.Prelude.Text.{codes}
use skin_get_be_rust.Error.{ok, err, invalid_data}
use skin_get_be_rust.Buffer.{Buffer, empty, of_bytes, unread}
use skin_get_be_rust.Bedrock.Batch.{Codec, Packets, combine, compress_batch}
use skin_get_be_rust.Bedrock.Batch.Compress.{Inflates}
use skin_get_be_rust.Bedrock.Version.{initial}
use skin_get_be_rust.Bedrock.Login.{parse_login_packet}
use skin_get_be_rust.Raknet.Server.Session.{RakNetServer, SocketAddr, v4, addr_eq, new_session}
use skin_get_be_rust.Raknet.Server.Frames.{Sequence}
use skin_get_be_rust.Raknet.Server.Bedrock.{
  World, Outer, wrap_with_length, length_groups, response_body,
}
use skin_get_be_rust.Raknet.Server.Bedrock.Send.{unpacked, unpacked-response_body}
use skin_get_be_rust.Raknet.Server.Bedrock.Handle.{handle_login_packet}
use skin_get_be_rust.Raknet.Server.Bedrock.Capture.{Kept, Ended, handle_login_packet-Ended}
use skin_get_be_rust.Raknet.Server.Dispatch.{process_all, dispatch_raknet_packet}
use skin_get_be_rust.Raknet.Server.Dispatch.Batches.{dispatch_raknet_packet-batch}
use skin_get_be_rust.Buffer.Writes.{write_bytes}
use skin_get_be_rust.Buffer.VarInt.{write_var_int}
use skin_get_be_rust.Bedrock.Login.{u32_be}
use skin_get_be_rust.Bedrock.Login.Written.{written}
use skin_get_be_rust.Tests.Login.{chain, skin}
use skin_get_be_rust.Tests.Jwt.{plain}
use skin_get_be_rust.Tests.Skin.{disk, disk-Faithful}

abbrev storing : Codec
storing = record {
  inflate_raw = λ xs n. ok (take n xs);
  inflate_zlib = λ xs n. err invalid_data;
  deflate_raw = λ xs. ok xs;
}

storing-Inflates : Inflates storing
storing-Inflates xs compressed n h = let same : xs ≡ compressed = cc in rw same

abbrev outer : Outer
outer = record {
  codec = storing;
  encodings = plain;
  disk = disk;
  sidecar = λ parsed. ok [];
  shown_path = λ name. codes "skins/" ++ name;
  send_to = λ frame to. ok tt;
  to_utf8 = λ s. s;
  seconds = 7;
  milliseconds = 7_000;
  random_name = 5;
  split_id = λ n. n;
  clock = λ n idx. n + idx;
}

abbrev peer : SocketAddr
peer = v4 (10 ∷ 0 ∷ 0 ∷ 2 ∷ []) 19134

abbrev server : RakNetServer
server = record {
  config = record {
    server_guid = 1;
    protocol_version = 924;
    mtu_size = 1492;
    server_port = 19132;
    version = [];
    external_addr = none;
    savemode = 2;
  };
  connections = (peer, new_session true 11 800 []) ∷ [];
  split_buffers = [];
  runtime_protocol_version = 924;
  runtime_version = [];
}

abbrev world : World
world = record {
  server = server;
  datagrams = [];
  files = (codes "a_b.png", 1 ∷ []) ∷ [];
  loose_files = [];
  fallbacks = initial;
  sends = 0;
}

compressed : compress_batch storing (wrap_with_length (7 ∷ 8 ∷ [])) ≡ ok (0 ∷ 2 ∷ 7 ∷ 8 ∷ [])
unfolding compress_batch wrap_with_length length_groups
compressed = refl

unpacked-response_body_example :
    unpacked storing true (response_body outer true (7 ∷ 8 ∷ [])) ≡ ok ((7 ∷ 8 ∷ []) ∷ [])
unpacked-response_body_example =
    unpacked-response_body outer true (7 ∷ 8 ∷ []) (0 ∷ 2 ∷ 7 ∷ 8 ∷ []) storing-Inflates
      (omega arith) compressed

abbrev login : Buffer
login = of_bytes (written u32_be true 975 chain skin)

handle_login_packet-Ended_example :
    (after : World) × (handle_login_packet outer login peer world ≡ some after)
    × Kept world after
    × Ended (parse_login_packet plain (unread login)) peer world after
handle_login_packet-Ended_example =
    handle_login_packet-Ended outer disk-Faithful login peer world (omega arith) refl

abbrev packets : Packets
packets = (2 ∷ 9 ∷ []) ∷ (9 ∷ []) ∷ []

joined : combine packets empty ≡ (ok tt, record { bytes = 2 ∷ 2 ∷ 9 ∷ 1 ∷ 9 ∷ []; position = 0 })
unfolding combine write_var_int write_bytes
joined = refl

dispatch_raknet_packet-batch_example :
    dispatch_raknet_packet outer (0xfe ∷ 2 ∷ 2 ∷ 9 ∷ 1 ∷ 9 ∷ []) peer world
    ≡ process_all outer packets peer world
unfolding lookup
dispatch_raknet_packet-batch_example =
    dispatch_raknet_packet-batch outer peer world (2 ∷ 9 ∷ []) ((9 ∷ []) ∷ [])
      (record { bytes = 2 ∷ 2 ∷ 9 ∷ 1 ∷ 9 ∷ []; position = 0 }) 2 (2 ∷ 9 ∷ 1 ∷ 9 ∷ [])
      storing-Inflates (omega arith, (omega arith, tt)) joined (omega arith) refl

abbrev numbering : Sequence
numbering = record { seq = 5; rel_seq = 6; order_idx = 7 }
