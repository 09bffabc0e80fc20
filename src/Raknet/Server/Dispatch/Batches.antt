-- ===== src/Raknet/Server/Dispatch/Batches.antt =====
-- The batches of packets that a peer sends, in src/raknet/server/mod.rs.
use skin_get_be_rust.Prelude.{ℕ, ◌≤◌, ◌≡◌, refl, ap, Bool, true, false, List, ◌∷◌, All, length}
use skin_get_be_rust.Prelude.Map.{lookup}
use skin_get_be_rust.Error.{ok}
use skin_get_be_rust.Buffer.{Buffer, empty}
use skin_get_be_rust.Bedrock.Batch.{
  Codec, Packets, combine, compress_batch, decompress_batch, max_decompressed_size,
}
use skin_get_be_rust.Bedrock.Batch.Parse.{Fits, parse_batch-combine}
use skin_get_be_rust.Bedrock.Batch.Compress.{Inflates, decompress_batch-compress_batch}
use skin_get_be_rust.Raknet.Server.Session.{SocketAddr, addr_eq}
use skin_get_be_rust.Raknet.Server.Bedrock.{World, Outer, compression_of}
use skin_get_be_rust.Raknet.Server.Dispatch.{process_all, dispatch_raknet_packet}

-- What a peer puts behind the first byte of a batch: the joined packets, compressed once that is negotiated.
abbrev pub Sends : Codec → Bool → List ℕ → List ℕ → Type 0
Sends c false joined body = body ≡ joined
Sends c true joined body = compress_batch c joined ≡ ok body

sent_decompresses :
    (c : Codec) (enabled : Bool) (joined : List ℕ) (x : ℕ) (body : List ℕ)
    → Inflates c
    → length joined ≤ max_decompressed_size
    → Sends c enabled joined (x ∷ body)
    → decompress_batch c (x ∷ body) enabled ≡ ok joined
unfolding decompress_batch
sent_decompresses c false joined x body law small h = ap ok h
sent_decompresses c true joined x body law small h =
    (decompress_batch-compress_batch c joined (x ∷ body) law small h).0

-- A batch of at least one packet, each below 4 GiB and all together at most 10 MiB, that a peer joins and
-- compresses if that has been negotiated, is handed on packet by packet, in order, and nothing else is done.
pub dispatch_raknet_packet-batch :
    (o : Outer) (from : SocketAddr) (w : World) (p : List ℕ) (packets : Packets) (b : Buffer)
    (x : ℕ) (body : List ℕ)
    → Inflates o.codec
    → All Fits (p ∷ packets)
    → combine (p ∷ packets) empty ≡ (ok tt, b)
    → length b.bytes ≤ max_decompressed_size
    → Sends o.codec (compression_of (lookup from w.server.connections)) b.bytes (x ∷ body)
    → dispatch_raknet_packet o (0xfe ∷ x ∷ body) from w ≡ process_all o (p ∷ packets) from w
unfolding dispatch_raknet_packet
dispatch_raknet_packet-batch o from w p packets b x body law fit joined small sent =
    let opened =
      sent_decompresses o.codec (compression_of (lookup from w.server.connections)) b.bytes x body
        law small sent in
    rw (opened, parse_batch-combine (p ∷ packets) b fit joined) refl
