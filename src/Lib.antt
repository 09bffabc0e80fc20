-- ===== src/Lib.antt =====
-- SkinGetBE: a server that Minecraft Bedrock clients connect to, which captures the skin in their
-- login packet. A datagram comes in over RakNet; the frame parser splits it into frames; fragments
-- are reassembled and ordered payloads put in order; a payload that is a batch is decompressed and
-- split into Bedrock packets. What goes out takes the opposite way.
--
-- The parts and where they are modelled:
--   Error             src/error.rs: the error type and `Result`.
--   Buffer            src/util/buffer.rs: the buffer as its bytes and its cursor; a method is a
--                     state-passing function, with its reads (Buffer/Reads), writes
--                     (Buffer/Writes) and variable-length integers (Buffer/VarInt).
--   Bedrock/Batch     src/bedrock/batch.rs, and the loop of `send_bedrock_bundle` in
--                     src/raknet/server/bedrock.rs (`combine`).
--   Bedrock/Login     src/bedrock/login.rs: the login packet in its six layouts, the name and the
--                     metadata (Bedrock/Login/Metadata) and the skin in it.
--   Bedrock/Responses src/bedrock/responses.rs: the packets that the server sends.
--   Bedrock/Skin      src/bedrock/skin.rs: sizes, the PNG encoder, file names and saving.
--   Bedrock/Version   src/bedrock/version.rs: the version table and its fallbacks.
--   Crypto/Jwt        src/crypto/jwt.rs: tokens, and values picked out of their payloads.
--   Util/Config       src/util/config.rs: the configuration, its file and the comment stripper.
--   Util/Stun         src/util/stun.rs: the binding request and the reading of its response.
--   Cli               src/cli.rs: the log level and the rewriting of arguments.
--   Raknet/Protocol   src/raknet/protocol.rs: the frame-set parser in its two length modes.
--   Raknet/Server/Session   the sessions and tables of src/raknet/server/session.rs and mod.rs,
--                     their creation, pruning and removal.
--   Raknet/Server/Ordered   `buffer_ordered_payload` of src/raknet/server/session.rs.
--   Raknet/Server/Split     the split branch of `handle_game_packet` in src/raknet/server/mod.rs.
--   Raknet/Server/Frames    src/raknet/server/frames.rs: outgoing frames and fragments.
--   Raknet/Server/Acks      ACK and NACK handling of src/raknet/server/handshake.rs.
--   Raknet/Server/Replies   the open-connection and connection replies of the same file.
--   Raknet/Server/Ping      `handle_unconnected_ping` of the same file.
--   Raknet/Server/Bedrock   src/raknet/server/bedrock.rs: the responses, and in Bedrock/Handle the
--                     login with its capture and the network settings.
--   Raknet/Server/Dispatch  `dispatch_raknet_packet` of src/raknet/server/mod.rs, and in
--                     Dispatch/Receive `handle_game_packet` and `handle_packet`.
--   Raknet/Server/Resend    one round of the resend worker of src/raknet/server/mod.rs.
--   Prelude           shared helpers: Boolean tests, list lemmas, bits, association lists,
--                     text as lists of code points (Prelude/Text) and searches in it
--                     (Prelude/Search), decimal numbers.
--   Tests             runs at concrete inputs.
--
-- Conventions: bytes and words are natural numbers, with the wrap of a w-bit operation written as
-- `% 2 ^ w`; `usize` indices into a datagram stay far below 2 ^ 64 and are written without one. A
-- `HashMap` is an association list with one entry per key. `Instant` is a number of nanoseconds,
-- passed in where the code asks for the time. The tables are keyed by the address itself, which the
-- code turns into text first. A call that takes a lock is one step, and no other
-- handler runs while one awaits. What the handlers change is a `World`: the server, the datagrams
-- handed to the socket, the files and the version fallbacks.
--
-- Fuel: the loops of `parse_batch` and of the frame parser run on one round more than there are
-- bytes, and a round that goes on takes a byte at least; running out is a result of its own that
-- the source has no counterpart of. Flushing a channel runs on as many rounds as it has entries. The
-- searches for tokens in a text run on one round more than the text has characters, of which each
-- takes two. The search for a free file name runs on one round more than there are files: that is
-- enough below 2 ^ 32 - 1 files, and above that the counter of the source stops and its loop may not
-- end.
--
-- Parameters: the codecs of the flate2 crate, the CRC of the crc32fast crate, the base64 engines, the
-- JSON reader of serde, the UTF-8 decoder, the writes and reads of the file system, and whether the
-- socket takes a datagram. The random split id, the clock and the rendered metadata of a capture are
-- arguments.
--
-- Not modelled: log output, sockets, the terminal and start-up code (src/main.rs, src/network,
-- src/util/logger.rs), floating-point buffer operations, the sleeps between responses, and the asking of STUN
-- servers.
pub mod Prelude
pub mod Error
pub mod Buffer
pub mod Crypto
pub mod Bedrock
pub mod Raknet
pub mod Util
pub mod Cli
pub mod Tests
