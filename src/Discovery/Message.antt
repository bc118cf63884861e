-- ===== src/Discovery/Message.antt =====
-- engine/internal/discovery/discovery.go: queries and announces. A name is the list of its bytes.
pub mod RoundTrip
mod Tests
use remoteau.Common.{
  ℕ, ◌+◌, ◌%◌, ◌^◌, not, ◌&&◌, ◌||◌, Bool, true, List, [], ◌∷◌, ◌++◌, length, take, drop, slice,
  replicate, copy_at, ltb, ◌==◌, if◌then◌else◌, Result, ok, err, reject_if, ◌>>=◌, ◌>>◌,
}
use remoteau.Common.Int.{ℤ, pos, pos_part, leb_ℤ, ltb_ℤ}
use remoteau.Common.Bytes.{byte_at, be16, from_be}
use remoteau.Protocol.Streams.{at, bytes_equal}

-- `netip.Addr`, as far as it is used: the zero value, and addresses of 4 and 16 bytes.
pub data Addr : Type 0 where
  no_addr : Addr
  ip4 : List ℕ → Addr
  ip6 : List ℕ → Addr

pub data Error : Type 0 where
  name_too_long packet_too_large port_out_of_range not_ip4 : Error
  packet_too_short bad_magic bad_version unknown_type bad_length bad_port : Error

abbrev pub max_name_len : ℕ
max_name_len = 255

abbrev pub instance_id_len : ℕ
instance_id_len = 16

abbrev pub header_len : ℕ
header_len = 9

abbrev pub announce_name_offset : ℕ
announce_name_offset = 29

abbrev pub max_packet_bytes : ℕ
max_packet_bytes = 284

abbrev pub type_query : ℕ
type_query = 1

abbrev pub type_announce : ℕ
type_announce = 2

abbrev pub type_announce_v2 : ℕ
type_announce_v2 = 3

pub record Query : Type 0 where
  pub name : List ℕ

pub record Announce : Type 0 where
  pub tcp_port : ℤ
  pub instance_id : List ℕ
  pub advertised_addr : Addr
  pub name : List ℕ
  pub proto_version : ℕ

pub record Message : Type 0 where
  pub type : ℕ
  pub query : Query
  pub announce : Announce

-- The zero values.
abbrev pub no_query : Query
no_query = record { name = [] }

abbrev pub no_announce : Announce
no_announce = record {
  tcp_port = pos 0;
  instance_id = replicate instance_id_len 0;
  advertised_addr = no_addr;
  name = [];
  proto_version = 0;
}

-- "RAUD", the version and the type.
abbrev pub preamble : ℕ → List ℕ
preamble type = 82 ∷ 65 ∷ 85 ∷ 68 ∷ 1 ∷ type ∷ []

-- `encode`, at the port 0 of a query.
unfoldable pub encode_query : Query → Result Error (List ℕ)
encode_query q = do
  reject_if (ltb max_name_len (length q.name)) name_too_long
  reject_if (ltb max_packet_bytes (header_len + length q.name)) packet_too_large
  ok (preamble type_query ++ (be16 0 ++ (byte_at 0 (length q.name) ∷ q.name)))

-- `addr.Unmap().As4()` behind its check; an address of 4 bytes inside one of 16 starts with
-- ::ffff:0:0/96.
unfoldable pub as_ip4 : Addr → Result Error (List ℕ)
as_ip4 no_addr = err not_ip4
as_ip4 (ip4 bytes) = ok bytes
as_ip4 (ip6 bytes) =
    if bytes_equal (take 12 bytes) (replicate 10 0 ++ (255 ∷ 255 ∷ []))
    then ok (drop 12 bytes)
    else err not_ip4

-- `!addr.IsValid() || addr.IsUnspecified()`
unfoldable pub is_unspecified : Addr → Bool
is_unspecified no_addr = true
is_unspecified (ip4 bytes) = bytes_equal bytes (replicate 4 0)
is_unspecified (ip6 bytes) = bytes_equal bytes (replicate 16 0)

-- `advertisedAddrBytes`
unfoldable pub advertised_addr_bytes : Addr → Result Error (List ℕ)
unfolding as_ip4 is_unspecified
advertised_addr_bytes addr = if is_unspecified addr then ok (replicate 4 0) else as_ip4 addr

-- The packet of an announce whose address has these bytes.
abbrev pub announce_bytes : ℕ → Announce → List ℕ → List ℕ
announce_bytes type a addr =
    preamble type
    ++ (be16 (pos_part a.tcp_port)
        ++ (byte_at 0 (length a.name) ∷ (a.instance_id ++ (addr ++ a.name))))

-- `encodeAnnounce`
unfoldable pub encode_announce_v1 : Announce → Result Error (List ℕ)
unfolding advertised_addr_bytes
encode_announce_v1 a = do
  reject_if (ltb max_name_len (length a.name)) name_too_long
  addr ← advertised_addr_bytes a.advertised_addr
  reject_if (ltb max_packet_bytes (announce_name_offset + length a.name)) packet_too_large
  ok (announce_bytes type_announce a addr)

-- `EncodeAnnounce`
unfoldable pub encode_announce : Announce → Result Error (List ℕ)
unfolding encode_announce_v1
encode_announce a = do
  reject_if (leb_ℤ a.tcp_port (pos 0) || ltb_ℤ (pos 65535) a.tcp_port) port_out_of_range
  packet ← encode_announce_v1 a
  ok (if not (a.proto_version == 0) then packet ++ (a.proto_version ∷ []) else packet)

-- `EncodeAnnounceV2`, which writes the type into byte 5.
unfoldable pub encode_announce_v2 : Announce → Result Error (List ℕ)
unfolding encode_announce
encode_announce_v2 a = do
  packet ←
      encode_announce
        (record a { proto_version = if a.proto_version == 0 then 2 else a.proto_version })
  ok (copy_at packet 5 (type_announce_v2 ∷ []))

unfoldable pub decode_query : List ℕ → Result Error Message
decode_query packet = do
  reject_if (not (length packet == header_len + at packet 8)) bad_length
  reject_if (not (from_be (slice 6 8 packet) == 0)) bad_port
  ok (record {
    type = at packet 5;
    query = record { name = slice header_len (header_len + at packet 8) packet };
    announce = no_announce;
  })

unfoldable pub decode_announce : List ℕ → Result Error Message
decode_announce packet =
    let v2 = at packet 5 == type_announce_v2 in
    let end = announce_name_offset + at packet 8 in
    let want_len = if v2 then end + 1 else end in
    do
      reject_if (ltb (length packet) announce_name_offset) packet_too_short
      reject_if (v2 && ltb (length packet) want_len) packet_too_short
      reject_if (not (length packet == want_len)) bad_length
      reject_if (from_be (slice 6 8 packet) == 0) bad_port
      ok (record {
        type = at packet 5;
        query = no_query;
        announce = record {
          tcp_port = pos (from_be (slice 6 8 packet));
          instance_id = slice header_len (header_len + instance_id_len) packet;
          advertised_addr = ip4 (slice (header_len + instance_id_len) announce_name_offset packet);
          name = slice announce_name_offset end packet;
          proto_version = if v2 then at packet end else 0;
        };
      })

-- `Decode`
unfoldable pub decode : List ℕ → Result Error Message
unfolding decode_query decode_announce
decode packet = do
  reject_if (ltb max_packet_bytes (length packet)) packet_too_large
  reject_if (ltb (length packet) header_len) packet_too_short
  reject_if (not (bytes_equal (take 4 packet) (82 ∷ 65 ∷ 85 ∷ 68 ∷ []))) bad_magic
  reject_if (not (at packet 4 == 1)) bad_version
  reject_if
      (not (
        at packet 5 == type_query
        || (at packet 5 == type_announce || at packet 5 == type_announce_v2)))
      unknown_type
  if at packet 5 == type_query then decode_query packet else decode_announce packet
