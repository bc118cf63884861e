-- ===== src/Discovery/Message/Tests.antt =====
-- engine/internal/discovery/discovery.go: packets of one host.
use remoteau.Common.{ℕ, ◌≡◌, ◌≤◌, ◌<◌, List, [], ◌∷◌, length, replicate, ok, err}
use remoteau.Common.Int.{pos}
use remoteau.Discovery.Message.{
  Query, Announce, type_query, ip4, no_announce, encode_query, decode, name_too_long,
}
use remoteau.Discovery.Message.RoundTrip.{decode-encode_query}

abbrev office : Announce
office = record {
  tcp_port = pos 47000;
  instance_id = replicate 16 5;
  advertised_addr = ip4 (192 ∷ 168 ∷ 1 ∷ 9 ∷ []);
  name = 80 ∷ 67 ∷ [];
  proto_version = 0;
}

abbrev pc : Query
pc = record { name = 80 ∷ 67 ∷ [] }

decode-encode_query_example :
    (255 < length pc.name → encode_query pc ≡ err name_too_long)
    × (length pc.name ≤ 255
        → (packet : List ℕ) × (encode_query pc ≡ ok packet)
          × (decode packet ≡ ok (record { type = type_query; query = pc; announce = no_announce })))
decode-encode_query_example = decode-encode_query pc
