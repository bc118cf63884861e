-- ===== src/Discovery/Message/RoundTrip.antt =====
-- engine/internal/discovery/discovery.go: `Decode` on what the encoders make.
use remoteau.Common.{
  ℕ, ◌+◌, ◌-◌, ◌≡◌, ◌≤◌, ◌<◌, refl, sym, ap, ◌∙◌, true, false, List, [], ◌∷◌, ◌++◌, length, drop,
  slice, ltb, ◌==◌, if◌then◌else◌, ok, err, arith, length-append, inl, inr, Bool-cases, append-nil,
  take_front, drop_front, append_assoc, take_all,
}
use remoteau.Common.Int.{pos, leb_ℤ, ltb_ℤ}
use remoteau.Common.Bytes.{byte_at, be16, from_be, from_be-be16}
use remoteau.Protocol.Streams.{bytes_equal, bytes_equal_sound}
use remoteau.Discovery.Message.{
  Query, Announce, Message, ip4, type_query, type_announce, advertised_addr_bytes, no_query,
  no_announce, encode_query, encode_announce, decode, decode_query, decode_announce, preamble,
  name_too_long,
}

-- A query with a name of 255 bytes or less is read back, and no other is sent.
pub decode-encode_query :
    (q : Query)
    → (255 < length q.name → encode_query q ≡ err name_too_long)
      × (length q.name ≤ 255
          → (packet : List ℕ) × (encode_query q ≡ ok packet)
            × (decode packet
                ≡ ok (record { type = type_query; query = q; announce = no_announce })))
unfolding encode_query decode decode_query
decode-encode_query q =
    let n = length q.name in
    (
      λ long. ground arith,
      λ short.
          let fits : ltb 255 n ≡ false = ground arith in
          let room : ltb 284 (9 + n) ≡ false = ground arith in
          let len : byte_at 0 n ≡ n = omega arith in
          let packet = preamble type_query ++ (be16 0 ++ (n ∷ q.name)) in
          let small : ltb 284 (length packet) ≡ false = ground arith in
          let whole : ltb (length packet) 9 ≡ false = ground arith in
          let exact : (length packet == 9 + n) ≡ true = ground arith in
          let port : from_be (0 ∷ 0 ∷ []) ≡ 0 = from_be-be16 0 (omega arith) in
          let back : 9 + n - 9 ≡ n = omega arith in
          (
            packet,
            rw (fits, room, len) refl,
            rw (small, whole, exact, port, back, take_all n q.name (omega arith)) refl,
          ),
    )

pub record AnnounceInRange (a : Announce) : Type 0 where
  pub port : (p : ℕ) × (a.tcp_port ≡ pos p) × (0 < p) × (p ≤ 65535)
  pub id : length a.instance_id ≡ 16
  pub addr : (bytes : List ℕ) × (a.advertised_addr ≡ ip4 bytes) × (length bytes ≡ 4)
  pub name : length a.name ≤ 255

-- What `Decode` sees of an announce with a tail behind the name.
decode-announce_bytes :
    (type : ℕ) (p : ℕ) (id addr name tail : List ℕ)
    → length id ≡ 16
    → length addr ≡ 4
    → let packet = preamble type ++ (be16 p ++ (length name ∷ (id ++ (addr ++ (name ++ tail))))) in
      (length packet ≡ 29 + length name + length tail)
      × (slice 9 25 packet ≡ id)
      × (slice 25 29 packet ≡ addr)
      × (slice 29 (29 + length name) packet ≡ name)
      × (drop (29 + length name) packet ≡ tail)
decode-announce_bytes type p id addr name tail i a =
    let n = length name in
    let back : 29 + n - 29 ≡ n = omega arith in
    let body = id ++ (addr ++ (name ++ tail)) in
    let split : body ≡ (id ++ (addr ++ name)) ++ tail =
      sym (append_assoc id (addr ++ name) tail ∙ ap (λ l. id ++ l) (append_assoc addr name tail)) in
    let front = preamble type ++ (be16 p ++ (n ∷ (id ++ (addr ++ name)))) in
    (
      omega (
        arith,
        length-append id (addr ++ (name ++ tail)),
        length-append addr (name ++ tail),
        length-append name tail,
        i,
        a,
      ),
      take_front 16 id (addr ++ (name ++ tail)) i,
      rw (drop_front 16 id (addr ++ (name ++ tail)) i) (take_front 4 addr (name ++ tail) a),
      rw
          (
            back,
            ← append_assoc id addr (name ++ tail),
            drop_front 20 (id ++ addr) (name ++ tail) (omega (arith, length-append id addr, i, a)),
          )
          (take_front n name tail refl),
      rw split (
          drop_front (29 + n) front tail
            (omega (arith, length-append id (addr ++ name), length-append addr name, i, a))),
    )

-- The packet of an announce, with a tail behind the name.
abbrev packet_of : ℕ → ℕ → List ℕ → List ℕ → List ℕ → List ℕ → List ℕ
packet_of type p id addr name tail =
    preamble type ++ (be16 p ++ (length name ∷ (id ++ (addr ++ (name ++ tail)))))

advertised-ip4 : (bytes : List ℕ) → length bytes ≡ 4 → advertised_addr_bytes (ip4 bytes) ≡ ok bytes
unfolding advertised_addr_bytes
advertised-ip4 bytes size = elim (Bool-cases (bytes_equal bytes (0 ∷ 0 ∷ 0 ∷ 0 ∷ []))) [
  | inl zeros ↦ rw zeros (ap ok (sym (bytes_equal_sound _ _ zeros)))
  | inr others ↦ rw others refl
]

abbrev version_tail : ℕ → List ℕ
version_tail v = if v == 0 then [] else v ∷ []

regroup :
    (front id addr name tail : List ℕ)
    → (front ++ (id ++ (addr ++ name))) ++ tail ≡ front ++ (id ++ (addr ++ (name ++ tail)))
regroup front id addr name tail = simp (append_assoc)

encode_announce_eq :
    (a : Announce) (p : ℕ) (bytes : List ℕ)
    → a.tcp_port ≡ pos p
    → 0 < p
    → p ≤ 65535
    → a.advertised_addr ≡ ip4 bytes
    → length bytes ≡ 4
    → length a.name ≤ 255
    → encode_announce a
      ≡ ok (packet_of type_announce p a.instance_id bytes a.name (version_tail a.proto_version))
unfolding encode_announce
encode_announce_eq a p bytes port some_port low addr size short =
    let fits : ltb 255 (length a.name) ≡ false = ground arith in
    let room : ltb 284 (29 + length a.name) ≡ false = ground arith in
    let positive : leb_ℤ (pos p) (pos 0) ≡ false = ground arith in
    let below : ltb_ℤ (pos 65535) (pos p) ≡ false = ground arith in
    let len : byte_at 0 (length a.name) ≡ length a.name = omega arith in
    let read = advertised-ip4 bytes size in
    elim (Bool-cases (a.proto_version == 0)) [
      | inl plain ↦
          rw (port, positive, below, fits, addr, read, room, plain, len, append-nil a.name) refl
      | inr versioned ↦
          rw (port, positive, below, fits, addr, read, room, versioned, len)
            (ap ok (
              regroup (preamble type_announce ++ (be16 p ++ (length a.name ∷ []))) a.instance_id
                bytes a.name (a.proto_version ∷ [])))
    ]

module _ (p : ℕ) (id addr name tail : List ℕ) (some_port : 0 < p) (low : p ≤ 65535)
    (i : length id ≡ 16) (a : length addr ≡ 4) (s : length name ≤ 255) where
  abbrev announced : ℕ → ℕ → Message
  announced type version = record {
    type = type;
    query = no_query;
    announce = record {
      tcp_port = pos p;
      instance_id = id;
      advertised_addr = ip4 addr;
      name = name;
      proto_version = version;
    };
  }

  decode-v1 :
      tail ≡ []
      → decode (packet_of type_announce p id addr name tail) ≡ ok (announced type_announce 0)
  unfolding decode decode_announce
  decode-v1 no_tail =
      let packet = packet_of type_announce p id addr name tail in
      let (len, ids, addrs, names, _) =
        decode-announce_bytes type_announce p id addr name tail i a in
      let nothing : length tail ≡ 0 = ap length no_tail in
      let small : ltb 284 (length packet) ≡ false = ground (arith, len) in
      let whole : ltb (length packet) 9 ≡ false = ground (arith, len) in
      let enough : ltb (length packet) 29 ≡ false = ground (arith, len) in
      let exact : (length packet == 29 + length name) ≡ true = ground (arith, len) in
      let port : from_be (be16 p) ≡ p = from_be-be16 p (omega arith) in
      let positive : (p == 0) ≡ false = ground arith in
      rw (small, whole, enough, exact, port, positive, addrs, ids, names) refl

-- An announce of the first version that `EncodeAnnounce` makes is read back.
pub decode-encode_announce :
    (a : Announce)
    → AnnounceInRange a
    → a.proto_version ≡ 0
    → (packet : List ℕ) × (encode_announce a ≡ ok packet)
      × (decode packet ≡ ok (record { type = type_announce; query = no_query; announce = a }))
decode-encode_announce a r plain =
    let (p, port, some_port, low) = r.port in
    let (bytes, addr, size) = r.addr in
    let tail = version_tail a.proto_version in
    let none_behind : tail ≡ [] = rw plain refl in
    (
      packet_of type_announce p a.instance_id bytes a.name tail,
      encode_announce_eq a p bytes port some_port low addr size r.name,
      decode-v1 p a.instance_id bytes a.name tail some_port low r.id size r.name none_behind
          ∙ rw (port, addr, plain) refl,
    )
