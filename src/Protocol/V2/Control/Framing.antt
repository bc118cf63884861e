-- ===== src/Protocol/V2/Control/Framing.antt =====
-- engine/internal/protocol/v2/control.go: `WriteMessage` and `ReadMessage`.
use remoteau.Common.{
  ℕ, ◌%◌, ◌^◌, ◌≤◌, ◌<◌, ◌≡◌, false, List, [], ◌∷◌, ◌++◌, length, slice, ltb, if◌then◌else◌, Result,
  ok, err, reject_if, ◌>>◌, arith,
}
use remoteau.Common.Bytes.{le16, le32, from_le, from_le-le16, from_le-le32}
use remoteau.Protocol.Streams.{Full, short, full, read_full, read_full-append}
use remoteau.Protocol.V2.Control.Types.{Error, payload_too_large, unexpected_eof, eof}

pub record Message : Type 0 where
  pub type : ℕ
  pub flags : ℕ
  pub request_id : ℕ
  pub payload : List ℕ

abbrev pub max_control_payload : ℕ
max_control_payload = 4096

abbrev pub message_bytes : Message → List ℕ
message_bytes m =
    le16 m.type
    ++ le16 m.flags
    ++ le32 m.request_id
    ++ le32 (length m.payload % 2 ^ 32)
    ++ m.payload

unfoldable pub write_message : Message → Result Error (List ℕ)
write_message m = do
  reject_if (ltb max_control_payload (length m.payload)) payload_too_large
  ok (message_bytes m)

abbrev parse_message : List ℕ → List ℕ → Message
parse_message header payload = record {
  type = from_le (slice 0 2 header);
  flags = from_le (slice 2 4 header);
  request_id = from_le (slice 4 8 header);
  payload = payload;
}

-- `io.ReadFull` at the end of the stream: `io.EOF` if nothing came, else `io.ErrUnexpectedEOF`.
abbrev short_read {ℓ} : {A : Type ℓ} → List ℕ → Result Error A
short_read [] = err eof
short_read (_ ∷ _) = err unexpected_eof

abbrev with_payload : List ℕ → Full → List ℕ → Result Error (Message × List ℕ)
with_payload header short r = short_read r
with_payload header (full payload rest) r = ok (parse_message header payload, rest)

-- A payload of length 0 is not read, and stays nil.
abbrev with_header : Full → List ℕ → Result Error (Message × List ℕ)
with_header short r = short_read r
with_header (full header r) _ =
    let n = from_le (slice 8 12 header) in
    if ltb max_control_payload n
    then err payload_too_large
    else with_payload header (read_full n r) r

unfoldable pub read_message : List ℕ → Result Error (Message × List ℕ)
read_message r = with_header (read_full 12 r) r

pub record MessageInRange (m : Message) : Type 0 where
  pub type : m.type < 2 ^ 16
  pub flags : m.flags < 2 ^ 16
  pub request_id : m.request_id < 2 ^ 32

-- A message that `WriteMessage` writes is read back, and the stream behind it is left for the next
-- read.
pub read_message-write_message :
    (m : Message) (bytes rest : List ℕ)
    → MessageInRange m
    → write_message m ≡ ok bytes
    → read_message (bytes ++ rest) ≡ ok (m, rest)
unfolding write_message read_message
read_message-write_message m bytes rest r e =
    let wrote : message_bytes m ≡ bytes = ground arith in
    let small : length m.payload ≤ 4096 = ground arith in
    let fits : ltb 4096 (length m.payload) ≡ false = ground arith in
    let len : length m.payload % 2 ^ 32 ≡ length m.payload = omega arith in
    rw (← wrote) (
      rw (
        len,
        from_le-le32 (length m.payload) (omega arith),
        fits,
        read_full-append m.payload rest,
        from_le-le16 m.type r.type,
        from_le-le16 m.flags r.flags,
        from_le-le32 m.request_id r.request_id,
      ))
