-- ===== src/Protocol/V2/Tests.antt =====
-- engine/internal/protocol/v2: round trips of concrete datagrams and messages.
use remoteau.Common.{◌+◌, ◌-◌, ◌^◌, ◌≡◌, refl, [], ◌∷◌, ◌++◌, arith, ok, err}
use remoteau.Protocol.V2.Media
use remoteau.Protocol.V2.Media.{
  append_media, decode_media, media_bytes, payload_too_large, bad_length, decode_media-append_media,
  decode_media_above_max,
}
use remoteau.Protocol.V2.Control.Types.{Caps, validate_caps, bad_frame_ms}
use remoteau.Protocol.V2.Control.Framing.{
  Message, write_message, read_message, message_bytes, read_message-write_message,
}

-- The capture time is one above what 40 bits hold.
abbrev packet : Media.Media
packet = record {
  stream_id = 1;
  format_gen = 7;
  flags = 4;
  seq = 2 ^ 32 - 1;
  capture_ts_us = 2 ^ 40 + 1;
  payload = 9 ∷ 8 ∷ [];
}

append_media-packet : append_media packet ≡ ok (media_bytes packet)
unfolding append_media
append_media-packet = refl

decode_media-append_media_example :
    decode_media (media_bytes packet) ≡ ok (record packet { capture_ts_us = 1 })
decode_media-append_media_example =
    decode_media-append_media packet (media_bytes packet) (omega arith) append_media-packet

abbrev message : Message
message = record { type = 6; flags = 0; request_id = 70000; payload = 1 ∷ 0 ∷ [] }

write_message-message : write_message message ≡ ok (message_bytes message)
unfolding write_message
write_message-message = refl

read_message-write_message_example :
    read_message (message_bytes message ++ (5 ∷ [])) ≡ ok (message, 5 ∷ [])
read_message-write_message_example =
    read_message-write_message message (message_bytes message) (5 ∷ []) (omega arith)
      write_message-message

abbrev caps : Caps
caps = record {
  codec = 1;
  sample_rate = 48000;
  channels = 2;
  frame_ms = 10;
  opus_bitrate = 128000;
  fec = 1;
  dtx = 0;
  complexity = 5;
  app_id = 0;
}

validate_caps-caps :
    (validate_caps caps ≡ ok tt) × (validate_caps (record caps { frame_ms = 7 }) ≡ err bad_frame_ms)
unfolding validate_caps
validate_caps-caps = (refl, refl)
