-- ===== src/Engine/Host/Caps/Tests.antt =====
-- engine/internal/engine/host.go: a request for PCM at 44.1 kHz, and one at 96 kHz.
use remoteau.Common.{◌*◌, ◌%◌, ◌≤◌, ◌<◌, ◌≡◌, refl, true, replicate, length, ok, err, arith}
use remoteau.Common.Int.{pos}
use remoteau.Audio.Format.{default_format}
use remoteau.Codec as Codecs
use remoteau.Codec.{encode_frame}
use remoteau.Protocol.V2.Control.Types.{Caps}
use remoteau.Protocol.V2.Media as Media
use remoteau.Protocol.V2.Media.{append_media}
use remoteau.Engine.Host.Caps.{Options, negotiate_caps, codec_config_from_caps, frame_bytes}
use remoteau.Engine.Host.Caps.Negotiated.{Negotiated}
use remoteau.Engine.Host.Caps.Frames.{encode_frame-frame_bytes, negotiate_caps-oversized}

abbrev options : Options
options = record { format = default_format; max_bitrate = pos 256000 }

abbrev cd_request : Caps
cd_request = record {
  codec = 0;
  sample_rate = 44100;
  channels = 2;
  frame_ms = 10;
  opus_bitrate = 128000;
  fec = 1;
  dtx = 0;
  complexity = 0;
  app_id = 0;
}

abbrev cd_answer : Caps
cd_answer = record cd_request { frame_ms = 5; complexity = 0 }

-- 882 bytes are cut and 880 are taken.
encode_frame-frame_bytes_example :
    (44100 * 5 % 1000 * (2 * 2) < 1000
      → encode_frame (codec_config_from_caps cd_answer) (replicate 882 0) ≡ ok (replicate 882 0))
    × (1000 ≤ 44100 * 5 % 1000 * (2 * 2)
        → encode_frame (codec_config_from_caps cd_answer) (replicate 882 0)
          ≡ err Codecs.bad_encode_size)
encode_frame-frame_bytes_example = encode_frame-frame_bytes cd_answer (replicate 882 0) refl

abbrev high_request : Caps
high_request = record cd_request { sample_rate = 96000 }

abbrev high_media : Media.Media
high_media = record {
  stream_id = 0;
  format_gen = 1;
  flags = 0;
  seq = 0;
  capture_ts_us = 0;
  payload = replicate 1920 0;
}

negotiate_caps-oversized_example :
    (caps : Caps) × (negotiate_caps true options high_request ≡ ok caps)
    × (length high_media.payload ≡ frame_bytes caps
        → append_media high_media ≡ err Media.payload_too_large)
negotiate_caps-oversized_example =
    negotiate_caps-oversized true options high_request high_media refl (omega arith) (omega arith)
      (omega arith) (omega arith) (omega arith) (omega arith)
