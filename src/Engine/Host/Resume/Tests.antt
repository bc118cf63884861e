-- ===== src/Engine/Host/Resume/Tests.antt =====
-- engine/internal/engine/host.go and client.go: a PCM stream that is resumed at its packet 1000.
use remoteau.Common.{ℕ, ◌≡◌, refl, false, List, [], replicate, ok, arith}
use remoteau.Codec as Codecs
use remoteau.Codec.{Codec, pcm, new_codec}
use remoteau.Protocol.V2.Control.Types.{Caps}
use remoteau.Engine.Host.Caps.{codec_config_from_caps}
use remoteau.Engine.Host.Resume.{ResumeState, store_resume_state}
use remoteau.Engine.Host.Resume.Continued.{Continued, resume-Continued}

abbrev stereo : Caps
stereo = record {
  codec = 0;
  sample_rate = 48000;
  channels = 2;
  frame_ms = 5;
  opus_bitrate = 128000;
  fec = 0;
  dtx = 0;
  complexity = 0;
  app_id = 0;
}

abbrev stored : ResumeState
stored = record { caps = stereo; format_gen = 1; next_seq = 1000; device_id = replicate 16 3 }

abbrev token : List ℕ
token = replicate 32 7

stereo_codec :
    new_codec false (codec_config_from_caps stereo) ≡ ok (pcm (codec_config_from_caps stereo))
unfolding new_codec codec_config_from_caps Codecs.validate
stereo_codec = refl

resume-Continued_example : Continued false (store_resume_state [] token stored) token stored
resume-Continued_example =
    resume-Continued false [] token stored
      (record {
        next_seq = omega arith;
        format_gen = omega arith;
        caps = record { sample_rate = omega arith; opus_bitrate = omega arith };
      })
      refl refl stereo_codec
