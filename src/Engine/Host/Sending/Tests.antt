-- ===== src/Engine/Host/Sending/Tests.antt =====
-- engine/internal/engine/host.go: mono PCM in frames of 32 bytes, and stereo that is switched to PCM.
use remoteau.Common.{ℕ, refl, Bool, true, false, none, some, List, [], ◌∷◌, map, replicate, arith}
use remoteau.Common.Int.{pos}
use remoteau.Audio.Format.{default_format}
use remoteau.Codec.{pcm, opus}
use remoteau.Protocol.V2.Control.Types.{Caps}
use remoteau.Engine.Host.Caps.{Options, codec_config_from_caps}
use remoteau.Engine.Host.Sending.{Calls, Stream, Loop, got, changed, send_loop, switch_codec}
use remoteau.Engine.Host.Sending.Stalled.{Stalled, switch_codec-Stalled}

-- A volume is whether it is 1. Every call works.
abbrev calls : Calls Bool
calls = record {
  is_unity = λ v. v;
  scale = λ _ _. 0;
  encode_float32 = λ _ _ _. some (1 ∷ []);
  send_media = λ _. true;
}

abbrev mono : Caps
mono = record {
  codec = 0;
  sample_rate = 8000;
  channels = 1;
  frame_ms = 2;
  opus_bitrate = 16000;
  fec = 0;
  dtx = 0;
  complexity = 0;
  app_id = 0;
}

abbrev mono_stream : Stream Bool
mono_stream = record {
  codec = pcm (codec_config_from_caps mono);
  volume = true;
  muted = false;
  sealer = none;
  format_gen = 1;
  caps = mono;
}

-- The next packet has the last sequence number.
abbrev mono_loop : Loop
mono_loop = record {
  chunk = replicate 32 0;
  filled = 0;
  seq = 4294967295;
  capture_frame = 0;
  calls = 0;
  stopped = false;
}

abbrev reads : List (List ℕ)
reads = replicate 20 1 ∷ replicate 50 2 ∷ []

abbrev stereo : Caps
stereo = record mono { codec = 1; sample_rate = 48000; channels = 2; frame_ms = 10 }

abbrev stereo_stream : Stream Bool
stereo_stream = record mono_stream { codec = opus (codec_config_from_caps stereo); caps = stereo }

abbrev stereo_loop : Loop
stereo_loop = record mono_loop { chunk = replicate 1920 0 }

abbrev options : Options
options = record { format = default_format; max_bitrate = pos 256000 }

switch_codec-Stalled_example :
    let (l', packets) =
      send_loop calls stereo stereo_stream stereo_loop (
        changed (switch_codec true options stereo_stream false)
        ∷ map got (replicate 1920 5 ∷ [])) in
    Stalled stereo stereo_loop l' packets
switch_codec-Stalled_example =
    switch_codec-Stalled calls true options stereo_stream stereo_loop (replicate 1920 5 ∷ [])
      (omega arith) (omega arith) (omega arith) (omega arith) (omega arith) (omega arith)
      (record { size = refl; room = omega arith; goes_on = refl })
