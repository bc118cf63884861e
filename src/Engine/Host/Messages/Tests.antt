-- ===== src/Engine/Host/Messages/Tests.antt =====
-- engine/internal/engine/host.go: a receiver that reports losses, over numbers with three decimals.
use remoteau.Common.{◌+◌, ◌-◌, ◌*◌, ◌/◌, true, false, none, [], ◌∷◌, replicate, ltb, ◌==◌, ℕ}
use remoteau.Common.Int.{pos}
use remoteau.Audio.Format.{default_format}
use remoteau.Codec.{pcm}
use remoteau.Protocol.V2.Control.Types.{Caps}
use remoteau.Protocol.V2.Control.Framing.{Message}
use remoteau.Quality.Controller.{Floats, new_controller}
use remoteau.Engine.Host.Caps.{codec_config_from_caps}
use remoteau.Engine.Host.Messages.{Stream, Env, message, handle_control}
use remoteau.Engine.Host.Messages.Handled.{Handled, handle_control-Handled}

abbrev decimals : Floats
decimals = record {
  Float = ℕ;
  quotient = λ a b. a * 1000 / b;
  plus = λ a b. a + b;
  minus = λ a b. a - b;
  times = λ a b. a * b / 1000;
  less = ltb;
  truncate = λ a. pos (a / 1000);
}

abbrev env : Env decimals
env = record {
  opus_available = true;
  options = record { format = default_format; max_bitrate = pos 256000 };
  is_zero = λ a. a == 0;
  apply_set_source = λ _. (true, []);
}

abbrev stereo : Caps
stereo = record {
  codec = 0;
  sample_rate = 48000;
  channels = 2;
  frame_ms = 5;
  opus_bitrate = 128000;
  fec = 0;
  dtx = 0;
  complexity = 0;
  app_id = 0;
}

abbrev stream : Stream decimals
stream = record {
  loss_ewma = 0;
  late_ewma = 0;
  jitter_ewma = 0;
  rtt_ewma = 0;
  buf_depth_ewma = 0;
  underruns = 0;
  quality = new_controller decimals (pos 32000) (pos 256000);
  sending = record {
    codec = pcm (codec_config_from_caps stereo);
    volume = 1000;
    muted = false;
    sealer = none;
    format_gen = 1;
    caps = stereo;
  };
  fec_bias = false;
  quality_mode = 0;
  receiver_state = 0;
  last_switch = none;
  is_closed = false;
  settings = [];
  out = [];
}

-- A loss of 12 per cent.
abbrev report : Message
report = message 0x40 0 (176 ∷ 4 ∷ replicate 20 0)

handle_control-Handled_example :
    Handled decimals env 5000000000 stream (handle_control decimals env 5000000000 stream report)
handle_control-Handled_example = handle_control-Handled decimals env 5000000000 stream report
