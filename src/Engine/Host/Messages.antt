-- ===== src/Engine/Host/Messages.antt =====
-- engine/internal/engine/host.go: what a control message of a receiver does to its stream. float64, the
-- audio devices behind `applySetSourceWithApps` and the clock are arguments; `out` has the messages
-- that are handed to `SendRaw`, whose errors the source ignores, and `settings` what is set on an
-- Opus encoder.
pub mod Handled
mod Tests
use remoteau.Common.{
  ℕ, ◌+◌, ◌-◌, ◌*◌, ◌/◌, ◌%◌, ◌^◌, Bool, true, false, not, ◌&&◌, ◌||◌, Option, none, some, List, [],
  ◌∷◌, ◌++◌, length, take, ltb, ◌==◌, if◌then◌else◌, Result, ok, err,
}
use remoteau.Common.Int.{pos}
use remoteau.Common.Bytes.{le64}
use remoteau.Codec as Codecs
use remoteau.Codec.{Codec, new_codec}
use remoteau.Protocol.Streams.{at}
use remoteau.Protocol.V2.Control.Types as Types
use remoteau.Protocol.V2.Control.Types.{
  Caps, FormatUpdate, Stats, QualityMode, SetSource, SetSourceAck, ReceiverState,
}
use remoteau.Protocol.V2.Control.Framing.{Message}
use remoteau.Protocol.V2.Control.Payloads.{
  append_format_update, decode_stats, decode_quality_mode, decode_set_source, append_set_source_ack,
  decode_receiver_state,
}
use remoteau.Quality.Controller.{Floats, Controller, Sample, Decision, new_controller, update}
use remoteau.Engine.QualityMode.{Bounds, quality_mode_to_bounds}
use remoteau.Engine.Host.Caps.{Options, bool_bit, negotiate_caps, codec_config_from_caps}
use remoteau.Engine.Host.Sending as Sending
use remoteau.Engine.Host.Sending.{switched_caps}

pub data Setting : Type 0 where
  bitrate : ℕ → Setting
  fec : Bool → ℕ → Setting

abbrev pub message : ℕ → ℕ → List ℕ → Message
message type id payload = record { type = type; flags = 0; request_id = id; payload = payload }

-- `switchDwell`, in nanoseconds.
abbrev pub switch_dwell : ℕ
switch_dwell = 10000000000

-- `time.Since(st.lastSwitch) < switchDwell`; the zero time is long ago.
abbrev pub dwells : ℕ → Option ℕ → Bool
dwells now none = false
dwells now (some last) = ltb (now - last) switch_dwell

abbrev pub is_opus_codec : Codec → Bool
is_opus_codec (Codecs.pcm _) = false
is_opus_codec (Codecs.opus _) = true

module _ (F : Floats) where
  -- What `handleControl` reads and writes of `hostStream`.
  pub record Stream : Type 0 where
    pub loss_ewma : F.Float
    pub late_ewma : F.Float
    pub jitter_ewma : F.Float
    pub rtt_ewma : F.Float
    pub buf_depth_ewma : F.Float
    pub underruns : ℕ
    pub quality : Controller F
    pub sending : Sending.Stream F.Float
    pub fec_bias : Bool
    pub quality_mode : ℕ
    pub receiver_state : ℕ
    pub last_switch : Option ℕ
    pub is_closed : Bool
    pub settings : List Setting
    pub out : List Message

  pub record Env : Type 0 where
    pub opus_available : Bool
    pub options : Options
    pub is_zero : F.Float → Bool
    pub apply_set_source : SetSource → Bool × List ℕ

  module _ (E : Env) where
    -- `ewma`
    abbrev pub ewma : F.Float → F.Float → F.Float
    ewma old v = if E.is_zero old then v else F.plus old (F.times (F.quotient 3 10) (F.minus v old))

    -- `clampF64`
    abbrev pub clamp : F.Float → F.Float → F.Float → F.Float
    clamp v lo hi = if F.less v lo then lo else if F.less hi v then hi else v

    abbrev pub with_new_codec : ℕ → Stream → Caps → Result Codecs.Error Codec → Stream
    with_new_codec now st caps (err e) = st
    with_new_codec now st caps (ok codec) =
        let sending = Sending.with_codec st.sending caps (ok codec) in
        record st {
          sending = sending;
          last_switch = some now;
          out =
              st.out
              ++ (message 0x30 0
                    (append_format_update (record { format_gen = sending.format_gen; caps = caps }))
                  ∷ []);
        }

    abbrev pub with_new_caps : ℕ → Stream → Result Types.Error Caps → Stream
    with_new_caps now st (err e) = st
    with_new_caps now st (ok caps) =
        with_new_codec now st caps (new_codec E.opus_available (codec_config_from_caps caps))

    -- `switchCodec`
    unfoldable pub switch_codec : ℕ → Stream → Bool → Stream
    switch_codec now st to_opus =
        with_new_caps now st
          (negotiate_caps E.opus_available E.options (switched_caps to_opus st.sending.caps))

    abbrev pub set_encoder : Stream → Decision F → Stream
    set_encoder st dec =
        let pinned = if st.fec_bias then fec true 10 ∷ [] else [] in
        if is_opus_codec st.sending.codec
        then record st {
          settings =
              st.settings
              ++ (bitrate dec.bitrate_bps ∷ fec dec.fec_enabled dec.expected_loss ∷ pinned);
        }
        else st

    -- `applyQuality`
    unfoldable pub apply_quality : ℕ → Stream → Decision F → Stream
    apply_quality now st dec =
        let st1 = set_encoder st dec in
        let want_opus = dec.switch_to_opus && E.opus_available in
        let want_pcm = dec.switch_to_pcm in
        let is_opus = st.sending.caps.codec == 1 in
        if not want_opus && not want_pcm
        then st1
        else if (want_opus && is_opus) || (want_pcm && not is_opus)
        then st1
        else if dwells now st.last_switch
        then st1
        else switch_codec now st1 want_opus

    abbrev pub sample_of : Stream → Stats → Sample F
    sample_of st s = record {
      loss_percent = st.loss_ewma;
      late_percent = st.late_ewma;
      jitter_ms = st.jitter_ewma;
      rtt_ms = st.rtt_ewma;
      buf_depth_ms = st.buf_depth_ewma;
      underruns = s.underruns;
    }

    abbrev pub measured : Stream → Stats → Stream
    measured st s = record st {
      loss_ewma = ewma st.loss_ewma (F.quotient s.loss_pct 100);
      late_ewma = ewma st.late_ewma (F.quotient s.late_pct 100);
      jitter_ewma = ewma st.jitter_ewma (F.quotient s.jitter_us 1000);
      rtt_ewma = ewma st.rtt_ewma (F.quotient s.rtt_us 1000);
      buf_depth_ewma = ewma st.buf_depth_ewma (F.quotient s.buf_depth_ms 1);
      underruns = (st.underruns + s.underruns) % 2 ^ 64;
    }

    abbrev pub on_stats : ℕ → Stream → Result Types.Error Stats → Stream
    on_stats now st (err e) = st
    on_stats now st (ok s) =
        let st1 = measured st s in
        let (quality, dec) = update F st.quality (sample_of st1 s) now in
        apply_quality now (record st1 { quality = quality }) dec

    abbrev pub on_ping : ℕ → Stream → Message → Stream
    on_ping now st m = if ltb (length m.payload) 8 then st else record st {
      out = st.out ++ (message 0x61 m.request_id (take 8 m.payload ++ le64 (now / 1000)) ∷ []);
    }

    abbrev pub on_volume : Stream → List ℕ → Stream
    on_volume st payload =
        let vol = F.quotient (at payload 0 + at payload 1 * 2 ^ 8) 65536 in
        if ltb (length payload) 3 then st else record st {
          sending = record st.sending {
            volume = clamp vol (F.quotient 0 1) (F.quotient 2 1);
            muted = not (at payload 2 == 0);
          };
        }

    abbrev pub on_quality_mode : Stream → Result Types.Error QualityMode → Stream
    on_quality_mode st (err e) = st
    on_quality_mode st (ok qm) =
        let b = quality_mode_to_bounds qm.mode in
        if b.apply
        then record st {
          quality = new_controller F (pos b.min_bitrate) (pos b.max_bitrate);
          fec_bias = b.fec_bias;
          quality_mode = qm.mode;
        }
        else record st { quality_mode = qm.mode }

    abbrev pub on_set_source : Stream → Result Types.Error SetSource → Stream
    on_set_source st (err e) = st
    on_set_source st (ok src) =
        let (accepted, detail) = E.apply_set_source src in
        record st {
          out =
              st.out
              ++ (message 0x82 0 (
                    append_set_source_ack
                      (record { accepted = bool_bit accepted; detail = detail }))
                  ∷ []);
        }

    abbrev pub on_receiver_state : Stream → Result Types.Error ReceiverState → Stream
    on_receiver_state st (err e) = st
    on_receiver_state st (ok rs) = record st { receiver_state = rs.state }

    -- `handleControl`
    unfoldable pub handle_control : ℕ → Stream → Message → Stream
    handle_control now st m =
        if m.type == 0x40
        then on_stats now st (decode_stats m.payload)
        else if m.type == 0x60
        then on_ping now st m
        else if m.type == 0x50
        then on_volume st m.payload
        else if m.type == 0x22
        then record st { is_closed = true }
        else if m.type == 0x31
        then record st { last_switch = some now }
        else if m.type == 0x80
        then on_quality_mode st (decode_quality_mode m.payload)
        else if m.type == 0x81
        then on_set_source st (decode_set_source m.payload)
        else if m.type == 0x83
        then on_receiver_state st (decode_receiver_state m.payload)
        else st
