-- ===== src/Engine/Host/Sending.antt =====
-- engine/internal/engine/host.go: the send loop of one stream, and the switch of its codec. float64,
-- libopus, the sealer and the connection are parameters; `calls` counts the frames that the loop
-- has handed to them. What a control message does to the stream falls between two reads.
pub mod Packets
pub mod Frames
pub mod Stalled
mod Tests
use remoteau.Common.{
  ℕ, zero, suc, ◌+◌, ◌-◌, ◌*◌, ◌/◌, ◌%◌, ◌^◌, Bool, true, false, not, Option, none, some, List, [],
  ◌∷◌, ◌++◌, length, take, drop, min, max, ltb, ◌==◌, replicate, copy, if◌then◌else◌, Result, ok,
  err, reject_if, ◌>>=◌,
}
use remoteau.Codec as Codecs
use remoteau.Codec.{Codec, Config, pcm, opus, pcm_frame_bytes, encode_frame, new_codec}
use remoteau.Protocol.V2.Control.Types.{Caps, Error}
use remoteau.Protocol.V2.Media as Media
use remoteau.Protocol.V2.Media.{Media, append_media}
use remoteau.Engine.Host.Caps.{Options, shrink, negotiate_caps, codec_config_from_caps, frame_bytes}

-- What a stream calls: `volume == 1.0`; a 16-bit sample times a volume, clamped, as 16 bits again;
-- `EncodeFloat32` on a frame of the right size; and `SendMedia`, which works or not.
pub record Calls (F : Type 0) : Type 0 where
  pub is_unity : F → Bool
  pub scale : F → ℕ → ℕ
  pub encode_float32 : Config → ℕ → List ℕ → Option (List ℕ)
  pub send_media : ℕ → Bool

-- What the loop reads of `hostStream`.
pub record Stream (F : Type 0) : Type 0 where
  pub codec : Codec
  pub volume : F
  pub muted : Bool
  pub sealer : Option (ℕ → List ℕ → Option (List ℕ))
  pub format_gen : ℕ
  pub caps : Caps

-- The variables of the loop.
pub record Loop : Type 0 where
  pub chunk : List ℕ
  pub filled : ℕ
  pub seq : ℕ
  pub capture_frame : ℕ
  pub calls : ℕ
  pub stopped : Bool

abbrev pub to_option : {E A : Type 0} → Result E A → Option A
to_option (ok a) = some a
to_option (err e) = none

abbrev pub config_of : Codec → Config
config_of (pcm c) = c
config_of (opus c) = c

-- `negotiateCaps` is given the caps that `switchCodec` makes.
abbrev pub switched_caps : Bool → Caps → Caps
switched_caps true caps = record caps { codec = 1; frame_ms = max caps.frame_ms 10 }
switched_caps false caps = record caps { codec = 0; frame_ms = shrink 8 5 caps.channels }

abbrev pub cons_packet : Option (List ℕ) → List (List ℕ) → List (List ℕ)
cons_packet none rest = rest
cons_packet (some p) rest = p ∷ rest

-- `take`
abbrev pub next_take : Caps → Loop → List ℕ → ℕ
next_take caps l src = min (frame_bytes caps - l.filled) (length src)

abbrev pub with_codec : {F : Type 0} → Stream F → Caps → Result Codecs.Error Codec → Stream F
with_codec st caps (err e) = st
with_codec st caps (ok codec) = record st {
  codec = codec;
  caps = caps;
  format_gen = (st.format_gen + 1) % 2 ^ 32;
}

abbrev pub with_caps : {F : Type 0} → Bool → Stream F → Result Error Caps → Stream F
with_caps opus_available st (err e) = st
with_caps opus_available st (ok caps) =
    with_codec st caps (new_codec opus_available (codec_config_from_caps caps))

-- `switchCodec`, but for the message that it sends and the time and the position that it keeps.
unfoldable pub switch_codec : {F : Type 0} → Bool → Options → Stream F → Bool → Stream F
switch_codec opus_available o st to_opus =
    with_caps opus_available st (negotiate_caps opus_available o (switched_caps to_opus st.caps))

module _ {F : Type 0} (K : Calls F) where
  -- `applyGain`, on a destination as long as the source. An odd byte at the end stays as it was.
  pub scaled : F → List ℕ → List ℕ → List ℕ
  scaled v [] src = []
  scaled v (x ∷ []) src = x ∷ []
  scaled v (x ∷ y ∷ dst) [] = x ∷ y ∷ dst
  scaled v (x ∷ y ∷ dst) (a ∷ []) = x ∷ y ∷ dst
  scaled v (x ∷ y ∷ dst) (a ∷ b ∷ src) =
      let s = K.scale v (a + b * 2 ^ 8) in
      let rest = scaled v dst src in s % 2 ^ 8 ∷ s / 2 ^ 8 % 2 ^ 8 ∷ rest

  unfoldable pub apply_gain : F → Bool → List ℕ → List ℕ → List ℕ
  apply_gain v muted dst src =
      if muted then replicate (length src) 0 else if K.is_unity v then src else scaled v dst src

  -- `EncodeFrame` of either codec.
  unfoldable pub encode : Codec → ℕ → List ℕ → Option (List ℕ)
  encode (pcm c) n chunk = to_option (encode_frame c chunk)
  encode (opus c) n chunk =
      if not (length chunk == pcm_frame_bytes c) then none else K.encode_float32 c n chunk

  abbrev pub seal : Option (ℕ → List ℕ → Option (List ℕ)) → ℕ → List ℕ → Option (List ℕ)
  seal none n wire = some wire
  seal (some f) n wire = f n wire

  -- The loop starts on its next frame.
  abbrev pub emptied : Loop → Loop
  emptied l = record l { filled = 0; calls = l.calls + 1 }

  abbrev pub media_of : ℕ → Stream F → Loop → List ℕ → Media
  media_of rate st l wire = record {
    stream_id = 0;
    format_gen = st.format_gen % 2 ^ 16;
    flags = 0;
    seq = l.seq;
    capture_ts_us = l.capture_frame * 1000000 % 2 ^ 64 / rate;
    payload = wire;
  }

  abbrev pub send_packet : Loop → Result Media.Error (List ℕ) → Loop × Option (List ℕ)
  send_packet l (err e) = (record (emptied l) { seq = (l.seq + 1) % 2 ^ 32 }, none)
  send_packet l (ok packet) =
      if K.send_media l.calls
      then (record (emptied l) { seq = (l.seq + 1) % 2 ^ 32 }, some packet)
      else (record l { stopped = true }, none)

  abbrev pub with_sealed : ℕ → Stream F → Loop → Option (List ℕ) → Loop × Option (List ℕ)
  with_sealed rate st l none = (emptied l, none)
  with_sealed rate st l (some wire) = send_packet l (append_media (media_of rate st l wire))

  abbrev pub with_wire : ℕ → Stream F → Loop → Option (List ℕ) → Loop × Option (List ℕ)
  with_wire rate st l none = (emptied l, none)
  with_wire rate st l (some wire) = with_sealed rate st l (seal st.sealer l.calls wire)

  -- A chunk that is full: its frame is encoded, sealed and sent, and what fails is skipped.
  unfoldable pub emit : ℕ → Stream F → Loop → Loop × Option (List ℕ)
  emit rate st l = with_wire rate st l (encode st.codec l.calls l.chunk)

  -- `take` bytes of the read, behind what is filled.
  abbrev pub filled_up : Stream F → Loop → ℕ → List ℕ → Loop
  filled_up st l n src = record l {
    chunk =
        take l.filled l.chunk
        ++ (apply_gain st.volume st.muted (take n (drop l.filled l.chunk)) (take n src)
            ++ drop (l.filled + n) l.chunk);
    filled = l.filled + n;
  }

  -- One round of the inner loop, on the next `n` bytes.
  unfoldable pub step : Caps → Stream F → Loop → ℕ → List ℕ → Loop × Option (List ℕ)
  step caps st l n src =
      let l1 = filled_up st l n src in
      if l1.filled == frame_bytes caps then emit caps.sample_rate st l1 else (l1, none)

  -- The inner loop, on as much fuel as there are bytes.
  unfoldable pub cut : Caps → ℕ → Stream F → Loop → List ℕ → Loop × List (List ℕ)
  cut caps zero st l src = (l, [])
  cut caps (suc fuel) st l [] = (l, [])
  cut caps (suc fuel) st l (x ∷ xs) =
      let src = x ∷ xs in
      let n = next_take caps l src in
      let (l2, packet) = step caps st l n src in
      let (l3, packets) = cut caps fuel st l2 (drop n src) in
      if l2.stopped then (l2, []) else (l3, cons_packet packet packets)

  -- A read of the capture, and a stream that a control message has changed.
  pub data Event : Type 0 where
    got : List ℕ → Event
    changed : Stream F → Event

  -- One round of `sendLoop`.
  unfoldable pub round : Caps → Stream F → Loop → List ℕ → Loop × List (List ℕ)
  round caps st l src =
      let (l', packets) = cut caps (length src) st l src in
      (
        record l' {
          capture_frame = (l'.capture_frame + length src / (caps.channels * 2)) % 2 ^ 64;
        },
        packets,
      )

  unfoldable pub send_loop : Caps → Stream F → Loop → List Event → Loop × List (List ℕ)
  send_loop caps st l [] = (l, [])
  send_loop caps st l (got src ∷ es) =
      let (l1, packets) = round caps st l src in
      let (l2, more) = send_loop caps st l1 es in
      if l1.stopped then (l1, packets) else (l2, packets ++ more)
  send_loop caps st l (changed st' ∷ es) = send_loop caps st' l es
