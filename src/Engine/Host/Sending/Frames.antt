-- ===== src/Engine/Host/Sending/Frames.antt =====
-- engine/internal/engine/host.go: what a send loop makes of PCM that it can send.
use remoteau.Common.{
  ℕ, ◌+◌, ◌%◌, ◌^◌, ◌≤◌, ◌<◌, ◌≡◌, true, false, Option, none, some, List, [], ◌++◌, All, length,
  take, ◌⊎◌,
}
use remoteau.Codec.{pcm, pcm_frame_bytes}
use remoteau.Protocol.V2.Control.Types.{Caps}
use remoteau.Engine.Host.Caps.{codec_config_from_caps, frame_bytes}
use remoteau.Engine.Host.Sending.{Calls, Stream, Loop, next_take}
use remoteau.Engine.Host.Sending.Packets.{bytes_of, IsPacket, AllSent}
use remoteau.Engine.Host.Sending.Stalled.{IsFilling}

module _ {F : Type 0} (K : Calls F) (caps : Caps) (st : Stream F) where
  -- PCM that is sent as it was read: a frame fits its codec and a datagram, the volume is 1, there
  -- is no envelope, and the connection lasts.
  pub record IsDirect : Type 0 where
    pub codec : st.codec ≡ pcm (codec_config_from_caps caps)
    pub fits : pcm_frame_bytes (codec_config_from_caps caps) ≡ frame_bytes caps
    pub some_bytes : 0 < frame_bytes caps
    pub small : frame_bytes caps ≤ 1152
    pub unity : K.is_unity st.volume ≡ true
    pub loud : st.muted ≡ false
    pub plain : st.sealer ≡ none
    pub lasts : (n : ℕ) → K.send_media n ≡ true

  -- The bytes of the frame that is being filled.
  abbrev pub pending : Loop → List ℕ
  pending l = take l.filled l.chunk

  pub record Sent (l : Loop) (src : List ℕ) (l' : Loop) (packets : List (List ℕ)) : Type 0 where
    pub frames : List (List ℕ)
    pub sizes : All (λ (f : List ℕ). length f ≡ frame_bytes caps) frames
    pub bytes : bytes_of frames ++ pending l' ≡ pending l ++ src
    pub numbered : AllSent st.format_gen l.seq frames packets
    pub seq : l'.seq ≡ (l.seq + length frames) % 2 ^ 32
    pub filling : IsFilling caps l'

  module _ (d : IsDirect) where
    -- One round of the inner loop fills up a frame, or sends one that is full.
    pub record Stepped (l : Loop) (src : List ℕ) (l' : Loop) (packet : Option (List ℕ))
        : Type 0 where
      pub filling : IsFilling caps l'
      pub cases :
          ((packet ≡ none)
            × (l'.seq ≡ l.seq)
            × (pending l' ≡ pending l ++ take (next_take caps l src) src))
          ⊎ ((frame : List ℕ) × (bytes : List ℕ) × (packet ≡ some bytes)
              × (length frame ≡ frame_bytes caps)
              × (frame ≡ pending l ++ take (next_take caps l src) src)
              × IsPacket st.format_gen l.seq frame bytes
              × (l'.seq ≡ (l.seq + 1) % 2 ^ 32)
              × (pending l' ≡ []))
