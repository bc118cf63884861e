-- ===== src/Engine/Host/Sending/Stalled.antt =====
-- engine/internal/engine/host.go: a send loop whose codec has another frame size than its chunk.
use remoteau.Common.{
  ℕ, zero, suc, ◌+◌, ◌*◌, ◌/◌, ◌≤◌, ◌<◌, ◌≡◌, ◌≢◌, refl, sym, ◌∙◌, Bool, true, false, none, List,
  [], ◌∷◌, ◌++◌, length, take, drop, ◌==◌, ok, map, arith, inl, inr, Bool-cases, length-append,
  length-take, length-drop, length-replicate,
}
use remoteau.Common.Int.{pos_part}
use remoteau.Codec.{Codec, Config, pcm, opus, pcm_frame_bytes, encode_frame, new_codec}
use remoteau.Protocol.V2.Control.Types.{Caps}
use remoteau.Engine.Host.Caps.{Options, shrink, codec_config_from_caps, frame_bytes}
use remoteau.Engine.Host.Caps.Frames.{pcm_answer}
use remoteau.Engine.Host.Caps.Negotiated.{negotiate_caps-Negotiated}
use remoteau.Engine.Host.Sending.{
  Calls, Stream, Loop, got, changed, config_of, scaled, apply_gain, encode, emit, emptied,
  filled_up, cut, round, send_loop, step, next_take, switched_caps, switch_codec,
}
use native.Mathlib.Nat.{mul-le-mul_left, mul-le-mul_right}

-- The loop is inside a frame.
pub record IsFilling (caps : Caps) (l : Loop) : Type 0 where
  pub size : length l.chunk ≡ frame_bytes caps
  pub room : l.filled < frame_bytes caps
  pub goes_on : l.stopped ≡ false

-- Nothing is sent, and the next sequence number stays.
pub record Stalled (caps : Caps) (l l' : Loop) (packets : List (List ℕ)) : Type 0 where
  pub filling : IsFilling caps l'
  pub seq : l'.seq ≡ l.seq
  pub none_sent : packets ≡ []

module _ {F : Type 0} (K : Calls F) where
  length-scaled : (v : F) (dst src : List ℕ) → length (scaled K v dst src) ≡ length dst
  unfolding scaled
  length-scaled v [] src = refl
  length-scaled v (x ∷ []) src = refl
  length-scaled v (x ∷ y ∷ dst) [] = refl
  length-scaled v (x ∷ y ∷ dst) (a ∷ []) = refl
  length-scaled v (x ∷ y ∷ dst) (a ∷ b ∷ src) = omega (arith, length-scaled v dst src)

  length-apply_gain :
      (v : F) (muted : Bool) (dst src : List ℕ)
      → length dst ≡ length src
      → length (apply_gain K v muted dst src) ≡ length src
  unfolding apply_gain
  length-apply_gain v true dst src h = length-replicate (length src) 0
  length-apply_gain v false dst src h = elim (Bool-cases (K.is_unity v)) [
    | inl unity ↦ rw unity refl
    | inr other ↦ rw other (length-scaled v dst src ∙ h)
  ]

  pub length-filled_up :
      (st : Stream F) (l : Loop) (n : ℕ) (src : List ℕ)
      → l.filled + n ≤ length l.chunk
      → n ≤ length src
      → length (filled_up K st l n src).chunk ≡ length l.chunk
  length-filled_up st l n src room enough =
      let dst = take n (drop l.filled l.chunk) in
      let gained = apply_gain K st.volume st.muted dst (take n src) in
      let len1 : length dst ≡ n =
        omega (arith, length-take n (drop l.filled l.chunk), length-drop l.filled l.chunk) in
      let len2 : length (take n src) ≡ n = omega (arith, length-take n src) in
      let len3 : length gained ≡ n =
        length-apply_gain st.volume st.muted dst (take n src) (len1 ∙ sym len2) ∙ len2 in
      omega (
        arith,
        length-append (take l.filled l.chunk) (gained ++ drop (l.filled + n) l.chunk),
        length-append gained (drop (l.filled + n) l.chunk),
        length-take l.filled l.chunk,
        length-drop (l.filled + n) l.chunk,
      )

  encode-refused :
      (codec : Codec) (n : ℕ) (chunk : List ℕ)
      → length chunk ≢ pcm_frame_bytes (config_of codec)
      → encode K codec n chunk ≡ none
  unfolding encode encode_frame
  encode-refused (pcm c) n chunk other =
      let wrong : (length chunk == pcm_frame_bytes c) ≡ false = ground (arith, other) in
      rw wrong refl
  encode-refused (opus c) n chunk other =
      let wrong : (length chunk == pcm_frame_bytes c) ≡ false = ground (arith, other) in
      rw wrong refl

  emit-refused :
      (rate : ℕ) (st : Stream F) (l : Loop)
      → length l.chunk ≢ pcm_frame_bytes (config_of st.codec)
      → emit K rate st l ≡ (emptied K l, none)
  unfolding emit
  emit-refused rate st l other = rw (encode-refused st.codec l.calls l.chunk other) refl

  module _ (caps : Caps) (st : Stream F)
      (other : frame_bytes caps ≢ pcm_frame_bytes (config_of st.codec)) where
    step-Stalled :
        (l : Loop) (src : List ℕ)
        → 0 < length src
        → IsFilling caps l
        → let (l', packet) = step K caps st l (next_take caps l src) src in
          IsFilling caps l' × (l'.seq ≡ l.seq) × (packet ≡ none)
    unfolding step
    step-Stalled l src more v =
        let n = next_take caps l src in
        let l1 = filled_up K st l n src in
        let size : length l1.chunk ≡ frame_bytes caps =
          length-filled_up st l n src (rw v.size (omega (arith, v.room))) (omega arith) ∙ v.size in
        elim (Bool-cases (l1.filled == frame_bytes caps)) [
          | inl full ↦
              let refused = emit-refused caps.sample_rate st l1 (λ e. other (sym size ∙ e)) in
              rw (full, refused)
                (
                  record { size = size; room = omega (arith, v.room); goes_on = v.goes_on },
                  refl,
                  refl,
                )
          | inr part ↦
              let room : l.filled + n < frame_bytes caps = ground (arith, v.room) in
              rw part (record { size = size; room = room; goes_on = v.goes_on }, refl, refl)
        ]

    cut-Stalled :
        (fuel : ℕ) (l : Loop) (src : List ℕ)
        → IsFilling caps l
        → Stalled caps l (cut K caps fuel st l src).0 (cut K caps fuel st l src).1
    unfolding cut
    cut-Stalled zero l src v = record { filling = v; seq = refl; none_sent = refl }
    cut-Stalled (suc fuel) l [] v = record { filling = v; seq = refl; none_sent = refl }
    cut-Stalled (suc fuel) l (x ∷ xs) v =
        let src = x ∷ xs in
        let n = next_take caps l src in
        let (v2, same, nothing) = step-Stalled l src (omega arith) v in
        let ih = cut-Stalled fuel (step K caps st l n src).0 (drop n src) v2 in
        rw (v2.goes_on, nothing)
          (record { filling = ih.filling; seq = ih.seq ∙ same; none_sent = ih.none_sent })

    round-Stalled :
        (l : Loop) (src : List ℕ)
        → IsFilling caps l
        → Stalled caps l (round K caps st l src).0 (round K caps st l src).1
    unfolding round
    round-Stalled l src v =
        let c = cut-Stalled (length src) l src v in
        record {
          filling = record {
            size = c.filling.size;
            room = c.filling.room;
            goes_on = c.filling.goes_on;
          };
          seq = c.seq;
          none_sent = c.none_sent;
        }

    send_loop-Stalled :
        (l : Loop) (reads : List (List ℕ))
        → IsFilling caps l
        → Stalled caps l
            (send_loop K caps st l (map got reads)).0
            (send_loop K caps st l (map got reads)).1
    unfolding send_loop
    send_loop-Stalled l [] v = record { filling = v; seq = refl; none_sent = refl }
    send_loop-Stalled l (src ∷ reads) v =
        let c = round-Stalled l src v in
        let ih = send_loop-Stalled (round K caps st l src).0 reads c.filling in
        rw (c.filling.goes_on, c.none_sent)
          (record { filling = ih.filling; seq = ih.seq ∙ c.seq; none_sent = ih.none_sent })

five : (c r m : ℕ) → 1 ≤ c → 8000 ≤ r → 10 ≤ m → c * 2 * m * r / 1000 ≢ r * 5 / 1000 * c * 2
five c r m many low long e =
    let most : c * 2 * 10 * r ≤ c * 2 * m * r = mul-le-mul_right r (mul-le-mul_left (c * 2) long) in
    let rounded : r * 5 / 1000 * 1000 * c ≤ r * 5 * c = mul-le-mul_right c (omega arith) in
    let least : 1 * r ≤ c * r = mul-le-mul_right r many in omega arith

config-new_codec :
    (opus_available : Bool) (c : Config) {codec : Codec}
    → new_codec opus_available c ≡ ok codec
    → config_of codec ≡ c
unfolding new_codec
config-new_codec opus_available c h = ground arith

config_size :
    (caps : Caps)
    → pcm_frame_bytes (codec_config_from_caps caps)
      ≡ caps.sample_rate * caps.frame_ms / 1000 * caps.channels * 2
unfolding codec_config_from_caps
config_size caps = refl

shrink-few : (c : ℕ) → c ≤ 8 → shrink 8 5 c ≡ 5
unfolding shrink
shrink-few c few = ground arith

-- What `switchCodec` makes of a stream that goes to PCM.
to_pcm :
    {F : Type 0} (opus_available : Bool) (o : Options) (st : Stream F)
    → 8000 ≤ st.caps.sample_rate
    → st.caps.sample_rate ≤ 192000
    → 1 ≤ st.caps.channels
    → st.caps.channels ≤ 8
    → pos_part o.max_bitrate ≤ 510000
    → pcm_frame_bytes (config_of (switch_codec opus_available o st false).codec)
      ≡ st.caps.sample_rate * 5 / 1000 * st.caps.channels * 2
unfolding switch_codec
to_pcm opus_available o st low high many few small =
    let req = switched_caps false st.caps in
    let (caps, answer, a) = pcm_answer opus_available o req refl low high many few small in
    let n = negotiate_caps-Negotiated opus_available o req (omega arith) answer in
    let (codec, made) = n.codec in
    rw
      (
        answer,
        made,
        config-new_codec opus_available (codec_config_from_caps caps) made,
        config_size caps,
        a.frame_ms,
        a.sample_rate,
        a.channels,
      )
      refl

-- A stream whose frames have 10 ms or more, as with Opus, is switched to PCM: its frames then have
-- 5 ms, but the loop cuts them as before. Whatever it reads from then on, it sends no packet, and
-- its sequence number stays. The caps are valid, and the host's bitrate limit is at most 510000.
pub switch_codec-Stalled :
    {F : Type 0} (K : Calls F) (opus_available : Bool) (o : Options) (st : Stream F) (l : Loop)
    (reads : List (List ℕ))
    → 10 ≤ st.caps.frame_ms
    → 8000 ≤ st.caps.sample_rate
    → st.caps.sample_rate ≤ 192000
    → 1 ≤ st.caps.channels
    → st.caps.channels ≤ 8
    → pos_part o.max_bitrate ≤ 510000
    → IsFilling st.caps l
    → let (l', packets) =
        send_loop K st.caps st l
          (changed (switch_codec opus_available o st false) ∷ map got reads) in
      Stalled st.caps l l' packets
unfolding send_loop
switch_codec-Stalled K opus_available o st l reads long low high many few small v =
    let st' = switch_codec opus_available o st false in
    let size = to_pcm opus_available o st low high many few small in
    send_loop-Stalled K st.caps st'
      (λ e. five st.caps.channels st.caps.sample_rate st.caps.frame_ms many low long (e ∙ size)) l
      reads v
