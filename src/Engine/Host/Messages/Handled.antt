-- ===== src/Engine/Host/Messages/Handled.antt =====
-- engine/internal/engine/host.go: what holds of a stream behind any control message.
use remoteau.Common.{
  ℕ, ◌+◌, ◌%◌, ◌^◌, ◌≡◌, refl, sym, ap, ◌∙◌, Bool, true, false, not, ◌&&◌, ◌||◌, some, List, [],
  ◌∷◌, ◌++◌, if◌then◌else◌, ltb, ok, ◌⊎◌, inl, inr, Bool-cases, Result-cases, ◌==◌, length,
}
use remoteau.Codec.{new_codec}
use remoteau.Protocol.V2.Control.Types.{validate_caps}
use remoteau.Protocol.V2.Control.Framing.{Message}
use remoteau.Protocol.V2.Control.Payloads.{
  append_format_update, decode_stats, decode_quality_mode, decode_set_source, decode_receiver_state,
}
use remoteau.Quality.Controller.{Floats, Decision, update}
use remoteau.Quality.Controller.Inv.{IsValid, update-IsValid}
use remoteau.Engine.QualityMode.{quality_mode_to_bounds, quality_mode_to_bounds-IsValid}
use remoteau.Engine.Host.Caps.{negotiate_caps, codec_config_from_caps}
use remoteau.Engine.Host.Caps.Negotiated.{negotiate-inv}
use remoteau.Engine.Host.Sending as Sending
use remoteau.Engine.Host.Sending.{switched_caps}
use remoteau.Engine.Host.Messages.{
  Stream, Env, message, dwells, is_opus_codec, set_encoder, switch_codec, apply_quality, measured,
  sample_of, on_stats, on_ping, on_volume, on_quality_mode, on_set_source, on_receiver_state,
  handle_control,
}

abbrev pub format_update : {F : Floats} → Stream F → Message
format_update st =
    message 0x30 0
      (append_format_update (record { format_gen = st.sending.format_gen; caps = st.sending.caps }))

module _ (F : Floats) (E : Env F) where
  -- The codec was switched: to valid caps that the codec is made for, with a new generation, of
  -- which the receiver is told, and at least the dwell behind the last switch.
  pub record Switched (now : ℕ) (st st' : Stream F) : Type 0 where
    pub valid : validate_caps st'.sending.caps ≡ ok tt
    pub codec :
        new_codec E.opus_available (codec_config_from_caps st'.sending.caps) ≡ ok st'.sending.codec
    pub format_gen : st'.sending.format_gen ≡ (st.sending.format_gen + 1) % 2 ^ 32
    pub told : st'.out ≡ st.out ++ (format_update st' ∷ [])
    pub at_time : st'.last_switch ≡ some now
    pub dwelt : dwells now st.last_switch ≡ false

  pub record Kept (st st' : Stream F) : Type 0 where
    pub codec : st'.sending.codec ≡ st.sending.codec
    pub caps : st'.sending.caps ≡ st.sending.caps
    pub format_gen : st'.sending.format_gen ≡ st.sending.format_gen

  pub record Handled (now : ℕ) (st st' : Stream F) : Type 0 where
    pub quality : IsValid F st.quality → IsValid F st'.quality
    pub format : Kept st st' ⊎ Switched now st st'

  quiet :
      (now : ℕ) (st st' : Stream F)
      → st'.quality ≡ st.quality
      → st'.sending.codec ≡ st.sending.codec
      → st'.sending.caps ≡ st.sending.caps
      → st'.sending.format_gen ≡ st.sending.format_gen
      → Handled now st st'
  quiet now st st' quality codec caps gen = record {
    quality = λ v. rw quality v;
    format = inl (record { codec = codec; caps = caps; format_gen = gen });
  }

  switch-Handled :
      (now : ℕ) (st : Stream F) (to_opus : Bool)
      → dwells now st.last_switch ≡ false
      → Handled now st (switch_codec F E now st to_opus)
  unfolding switch_codec
  switch-Handled now st to_opus dwelt =
      let req = switched_caps to_opus st.sending.caps in
      elim (Result-cases (negotiate_caps E.opus_available E.options req)) [
        | inl (caps, answer) ↦
            let (valid, is) = negotiate-inv E.opus_available E.options req answer in
            elim (Result-cases (new_codec E.opus_available (codec_config_from_caps caps))) [
              | inl (codec, made) ↦
                  rw (answer, made)
                    (record {
                      quality = λ v. v;
                      format = inr (record {
                        valid = rw is at valid;
                        codec = made;
                        format_gen = refl;
                        told = refl;
                        at_time = refl;
                        dwelt = dwelt;
                      });
                    })
              | inr (e, failed) ↦ rw (answer, failed) (quiet now st _ refl refl refl refl)
            ]
        | inr (e, refused) ↦ rw refused (quiet now st _ refl refl refl refl)
      ]

  choose : (P : Stream F → Type 0) (b : Bool) (x y : Stream F) → P x → P y → P (if b then x else y)
  choose P true x y p q = p
  choose P false x y p q = q

  -- A state that differs from `st` in nothing that a switch reads or keeps.
  rebased :
      (now : ℕ) (st st1 st' : Stream F)
      → (IsValid F st.quality → IsValid F st1.quality)
      → st1.sending ≡ st.sending
      → st1.out ≡ st.out
      → st1.last_switch ≡ st.last_switch
      → Handled now st1 st'
      → Handled now st st'
  rebased now st st1 st' quality sending out last h = record {
    quality = λ v. h.quality (quality v);
    format = elim h.format [
      | inl k ↦ inl (record {
        codec = k.codec ∙ ap (λ (x : Sending.Stream F.Float). x.codec) sending;
        caps = k.caps ∙ ap (λ (x : Sending.Stream F.Float). x.caps) sending;
        format_gen = k.format_gen ∙ ap (λ (x : Sending.Stream F.Float). x.format_gen) sending;
      })
      | inr s ↦ inr (record {
        valid = s.valid;
        codec = s.codec;
        format_gen =
            s.format_gen ∙ ap (λ (x : Sending.Stream F.Float). (x.format_gen + 1) % 2 ^ 32) sending;
        told = s.told ∙ ap (λ (x : List Message). x ++ (format_update st' ∷ [])) out;
        at_time = s.at_time;
        dwelt = ap (dwells now) (sym last) ∙ s.dwelt;
      })
    ];
  }

  apply_quality-Handled :
      (now : ℕ) (st : Stream F) (dec : Decision F) → Handled now st (apply_quality F E now st dec)
  unfolding apply_quality
  apply_quality-Handled now st dec =
      let st1 = set_encoder F E st dec in
      let want_opus = dec.switch_to_opus && E.opus_available in
      let is_opus = st.sending.caps.codec == 1 in
      let P : Stream F → Type 0 = λ x. Handled now st x in
      let here : P st1 =
        choose P (is_opus_codec st.sending.codec) _ _ (quiet now st _ refl refl refl refl)
          (quiet now st _ refl refl refl refl) in
      let switched : dwells now st.last_switch ≡ false → P (switch_codec F E now st1 want_opus) =
        λ dwelt. elim (Bool-cases (is_opus_codec st.sending.codec)) [
          | inl opus ↦
              rw opus
                (rebased now st _ _ (λ v. v) refl refl refl (switch-Handled now _ want_opus dwelt))
          | inr pcm ↦ rw pcm (switch-Handled now st want_opus dwelt)
        ] in
      let last : P (if dwells now st.last_switch then st1 else switch_codec F E now st1 want_opus) =
        elim (Bool-cases (dwells now st.last_switch)) [
          | inl early ↦ rw early here
          | inr late ↦ rw late (switched late)
        ] in
      choose P (not want_opus && not dec.switch_to_pcm) st1 _ here
        (choose P ((want_opus && is_opus) || (dec.switch_to_pcm && not is_opus)) st1 _ here last)

  on_stats-Handled :
      (now : ℕ) (st : Stream F) (payload : List ℕ)
      → Handled now st (on_stats F E now st (decode_stats payload))
  on_stats-Handled now st payload = elim (Result-cases (decode_stats payload)) [
    | inl (s, decoded) ↦
        let st1 = measured F E st s in
        let sample = sample_of F E st1 s in
        let (quality, dec) = update F st.quality sample now in
        let h = apply_quality-Handled now (record st1 { quality = quality }) dec in
        rw decoded
          (rebased now st _ _ (λ v. (update-IsValid F st.quality sample now v).0) refl refl refl h)
    | inr (e, bad) ↦ rw bad (quiet now st _ refl refl refl refl)
  ]

  on_quality_mode-Handled :
      (now : ℕ) (st : Stream F) (payload : List ℕ)
      → Handled now st (on_quality_mode F E st (decode_quality_mode payload))
  on_quality_mode-Handled now st payload = elim (Result-cases (decode_quality_mode payload)) [
    | inl (qm, decoded) ↦ elim (Bool-cases (quality_mode_to_bounds qm.mode).apply) [
      | inl applies ↦
          let (valid, _, _) = quality_mode_to_bounds-IsValid F qm.mode applies in
          rw (decoded, applies)
            (record {
              quality = λ _. valid;
              format = inl (record { codec = refl; caps = refl; format_gen = refl });
            })
      | inr keeps ↦ rw (decoded, keeps) (quiet now st _ refl refl refl refl)
    ]
    | inr (e, bad) ↦ rw bad (quiet now st _ refl refl refl refl)
  ]

  on_set_source-Handled :
      (now : ℕ) (st : Stream F) (payload : List ℕ)
      → Handled now st (on_set_source F E st (decode_set_source payload))
  on_set_source-Handled now st payload = elim (Result-cases (decode_set_source payload)) [
    | inl (src, decoded) ↦ rw decoded (quiet now st _ refl refl refl refl)
    | inr (e, bad) ↦ rw bad (quiet now st _ refl refl refl refl)
  ]

  on_receiver_state-Handled :
      (now : ℕ) (st : Stream F) (payload : List ℕ)
      → Handled now st (on_receiver_state F E st (decode_receiver_state payload))
  on_receiver_state-Handled now st payload = elim (Result-cases (decode_receiver_state payload)) [
    | inl (rs, decoded) ↦ rw decoded (quiet now st _ refl refl refl refl)
    | inr (e, bad) ↦ rw bad (quiet now st _ refl refl refl refl)
  ]

  -- Whatever message arrives in whatever state, a valid quality controller stays valid; and the
  -- codec, the format and the generation stay, or are switched: the new caps are valid, `codec.New`
  -- makes the new codec of them, the generation is the next one modulo 2^32, the receiver is told
  -- both in a FORMAT_UPDATE, and 10 seconds have passed since the time of the last switch.
  pub handle_control-Handled :
      (now : ℕ) (st : Stream F) (m : Message) → Handled now st (handle_control F E now st m)
  unfolding handle_control
  handle_control-Handled now st m =
      let P : Stream F → Type 0 = λ x. Handled now st x in
      let ping : P (on_ping F E now st m) =
        choose P (ltb (length m.payload) 8) _ _ (quiet now st _ refl refl refl refl)
          (quiet now st _ refl refl refl refl) in
      let volume : P (on_volume F E st m.payload) =
        choose P (ltb (length m.payload) 3) _ _ (quiet now st _ refl refl refl refl)
          (quiet now st _ refl refl refl refl) in
      choose P (m.type == 0x40) _ _ (on_stats-Handled now st m.payload) (
        choose P (m.type == 0x60) _ _ ping (
          choose P (m.type == 0x50) _ _ volume (
            choose P (m.type == 0x22) _ _ (quiet now st _ refl refl refl refl) (
              choose P (m.type == 0x31) _ _ (quiet now st _ refl refl refl refl) (
                choose P (m.type == 0x80) _ _ (on_quality_mode-Handled now st m.payload) (
                  choose P (m.type == 0x81) _ _ (on_set_source-Handled now st m.payload) (
                    choose P (m.type == 0x83) _ st (on_receiver_state-Handled now st m.payload)
                      (quiet now st _ refl refl refl refl))))))))
