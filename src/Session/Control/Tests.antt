-- ===== src/Session/Control/Tests.antt =====
-- engine/internal/session/session.go: a phone and a host that greet and start a stream.
use remoteau.Common.{
  ℕ, ◌≡◌, refl, false, Option, none, some, List, [], ◌∷◌, ◌++◌, replicate, ok, err, arith,
}
use remoteau.Protocol.V2.Control.Types as Types
use remoteau.Protocol.V2.Control.Types.{Caps}
use remoteau.Protocol.V2.Control.RoundTrip.{CapsInRange}
use remoteau.Session.Profile.{select_profile}
use remoteau.Session.Control.{
  Session, Envelope, Role, host, client, own_hello, message, send, recv, control, producer_failed,
}
use remoteau.Session.Control.Link.{Opens, IsLinked, recv-send}
use remoteau.Session.Control.Greeting.{HasGreeted, greet, greet-HasGreeted}
use remoteau.Session.Control.Starting.{start, start-Started, start-Failed}

abbrev pcm : Caps
pcm = record {
  codec = 0;
  sample_rate = 48000;
  channels = 2;
  frame_ms = 5;
  opus_bitrate = 0;
  fec = 0;
  dtx = 0;
  complexity = 0;
  app_id = 0;
}

pcm-CapsInRange : CapsInRange pcm
pcm-CapsInRange = record { sample_rate = omega arith; opus_bitrate = omega arith }

-- An envelope that only adds a byte.
abbrev wrapper : Envelope
wrapper = record { seal = λ n plain. some (0 ∷ plain); open_sealed = unwrap }
  where
    unwrap : List ℕ → Option (List ℕ)
    unwrap [] = none
    unwrap (_ ∷ plain) = some plain

wrapper-Opens : Opens wrapper wrapper
wrapper-Opens = record {
  opens = λ n plain some_plain. (0 ∷ plain, refl, refl, omega arith, omega arith);
}

abbrev side : Role → List ℕ → Session
side role name = record {
  role = role;
  is_closed = false;
  peer_name = [];
  peer_id = replicate 16 0;
  local_id = replicate 16 8;
  local_name = name;
  envelope = some wrapper;
  sealed = 0;
  active_caps = pcm;
  format_gen = 0;
  resume_token = replicate 32 0;
  out = [];
  inp = [];
}

abbrev phone : Session
phone = side client []

abbrev desk : Session
desk = side host (80 ∷ 67 ∷ [])

to_desk : IsLinked phone desk
to_desk = record { from_open = refl; to_open = refl; envelopes = wrapper-Opens }

to_phone : IsLinked desk phone
to_phone = record { from_open = refl; to_open = refl; envelopes = wrapper-Opens }

recv-send_example :
    (bytes : List ℕ) × (k : ℕ) × (send (message 0x60 (1 ∷ 2 ∷ [])) phone
      ≡ (record phone { sealed = k; out = phone.out ++ bytes }, ok tt))
    × ((rest : List ℕ)
        → recv (record desk { inp = bytes ++ rest })
          ≡ (record desk { inp = rest }, ok (message 0x60 (1 ∷ 2 ∷ []))))
recv-send_example =
    recv-send phone desk (message 0x60 (1 ∷ 2 ∷ [])) to_desk
      (record { type = omega arith; flags = omega arith; request_id = omega arith }) (omega arith)

greet-HasGreeted_example :
    (c' h' : Session) × (greet phone desk (105 ∷ []) pcm pcm (replicate 32 4)
      ≡ ok (
        c',
        h',
        own_hello (105 ∷ []) phone.local_id pcm,
        own_hello desk.local_name desk.local_id pcm,
      ))
    × HasGreeted phone desk (105 ∷ []) pcm (replicate 32 4) c' h'
unfolding select_profile
greet-HasGreeted_example =
    greet-HasGreeted phone desk (105 ∷ []) pcm pcm pcm (replicate 32 4) refl refl to_desk to_phone
      (record { out = refl; id = refl; name = omega arith })
      (record { out = refl; id = refl; name = omega arith }) pcm-CapsInRange pcm-CapsInRange
      pcm-CapsInRange refl refl

start-Started_example :
    let ((c', asked), (h', answered)) = start phone desk pcm (λ r. some (r, 1)) in
    (asked ≡ ok (record { active = pcm; format_gen = 1 }))
    × (answered ≡ ok tt)
    × (c'.active_caps ≡ pcm)
    × (h'.active_caps ≡ pcm)
    × (c'.format_gen ≡ 1)
    × (h'.format_gen ≡ 1)
    × (c'.inp ≡ [])
    × (h'.inp ≡ [])
start-Started_example =
    start-Started phone desk pcm (λ r. some (r, 1)) refl refl to_desk to_phone refl refl
      pcm-CapsInRange pcm 1 pcm-CapsInRange (omega arith) refl

start-Failed_example :
    let ((c', asked), (h', answered)) = start phone desk pcm (λ r. none) in
    (asked ≡ err (control Types.length_mismatch))
    × (answered ≡ err producer_failed)
    × (c'.active_caps ≡ phone.active_caps)
    × (h'.active_caps ≡ desk.active_caps)
    × (c'.format_gen ≡ phone.format_gen)
    × (h'.format_gen ≡ desk.format_gen)
start-Failed_example =
    start-Failed phone desk pcm (λ r. none) refl refl to_desk to_phone refl refl pcm-CapsInRange
      refl
