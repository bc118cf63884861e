-- ===== src/Session/Control/Starting.antt =====
-- engine/internal/session/session.go: the request for a stream and the answer to it.
use remoteau.Common.{
  ℕ, ◌^◌, ◌<◌, ◌≡◌, refl, sym, ap, ◌∙◌, Option, none, some, List, [], ◌++◌, Result, ok, err, arith,
  append-nil,
}
use remoteau.Protocol.V2.Control.Types as Types
use remoteau.Protocol.V2.Control.Types.{Caps, StreamAck, caps_bytes, decode_caps}
use remoteau.Protocol.V2.Control.Payloads.{append_stream_ack, decode_stream_ack}
use remoteau.Protocol.V2.Control.Framing.{MessageInRange}
use remoteau.Protocol.V2.Control.RoundTrip.{
  CapsInRange, decode_caps-caps_bytes, decode_stream_ack-append_stream_ack,
}
use remoteau.Session.Control.{
  Session, Error, host, client, message, msg_stream_start, msg_stream_ack, send, recv, control,
  producer_failed, request_stream, start_stream,
}
use remoteau.Session.Control.Link.{IsLinked, written, wire}

message-InRange :
    (type : ℕ) (payload : List ℕ) → type < 2 ^ 16 → MessageInRange (message type payload)
message-InRange type payload h = record { type = h; flags = omega arith; request_id = omega arith }

-- The client asks, the host answers, and the client, which reads what the host wrote, requests.
unfoldable pub start :
    Session
    → Session
    → Caps
    → (Caps → Option (Caps × ℕ))
    → (Session × Result Error StreamAck) × (Session × Result Error (Unit {0}))
start c h request producer =
    let (c1, _) = send (message msg_stream_start (caps_bytes request)) c in
    let host_side = start_stream producer (record h { inp = c1.out }) in
    (request_stream request (record c { inp = host_side.0.out }), host_side)

module _ (c h : Session) (request : Caps) (producer : Caps → Option (Caps × ℕ))
    (is_c : c.role ≡ client) (is_h : h.role ≡ host) (there : IsLinked c h) (back : IsLinked h c)
    (out_c : c.out ≡ []) (out_h : h.out ≡ []) (rc : CapsInRange request) where
  decodes : decode_caps (caps_bytes request) ≡ ok request
  decodes =
      ap decode_caps (sym (append-nil (caps_bytes request))) ∙ decode_caps-caps_bytes request [] rc

  module _ (active : Caps) (gen : ℕ) (ra : CapsInRange active) (rg : gen < 2 ^ 32)
      (made : producer request ≡ some (active, gen)) where
    abbrev started_host : Session
    started_host = record h { inp = []; active_caps = active; format_gen = gen }

    abbrev ack : StreamAck
    ack = record { active = active; format_gen = gen }

    start_stream_eq :
        (i b2 : List ℕ) (k2 : ℕ)
        → recv (record h { inp = i })
          ≡ (record h { inp = [] }, ok (message msg_stream_start (caps_bytes request)))
        → send (message msg_stream_ack (append_stream_ack ack)) started_host
          ≡ (written started_host k2 b2, ok tt)
        → start_stream producer (record h { inp = i }) ≡ (written started_host k2 b2, ok tt)
    unfolding start_stream
    start_stream_eq i b2 k2 e1 e2 =
        let hears = rw is_h at e1 in
        let answers = rw is_h at e2 in rw (is_h, hears, decodes, made, answers) refl

    request_stream_eq :
        (i b1 : List ℕ) (k1 : ℕ)
        → let c1 = written (record c { inp = i }) k1 b1 in
          send (message msg_stream_start (caps_bytes request)) (record c { inp = i }) ≡ (c1, ok tt)
          → recv c1 ≡ (record c1 { inp = [] }, ok (message msg_stream_ack (append_stream_ack ack)))
          → request_stream request (record c { inp = i })
            ≡ (record c1 { inp = []; active_caps = active; format_gen = gen }, ok ack)
    unfolding request_stream
    request_stream_eq i b1 k1 e1 e2 =
        let sends = rw is_c at e1 in
        let hears = rw is_c at e2 in
        let decodes_ack = decode_stream_ack-append_stream_ack ack ra rg in
        rw (is_c, sends, hears, decodes_ack) refl

    -- When the host can produce a stream for the request, both sides return, hold the format and the
    -- generation that the host chose, and have read all that was written.
    pub start-Started :
        let ((c', asked), (h', answered)) = start c h request producer in
        (asked ≡ ok ack)
        × (answered ≡ ok tt)
        × (c'.active_caps ≡ active)
        × (h'.active_caps ≡ active)
        × (c'.format_gen ≡ gen)
        × (h'.format_gen ≡ gen)
        × (c'.inp ≡ [])
        × (h'.inp ≡ [])
    unfolding start
    start-Started =
        let asks = message msg_stream_start (caps_bytes request) in
        let answers = message msg_stream_ack (append_stream_ack ack) in
        let (b1, k1, send1, recv1) =
          wire c h asks there (message-InRange _ _ (omega arith)) (omega arith) in
        let (b2, k2, send2, recv2) =
          wire h c answers back (message-InRange _ _ (omega arith)) (omega arith) in
        let coming : c.out ++ b1 ≡ b1 ++ [] = rw (out_c, append-nil) refl in
        let host_side =
          start_stream_eq (c.out ++ b1) b2 k2
            (recv1 (record h { inp = c.out ++ b1 }) [] there.to_open refl coming)
            (send2 started_host back.from_open refl refl) in
        let i = h.out ++ b2 in
        let whole : i ≡ b2 ++ [] = rw (out_h, append-nil) refl in
        let client_side =
          request_stream_eq i b1 k1 (send1 (record c { inp = i }) there.from_open refl refl)
            (recv2 (written (record c { inp = i }) k1 b1) [] back.to_open refl whole) in
        rw (send1 c there.from_open refl refl, host_side, client_side)
          (refl, refl, refl, refl, refl, refl, refl, refl)

  start_stream_failed :
      producer request ≡ none
      → (i b2 : List ℕ) (k2 : ℕ)
      → recv (record h { inp = i })
        ≡ (record h { inp = [] }, ok (message msg_stream_start (caps_bytes request)))
      → send (message msg_stream_ack []) (record h { inp = [] })
        ≡ (written (record h { inp = [] }) k2 b2, ok tt)
      → start_stream producer (record h { inp = i })
        ≡ (written (record h { inp = [] }) k2 b2, err producer_failed)
  unfolding start_stream
  start_stream_failed fails i b2 k2 e1 e2 =
      let hears = rw is_h at e1 in
      let answers = rw is_h at e2 in rw (is_h, hears, decodes, fails, answers) refl

  request_stream_failed :
      (i b1 : List ℕ) (k1 : ℕ)
      → let c1 = written (record c { inp = i }) k1 b1 in
        send (message msg_stream_start (caps_bytes request)) (record c { inp = i }) ≡ (c1, ok tt)
        → recv c1 ≡ (record c1 { inp = [] }, ok (message msg_stream_ack []))
        → request_stream request (record c { inp = i })
          ≡ (record c1 { inp = [] }, err (control Types.length_mismatch))
  unfolding request_stream decode_stream_ack
  request_stream_failed i b1 k1 e1 e2 =
      let sends = rw is_c at e1 in let hears = rw is_c at e2 in rw (is_c, sends, hears) refl

  -- When the host cannot produce a stream, its empty answer is an error on the client, and neither
  -- side's format changes.
  pub start-Failed :
      producer request ≡ none
      → let ((c', asked), (h', answered)) = start c h request producer in
        (asked ≡ err (control Types.length_mismatch))
        × (answered ≡ err producer_failed)
        × (c'.active_caps ≡ c.active_caps)
        × (h'.active_caps ≡ h.active_caps)
        × (c'.format_gen ≡ c.format_gen)
        × (h'.format_gen ≡ h.format_gen)
  unfolding start
  start-Failed fails =
      let asks = message msg_stream_start (caps_bytes request) in
      let answers = message msg_stream_ack [] in
      let (b1, k1, send1, recv1) =
        wire c h asks there (message-InRange _ _ (omega arith)) (omega arith) in
      let (b2, k2, send2, recv2) =
        wire h c answers back (message-InRange _ _ (omega arith)) (omega arith) in
      let coming : c.out ++ b1 ≡ b1 ++ [] = rw (out_c, append-nil) refl in
      let host_side =
        start_stream_failed fails (c.out ++ b1) b2 k2
          (recv1 (record h { inp = c.out ++ b1 }) [] there.to_open refl coming)
          (send2 (record h { inp = [] }) back.from_open refl refl) in
      let i = h.out ++ b2 in
      let whole : i ≡ b2 ++ [] = rw (out_h, append-nil) refl in
      let client_side =
        request_stream_failed i b1 k1 (send1 (record c { inp = i }) there.from_open refl refl)
          (recv2 (written (record c { inp = i }) k1 b1) [] back.to_open refl whole) in
      rw (send1 c there.from_open refl refl, host_side, client_side)
        (refl, refl, refl, refl, refl, refl)
