-- ===== src/Session/Control/Greeting.antt =====
-- engine/internal/session/session.go: the greeting of a client and a host.
use remoteau.Common.{
  ℕ, ◌+◌, ◌^◌, ◌≤◌, ◌<◌, ◌≡◌, refl, sym, some, List, [], ◌++◌, length, Result, ok, ◌>>=◌, arith,
  append-nil, length-append,
}
use remoteau.Protocol.V2.Control.Types.{Caps, Hello, caps_bytes}
use remoteau.Protocol.V2.Control.Payloads.{append_hello, append_hello_ok}
use remoteau.Protocol.V2.Control.Framing.{MessageInRange}
use remoteau.Protocol.V2.Control.RoundTrip.{
  CapsInRange, HelloInRange, decode_hello-append_hello, decode_hello_ok-append_hello_ok,
}
use remoteau.Session.Profile.{select_profile}
use remoteau.Session.Control.{
  Session, Error, host, client, own_hello, message, msg_hello, msg_hello_ok, send, recv, send_hello,
  complete_hello, exchange_hellos, await_hello_ok, msg_hello,
}
use remoteau.Session.Control.Link.{IsLinked, written, wire}

-- The client sends its HELLO, the host receives and completes it, and the client, which reads what
-- the host wrote, exchanges hellos.
unfoldable pub greet :
    Session
    → Session
    → List ℕ
    → Caps
    → Caps
    → List ℕ
    → Result Error (Session × Session × Hello × Hello)
greet c h name wanted offered token =
    let (c1, _) = send_hello name wanted c in
    let (h1, first) = recv (record h { inp = c1.out }) in
    first >>= λ m.
    let (h2, completed) = complete_hello m offered token h1 in
    completed >>= λ peer.
    let (c2, exchanged) = exchange_hellos name wanted [] (record c { inp = h2.out }) in
    exchanged >>= λ answer. ok (c2, h2, peer, answer)

-- A side that is about to greet: nothing is written yet, and its identity fits a HELLO.
pub record IsFresh (s : Session) (own_name : List ℕ) : Type 0 where
  pub out : s.out ≡ []
  pub id : length s.local_id ≡ 16
  pub name : length own_name ≤ 4031

-- Where both sides stand after the greeting.
pub record HasGreeted (c h : Session) (name : List ℕ) (profile : Caps) (token : List ℕ)
    (c' h' : Session) : Type 0 where
  pub profiles : (c'.active_caps ≡ profile) × (h'.active_caps ≡ profile)
  pub tokens : (c'.resume_token ≡ token) × (h'.resume_token ≡ token)
  pub host_peer : (h'.peer_name ≡ name) × (h'.peer_id ≡ c.local_id)
  pub client_peer : (c'.peer_name ≡ h.local_name) × (c'.peer_id ≡ h.local_id)
  -- All that was written is read.
  pub read : (c'.inp ≡ []) × (h'.inp ≡ [])

hello-InRange :
    (name id : List ℕ) (caps : Caps)
    → length id ≡ 16
    → length name ≤ 4031
    → CapsInRange caps
    → HelloInRange (own_hello name id caps)
hello-InRange name id caps size short r = record {
  proto_version = omega arith;
  min_proto = omega arith;
  name = omega arith;
  id = size;
  caps = r;
}

message-InRange :
    (type : ℕ) (payload : List ℕ) → type < 2 ^ 16 → MessageInRange (message type payload)
message-InRange type payload h = record { type = h; flags = omega arith; request_id = omega arith }

hello_size :
    (name id : List ℕ) (caps : Caps)
    → length id ≡ 16
    → length name ≤ 4031
    → length (append_hello (own_hello name id caps)) + 28 ≤ 4096
hello_size name id caps size short = omega (arith, length-append id (caps_bytes caps ++ name), size)

module _ (c h : Session) (name : List ℕ) (wanted offered profile : Caps) (token : List ℕ)
    (is_c : c.role ≡ client) (is_h : h.role ≡ host) (there : IsLinked c h) (back : IsLinked h c)
    (fresh_c : IsFresh c name) (fresh_h : IsFresh h h.local_name) (rc : CapsInRange wanted)
    (rh : CapsInRange offered) (rp : CapsInRange profile) (long : length token ≡ 32)
    (chosen : select_profile offered wanted ≡ some profile) where
  -- The host's part: what it writes after the client's HELLO.
  abbrev greeted_host : Session
  greeted_host = record h {
    inp = [];
    peer_name = name;
    peer_id = c.local_id;
    active_caps = profile;
    resume_token = token;
  }

  complete_hello_eq :
      (b2 b3 : List ℕ) (k2 k3 : ℕ)
      → let hello = message msg_hello (append_hello (own_hello h.local_name h.local_id offered)) in
        let answer =
          message msg_hello_ok
            (append_hello_ok (record { profile = profile; resume_token = token })) in
        send hello greeted_host ≡ (written greeted_host k2 b2, ok tt)
        → send answer (written greeted_host k2 b2)
          ≡ (written (written greeted_host k2 b2) k3 b3, ok tt)
        → complete_hello
            (message msg_hello (append_hello (own_hello name c.local_id wanted)))
            offered
            token
            (record h { inp = [] })
          ≡ (written (written greeted_host k2 b2) k3 b3, ok (own_hello name c.local_id wanted))
  unfolding complete_hello send_hello
  complete_hello_eq b2 b3 k2 k3 e2 e3 =
      let hello = own_hello name c.local_id wanted in
      let decodes =
        decode_hello-append_hello hello
          (hello-InRange name c.local_id wanted fresh_c.id fresh_c.name rc) in
      let sends = rw is_h at e2 in
      let answers = rw is_h at e3 in rw (is_h, decodes, chosen, sends, answers) refl

  -- The client's part: it has sent its HELLO, and reads what is in the stream.
  abbrev sent_client : List ℕ → ℕ → List ℕ → Session
  sent_client i k1 b1 = written (record c { inp = i }) k1 b1

  abbrev greeted_client : ℕ → List ℕ → Session
  greeted_client k1 b1 = record (sent_client [] k1 b1) {
    peer_name = h.local_name;
    peer_id = h.local_id;
    active_caps = profile;
    resume_token = token;
  }

  exchange_hellos_eq :
      (i b1 b3 : List ℕ) (k1 : ℕ)
      → let hello = message msg_hello (append_hello (own_hello h.local_name h.local_id offered)) in
        let answer =
          message msg_hello_ok
            (append_hello_ok (record { profile = profile; resume_token = token })) in
        let c1 = record (sent_client i k1 b1) { inp = b3 } in
        let c2 = record c1 { peer_name = h.local_name; peer_id = h.local_id } in
        send
            (message msg_hello (append_hello (own_hello name c.local_id wanted)))
            (record c { inp = i })
          ≡ (sent_client i k1 b1, ok tt)
        → recv (sent_client i k1 b1) ≡ (c1, ok hello)
        → recv c2 ≡ (record c2 { inp = [] }, ok answer)
        → exchange_hellos name wanted [] (record c { inp = i })
          ≡ (greeted_client k1 b1, ok (own_hello h.local_name h.local_id offered))
  unfolding exchange_hellos send_hello await_hello_ok
  exchange_hellos_eq i b1 b3 k1 e1 e2 e3 =
      let hello = own_hello h.local_name h.local_id offered in
      let decodes =
        decode_hello-append_hello hello
          (hello-InRange h.local_name h.local_id offered fresh_h.id fresh_h.name rh) in
      let decodes_ok =
        decode_hello_ok-append_hello_ok (record { profile = profile; resume_token = token }) rp
          long in
      let sends = rw is_c at e1 in
      let hears = rw is_c at e2 in
      let ends = rw is_c at e3 in rw (is_c, sends, hears, decodes, ends, decodes_ok) refl

  -- A client and a host that are linked, directly or by sealed envelopes, and share a profile, greet
  -- each other: both return the other's HELLO, know its name and device ID, and hold the profile that
  -- `selectProfile` chose and the resume token of the host; all that was written has been read.
  pub greet-HasGreeted :
      (c' h' : Session) × (greet c h name wanted offered token
        ≡ ok (c', h', own_hello name c.local_id wanted, own_hello h.local_name h.local_id offered))
      × HasGreeted c h name profile token c' h'
  unfolding greet send_hello
  greet-HasGreeted =
      let asked = message msg_hello (append_hello (own_hello name c.local_id wanted)) in
      let told = message msg_hello (append_hello (own_hello h.local_name h.local_id offered)) in
      let answer =
        message msg_hello_ok
          (append_hello_ok (record { profile = profile; resume_token = token })) in
      let (b1, k1, send1, recv1) =
        wire c h asked there (message-InRange _ _ (omega arith))
          (hello_size name c.local_id wanted fresh_c.id fresh_c.name) in
      let (b2, k2, send2, recv2) =
        wire h c told back (message-InRange _ _ (omega arith))
          (hello_size h.local_name h.local_id offered fresh_h.id fresh_h.name) in
      let again : IsLinked (written greeted_host k2 b2) c = record {
        from_open = back.from_open;
        to_open = back.to_open;
        envelopes = back.envelopes;
      } in
      let (b3, k3, send3, recv3) =
        wire (written greeted_host k2 b2) c answer again (message-InRange _ _ (omega arith))
          (omega (arith, long)) in
      let i = (h.out ++ b2) ++ b3 in
      let coming : c.out ++ b1 ≡ b1 ++ [] = rw (fresh_c.out, append-nil) refl in
      let first : recv (record h { inp = c.out ++ b1 }) ≡ (record h { inp = [] }, ok asked) =
        recv1 (record h { inp = c.out ++ b1 }) [] there.to_open refl coming in
      let host_side =
        complete_hello_eq b2 b3 k2 k3 (send2 greeted_host back.from_open refl refl)
          (send3 (written greeted_host k2 b2) back.from_open refl refl) in
      let whole : i ≡ b2 ++ b3 = rw fresh_h.out refl in
      let client_side =
        exchange_hellos_eq i b1 b3 k1 (send1 (record c { inp = i }) there.from_open refl refl)
          (recv2 (sent_client i k1 b1) b3 back.to_open refl whole)
          (recv3
            (record (sent_client i k1 b1) {
              inp = b3;
              peer_name = h.local_name;
              peer_id = h.local_id;
            })
            [] back.to_open refl (sym (append-nil b3))) in
      (
        greeted_client k1 b1,
        written (written greeted_host k2 b2) k3 b3,
        rw (send1 c there.from_open refl refl, first, host_side, client_side) refl,
        record {
          profiles = (refl, refl);
          tokens = (refl, refl);
          host_peer = (refl, refl);
          client_peer = (refl, refl);
          read = (refl, refl);
        },
      )
