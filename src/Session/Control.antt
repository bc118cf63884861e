-- ===== src/Session/Control.antt =====
-- engine/internal/session/session.go: the control-plane calls of one side. `out` is what the side has
-- written to the control stream, `inp` what it has not read yet. A context does not expire during a
-- call, and calls do not overlap. Names are the lists of their bytes.
pub mod Link
pub mod Greeting
pub mod Starting
mod Tests
use remoteau.Common.{
  ℕ, ◌+◌, ◌==◌, not, Bool, true, false, Option, none, some, List, [], ◌∷◌, ◌++◌, length, drop,
  if◌then◌else◌, Result, ok, err,
}
use remoteau.Protocol.V2.Control.Types as Types
use remoteau.Protocol.V2.Control.Types.{
  Caps, Hello, HelloOk, StreamAck, Stats, caps_bytes, decode_caps,
}
use remoteau.Protocol.V2.Control.Payloads.{
  append_hello, decode_hello, append_hello_ok, decode_hello_ok, append_stream_ack,
  decode_stream_ack, append_stats,
}
use remoteau.Protocol.V2.Control.Framing.{Message, write_message, read_message}
use remoteau.Session.Profile.{select_profile}

pub data Role : Type 0 where
  host client : Role

pub data Error : Type 0 where
  closed unsupported wrong_role unexpected_type : Error
  seal_failed open_failed producer_failed : Error
  control : Types.Error → Error

-- The two functions of `SetSealer`. `seal` draws random bytes: its first argument counts the calls.
pub record Envelope : Type 0 where
  pub seal : ℕ → List ℕ → Option (List ℕ)
  pub open_sealed : List ℕ → Option (List ℕ)

pub record Session : Type 0 where
  pub role : Role
  pub is_closed : Bool
  pub peer_name : List ℕ
  pub peer_id : List ℕ
  pub local_id : List ℕ
  pub local_name : List ℕ
  pub envelope : Option Envelope
  pub sealed : ℕ
  pub active_caps : Caps
  pub format_gen : ℕ
  pub resume_token : List ℕ
  pub out : List ℕ
  pub inp : List ℕ

-- A call changes the session, and returns a value or an error.
abbrev pub Call : Type 0 → Type 0
Call A = Session → Session × Result Error A

abbrev continue :
    {A B : Type 0} → Session × Result Error A → (A → Call B) → Session × Result Error B
continue (s, ok a) f = f a s
continue (s, err e) f = (s, err e)

infixl 5 ◌>>=◌ ◌>>◌
abbrev pub ◌>>=◌ : {A B : Type 0} → Call A → (A → Call B) → Call B
◌>>=◌ m f s = continue (m s) f

abbrev pub ◌>>◌ : {B : Type 0} → Call (Unit {0}) → Call B → Call B
m >> k = m >>= λ _. k

abbrev pub pure : {A : Type 0} → A → Call A
pure a s = (s, ok a)

abbrev pub raise : {A : Type 0} → Error → Call A
raise e s = (s, err e)

abbrev pub reject : Bool → Error → Call (Unit {0})
reject true e = raise e
reject false e = pure tt

abbrev pub modify : (Session → Session) → Call (Unit {0})
modify f s = (f s, ok tt)

-- `_ = call`
abbrev pub ignore : {A : Type 0} → Call A → Call (Unit {0})
ignore m s = ((m s).0, ok tt)

abbrev decoded : {A : Type 0} → Result Types.Error A → Call A
decoded (ok a) = pure a
decoded (err e) = raise (control e)

abbrev pub is_host : Role → Bool
is_host host = true
is_host client = false

abbrev pub msg_hello : ℕ
msg_hello = 1

abbrev pub msg_hello_ok : ℕ
msg_hello_ok = 2

abbrev pub msg_stream_start : ℕ
msg_stream_start = 0x20

abbrev pub msg_stream_ack : ℕ
msg_stream_ack = 0x21

abbrev pub msg_stats : ℕ
msg_stats = 0x40

abbrev pub message : ℕ → List ℕ → Message
message type payload = record { type = type; flags = 0; request_id = 0; payload = payload }

-- `Session.Close`
unfoldable pub close : Session → Session
close s = record s { is_closed = true }

abbrev write_out : Session → Result Types.Error (List ℕ) → Session × Result Error (Unit {0})
write_out s (err e) = (s, err (control e))
write_out s (ok bytes) = (record s { out = s.out ++ bytes }, ok tt)

abbrev write_sealed : Session → Message → Option (List ℕ) → Session × Result Error (Unit {0})
write_sealed s m none = (s, err seal_failed)
write_sealed s m (some payload) = write_out s (write_message (record m { payload = payload }))

abbrev seal_and_write : Option Envelope → Session → Message → Session × Result Error (Unit {0})
seal_and_write none s m = write_out s (write_message m)
seal_and_write (some e) s m =
    if length m.payload == 0
    then write_out s (write_message m)
    else write_sealed (record s { sealed = s.sealed + 1 }) m (e.seal s.sealed m.payload)

-- `send`
unfoldable pub send : Message → Call (Unit {0})
send m s = if s.is_closed then (s, err closed) else seal_and_write s.envelope s m

abbrev opened : Message → Option (List ℕ) → Session → Session × Result Error Message
opened m none s = (s, err open_failed)
opened m (some payload) s = (s, ok (record m { payload = payload }))

abbrev open_payload : Option Envelope → Message → Session → Session × Result Error Message
open_payload none m s = (s, ok m)
open_payload (some e) m s =
    if length m.payload == 0 then (s, ok m) else opened m (e.open_sealed m.payload) s

-- A read that fails has taken the header, and mostly all that there was.
abbrev read_failed : Types.Error → Session → Session × Result Error Message
read_failed Types.eof s = (record s { inp = [] }, err closed)
read_failed Types.payload_too_large s =
    (record s { inp = drop 12 s.inp }, err (control Types.payload_too_large))
read_failed e s = (record s { inp = [] }, err (control e))

abbrev after_read : Result Types.Error (Message × List ℕ) → Session → Session × Result Error Message
after_read (ok (m, rest)) s = open_payload s.envelope m (record s { inp = rest })
after_read (err e) s = read_failed e s

-- `recv`
unfoldable pub recv : Call Message
recv s = if s.is_closed then (s, err closed) else after_read (read_message s.inp) s

abbrev pub own_hello : List ℕ → List ℕ → Caps → Hello
own_hello name id offered = record {
  proto_version = 1;
  min_proto = 1;
  device_name = name;
  device_id = id;
  caps = offered;
}

-- `SendHello`
unfoldable pub send_hello : List ℕ → Caps → Call (Unit {0})
send_hello name offered s =
    send (message msg_hello (append_hello (own_hello name s.local_id offered))) s

abbrev set_peer : Hello → Session → Session
set_peer hello s = record s { peer_name = hello.device_name; peer_id = hello.device_id }

abbrev pub answer_hello : Option Caps → Hello → Caps → List ℕ → Call Hello
answer_hello none peer offered token = do ignore (send (message msg_hello_ok [])); raise unsupported
answer_hello (some profile) peer offered token = do
  modify (λ s. record s { active_caps = profile; resume_token = token })
  λ s. send_hello s.local_name offered s
  send (message msg_hello_ok (append_hello_ok (record { profile = profile; resume_token = token })))
  pure peer

-- `CompleteHello`; `token` is what `rand.Read` leaves in the token.
unfoldable pub complete_hello : Message → Caps → List ℕ → Call Hello
complete_hello m offered token = do
  λ s. reject (not (is_host s.role)) wrong_role s
  reject (not (m.type == msg_hello)) unexpected_type
  peer ← decoded (decode_hello m.payload)
  modify (set_peer peer)
  answer_hello (select_profile offered peer.caps) peer offered token

-- The part of `ExchangeHellos` for a client.
unfoldable pub await_hello_ok : Message → Call Hello
await_hello_ok m = do
  reject (not (m.type == msg_hello)) unexpected_type
  peer ← decoded (decode_hello m.payload)
  modify (set_peer peer)
  ok_msg ← recv
  reject (not (ok_msg.type == msg_hello_ok)) unexpected_type
  answer ← decoded (decode_hello_ok ok_msg.payload)
  modify (λ s. record s { active_caps = answer.profile; resume_token = answer.resume_token })
  pure peer

-- `ExchangeHellos`
unfoldable pub exchange_hellos : List ℕ → Caps → List ℕ → Call Hello
exchange_hellos name offered token = do
  send_hello name offered
  m ← recv
  λ s. if is_host s.role then complete_hello m offered token s else await_hello_ok m s

-- `RequestStream`
unfoldable pub request_stream : Caps → Call StreamAck
request_stream request = do
  λ s. reject (is_host s.role) wrong_role s
  send (message msg_stream_start (caps_bytes request))
  m ← recv
  reject (not (m.type == msg_stream_ack)) unexpected_type
  ack ← decoded (decode_stream_ack m.payload)
  modify (λ s. record s { active_caps = ack.active; format_gen = ack.format_gen })
  pure ack

abbrev pub answer_stream : Option (Caps × ℕ) → Call (Unit {0})
answer_stream none = do ignore (send (message msg_stream_ack [])); raise producer_failed
answer_stream (some (active, gen)) = do
  modify (λ s. record s { active_caps = active; format_gen = gen })
  send (message msg_stream_ack (append_stream_ack (record { active = active; format_gen = gen })))

-- `StartStream`
unfoldable pub start_stream : (Caps → Option (Caps × ℕ)) → Call (Unit {0})
start_stream producer = do
  λ s. reject (not (is_host s.role)) wrong_role s
  m ← recv
  reject (not (m.type == msg_stream_start)) unexpected_type
  request ← decoded (decode_caps m.payload)
  answer_stream (producer request)

-- `SendStats`
unfoldable pub send_stats : Stats → Call (Unit {0})
send_stats st = send (message msg_stats (append_stats st))
