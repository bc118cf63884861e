-- ===== src/Session/Control/Link.antt =====
-- engine/internal/session/session.go: what one side sends, the other receives.
use remoteau.Common.{
  ℕ, ◌+◌, ◌≤◌, ◌<◌, ◌≡◌, ◌==◌, refl, ap, ◌∙◌, false, Option, none, some, List, ◌++◌, length, ltb,
  ok, err, arith, inl, inr, Bool-cases, if◌then◌else◌,
}
use remoteau.Protocol.V2.Control.Framing.{
  Message, MessageInRange, message_bytes, write_message, read_message, read_message-write_message,
}
use remoteau.Session.Control.{
  Session, Envelope, send, recv, closed, seal_and_write, write_sealed, open_payload, after_read,
}

-- What one side seals, the other opens; an envelope adds 28 bytes at most.
pub record Opens (a b : Envelope) : Type 0 where
  pub opens :
      (n : ℕ) (plain : List ℕ)
      → 0 < length plain
      → (wrapped : List ℕ) × (a.seal n plain ≡ some wrapped)
        × (b.open_sealed wrapped ≡ some plain)
        × (0 < length wrapped)
        × (length wrapped ≤ length plain + 28)

abbrev pub OpensFor : Option Envelope → Option Envelope → Type 0
OpensFor none none = Unit
OpensFor (some a) (some b) = Opens a b
OpensFor none (some b) = ⊥
OpensFor (some a) none = ⊥

-- Both sides are open, and either no envelope is used or they fit.
pub record IsLinked (from to : Session) : Type 0 where
  pub from_open : from.is_closed ≡ false
  pub to_open : to.is_closed ≡ false
  pub envelopes : OpensFor from.envelope to.envelope

-- The sender after a message.
abbrev pub written : Session → ℕ → List ℕ → Session
written s k bytes = record s { sealed = k; out = s.out ++ bytes }

write_fits : (m : Message) → length m.payload ≤ 4096 → write_message m ≡ ok (message_bytes m)
unfolding write_message
write_fits m h = let fits : ltb 4096 (length m.payload) ≡ false = ground arith in rw fits refl

wire_plain :
    (m : Message) (rest : List ℕ)
    → MessageInRange m
    → length m.payload ≤ 4096
    → read_message (message_bytes m ++ rest) ≡ ok (m, rest)
wire_plain m rest r fits = read_message-write_message m (message_bytes m) rest r (write_fits m fits)

-- What a message becomes on the wire, at a number of seals: its bytes, the number of seals after it,
-- what the sender does, and what the receiver makes of it.
carried :
    (a b : Option Envelope) (n : ℕ) (m : Message)
    → OpensFor a b
    → MessageInRange m
    → length m.payload + 28 ≤ 4096
    → (bytes : List ℕ) × (k : ℕ) × ((s : Session)
        → s.sealed ≡ n
        → seal_and_write a s m ≡ (record s { sealed = k; out = s.out ++ bytes }, ok tt))
      × ((rest : List ℕ)
          → (m1 : Message) × (read_message (bytes ++ rest) ≡ ok (m1, rest))
            × ((r : Session) → open_payload b m1 r ≡ (r, ok m)))
carried none (some b) n m fit r size = absurd fit
carried (some a) none n m fit r size = absurd fit
carried none none n m fit r size = (
  message_bytes m,
  n,
  λ s at_n. rw (write_fits m (omega arith)) (ap (λ k. (written s k (message_bytes m), ok tt)) at_n),
  λ rest. (m, wire_plain m rest r (omega arith), λ t. refl),
)
carried (some a) (some b) n m fit r size = elim (Bool-cases (length m.payload == 0)) [
  | inl empty ↦ (
    message_bytes m,
    n,
    λ s at_n.
        rw (empty, write_fits m (omega arith))
          (ap (λ k. (written s k (message_bytes m), ok tt)) at_n),
    λ rest. (m, wire_plain m rest r (omega arith), λ t. rw empty refl),
  )
  | inr full ↦
      let (wrapped, seals, back, some_wrapped, small) = fit.opens n m.payload (ground arith) in
      let m1 : Message = record m { payload = wrapped } in
      let r1 : MessageInRange m1 = record {
        type = r.type;
        flags = r.flags;
        request_id = r.request_id;
      } in
      let nonempty : (length wrapped == 0) ≡ false = ground arith in
      (
        message_bytes m1,
        n + 1,
        λ s at_n. rw full (
            ap (λ k. write_sealed (record s { sealed = k + 1 }) m (a.seal k m.payload)) at_n
            ∙ rw (seals, write_fits m1 (omega arith)) refl),
        λ rest. (m1, wire_plain m1 rest r1 (omega arith), λ t. rw (nonempty, back) refl),
      )
]

-- The same for two sides that are linked; the sender may be in another state with the same envelope.
pub wire :
    (s r : Session) (m : Message)
    → IsLinked s r
    → MessageInRange m
    → length m.payload + 28 ≤ 4096
    → (bytes : List ℕ) × (k : ℕ) × ((s' : Session)
        → s'.is_closed ≡ false
        → s'.envelope ≡ s.envelope
        → s'.sealed ≡ s.sealed
        → send m s' ≡ (written s' k bytes, ok tt))
      × ((r' : Session) (rest : List ℕ)
          → r'.is_closed ≡ false
          → r'.envelope ≡ r.envelope
          → r'.inp ≡ bytes ++ rest
          → recv r' ≡ (record r' { inp = rest }, ok m))
unfolding send recv
wire s r m l range size =
    let (bytes, k, sends, reads) =
      carried s.envelope r.envelope s.sealed m l.envelopes range size in
    (
      bytes,
      k,
      λ s' is_open same at_n.
          ap (λ c. if c then (s', err closed) else seal_and_write s'.envelope s' m) is_open
          ∙ ap (λ e. seal_and_write e s' m) same
          ∙ sends s' at_n,
      λ r' rest is_open same coming.
          let (m1, read, opens) = reads rest in
          ap (λ c. if c then (r', err closed) else after_read (read_message r'.inp) r') is_open
          ∙ ap (λ i. after_read (read_message i) r') coming
          ∙ ap (λ x. after_read x r') read
          ∙ ap (λ e. open_payload e m1 (record r' { inp = rest })) same
          ∙ opens (record r' { inp = rest }),
    )

-- A message of 4068 bytes or less that `send` takes on one side is what `recv` gives on the other,
-- sealed or not, and leaves the rest of the stream for the next call.
pub recv-send :
    (s r : Session) (m : Message)
    → IsLinked s r
    → MessageInRange m
    → length m.payload + 28 ≤ 4096
    → (bytes : List ℕ) × (k : ℕ) × (send m s
        ≡ (record s { sealed = k; out = s.out ++ bytes }, ok tt))
      × ((rest : List ℕ)
          → recv (record r { inp = bytes ++ rest }) ≡ (record r { inp = rest }, ok m))
recv-send s r m l range size =
    let (bytes, k, sends, reads) = wire s r m l range size in
    (
      bytes,
      k,
      sends s l.from_open refl refl,
      λ rest. reads (record r { inp = bytes ++ rest }) rest l.to_open refl refl,
    )
