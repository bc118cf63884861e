-- ===== src/Transport/Sender/Packets.antt =====
-- engine/internal/transport/sender.go: the packets of one connection.
use remoteau.Common.{
  ℕ, ◌+◌, ◌/◌, ◌%◌, ◌^◌, ◌≤◌, ◌<◌, ◌≡◌, refl, sym, ap, ◌∙◌, false, Option, none, some, List, [],
  ◌∷◌, ◌++◌, length, ltb, ◌==◌, if◌then◌else◌, arith, inl, inr, Bool-cases, append_assoc,
  append-nil, length-append, ◌⊎◌,
}
use native.Mathlib.Nat.{mul-add-div_right, zero-mod, zero-div}
use remoteau.Common.Multiples.{div-mul-cancel, add-mod_zero}
use remoteau.Protocol.V1.Types.{Frame}
use remoteau.Transport.Sender.{
  SenderTransport, Pump, Event, Outcome, got, idle, hello, written, transient, fatal, count,
  first_frame, step, pump, cons_frame,
}

module _ (t : SenderTransport) (bpf chunk : ℕ) where
  -- `Capture.Read` gives whole frames, and no more than there is room for.
  abbrev pub Fits : Pump → Event → Type 0
  Fits p (got bytes w) =
      (0 < length bytes) × (length p.filled + length bytes ≤ chunk) × (length bytes % bpf ≡ 0)
  Fits p idle = Unit
  Fits p (hello w) = Unit

  abbrev pub AllFit : Pump → List Event → Type 0
  AllFit p [] = Unit
  AllFit p (e ∷ es) = Fits p e × AllFit (step t bpf chunk p e).0 es

  -- The bytes that are read until the connection ends.
  abbrev pub bytes_of : Event → List ℕ
  bytes_of (got bytes w) = bytes
  bytes_of idle = []
  bytes_of (hello w) = []

  abbrev pub bytes_read : Pump → List Event → List ℕ
  bytes_read p [] = []
  bytes_read p (e ∷ es) =
      let rest = bytes_read (step t bpf chunk p e).0 es in
      bytes_of e ++ (if (step t bpf chunk p e).2 then rest else [])

  -- Full packets, numbered from `seq` and `capture_frame` on.
  abbrev pub IsSequence : ℕ → ℕ → List Frame → Type 0
  IsSequence seq capture_frame [] = Unit
  IsSequence seq capture_frame (f ∷ fs) =
      (f.seq ≡ seq)
      × (f.capture_frame ≡ capture_frame)
      × (length f.payload ≡ chunk)
      × IsSequence ((seq + 1) % 2 ^ 64) ((capture_frame + chunk / bpf) % 2 ^ 64) fs

  abbrev pub payloads : List Frame → List ℕ
  payloads [] = []
  payloads (f ∷ fs) = f.payload ++ payloads fs

  -- The packet is not full, holds whole frames, and begins where `first_frame` says.
  pub record IsFilling (p : Pump) : Type 0 where
    pub room : length p.filled < chunk
    pub whole : length p.filled % bpf ≡ 0
    pub seq : p.seq < 2 ^ 64
    pub start : first_frame p < 2 ^ 64
    pub capture : p.capture_frame ≡ (first_frame p + length p.filled / bpf) % 2 ^ 64

  -- What a connection makes of its events.
  pub record Pumped (p : Pump) (es : List Event) (p' : Pump) (frames : List Frame) : Type 0 where
    pub filling : IsFilling p'
    pub sequence : IsSequence p.seq (first_frame p) frames
    pub bytes : payloads frames ++ p'.filled ≡ p.filled ++ bytes_read p es

  module _ (some_bytes : 0 < bpf) where
    div-add : (a b : ℕ) → a % bpf ≡ 0 → (a + b) / bpf ≡ a / bpf + b / bpf
    div-add a b ha =
        ap (λ x. (x + b) / bpf) (sym (div-mul-cancel a bpf ha))
        ∙ mul-add-div_right some_bytes (a / bpf) b

    -- An event that fills the packet no further than it goes.
    record Continued (p : Pump) (e : Event) (p' : Pump) : Type 0 where
      filling : IsFilling p'
      seq : p'.seq ≡ p.seq
      first : first_frame p' ≡ first_frame p
      filled : p'.filled ≡ p.filled ++ bytes_of e

    -- An event that completes a packet.
    record Emitted (p : Pump) (e : Event) (p' : Pump) (f : Frame) : Type 0 where
      filling : IsFilling p'
      seq : p'.seq ≡ (p.seq + 1) % 2 ^ 64
      first : first_frame p' ≡ (first_frame p + chunk / bpf) % 2 ^ 64
      filled : p'.filled ≡ []
      frame : (f.seq ≡ p.seq) × (f.capture_frame ≡ first_frame p)
      payload : f.payload ≡ p.filled ++ bytes_of e
      size : length f.payload ≡ chunk

    abbrev StepCases : Pump → Event → Type 0
    StepCases p e =
        let r = step t bpf chunk p e in
        ((r.1 ≡ none) × Continued p e r.0) ⊎ ((f : Frame) × (r.1 ≡ some f) × Emitted p e r.0 f)

    keeps :
        (p : Pump) (e : Event) (w : ℕ)
        → bytes_of e ≡ []
        → IsFilling p
        → Continued p e (record p { successful_writes = w })
    keeps p e w nothing v = record {
      filling = record {
        room = v.room;
        whole = v.whole;
        seq = v.seq;
        start = v.start;
        capture = v.capture;
      };
      seq = refl;
      first = refl;
      filled = rw (nothing, append-nil) refl;
    }

    counted : (w : Outcome) (p : Pump) → (n : ℕ) × (count w p ≡ record p { successful_writes = n })
    counted written p = (p.successful_writes + 1, refl)
    counted transient p = (p.successful_writes, refl)
    counted fatal p = (p.successful_writes, refl)

    begun :
        (p : Pump) → first_frame (record p { packet_capture_frame = first_frame p }) ≡ first_frame p
    begun p = ground arith

    step_cases : (p : Pump) (e : Event) → IsFilling p → Fits p e → StepCases p e
    unfolding step
    step_cases p (hello w) v fit =
        let (n, same) = counted w p in inl (refl, rw same (keeps p (hello w) n refl v))
    step_cases p idle v fit = inl (
      refl,
      record {
        filling = record {
          room = v.room;
          whole = v.whole;
          seq = v.seq;
          start = rw (begun p) v.start;
          capture = rw (begun p) v.capture;
        };
        seq = refl;
        first = begun p;
        filled = sym (append-nil p.filled);
      },
    )
    step_cases p (got bytes w) v (some_read, small, whole) =
        let all = p.filled ++ bytes in
        let len = length-append p.filled bytes in
        let frames = div-add (length p.filled) (length bytes) v.whole in
        elim (Bool-cases (ltb (length all) chunk)) [
          | inl more ↦
              let filled_now : (length all == 0) ≡ false = ground (arith, len) in
              rw more (
                inl (
                  refl,
                  record {
                    filling = record {
                      room = ground arith;
                      whole = rw len (add-mod_zero _ _ bpf v.whole whole);
                      seq = v.seq;
                      start = rw filled_now v.start;
                      capture = rw (filled_now, len) (omega (arith, v.capture, frames));
                    };
                    seq = refl;
                    first = rw filled_now refl;
                    filled = refl;
                  },
                ))
          | inr full ↦
              let exact : length all ≡ chunk = ground (arith, len) in
              let read : Pump = record p {
                capture_frame = (p.capture_frame + length bytes / bpf) % 2 ^ 64;
                packet_capture_frame = first_frame p;
                filled = [];
                seq = (p.seq + 1) % 2 ^ 64;
              } in
              let (n, same) = counted w read in
              let moved : (p.capture_frame + length bytes / bpf) % 2 ^ 64
                  ≡ (first_frame p + chunk / bpf) % 2 ^ 64 =
                rw (← exact, len) (omega (arith, v.capture, frames)) in
              rw (full, same)
                (inr (
                  record { type = 0; seq = p.seq; capture_frame = first_frame p; payload = all },
                  refl,
                  record {
                    filling = record {
                      room = omega (arith, v.room);
                      whole = zero-mod bpf;
                      seq = omega arith;
                      start = omega arith;
                      capture = rw (zero-div bpf) (omega arith);
                    };
                    seq = refl;
                    first = moved;
                    filled = refl;
                    frame = (refl, refl);
                    payload = refl;
                    size = exact;
                  },
                ))
        ]

    join :
        (p : Pump) (e : Event) (p' : Pump) (o : Option Frame) (rest : List ℕ) (q : Pump)
        (fs : List Frame)
        → ((o ≡ none) × Continued p e p') ⊎ ((f : Frame) × (o ≡ some f) × Emitted p e p' f)
        → IsSequence p'.seq (first_frame p') fs
        → payloads fs ++ q.filled ≡ p'.filled ++ rest
        → IsSequence p.seq (first_frame p) (cons_frame o fs)
          × (payloads (cons_frame o fs) ++ q.filled ≡ p.filled ++ (bytes_of e ++ rest))
    join p e p' o rest q fs (inl (nothing, c)) sequence bytes = rw nothing (
      rw (← c.seq, ← c.first) sequence,
      bytes ∙ ap (λ l. l ++ rest) c.filled ∙ append_assoc p.filled (bytes_of e) rest,
    )
    join p e p' o rest q fs (inr (f, full, m)) sequence bytes = rw full (
      (m.frame.0, m.frame.1, m.size, rw (← m.seq, ← m.first) sequence),
      append_assoc f.payload (payloads fs) q.filled
          ∙ ap (λ l. f.payload ++ l) (bytes ∙ ap (λ l. l ++ rest) m.filled)
          ∙ ap (λ l. l ++ rest) m.payload
          ∙ append_assoc p.filled (bytes_of e) rest,
    )

    step-IsFilling : (p : Pump) (e : Event) → StepCases p e → IsFilling (step t bpf chunk p e).0
    step-IsFilling p e (inl (_, c)) = c.filling
    step-IsFilling p e (inr (f, _, m)) = m.filling

    -- Whatever is read, in whole frames, and whatever the writes do: the packets of a connection are
    -- full, with consecutive sequence numbers from the next one on and capture-frame numbers that
    -- advance by a packet each, both modulo 2^64; their payloads, and what is left of the next one,
    -- are the bytes that were read, in order.
    pub pump-Pumped :
        (p : Pump) (es : List Event)
        → IsFilling p
        → AllFit p es
        → Pumped p es (pump t bpf chunk p es).0 (pump t bpf chunk p es).1
    unfolding pump
    pump-Pumped p [] v fit = record {
      filling = v;
      sequence = tt;
      bytes = sym (append-nil p.filled);
    }
    pump-Pumped p (e ∷ es) v (fit, fits) =
        let cases = step_cases p e v fit in
        let p' = (step t bpf chunk p e).0 in
        let o = (step t bpf chunk p e).1 in
        let v' = step-IsFilling p e cases in
        elim (Bool-cases (step t bpf chunk p e).2) [
          | inl on ↦
              let r = pump-Pumped p' es v' fits in
              let (sequence, bytes) =
                join p e p' o (bytes_read p' es) (pump t bpf chunk p' es).0
                  (pump t bpf chunk p' es).1 cases r.sequence r.bytes in
              rw on (record { filling = r.filling; sequence = sequence; bytes = rw on bytes })
          | inr off ↦
              let (sequence, bytes) =
                join p e p' o [] p' [] cases tt (sym (append-nil p'.filled)) in
              rw off (record { filling = v'; sequence = sequence; bytes = rw off bytes })
        ]
