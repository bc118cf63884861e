-- ===== src/Engine/Media/Emit.antt =====
-- engine/internal/engine/media.go: what `emit` and `emitFEC` do to the window and the counts.
use remoteau.Common.{
  ap, ℕ, ◌+◌, ◌%◌, ◌^◌, ◌≡◌, refl, sym, ◌∙◌, Bool, true, false, not, ◌||◌, Option, none, some, List,
  length, ◌==◌, if◌then◌else◌, arith, inl, inr, Bool-cases, Option-cases,
}
use remoteau.Common.Assoc.{lookup}
use remoteau.Engine.Media.{
  Outside, ClientMedia, count_loss, deliver, emit, recover, emit_fec, conceal, advance,
}
use remoteau.Engine.Media.Span.{next_of}

plus_zero : (i : ℕ) → i + 0 ≡ i
plus_zero i = omega arith

module _ (O : Outside) where
  -- A frame that was decoded or concealed: the window is as before, and `lost` more frames count as
  -- lost (if there is a codec).
  pub record Emitted (lost : ℕ) (m m' : ClientMedia O) : Type 0 where
    pub next_seq : m'.next_seq ≡ m.next_seq
    pub future : m'.future ≡ m.future
    pub connected : m'.connected ≡ m.connected
    pub seen : m'.seen ≡ m.seen
    pub last_flush : m'.last_flush ≡ m.last_flush
    pub hold_period : m'.hold_period ≡ m.hold_period
    pub loss : m.connected ≡ true → m'.loss_packets % 2 ^ 64 ≡ (m.loss_packets + lost) % 2 ^ 64

  abbrev pub as_count : Bool → ℕ
  as_count b = if b then 1 else 0

  -- Two steps after each other.
  Emitted-then :
      {i j : ℕ} {m m1 m2 : ClientMedia O} → Emitted i m m1 → Emitted j m1 m2 → Emitted (i + j) m m2
  Emitted-then a b = record {
    next_seq = b.next_seq ∙ a.next_seq;
    future = b.future ∙ a.future;
    connected = b.connected ∙ a.connected;
    seen = b.seen ∙ a.seen;
    last_flush = b.last_flush ∙ a.last_flush;
    hold_period = b.hold_period ∙ a.hold_period;
    loss = λ c. omega (arith, a.loss c, b.loss (a.connected ∙ c));
  }

  Emitted-zero : {i : ℕ} {m m' : ClientMedia O} → Emitted (i + 0) m m' → Emitted i m m'
  Emitted-zero {i} e = rw (sym (plus_zero i)) e

  count_loss-Emitted : (m : ClientMedia O) → Emitted 1 m (count_loss O m)
  unfolding count_loss
  count_loss-Emitted m = record {
    next_seq = refl;
    future = refl;
    connected = refl;
    seen = refl;
    last_flush = refl;
    hold_period = refl;
    loss = λ c. omega arith;
  }

  deliver-Emitted :
      (m : ClientMedia O) (lost : Bool) (r : O.Codec × Option (List ℕ))
      → Emitted 0 m (deliver O m lost r)
  unfolding deliver
  deliver-Emitted m lost (codec, none) = record {
    next_seq = refl;
    future = refl;
    connected = refl;
    seen = refl;
    last_flush = refl;
    hold_period = refl;
    loss = λ c. omega arith;
  }
  deliver-Emitted m lost (codec, some pcm) = record {
    next_seq = refl;
    future = refl;
    connected = refl;
    seen = refl;
    last_flush = refl;
    hold_period = refl;
    loss = λ c. omega arith;
  }

  -- The state that the decoder's answer is applied to.
  abbrev counted : ClientMedia O → Bool → ClientMedia O
  counted m lost = if lost then count_loss O m else record m { burst_loss = 0 }

  emit-connected :
      (m : ClientMedia O) (wire : Option (List ℕ)) (lost : Bool)
      → m.connected ≡ true
      → emit O m wire lost ≡ deliver O (counted m lost) lost (O.decode_frame m.codec wire lost)
  unfolding emit
  emit-connected m wire lost c = ground arith

  counted-Emitted : (m : ClientMedia O) (lost : Bool) → Emitted (as_count lost) m (counted m lost)
  counted-Emitted m true = count_loss-Emitted m
  counted-Emitted m false = record {
    next_seq = refl;
    future = refl;
    connected = refl;
    seen = refl;
    last_flush = refl;
    hold_period = refl;
    loss = λ c. omega arith;
  }

  emit-disconnected :
      (m : ClientMedia O) (wire : Option (List ℕ)) (lost : Bool)
      → m.connected ≡ false
      → emit O m wire lost ≡ m
  unfolding emit
  emit-disconnected m wire lost c = ground arith

  idle-Emitted : {i : ℕ} (m : ClientMedia O) → m.connected ≡ false → Emitted i m m
  idle-Emitted m off = record {
    next_seq = refl;
    future = refl;
    connected = refl;
    seen = refl;
    last_flush = refl;
    hold_period = refl;
    loss = λ c. absurd (cc);
  }

  pub emit-Emitted :
      (m : ClientMedia O) (wire : Option (List ℕ)) (lost : Bool)
      → Emitted (as_count lost) m (emit O m wire lost)
  emit-Emitted m wire lost = elim (Bool-cases m.connected) [
    | inl c ↦ rw (emit-connected m wire lost c) (
        Emitted-zero (
          Emitted-then (counted-Emitted m lost)
            (deliver-Emitted (counted m lost) lost (O.decode_frame m.codec wire lost))))
    | inr off ↦ rw (emit-disconnected m wire lost off) (idle-Emitted m off)
  ]

  recover-Emitted :
      (m : ClientMedia O) (r : O.Codec × Option (List ℕ))
      → let out = recover O m r in Emitted (as_count out.0) m out.1
  unfolding recover count_loss
  recover-Emitted m (codec, none) = record {
    next_seq = refl;
    future = refl;
    connected = refl;
    seen = refl;
    last_flush = refl;
    hold_period = refl;
    loss = λ c. omega arith;
  }
  recover-Emitted m (codec, some pcm) = elim (Bool-cases (length pcm == 0)) [
    | inl empty ↦ rw empty (record {
      next_seq = refl;
      future = refl;
      connected = refl;
      seen = refl;
      last_flush = refl;
      hold_period = refl;
      loss = λ c. omega arith;
    })
    | inr some_pcm ↦ rw some_pcm (record {
      next_seq = refl;
      future = refl;
      connected = refl;
      seen = refl;
      last_flush = refl;
      hold_period = refl;
      loss = λ c. omega arith;
    })
  ]

  same-Emitted : (m : ClientMedia O) → Emitted 0 m m
  same-Emitted m = record {
    next_seq = refl;
    future = refl;
    connected = refl;
    seen = refl;
    last_flush = refl;
    hold_period = refl;
    loss = λ c. omega arith;
  }

  emit_fec-Emitted :
      (m : ClientMedia O) (wire : List ℕ)
      → let out = emit_fec O m wire in Emitted (as_count out.0) m out.1
  unfolding emit_fec
  emit_fec-Emitted m wire = elim (Bool-cases (not m.connected || length wire == 0)) [
    | inl skip ↦ rw skip (same-Emitted m)
    | inr try ↦ elim (Bool-cases O.has_fec) [
      | inl has ↦ rw (try, has) (recover-Emitted m (O.decode_fec m.codec wire))
      | inr has_not ↦ rw (try, has_not) (same-Emitted m)
    ]
  ]

  advance-Emitted :
      {i : ℕ} {m m1 : ClientMedia O} → Emitted i m m1 → Emitted i (advance O m) (advance O m1)
  advance-Emitted e = record {
    next_seq = ap next_of e.next_seq;
    future = e.future;
    connected = e.connected;
    seen = e.seen;
    last_flush = e.last_flush;
    hold_period = e.hold_period;
    loss = e.loss;
  }

  -- A frame that no packet brought back is concealed.
  conceal_rest : Bool × ClientMedia O → ClientMedia O
  conceal_rest (recovered, m1) = if recovered then advance O m1 else emit O (advance O m1) none true

  conceal_rest-Emitted :
      (m : ClientMedia O) (r : Bool × ClientMedia O)
      → Emitted (as_count r.0) m r.1
      → Emitted 1 (advance O m) (conceal_rest r)
  unfolding conceal_rest
  conceal_rest-Emitted m (true, m1) e = advance-Emitted e
  conceal_rest-Emitted m (false, m1) e =
      Emitted-then (advance-Emitted e) (emit-Emitted (advance O m1) none true)

  -- One missing frame: the window is as before, one number on, and one more frame is lost, whether
  -- the frame behind it brought it back or not.
  pub conceal-Emitted : (m : ClientMedia O) → Emitted 1 (advance O m) (conceal O m)
  unfolding conceal conceal_rest
  conceal-Emitted m = elim (Option-cases (lookup (next_of m.next_seq) m.future)) [
    | inl absent ↦
        rw absent (unfold conceal_rest in (conceal_rest-Emitted m (false, m) (same-Emitted m)))
    | inr (buf, held) ↦ rw held (
        unfold conceal_rest in (conceal_rest-Emitted m (emit_fec O m buf) (emit_fec-Emitted m buf)))
  ]
