-- ===== src/Quality/Controller/Inv.antt =====
-- engine/internal/quality/adaptive.go: the bounds of the bitrate, and when error correction is on.
use remoteau.Common.{
  ℕ, ◌≤◌, ◌≡◌, ◌↔◌, refl, sym, ◌∙◌, true, false, not, arith, inl, inr, Bool-cases,
}
use remoteau.Common.Int.{ℤ, pos_part}
use remoteau.Quality.Controller.{
  Floats, Sample, Controller, Decision, Level, excellent, good, fair, poor, new_controller, measure,
  scale, hold, decide, apply, update, level_of, cooling,
}

module _ (F : Floats) where
  -- The bitrate lies between its bounds; no loss is announced to the encoder without error
  -- correction.
  pub record IsValid (c : Controller F) : Type 0 where
    pub bounds : c.min_bitrate ≤ c.max_bitrate
    pub low : c.min_bitrate ≤ c.bitrate
    pub high : c.bitrate ≤ c.max_bitrate
    pub loss : c.fec ≡ false → c.expected_loss ≡ 0

  -- The same of a decision under the bounds of a controller.
  pub record Allowed (c : Controller F) (d : Decision F) : Type 0 where
    pub low : c.min_bitrate ≤ d.bitrate_bps
    pub high : d.bitrate_bps ≤ c.max_bitrate
    pub loss : d.fec_enabled ≡ false → d.expected_loss ≡ 0

  -- A new controller has bounds that hold a bitrate exactly if the minimum that was asked for is at
  -- most 510000; it is valid then.
  pub new_controller-IsValid :
      (min_bitrate max_bitrate : ℤ)
      → (pos_part min_bitrate ≤ 510000) ↔ IsValid (new_controller F min_bitrate max_bitrate)
  unfolding new_controller
  new_controller-IsValid low high = (
    λ h. record {
      bounds = ground arith;
      low = ground arith;
      high = ground arith;
      loss = λ e. refl;
    },
    λ v. ground (arith, v.bounds),
  )

  scale-bounds :
      (cur : ℕ) (factor : F.Float) (low high : ℕ)
      → low ≤ high
      → (low ≤ scale F cur factor low high) × (scale F cur factor low high ≤ high)
  unfolding scale
  scale-bounds cur factor low high h = ground arith

  decide-Allowed : (c : Controller F) (l : Level) → IsValid c → Allowed c (decide F c l)
  unfolding decide hold
  decide-Allowed c excellent v =
      let s = scale-bounds c.bitrate (F.quotient 11 10) c.min_bitrate c.max_bitrate v.bounds in
      record { low = s.0; high = s.1; loss = λ e. ground arith }
  decide-Allowed c good v =
      let s = scale-bounds c.bitrate (F.quotient 1 1) c.min_bitrate c.max_bitrate v.bounds in
      record { low = s.0; high = s.1; loss = v.loss }
  decide-Allowed c fair v =
      let s = scale-bounds c.bitrate (F.quotient 85 100) c.min_bitrate c.max_bitrate v.bounds in
      record { low = s.0; high = s.1; loss = λ e. absurd (cc) }
  decide-Allowed c poor v =
      let s = scale-bounds c.bitrate (F.quotient 70 100) c.min_bitrate c.max_bitrate v.bounds in
      record { low = s.0; high = s.1; loss = λ e. absurd (cc) }

  hold-Allowed : (c : Controller F) → IsValid c → Allowed c (hold F c)
  unfolding hold
  hold-Allowed c v = record { low = v.low; high = v.high; loss = v.loss }

  -- The averages change nothing else.
  pub record Measured (c c1 : Controller F) : Type 0 where
    pub min_bitrate : c1.min_bitrate ≡ c.min_bitrate
    pub max_bitrate : c1.max_bitrate ≡ c.max_bitrate
    pub bitrate : c1.bitrate ≡ c.bitrate
    pub fec : c1.fec ≡ c.fec
    pub expected_loss : c1.expected_loss ≡ c.expected_loss
    pub last_adjust : c1.last_adjust ≡ c.last_adjust
    pub cooldown : c1.cooldown ≡ c.cooldown

  pub measure-Measured : (c : Controller F) (s : Sample F) → Measured c (measure F c s)
  unfolding measure
  measure-Measured c s = elim (Bool-cases (not c.initialized)) [
    | inl first ↦ rw first (record {
      min_bitrate = refl;
      max_bitrate = refl;
      bitrate = refl;
      fec = refl;
      expected_loss = refl;
      last_adjust = refl;
      cooldown = refl;
    })
    | inr later ↦ rw later (record {
      min_bitrate = refl;
      max_bitrate = refl;
      bitrate = refl;
      fec = refl;
      expected_loss = refl;
      last_adjust = refl;
      cooldown = refl;
    })
  ]

  Measured-IsValid : {c c1 : Controller F} → Measured c c1 → IsValid c → IsValid c1
  Measured-IsValid m v = record {
    bounds = omega (arith, m.min_bitrate, m.max_bitrate, v.bounds);
    low = omega (arith, m.min_bitrate, m.bitrate, v.low);
    high = omega (arith, m.max_bitrate, m.bitrate, v.high);
    loss = λ e. m.expected_loss ∙ v.loss (sym m.fec ∙ e);
  }

  Allowed-back : {c c1 : Controller F} {d : Decision F} → Measured c c1 → Allowed c1 d → Allowed c d
  Allowed-back m a = record {
    low = omega (arith, m.min_bitrate, a.low);
    high = omega (arith, m.max_bitrate, a.high);
    loss = a.loss;
  }

  Allowed-apply :
      (c : Controller F) (d : Decision F) (now : ℕ)
      → IsValid c
      → Allowed c d
      → IsValid (apply F c d now)
  unfolding apply
  Allowed-apply c d now v a = record {
    bounds = v.bounds;
    low = a.low;
    high = a.high;
    loss = a.loss;
  }

  pub update-cooling :
      (c : Controller F) (s : Sample F) (now : ℕ)
      → cooling F (measure F c s) now ≡ true
      → update F c s now ≡ (measure F c s, hold F (measure F c s))
  unfolding update
  update-cooling c s now e = rw e refl

  pub update-due :
      (c : Controller F) (s : Sample F) (now : ℕ)
      → cooling F (measure F c s) now ≡ false
      → let c1 = measure F c s in
        let d = decide F c1 (level_of F c1) in update F c s now ≡ (apply F c1 d now, d)
  unfolding update
  update-due c s now e = rw e refl

  -- Whatever the sample and the time are, and however float64 rounds, an update keeps a valid
  -- controller valid, and decides on a bitrate within its bounds.
  pub update-IsValid :
      (c : Controller F) (s : Sample F) (now : ℕ)
      → IsValid c
      → IsValid (update F c s now).0 × Allowed c (update F c s now).1
  update-IsValid c s now v =
      let c1 = measure F c s in
      let m = measure-Measured c s in
      let v1 = Measured-IsValid m v in
      elim (Bool-cases (cooling F c1 now)) [
        | inl wait ↦ rw (update-cooling c s now wait) (v1, Allowed-back m (hold-Allowed c1 v1))
        | inr due ↦
            let a = decide-Allowed c1 (level_of F c1) v1 in
            rw (update-due c s now due)
              (Allowed-apply c1 (decide F c1 (level_of F c1)) now v1 a, Allowed-back m a)
      ]
