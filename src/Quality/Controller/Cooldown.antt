-- ===== src/Quality/Controller/Cooldown.antt =====
-- engine/internal/quality/adaptive.go: how often the settings change over a run of samples.
use native.Mathlib.Decide.{ℕ_discrete}
use remoteau.Common.{
  ℕ, ◌+◌, ◌-◌, ◌*◌, ◌≤◌, ◌≡◌, refl, ◌∙◌, Bool, true, false, not, ◌&&◌, some, List, [], ◌∷◌, All,
  ◌==◌, ==_refl, max, if◌then◌else◌, arith, inl, inr, Bool-cases,
}
use remoteau.Quality.Controller.{
  Floats, Sample, Controller, measure, decide, apply, update, level_of, cooling,
}
use remoteau.Quality.Controller.Inv.{measure-Measured, update-cooling, update-due}

abbrev same_flag : Bool → Bool → Bool
same_flag true b = b
same_flag false b = not b

spend :
    (cooldown last now horizon later : ℕ) (same : Bool)
    → now ≤ horizon
    → cooldown ≤ now - last
    → now + later * cooldown ≤ max now horizon
    → last + (if same then later else later + 1) * cooldown ≤ max last horizon
spend cooldown last now horizon later same below gap ih =
    let fits : last + (later + 1) * cooldown ≤ max last horizon = elim (ℕ_discrete cooldown 0) [
      | yes none_set ↦ rw none_set (omega arith)
      | no some_set ↦
          let product : (later + 1) * cooldown ≡ later * cooldown + cooldown = grind arith in
          omega (arith, below, gap, ih, product)
    ] in
    elim (Bool-cases same) [ inl e ↦ rw e (grind (arith, fits)) | inr e ↦ rw e fits ]

same_cooldown :
    (last later cooldown cooldown' bound : ℕ)
    → cooldown' ≡ cooldown
    → last + later * cooldown' ≤ bound
    → last + later * cooldown ≤ bound
same_cooldown last later cooldown cooldown' bound e h = rw (← e) h

module _ (F : Floats) where
  -- Whether the settings of the encoder are the same.
  abbrev same_settings : Controller F → Controller F → Bool
  same_settings a b =
      (a.bitrate == b.bitrate) && (same_flag a.fec b.fec && (a.expected_loss == b.expected_loss))

  -- How many updates of a run changed the settings.
  unfoldable pub switches : Controller F → List (Sample F × ℕ) → ℕ
  switches c [] = 0
  switches c ((s, now) ∷ rest) =
      let c' = (update F c s now).0 in
      let later = switches c' rest in if same_settings c c' then later else later + 1

  same_flag_refl : (b : Bool) → same_flag b b ≡ true
  same_flag_refl true = refl
  same_flag_refl false = refl

  same_refl :
      (a b : Controller F)
      → b.bitrate ≡ a.bitrate
      → b.fec ≡ a.fec
      → b.expected_loss ≡ a.expected_loss
      → same_settings a b ≡ true
  same_refl a b bitrate fec loss =
      rw (bitrate, fec, loss, ==_refl a.bitrate, ==_refl a.expected_loss, same_flag_refl a.fec) refl

  due-gap :
      (c : Controller F) (now last : ℕ)
      → c.last_adjust ≡ some last
      → cooling F c now ≡ false
      → c.cooldown ≤ now - last
  due-gap c now last e due = ground arith

  -- Within the cooldown an update keeps the settings and the time of the last change; past it, it
  -- sets that time.
  cooling-keeps :
      (c : Controller F) (s : Sample F) (now : ℕ)
      → let c1 = measure F c s in
        (same_settings c c1 ≡ true) × (c1.last_adjust ≡ c.last_adjust) × (c1.cooldown ≡ c.cooldown)
  cooling-keeps c s now =
      let m = measure-Measured F c s in
      (same_refl c (measure F c s) m.bitrate m.fec m.expected_loss, m.last_adjust, m.cooldown)

  -- The settings change at most once in each cooldown: over a run of samples up to a time `horizon`,
  -- the changes take a cooldown each, from the last one before the run on.
  pub switches-bound :
      (c : Controller F) (run : List (Sample F × ℕ)) (last horizon : ℕ)
      → c.last_adjust ≡ some last
      → All (λ x. x.1 ≤ horizon) run
      → last + switches c run * c.cooldown ≤ max last horizon
  unfolding switches apply
  switches-bound c [] last horizon e below = omega arith
  switches-bound c ((s, now) ∷ rest) last horizon e (first, below) =
      let c1 = measure F c s in
      let (same, kept, cd) = cooling-keeps c s now in
      elim (Bool-cases (cooling F c1 now)) [
        | inl wait ↦
            let ih = switches-bound c1 rest last horizon (kept ∙ e) below in
            rw (update-cooling F c s now wait, same)
              (same_cooldown last _ c.cooldown c1.cooldown _ cd ih)
        | inr due ↦
            let c2 = apply F c1 (decide F c1 (level_of F c1)) now in
            let ih = switches-bound c2 rest now horizon refl below in
            let gap = due-gap c1 now last (kept ∙ e) due in
            rw (update-due F c s now due) (
              spend c.cooldown last now horizon (switches c2 rest) (same_settings c c2) first
                (omega (arith, gap, cd)) (same_cooldown now _ c.cooldown c1.cooldown _ cd ih))
      ]
