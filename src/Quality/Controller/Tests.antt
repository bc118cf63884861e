-- ===== src/Quality/Controller/Tests.antt =====
-- engine/internal/quality/adaptive.go: a controller over numbers with three decimals.
use remoteau.Common.{
  ℕ, ◌+◌, ◌-◌, ◌*◌, ◌/◌, ◌≡◌, ◌≤◌, ◌↔◌, refl, true, false, some, List, [], ◌∷◌, ltb, arith, max,
}
use remoteau.Common.Int.{pos}
use remoteau.Quality.Controller.{
  Floats, Sample, Controller, poor, new_controller, update, measure, decide, scale, classify, hold,
  apply,
}
use remoteau.Quality.Controller.Inv.{IsValid, Allowed, new_controller-IsValid, update-IsValid}
use remoteau.Quality.Controller.Cooldown.{switches, switches-bound}

abbrev decimals : Floats
decimals = record {
  Float = ℕ;
  quotient = λ a b. a * 1000 / b;
  plus = λ a b. a + b;
  minus = λ a b. a - b;
  times = λ a b. a * b / 1000;
  less = ltb;
  truncate = λ a. pos (a / 1000);
}

abbrev controller : Controller decimals
controller = record {
  min_bitrate = 32000;
  max_bitrate = 128000;
  cooldown = 2000000000;
  bitrate = 100000;
  fec = false;
  expected_loss = 0;
  last_adjust = some 1000000000;
  loss_ewma = 0;
  late_ewma = 0;
  jitter_ewma = 0;
  rtt_ewma = 0;
  underrun_acc = 0;
  initialized = false;
}

controller-IsValid : IsValid decimals controller
controller-IsValid = record {
  bounds = omega arith;
  low = omega arith;
  high = omega arith;
  loss = λ e. refl;
}

-- Ten per cent of the packets are lost.
abbrev bad : Sample decimals
bad = record {
  loss_percent = 10000;
  late_percent = 0;
  jitter_ms = 0;
  rtt_ms = 0;
  buf_depth_ms = 0;
  underruns = 0;
}

update-bad :
    let (c, d) = update decimals controller bad 3000000000 in
    (c.bitrate ≡ 70000) × (c.fec ≡ true) × (d.expected_loss ≡ 20) × (d.level ≡ poor)
unfolding update measure decide scale classify hold apply
update-bad = (refl, refl, refl, refl)

abbrev samples : List (Sample decimals × ℕ)
samples = (bad, 2000000000) ∷ (bad, 3000000000) ∷ (bad, 4000000000) ∷ (bad, 5000000000) ∷ []

switches-samples : switches decimals controller samples ≡ 2
unfolding switches update measure decide scale classify hold apply
switches-samples = refl

switches-bound_example :
    1000000000 + switches decimals controller samples * 2000000000 ≤ max 1000000000 5000000000
switches-bound_example =
    switches-bound decimals controller samples 1000000000 5000000000 refl
      (omega arith, (omega arith, (omega arith, (omega arith, tt))))

update-IsValid_example :
    IsValid decimals (update decimals controller bad 3000000000).0
    × Allowed decimals controller (update decimals controller bad 3000000000).1
update-IsValid_example = update-IsValid decimals controller bad 3000000000 controller-IsValid

-- A minimum of 600000 is above the highest bitrate.
new_controller-IsValid_example :
    (600000 ≤ 510000) ↔ IsValid decimals (new_controller decimals (pos 600000) (pos 700000))
new_controller-IsValid_example = new_controller-IsValid decimals (pos 600000) (pos 700000)
