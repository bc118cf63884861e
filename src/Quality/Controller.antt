-- ===== src/Quality/Controller.antt =====
-- engine/internal/quality/adaptive.go: the adaptive controller of bitrate and error correction.
-- float64 is a parameter, times are nanoseconds, and `lastAdjust` is `none` while it is the zero
-- time.
pub mod Inv
pub mod Cooldown
mod Tests
use remoteau.Common.{
  ℕ, ◌+◌, ◌-◌, ◌*◌, ◌/◌, ◌%◌, ◌^◌, Bool, true, false, not, ◌&&◌, ◌||◌, Option, none, some, List, [],
  ◌∷◌, ltb, leb, ◌==◌, if◌then◌else◌,
}
use remoteau.Common.Int.{ℤ, pos, negsuc, pos_part, leb_ℤ, ltb_ℤ}

-- float64: a quotient of numbers, the operations, and the conversion to int, which truncates.
pub record Floats : Type 1 where
  pub Float : Type 0
  pub quotient : ℕ → ℕ → Float
  pub plus : Float → Float → Float
  pub minus : Float → Float → Float
  pub times : Float → Float → Float
  pub less : Float → Float → Bool
  pub truncate : Float → ℤ

pub data Level : Type 0 where
  excellent good fair poor : Level

abbrev since : ℕ → ℕ → Option ℕ → Bool
since cooldown now none = false
since cooldown now (some last) = ltb (now - last) cooldown

module _ (F : Floats) where
  pub record Sample : Type 0 where
    pub loss_percent : F.Float
    pub late_percent : F.Float
    pub jitter_ms : F.Float
    pub rtt_ms : F.Float
    pub buf_depth_ms : F.Float
    pub underruns : ℕ

  pub record Controller : Type 0 where
    pub min_bitrate : ℕ
    pub max_bitrate : ℕ
    pub cooldown : ℕ
    pub bitrate : ℕ
    pub fec : Bool
    pub expected_loss : ℕ
    pub last_adjust : Option ℕ
    pub loss_ewma : F.Float
    pub late_ewma : F.Float
    pub jitter_ewma : F.Float
    pub rtt_ewma : F.Float
    pub underrun_acc : ℕ
    pub initialized : Bool

  pub record Decision : Type 0 where
    pub bitrate_bps : ℕ
    pub fec_enabled : Bool
    pub expected_loss : ℕ
    pub switch_to_pcm : Bool
    pub switch_to_opus : Bool
    pub level : Level

  -- Past the first check both bitrates are positive.
  unfoldable pub new_controller : ℤ → ℤ → Controller
  new_controller min_bitrate max_bitrate =
      let low = if leb_ℤ min_bitrate (pos 0) then 32000 else pos_part min_bitrate in
      let raised = if ltb_ℤ max_bitrate (pos low) then low else pos_part max_bitrate in
      let high = if ltb 510000 raised then 510000 else raised in
      let zero_float = F.quotient 0 1 in
      record {
        min_bitrate = low;
        max_bitrate = high;
        cooldown = 2000000000;
        bitrate = (low + high) / 2;
        fec = false;
        expected_loss = 0;
        last_adjust = none;
        loss_ewma = zero_float;
        late_ewma = zero_float;
        jitter_ewma = zero_float;
        rtt_ewma = zero_float;
        underrun_acc = 0;
        initialized = false;
      }

  -- `x += a * (y - x)` with `a` = 0.3
  abbrev smooth : F.Float → F.Float → F.Float
  smooth x y = F.plus x (F.times (F.quotient 3 10) (F.minus y x))

  -- The averages of `Update`; the first sample sets them.
  unfoldable pub measure : Controller → Sample → Controller
  measure c s =
      let first = record c {
        initialized = true;
        loss_ewma = s.loss_percent;
        late_ewma = s.late_percent;
        jitter_ewma = s.jitter_ms;
        rtt_ewma = s.rtt_ms;
      } in
      let next = record c {
        loss_ewma = smooth c.loss_ewma s.loss_percent;
        late_ewma = smooth c.late_ewma s.late_percent;
        jitter_ewma = smooth c.jitter_ewma s.jitter_ms;
        rtt_ewma = smooth c.rtt_ewma s.rtt_ms;
      } in
      record (if not c.initialized then first else next) {
        underrun_acc = (c.underrun_acc + s.underruns) % 2 ^ 64;
      }

  unfoldable pub scale : ℕ → F.Float → ℕ → ℕ → ℕ
  scale cur factor low high =
      let scaled = F.truncate (F.times (F.quotient cur 1) factor) in
      let next = if ltb_ℤ scaled (pos low) then low else pos_part scaled in
      if ltb high next then high else next

  abbrev below : F.Float → F.Float → F.Float → F.Float → ℕ → ℕ → ℕ → Bool
  below loss late jitter rtt percent2 ms rtt_limit =
      (F.less loss (F.quotient percent2 2) && F.less late (F.quotient percent2 2))
      && (F.less jitter (F.quotient ms 1) && F.less rtt (F.quotient rtt_limit 1))

  -- The limits for loss and late frames are 0.5, 2 and 6 per cent.
  unfoldable pub classify : F.Float → F.Float → F.Float → F.Float → Level
  classify loss late jitter rtt =
      if below loss late jitter rtt 1 6 20
      then excellent
      else if below loss late jitter rtt 4 20 60
      then good
      else if below loss late jitter rtt 12 50 150
      then fair
      else poor

  abbrev pub level_of : Controller → Level
  level_of c = classify c.loss_ewma c.late_ewma c.jitter_ewma c.rtt_ewma

  -- The decision that changes nothing.
  unfoldable pub hold : Controller → Decision
  hold c = record {
    bitrate_bps = c.bitrate;
    fec_enabled = c.fec;
    expected_loss = c.expected_loss;
    switch_to_pcm = false;
    switch_to_opus = false;
    level = level_of c;
  }

  -- The `switch` of `Update`, on the measured state.
  unfoldable pub decide : Controller → Level → Decision
  decide c excellent =
      let clean = F.less c.loss_ewma (F.quotient 3 10) && c.fec in
      record (hold c) {
        bitrate_bps = scale c.bitrate (F.quotient 11 10) c.min_bitrate c.max_bitrate;
        fec_enabled = if clean then false else c.fec;
        expected_loss = if clean then 0 else c.expected_loss;
        switch_to_pcm = true;
      }
  decide c good = record (hold c) {
    bitrate_bps = scale c.bitrate (F.quotient 1 1) c.min_bitrate c.max_bitrate;
  }
  decide c fair = record (hold c) {
    bitrate_bps = scale c.bitrate (F.quotient 85 100) c.min_bitrate c.max_bitrate;
    fec_enabled = true;
    expected_loss = 10;
    switch_to_opus = true;
  }
  decide c poor = record (hold c) {
    bitrate_bps = scale c.bitrate (F.quotient 70 100) c.min_bitrate c.max_bitrate;
    fec_enabled = true;
    expected_loss = 20;
    switch_to_opus = true;
  }

  -- `now.Sub(c.lastAdjust) < c.cooldown`; the zero time is long ago.
  abbrev pub cooling : Controller → ℕ → Bool
  cooling c now = since c.cooldown now c.last_adjust

  unfoldable pub apply : Controller → Decision → ℕ → Controller
  apply c dec now = record c {
    bitrate = dec.bitrate_bps;
    fec = dec.fec_enabled;
    expected_loss = dec.expected_loss;
    last_adjust = some now;
  }

  unfoldable pub update : Controller → Sample → ℕ → Controller × Decision
  update c s now =
      let c1 = measure c s in
      let dec = decide c1 (level_of c1) in
      if cooling c1 now then (c1, hold c1) else (apply c1 dec now, dec)
