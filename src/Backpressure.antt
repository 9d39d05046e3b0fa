-- ===== src/Backpressure.antt =====
-- src/scheduler/backpressure.py: the throttle that the dialler is recommended. A utilisation is the
-- fraction n / d of its two whole numbers, and a throttle is exact as well, in units of 1 / (30 * d).
pub mod Curve
mod Tests
use post_call_processing_pip.Prelude.{
  ℕ, ◌+◌, ◌-◌, ◌*◌, min, max, String, Bool, true, false, List, Option, ltb, leb, if◌then◌else◌,
}
use post_call_processing_pip.Models.{CustomerLlmBudget}
use post_call_processing_pip.Db.{Result, ok, ◌>>=◌}
use post_call_processing_pip.Redis.{SortedSets}
use post_call_processing_pip.Budget.{Utilization, utilization}
use post_call_processing_pip.Budget.Cache.{BudgetManager, Reading}

pub data Lane : Type 0 where
  hot cold : Lane

pub record BackpressureRecommendation : Type 0 where
  pub throttle_num : ℕ
  pub throttle_den : ℕ
  pub reason : String
  pub utilisation_num : ℕ
  pub utilisation_den : ℕ
  pub customer_id : Option ℕ
  pub lane : Lane

-- util < 0.60, util < 0.80, util < 0.95
abbrev pub full_speed_below : ℕ → ℕ → Bool
full_speed_below n d = ltb (100 * n) (60 * d)

abbrev pub soft_throttle_below : ℕ → ℕ → Bool
soft_throttle_below n d = ltb (100 * n) (80 * d)

abbrev pub hard_throttle_below : ℕ → ℕ → Bool
hard_throttle_below n d = ltb (100 * n) (95 * d)

-- In units of 1 / (30 * d): 1; 1 - 0.4 * (u - 0.6) / 0.2; 0.6 - 0.4 * (u - 0.8) / 0.15; 0.
unfoldable pub piecewise_throttle : ℕ → ℕ → ℕ × String
piecewise_throttle n d =
    if full_speed_below n d
    then (30 * d, "headroom_available")
    else if soft_throttle_below n d
    then (66 * d - 60 * n, "soft_throttle")
    else if hard_throttle_below n d
    then (82 * d - 80 * n, "hard_throttle")
    else (0, "saturated")

-- lane is Lane.HOT and global_util >= 0.95
abbrev pub protects : Lane → ℕ → ℕ → Bool
protects Lane.hot n d = leb (95 * d) (100 * n)
protects Lane.cold n d = false

unfoldable pub throttle_of : Lane → ℕ → ℕ → ℕ × String
unfolding piecewise_throttle
throttle_of lane n d =
    let (throttle, reason) = piecewise_throttle n d in
    if protects lane n d then (max throttle (15 * d), "hot_lane_protected") else (throttle, reason)

-- The recommendation for a utilisation n / d, which is cut at 10.
unfoldable pub recommendation : Option ℕ → Lane → ℕ → ℕ → BackpressureRecommendation
unfolding throttle_of
recommendation customer_id lane n d =
    let util = min n (10 * d) in
    let (throttle, reason) = throttle_of lane util d in
    record {
      throttle_num = min throttle (30 * d);
      throttle_den = 30 * d;
      reason = reason;
      utilisation_num = util;
      utilisation_den = d;
      customer_id = customer_id;
      lane = lane;
    }

module _ (R : SortedSets) where
  open R use {Store}

  -- BackpressureController.recommend
  unfoldable pub recommend :
      Option ℕ
      → Lane
      → List CustomerLlmBudget
      → Reading
      → BudgetManager
      → Store
      → Result (BackpressureRecommendation × BudgetManager × Store)
  unfolding utilization recommendation
  recommend customer_id lane rows t m st = do
    (u, m', st') ← utilization R customer_id rows t m st
    ok (recommendation customer_id lane u.utilization_num u.utilization_den, m', st')
