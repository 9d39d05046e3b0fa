-- ===== src/Backpressure/Curve.antt =====
-- src/scheduler/backpressure.py: the shape of the curve.
use post_call_processing_pip.Prelude.{ℕ, ◌*◌, ◌≤◌, ◌<◌, ◌≡◌, Option, arith}
use post_call_processing_pip.Backpressure.{Lane, piecewise_throttle, throttle_of, recommendation}

-- A recommendation for the cold lane is never more than full speed, and never grows with the
-- utilisation.
pub recommendation-cold :
    (who : Option ℕ) (n n' d : ℕ)
    → n ≤ n'
    → let r = recommendation who Lane.cold n d in
      let r' = recommendation who Lane.cold n' d in
      (r.throttle_num ≤ r.throttle_den) × (r'.throttle_num ≤ r.throttle_num)
unfolding recommendation piecewise_throttle throttle_of
recommendation-cold who n n' d le = (ground arith, ground arith)

-- The hot lane has exactly half of full speed at every utilisation from 95% on, and less than that
-- from 85% up to 95%.
pub recommendation-hot :
    (who : Option ℕ) (n n' d : ℕ)
    → 85 * d ≤ 100 * n
    → 100 * n < 95 * d
    → 95 * d ≤ 100 * n'
    → let r = recommendation who Lane.hot n d in
      let r' = recommendation who Lane.hot n' d in
      (r.throttle_num < r'.throttle_num) × (2 * r'.throttle_num ≡ r'.throttle_den)
unfolding recommendation piecewise_throttle throttle_of
recommendation-hot who n n' d low high saturated = (ground arith, ground arith)
