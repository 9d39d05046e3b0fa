-- ===== src/Backpressure/Tests.antt =====
-- The curve at two utilisations.
use post_call_processing_pip.Prelude.{◌*◌, ◌≤◌, ◌<◌, ◌≡◌, none, arith}
use post_call_processing_pip.Backpressure.{Lane, recommendation}
use post_call_processing_pip.Backpressure.Curve.{recommendation-cold, recommendation-hot}

recommendation-cold_example :
    let r = recommendation none Lane.cold 7000 10000 in
    let r' = recommendation none Lane.cold 9000 10000 in
    (r.throttle_num ≤ r.throttle_den) × (r'.throttle_num ≤ r.throttle_num)
recommendation-cold_example = recommendation-cold none 7000 9000 10000 (omega arith)

recommendation-hot_example :
    let r = recommendation none Lane.hot 9000 10000 in
    let r' = recommendation none Lane.hot 9900 10000 in
    (r.throttle_num < r'.throttle_num) × (2 * r'.throttle_num ≡ r'.throttle_den)
recommendation-hot_example =
    recommendation-hot none 9000 9900 10000 (omega arith) (omega arith) (omega arith)
