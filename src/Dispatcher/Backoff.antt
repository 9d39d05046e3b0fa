-- ===== src/Dispatcher/Backoff.antt =====
-- src/scheduler/task_dispatcher.py, `_next_run_at` and the choice of the next attempt's time.
use native.Mathlib.Nat.{
  le-div_iff_mul-le, div-mul-le_self, mul-le-mul_left, mul-le-mul_right, le_of_mul-le-mul_right,
}
use post_call_processing_pip.Prelude.{
  ℕ, zero, suc, ◌+◌, ◌-◌, ◌*◌, ◌/◌, ◌%◌, ◌≤◌, ◌<◌, min, max, ◌≡◌, ◌↔◌, List, [], ◌∷◌, some, arith,
  length, get_elem?,
}
use post_call_processing_pip.Context.{Context, seconds}
use post_call_processing_pip.Db.{ok}
use post_call_processing_pip.Dispatcher.{jittered, backoff_base, next_run_at}
use post_call_processing_pip.Dispatcher.Outcomes.{retry_at}

-- The entry at an index, or the last one past the end.
abbrev pub nth_or_last : ℕ → ℕ → List ℕ → ℕ
nth_or_last n s [] = s
nth_or_last zero s (s' ∷ ss) = s
nth_or_last (suc n) s (s' ∷ ss) = nth_or_last n s' ss

min_zero : (n : ℕ) → min n 0 ≡ 0
min_zero n = omega arith

zero_min : (n : ℕ) → min 0 n ≡ 0
zero_min n = omega arith

min-suc : (n m : ℕ) → min (suc n) (suc m) ≡ suc (min n m)
min-suc n m = omega arith

pred_suc : (n : ℕ) → suc n - 1 ≡ n
pred_suc n = omega arith

get_elem?-clamped :
    (n s : ℕ) (ss : List ℕ) → get_elem? (s ∷ ss) (min n (length ss)) ≡ some (nth_or_last n s ss)
get_elem?-clamped n s [] = rw (min_zero n)
get_elem?-clamped zero s (s' ∷ ss) = rw (zero_min (suc (length ss)))
get_elem?-clamped (suc n) s (s' ∷ ss) = rw (min-suc n (length ss)) (get_elem?-clamped n s' ss)

backoff_base-eq : (n s : ℕ) (ss : List ℕ) → backoff_base n (s ∷ ss) ≡ some (nth_or_last n s ss)
backoff_base-eq n s ss = rw (pred_suc (length ss)) (get_elem?-clamped n s ss)

scaled_low : (b d n : ℕ) → 0 < d → b * 9 / 10 ≤ b * (90 * d + n) / (100 * d)
scaled_low b d n h =
    (le-div_iff_mul-le (omega arith)).1
      (omega (arith, mul-le-mul_right {m = b * 9 / 10 * 10} {n = b * 9} d (omega arith)))

scaled_high : (b d n : ℕ) → 0 < d → n ≤ 20 * d → b * (90 * d + n) / (100 * d) ≤ b * 11 / 10
scaled_high b d n h r =
    let q = b * (90 * d + n) / (100 * d) in
    let fits : q * (100 * d) ≤ b * (90 * d + n) = div-mul-le_self (b * (90 * d + n)) (100 * d) in
    let tenfold : q * 10 ≤ b * 11 =
      le_of_mul-le-mul_right {k = d} (omega (arith, fits, mul-le-mul_left b r)) h in
    (le-div_iff_mul-le (omega arith)).1 tenfold

-- The jitter of a delay stays within a tenth of it.
jittered_bounds :
    (c : Context) (base : ℕ)
    → 0 < c.draw_den
    → c.draw_num ≤ 20 * c.draw_den
    → (base * 9 / 10 ≤ jittered c base) × (jittered c base ≤ base * 11 / 10)
jittered_bounds c base d r =
    (scaled_low base c.draw_den c.draw_num d, scaled_high base c.draw_den c.draw_num d r)

-- With a draw of `random.uniform(-10, 10)` and a schedule that has an entry, the next attempt has a
-- time, at least one second ahead, and within a tenth (in whole seconds) of the schedule's entry for
-- that attempt, the last entry serving every later attempt.
pub next_run_at_bounds :
    (c : Context) (attempt s : ℕ) (ss : List ℕ)
    → 0 < c.draw_den
    → c.draw_num ≤ 20 * c.draw_den
    → let base = nth_or_last attempt s ss in
      (run_at : ℕ) × (next_run_at c attempt (s ∷ ss) ≡ ok run_at)
      × (c.now + seconds (max 1 (base * 9 / 10)) ≤ run_at)
      × (run_at ≤ c.now + seconds (max 1 (base * 11 / 10)))
unfolding next_run_at
next_run_at_bounds c attempt s ss d r =
    let base = nth_or_last attempt s ss in
    let (low, high) = jittered_bounds c base d r in
    (
      c.now + seconds (max 1 (jittered c base)),
      rw (backoff_base-eq attempt s ss, next_run_at),
      omega arith,
      omega arith,
    )

-- A hint of a second or more is used whatever the schedule is, cut to whole seconds: the attempt is
-- due at most a second before the moment that the hint names, never after it, and exactly then only
-- for a hint in whole seconds.
pub retry_at_hint :
    (c : Context) (ms : ℕ) (schedule : List ℕ) (attempts : ℕ)
    → 1000 ≤ ms
    → (run_at : ℕ) × (retry_at c (some ms) schedule attempts ≡ ok run_at)
      × (run_at ≤ c.now + ms * 1000)
      × (c.now + ms * 1000 < run_at + seconds 1)
      × ((run_at ≡ c.now + ms * 1000) ↔ (ms % 1000 ≡ 0))
unfolding retry_at
retry_at_hint c ms schedule attempts h = (
  c.now + seconds (max 1 (ms / 1000)),
  ground arith,
  omega arith,
  omega arith,
  (λ e. omega arith, λ e. omega arith),
)
