-- ===== src/Dialler.antt =====
-- src/api/dialler.py: the throttle that the dialler asks for, and a customer's budget that is set at
-- run time. What the framework checks of a body is written out from the bounds of its fields.
pub mod Update
mod Tests
use post_call_processing_pip.Prelude.{
  ℕ, String, Bool, true, false, ◌&&◌, List, [], ◌∷◌, Option, none, some, leb, ◌==◌, str_eq,
  if◌then◌else◌,
}
use post_call_processing_pip.Prelude.Integers.{ℤ, pos, negsuc}
use post_call_processing_pip.Models.{CustomerLlmBudget}
use post_call_processing_pip.Db.{Result, ok, ◌>>=◌}
use post_call_processing_pip.Redis.{SortedSets}
use post_call_processing_pip.Budget.Cache.{BudgetManager, Reading, invalidate_cache}
use post_call_processing_pip.Backpressure.{Lane, BackpressureRecommendation, recommend}

-- A body, or the status of an HTTPException.
pub data Reply (A : Type 0) : Type 0 where
  reply : A → Reply A
  http_exception : ℕ → Reply A

-- get_controller, which runs before the handler that depends on it
abbrev pub get_controller : Option BudgetManager → Reply BudgetManager
get_controller none = http_exception 503
get_controller (some controller) = reply controller

-- Lane(lane)
abbrev pub parse_lane : String → Option Lane
parse_lane s =
    if str_eq s "hot" then some Lane.hot else if str_eq s "cold" then some Lane.cold else none

module _ (R : SortedSets) where
  open R use {Store}

  abbrev pub recommended :
      BackpressureRecommendation × BudgetManager × Store
      → Reply BackpressureRecommendation × Option BudgetManager × Store
  recommended (rec, m, st) = (reply rec, some m, st)

  -- get_backpressure, with the controller that `set_controller` left
  unfoldable pub get_backpressure :
      Option ℕ
      → String
      → List CustomerLlmBudget
      → Reading
      → Option BudgetManager
      → Store
      → Result (Reply BackpressureRecommendation × Option BudgetManager × Store)
  unfolding recommend
  get_backpressure customer_id lane rows t none st = ok (http_exception 503, none, st)
  get_backpressure customer_id lane rows t (some m) st = elim (parse_lane lane) [
    | none ↦ ok (http_exception 400, some m, st)
    | some lane_enum ↦ (do r ← recommend R customer_id lane_enum rows t m st; ok (recommended r))
  ]

pub record CustomerBudgetUpdate : Type 0 where
  pub reserved_tpm : ℤ
  pub reserved_rpm : ℤ
  pub burst_tpm : ℤ
  pub priority : ℤ

-- Field(ge=0) and Field(ge=0, le=10)
abbrev pub at_least_0 : ℤ → Bool
at_least_0 (pos n) = true
at_least_0 (negsuc n) = false

abbrev pub at_most_10 : ℤ → Bool
at_most_10 (pos n) = leb n 10
at_most_10 (negsuc n) = true

abbrev pub is_valid : CustomerBudgetUpdate → Bool
is_valid b =
    at_least_0 b.reserved_tpm
    && at_least_0 b.reserved_rpm
    && at_least_0 b.burst_tpm
    && (at_least_0 b.priority && at_most_10 b.priority)

abbrev pub magnitude : ℤ → ℕ
magnitude (pos n) = n
magnitude (negsuc n) = 0

-- The values of the INSERT.
abbrev pub values : ℕ → CustomerBudgetUpdate → CustomerLlmBudget
values customer_id b = record {
  customer_id = customer_id;
  reserved_tpm = magnitude b.reserved_tpm;
  reserved_rpm = magnitude b.reserved_rpm;
  burst_tpm = magnitude b.burst_tpm;
  priority = magnitude b.priority;
}

-- The `set_` of ON CONFLICT DO UPDATE.
abbrev pub set_values : CustomerBudgetUpdate → CustomerLlmBudget → CustomerLlmBudget
set_values b row = record row {
  reserved_tpm = magnitude b.reserved_tpm;
  reserved_rpm = magnitude b.reserved_rpm;
  burst_tpm = magnitude b.burst_tpm;
  priority = magnitude b.priority;
}

-- INSERT ... ON CONFLICT (customer_id) DO UPDATE
unfoldable pub upsert : ℕ → CustomerBudgetUpdate → List CustomerLlmBudget → List CustomerLlmBudget
upsert customer_id b [] = values customer_id b ∷ []
upsert customer_id b (row ∷ rows) =
    let rest = upsert customer_id b rows in
    if row.customer_id == customer_id then set_values b row ∷ rows else row ∷ rest

-- upsert_customer_budget: the row is committed before the controller is asked for.
unfoldable pub upsert_customer_budget :
    ℕ
    → CustomerBudgetUpdate
    → Option BudgetManager
    → List CustomerLlmBudget
    → Reply ℕ × Option BudgetManager × List CustomerLlmBudget
unfolding upsert invalidate_cache
upsert_customer_budget customer_id b controller rows =
    if is_valid b
    then (let committed = upsert customer_id b rows in
        elim (get_controller controller) [
          | reply m ↦ (reply customer_id, some (invalidate_cache (some customer_id) m), committed)
          | http_exception status ↦ (http_exception status, controller, committed)
        ])
    else (http_exception 422, controller, rows)
