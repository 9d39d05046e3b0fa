-- ===== src/Limiter.antt =====
-- src/scheduler/rate_limiter.py and its script src/scheduler/lua/check_quota.lua: a sliding-window
-- limiter on tokens and requests per minute. Numbers of the script stay far below 2 ^ 53, where Lua's
-- numbers are exact.
pub mod Window
pub mod Totals
pub mod Quota
pub mod Settle
pub mod Isolation
pub mod Grants
pub mod Refinement
pub mod Runs
mod Tests
use post_call_processing_pip.Prelude.{
  ℕ, suc, ◌+◌, ◌-◌, ◌*◌, ◌≤◌, Bool, true, false, ◌&&◌, ◌||◌, List, [], ◌∷◌, Option, none, some, ltb,
  leb, if◌then◌else◌, length,
}
use post_call_processing_pip.Prelude.Integers.{ℤ, pos, negsuc}
use post_call_processing_pip.Db.{Result, ok, err, value_error}
use post_call_processing_pip.Redis.{Member, Entry, Bucket, Key, tpm, rpm, SortedSets}

abbrev pub window_ms : ℕ
window_ms = 60000

pub data RateLimitDecision : Type 0 where
  allow deny : RateLimitDecision

pub record Reservation : Type 0 where
  pub decision : RateLimitDecision
  pub retry_after_ms : ℕ
  pub current_tpm : ℕ
  pub current_rpm : ℕ
  pub member_id : Member
  pub bucket : Bucket

abbrev pub is_allow : RateLimitDecision → Bool
is_allow RateLimitDecision.allow = true
is_allow RateLimitDecision.deny = false

-- Reservation.allowed
abbrev pub allowed : Reservation → Bool
allowed r = is_allow r.decision

-- ts < cutoff, for cutoff = now_ms - window_ms
unfoldable pub is_expired : ℕ → Entry → Bool
is_expired now e = ltb (e.member.ts + window_ms) now

-- The sum of the scores.
unfoldable pub tokens : List Entry → ℕ
tokens [] = 0
tokens (e ∷ es) = e.score + tokens es

abbrev pub head_ts : List Entry → Option ℕ
head_ts [] = none
head_ts (e ∷ es) = some e.member.ts

abbrev pub or_else : Option ℕ → Option ℕ → Option ℕ
or_else none o = o
or_else (some n) o = some n

-- math.max(0, (oldest + window_ms) - now_ms), or the window when both sets are empty
abbrev pub retry_after : ℕ → Option ℕ → ℕ
retry_after now none = window_ms
retry_after now (some oldest) = oldest + window_ms - now

-- The array that the script returns.
pub record Reply : Type 0 where
  pub flag : Bool
  pub retry_after_ms : ℕ
  pub current_tpm : ℕ
  pub current_rpm : ℕ

module _ (R : SortedSets) where
  open R use {Store, zrange, zadd, zadd_xx, zrem, pexpire}

  unfoldable pub evict_members : Key → ℕ → List Entry → Store → Store
  evict_members k now [] st = st
  evict_members k now (e ∷ es) st =
      evict_members k now es (if is_expired now e then zrem k e.member st else st)

  -- evict_expired(key)
  unfoldable pub evict_expired : Key → ℕ → Store → Store
  evict_expired k now st = evict_members k now (zrange st k) st

  -- The two calls of `evict_expired`.
  unfoldable pub evict : Bucket → ℕ → Store → Store
  evict b now st = evict_expired (rpm b) now (evict_expired (tpm b) now st)

  unfoldable pub reserve : Bucket → Member → ℕ → Store → Store
  reserve b m n st =
      pexpire (rpm b) (window_ms * 5)
        (pexpire (tpm b) (window_ms * 5) (zadd (rpm b) 1 m (zadd (tpm b) n m st)))

  -- (current_tpm + tokens) > tpm_limit or (current_rpm + 1) > rpm_limit
  unfoldable pub over_quota : Bucket → ℕ → ℕ → ℕ → Store → Bool
  over_quota b tpm_limit rpm_limit n st =
      ltb tpm_limit (tokens (zrange st (tpm b)) + n)
      || ltb rpm_limit (length (zrange st (rpm b)) + 1)

  abbrev pub deny_reply : Bucket → ℕ → Store → Reply
  deny_reply b now st = record {
    flag = false;
    retry_after_ms =
        retry_after now (or_else (head_ts (zrange st (tpm b))) (head_ts (zrange st (rpm b))));
    current_tpm = tokens (zrange st (tpm b));
    current_rpm = length (zrange st (rpm b));
  }

  abbrev pub allow_reply : Bucket → ℕ → Store → Reply
  allow_reply b n st = record {
    flag = true;
    retry_after_ms = 0;
    current_tpm = tokens (zrange st (tpm b)) + n;
    current_rpm = length (zrange st (rpm b)) + 1;
  }

  -- The script from the test on, run on the evicted sets.
  unfoldable pub decide : Bucket → ℕ → ℕ → ℕ → Member → Store → Reply × Store
  decide b tpm_limit rpm_limit n m st =
      if over_quota b tpm_limit rpm_limit n st
      then (deny_reply b m.ts st, st)
      else (allow_reply b n st, reserve b m n st)

  unfoldable pub check_quota : Bucket → ℕ → ℕ → ℕ → Member → Store → Reply × Store
  check_quota b tpm_limit rpm_limit n m st = decide b tpm_limit rpm_limit n m (evict b m.ts st)

  abbrev pub to_reservation : Bucket → Member → Reply → Reservation
  to_reservation b m r = record {
    decision = if r.flag then RateLimitDecision.allow else RateLimitDecision.deny;
    retry_after_ms = r.retry_after_ms;
    current_tpm = r.current_tpm;
    current_rpm = r.current_rpm;
    member_id = m;
    bucket = b;
  }

  abbrev pub eval_script : Bucket → ℕ → ℕ → ℕ → Member → Store → Reservation × Store
  eval_script b tpm_limit rpm_limit n m st =
      let (r, st') = check_quota b tpm_limit rpm_limit n m st in (to_reservation b m r, st')

  -- RateLimiter.check_and_reserve at the time `ts`, with the uuid drawn for this call
  unfoldable pub check_and_reserve :
      Bucket → ℕ → ℕ → ℤ → ℕ → ℕ → Store → Result (Reservation × Store)
  check_and_reserve b tpm_limit rpm_limit (negsuc n) ts uuid st = err value_error
  check_and_reserve b tpm_limit rpm_limit (pos n) ts uuid st =
      ok (eval_script b tpm_limit rpm_limit n (record { ts = ts; uuid = uuid }) st)

  -- RateLimiter.reconcile
  unfoldable pub reconcile : Reservation → ℤ → Store → Result Store
  reconcile r (pos actual) st =
      ok (if allowed r then zadd_xx (tpm r.bucket) actual r.member_id st else st)
  reconcile r (negsuc actual) st = if allowed r then err value_error else ok st

  -- RateLimiter.release
  unfoldable pub release : Reservation → Store → Store
  release r st =
      if allowed r then zrem (rpm r.bucket) r.member_id (zrem (tpm r.bucket) r.member_id st) else st
