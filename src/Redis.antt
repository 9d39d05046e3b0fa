-- ===== src/Redis.antt =====
-- The sorted sets of Redis, as src/scheduler/rate_limiter.py and src/scheduler/lua/check_quota.lua use
-- them: a store that the program reaches by commands alone, with the documented effect of each
-- command on what ZRANGE returns. Redis itself is not part of the repository.
pub mod Model
use mathlib.Core.List.{Perm}
use post_call_processing_pip.Prelude.{ℕ, ◌≡◌, ◌≢◌, Bool, ◌&&◌, List, [], ◌∷◌, ◌==◌, if◌then◌else◌}

-- A member text "<ms>:<uuid hex>", taken apart at its colon. A uuid is an opaque number.
pub record Member : Type 0 where
  pub ts : ℕ
  pub uuid : ℕ

abbrev pub same_member : Member → Member → Bool
same_member a b = a.ts == b.ts && a.uuid == b.uuid

pub record Entry : Type 0 where
  pub member : Member
  pub score : ℕ

-- The bucket texts that the budget manager makes: "global" and "cust:<customer id>".
pub data Bucket : Type 0 where
  global : Bucket
  cust : ℕ → Bucket

-- "<prefix>:tpm:<bucket>" and "<prefix>:rpm:<bucket>", under the limiter's one prefix
pub data Key : Type 0 where
  tpm rpm : Bucket → Key

abbrev pub remove : Member → List Entry → List Entry
remove m [] = []
remove m (e ∷ es) = let rest = remove m es in if same_member e.member m then rest else e ∷ rest

abbrev pub set_score : Member → ℕ → List Entry → List Entry
set_score m s [] = []
set_score m s (e ∷ es) =
    (if same_member e.member m then record e { score = s } else e) ∷ set_score m s es

pub record SortedSets : Type 1 where
  pub Store : Type 0
  -- ZRANGE key 0 -1 WITHSCORES
  pub zrange : Store → Key → List Entry
  pub zadd : Key → ℕ → Member → Store → Store
  -- ZADD key XX score member
  pub zadd_xx : Key → ℕ → Member → Store → Store
  pub zrem : Key → Member → Store → Store
  pub pexpire : Key → ℕ → Store → Store
  -- ZADD sets the member's score, and adds the member if it is not there.
  pub zrange-zadd :
      (k : Key) (s : ℕ) (m : Member) (st : Store)
      → Perm (zrange (zadd k s m st) k) (record { member = m; score = s } ∷ remove m (zrange st k))
  pub zrange-zadd_ne :
      (k j : Key) (s : ℕ) (m : Member) (st : Store) → k ≢ j → zrange (zadd k s m st) j ≡ zrange st j
  -- With XX it sets the score of a member that is there.
  pub zrange-zadd_xx :
      (k : Key) (s : ℕ) (m : Member) (st : Store)
      → Perm (zrange (zadd_xx k s m st) k) (set_score m s (zrange st k))
  pub zrange-zadd_xx_ne :
      (k j : Key) (s : ℕ) (m : Member) (st : Store)
      → k ≢ j
      → zrange (zadd_xx k s m st) j ≡ zrange st j
  pub zrange-zrem :
      (k : Key) (m : Member) (st : Store) → zrange (zrem k m st) k ≡ remove m (zrange st k)
  pub zrange-zrem_ne :
      (k j : Key) (m : Member) (st : Store) → k ≢ j → zrange (zrem k m st) j ≡ zrange st j
  -- A time to live in the future removes nothing yet.
  pub zrange-pexpire : (k j : Key) (ms : ℕ) (st : Store) → zrange (pexpire k ms st) j ≡ zrange st j
