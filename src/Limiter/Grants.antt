-- ===== src/Limiter/Grants.antt =====
-- src/scheduler/rate_limiter.py and src/scheduler/lua/check_quota.lua against their specification: a
-- bucket is one list of granted requests, in no order, in place of two sorted sets.
use mathlib.Core.List.{Perm}
use mathlib.Core.List.Perm
use mathlib.Core.List as CoreList
use post_call_processing_pip.Prelude.{
  ℕ, ◌+◌, ◌≡◌, refl, inl, inr, Bool, true, false, ◌&&◌, List, [], ◌∷◌, none, some, Option, arith,
  length, leb, Bool-cases, if◌then◌else◌, ap, map,
}
use post_call_processing_pip.Redis.{Member, Entry, same_member, remove, set_score}
use post_call_processing_pip.Limiter.{tokens, is_expired}
use post_call_processing_pip.Limiter.Window.{live}
use post_call_processing_pip.Limiter.Totals.{Fresh}

-- The specification. A request is granted when it fits beside what the window holds.
abbrev pub ask : (tpm_limit rpm_limit n : ℕ) → Member → List Entry → Bool × List Entry
ask tpm_limit rpm_limit n m l =
    let w = live m.ts l in
    if leb (tokens w + n) tpm_limit && leb (length w + 1) rpm_limit
    then (true, record { member = m; score = n } ∷ w)
    else (false, w)

-- What the set of requests holds for these grants.
abbrev pub as_requests : List Entry → List Entry
as_requests [] = []
as_requests (e ∷ es) = record e { score = 1 } ∷ as_requests es

-- The operations on lists as one library function, which respects permutations.
abbrev kept_live : ℕ → Entry → Option Entry
kept_live now e = if is_expired now e then none else some e

live-filter_map : (now : ℕ) (l : List Entry) → live now l ≡ CoreList.filter_map (kept_live now) l
unfolding CoreList.filter_map
live-filter_map now [] = refl
live-filter_map now (e ∷ es) = elim (Bool-cases (is_expired now e)) [
  | inl old ↦ rw (old, live-filter_map now es)
  | inr new ↦ rw (new, live-filter_map now es)
]

abbrev kept_other : Member → Entry → Option Entry
kept_other m e = if same_member e.member m then none else some e

remove-filter_map :
    (m : Member) (l : List Entry) → remove m l ≡ CoreList.filter_map (kept_other m) l
unfolding CoreList.filter_map
remove-filter_map m [] = refl
remove-filter_map m (e ∷ es) = elim (Bool-cases (same_member e.member m)) [
  | inl same ↦ rw (same, remove-filter_map m es)
  | inr other ↦ rw (other, remove-filter_map m es)
]

abbrev rescored : Member → ℕ → Entry → Entry
rescored m s e = if same_member e.member m then record e { score = s } else e

set_score-map : (m : Member) (s : ℕ) (l : List Entry) → set_score m s l ≡ map (rescored m s) l
set_score-map m s [] = refl
set_score-map m s (e ∷ es) = ap (λ r. rescored m s e ∷ r) (set_score-map m s es)

module _ {l l' : List Entry} (p : Perm l l') where
  pub live-perm : (now : ℕ) → Perm (live now l) (live now l')
  live-perm now = rw (live-filter_map now l, live-filter_map now l') (Perm.filter_map _ p)

  pub remove-perm : (m : Member) → Perm (remove m l) (remove m l')
  remove-perm m = rw (remove-filter_map m l, remove-filter_map m l') (Perm.filter_map _ p)

  pub set_score-perm : (m : Member) (s : ℕ) → Perm (set_score m s l) (set_score m s l')
  set_score-perm m s = rw (set_score-map m s l, set_score-map m s l') (Perm.map _ p)

pub live-as_requests :
    (now : ℕ) (l : List Entry) → live now (as_requests l) ≡ as_requests (live now l)
unfolding is_expired
live-as_requests now [] = refl
live-as_requests now (e ∷ es) = ground (arith, live-as_requests now es)

pub remove-as_requests :
    (m : Member) (l : List Entry) → remove m (as_requests l) ≡ as_requests (remove m l)
remove-as_requests m [] = refl
remove-as_requests m (e ∷ es) = ground (arith, remove-as_requests m es)

pub set_score-as_requests :
    (m : Member) (s : ℕ) (l : List Entry) → as_requests (set_score m s l) ≡ as_requests l
set_score-as_requests m s [] = refl
set_score-as_requests m s (e ∷ es) = ground (arith, set_score-as_requests m s es)

pub length-as_requests : (l : List Entry) → length (as_requests l) ≡ length l
length-as_requests [] = refl
length-as_requests (e ∷ es) = omega (arith, length-as_requests es)

pub Fresh-as_requests : (m : Member) (l : List Entry) → Fresh m l → Fresh m (as_requests l)
Fresh-as_requests m [] f = refl
Fresh-as_requests m (e ∷ es) f = ground (arith, Fresh-as_requests m es)
