-- ===== src/Db/Rows.antt =====
-- Lookup after a flush.
use post_call_processing_pip.Prelude.{
  ℕ, suc, ◌≡◌, refl, List, [], ◌∷◌, none, some, ◌==◌, if◌then◌else◌, find, ap, arith, length,
}
use post_call_processing_pip.Models.{ProcessingTask}
use post_call_processing_pip.Db.{replace, Result, ok, err, ◌>>=◌}

pub length-replace :
    (t : ProcessingTask) (rs : List ProcessingTask) → length (replace t rs) ≡ length rs
length-replace t [] = refl
length-replace t (r ∷ rs) = ap suc (length-replace t rs)

-- A flush changes the row of its key and no other.
pub find-replace :
    (t : ProcessingTask) (i : ℕ) (rs : List ProcessingTask)
    → find (λ r. r.id == i) (replace t rs) ≡ (
        if t.id == i
        then (elim (find (λ r. r.id == i) rs) [ none ↦ none | some _ ↦ some t ])
        else find (λ r. r.id == i) rs)
find-replace t i [] = ground arith
find-replace t i (r ∷ rs) = ground (arith, find-replace t i rs)

-- A step of a do block that gave a result gave its first part a result.
pub bind_ok {ℓ κ} :
    {A : Type ℓ} {B : Type κ} (m : Result A) (f : A → Result B) (b : B)
    → (m >>= f) ≡ ok b
    → (a : A) × (m ≡ ok a) × (f a ≡ ok b)
bind_ok (ok a) f b e = (a, refl, e)
bind_ok (err x) f b e = absurd (cc e)

pub ok_injective {ℓ} : {A : Type ℓ} (a b : A) → Path (Result A) (ok a) (ok b) → a ≡ b
ok_injective a b e = cc e
