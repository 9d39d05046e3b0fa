-- ===== src/Limiter/Totals.antt =====
-- Sums over the entries of a set, which do not depend on the order that ZRANGE returns them in.
use mathlib.Core.List.{Perm, Permᴰ}
use mathlib.Core.Logic.{∥∥₁_elim}
use native.Mathlib.Nat.{ℕ_set}
use post_call_processing_pip.Prelude.{
  ℕ, ◌+◌, ◌≡◌, refl, ◌∙◌, false, List, [], ◌∷◌, arith, length, any, if◌then◌else◌, ap,
}
use post_call_processing_pip.Redis.{Member, Entry, same_member, remove, set_score}
use post_call_processing_pip.Limiter.{tokens}

abbrev total {ℓ} : {A : Type ℓ} → (A → ℕ) → List A → ℕ
total f [] = 0
total f (x ∷ xs) = f x + total f xs

total-permᴰ {ℓ} : {A : Type ℓ} (f : A → ℕ) {xs ys : List A} → Permᴰ xs ys → total f xs ≡ total f ys
total-permᴰ f Permᴰ.nil = refl
total-permᴰ f (Permᴰ.cons e p) = omega (arith, ap f e, total-permᴰ f p)
total-permᴰ f (Permᴰ.swap e e') = omega (arith, ap f e, ap f e')
total-permᴰ f (Permᴰ.trans p q) = total-permᴰ f p ∙ total-permᴰ f q

total-perm {ℓ} : {A : Type ℓ} (f : A → ℕ) {xs ys : List A} → Perm xs ys → total f xs ≡ total f ys
total-perm f p = ∥∥₁_elim p (ℕ_set _ _) (total-permᴰ f)

-- A member that no entry has.
abbrev pub Fresh : Member → List Entry → Type 0
Fresh m l = any (λ e. same_member e.member m) l ≡ false

pub remove-Fresh : (m : Member) (l : List Entry) → Fresh m l → remove m l ≡ l
remove-Fresh m [] h = refl
remove-Fresh m (e ∷ es) h = ground (arith, remove-Fresh m es)

tokens-total : (l : List Entry) → tokens l ≡ total (λ e. e.score) l
unfolding tokens
tokens-total [] = refl
tokens-total (e ∷ es) = omega (arith, tokens-total es)

length-total : (l : List Entry) → length l ≡ total (λ e. 1) l
length-total [] = refl
length-total (e ∷ es) = omega (arith, length-total es)

abbrev rescored : Member → ℕ → Entry → ℕ
rescored m s e = if same_member e.member m then s else e.score

tokens-set_score-total :
    (m : Member) (s : ℕ) (l : List Entry) → tokens (set_score m s l) ≡ total (rescored m s) l
unfolding tokens
tokens-set_score-total m s [] = refl
tokens-set_score-total m s (e ∷ es) = ground (arith, tokens-set_score-total m s es)

tokens-remove-total : (m : Member) (l : List Entry) → tokens (remove m l) ≡ total (rescored m 0) l
unfolding tokens
tokens-remove-total m [] = refl
tokens-remove-total m (e ∷ es) = ground (arith, tokens-remove-total m es)

abbrev counted : Member → Entry → ℕ
counted m e = if same_member e.member m then 0 else 1

length-remove-total : (m : Member) (l : List Entry) → length (remove m l) ≡ total (counted m) l
length-remove-total m [] = refl
length-remove-total m (e ∷ es) = ground (arith, length-remove-total m es)

pub set_score-Fresh : (m : Member) (s : ℕ) (l : List Entry) → Fresh m l → set_score m s l ≡ l
set_score-Fresh m s [] h = refl
set_score-Fresh m s (e ∷ es) h = ground (arith, set_score-Fresh m s es)

-- What a set amounts to, up to its order.
module _ {l l' : List Entry} (p : Perm l l') where
  pub tokens-perm : tokens l ≡ tokens l'
  tokens-perm = rw (tokens-total l, tokens-total l') (total-perm _ p)

  pub length-perm : length l ≡ length l'
  length-perm = rw (length-total l, length-total l') (total-perm _ p)

  pub tokens-set_score-perm :
      (m : Member) (s : ℕ) → tokens (set_score m s l) ≡ tokens (set_score m s l')
  tokens-set_score-perm m s =
      rw (tokens-set_score-total m s l, tokens-set_score-total m s l') (total-perm _ p)

  pub tokens-remove-perm : (m : Member) → tokens (remove m l) ≡ tokens (remove m l')
  tokens-remove-perm m = rw (tokens-remove-total m l, tokens-remove-total m l') (total-perm _ p)

  pub length-remove-perm : (m : Member) → length (remove m l) ≡ length (remove m l')
  length-remove-perm m = rw (length-remove-total m l, length-remove-total m l') (total-perm _ p)
