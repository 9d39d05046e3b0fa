-- ===== src/Redis/Model.antt =====
-- A store that meets the documented behaviour, to run examples on: each key's entries in one list,
-- in the order of their scores.
use mathlib.Core.List.{Perm}
use mathlib.Core.List.Perm
use post_call_processing_pip.Prelude.{
  ◌≡◌, refl, ◌≢◌, Bool, true, false, List, [], ◌∷◌, ◌==◌, leb, if◌then◌else◌, Bool-cases, inl, inr,
  arith,
}
use post_call_processing_pip.Redis.{
  Entry, Bucket, global, cust, Key, tpm, rpm, remove, set_score, SortedSets,
}

abbrev pub same_bucket : Bucket → Bucket → Bool
same_bucket global global = true
same_bucket (cust a) (cust b) = a == b
same_bucket _ _ = false

abbrev pub same_key : Key → Key → Bool
same_key (tpm a) (tpm b) = same_bucket a b
same_key (rpm a) (rpm b) = same_bucket a b
same_key _ _ = false

same_key_self : (k : Key) → same_key k k ≡ true
same_key_self (tpm global) = refl
same_key_self (tpm (cust n)) = ground arith
same_key_self (rpm global) = refl
same_key_self (rpm (cust n)) = ground arith

same_key_eq : (k j : Key) → same_key k j ≡ true → k ≡ j
same_key_eq (tpm a) (tpm b) h = ground arith
same_key_eq (rpm a) (rpm b) h = ground arith
same_key_eq k j h = ground arith

abbrev pub Store : Type 0
Store = Key → List Entry

abbrev pub update : Key → List Entry → Store → Store
update k es st j = if same_key k j then es else st j

pub update_self : (k : Key) (es : List Entry) (st : Store) → update k es st k ≡ es
update_self k es st = rw (same_key_self k)

pub update_ne : (k j : Key) (es : List Entry) (st : Store) → k ≢ j → update k es st j ≡ st j
update_ne k j es st h = elim (Bool-cases (same_key k j)) [
  | inl same ↦ absurd (h (same_key_eq k j same))
  | inr other ↦ rw other
]

abbrev pub insert_by_score : Entry → List Entry → List Entry
insert_by_score e [] = e ∷ []
insert_by_score e (x ∷ xs) = if leb e.score x.score then e ∷ x ∷ xs else x ∷ insert_by_score e xs

abbrev pub sort_by_score : List Entry → List Entry
sort_by_score [] = []
sort_by_score (x ∷ xs) = insert_by_score x (sort_by_score xs)

pub insert-perm : (e : Entry) (es : List Entry) → Perm (insert_by_score e es) (e ∷ es)
insert-perm e [] = Perm.refl (e ∷ [])
insert-perm e (x ∷ xs) = elim (Bool-cases (leb e.score x.score)) [
  | inl first ↦ rw first (Perm.refl (e ∷ x ∷ xs))
  | inr later ↦ rw later (Perm.trans (Perm.cons x (insert-perm e xs)) (Perm.swap e x xs))
]

pub sort-perm : (es : List Entry) → Perm (sort_by_score es) es
sort-perm [] = Perm.refl []
sort-perm (x ∷ xs) = Perm.trans (insert-perm x (sort_by_score xs)) (Perm.cons x (sort-perm xs))

abbrev pub empty : Store
empty k = []

abbrev pub sorted_sets : SortedSets
sorted_sets = record {
  Store = Store;
  zrange = λ st k. st k;
  zadd = λ k s m st.
      update k (insert_by_score (record { member = m; score = s }) (remove m (st k))) st;
  zadd_xx = λ k s m st. update k (sort_by_score (set_score m s (st k))) st;
  zrem = λ k m st. update k (remove m (st k)) st;
  pexpire = λ k ms st. st;
  zrange-zadd = λ k s m st. rw (update_self k _ st) (insert-perm _ _);
  zrange-zadd_ne = λ k j s m st. update_ne k j _ st;
  zrange-zadd_xx = λ k s m st. rw (update_self k _ st) (sort-perm _);
  zrange-zadd_xx_ne = λ k j s m st. update_ne k j _ st;
  zrange-zrem = λ k m st. update_self k _ st;
  zrange-zrem_ne = λ k j m st. update_ne k j _ st;
  zrange-pexpire = λ k j ms st. refl;
}
