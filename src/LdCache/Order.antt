-- ===== src/LdCache/Order.antt =====
-- The order of names in src/utils/ld_cache.rs, `str::cmp`.
use Prim.Native.Nat.{Ordering}
use rust_dlopen.Common.{ℕ, suc, ◌-◌, ◌≡◌, refl, ◌⊎◌, inl, inr, [], ◌∷◌, arith}
use rust_dlopen.LdCache.Search.{Text, cmp}

pub cmp_refl : (a : Text) → cmp a a ≡ Ordering.eq
unfolding cmp
cmp_refl [] = refl
cmp_refl (x ∷ a) = ground (arith, cmp_refl a)

pub cmp-eq : (a b : Text) → cmp a b ≡ Ordering.eq → a ≡ b
unfolding cmp
cmp-eq [] [] h = refl
cmp-eq [] (y ∷ b) h = absurd (cc)
cmp-eq (x ∷ a) [] h = absurd (cc)
cmp-eq (x ∷ a) (y ∷ b) h = ground (arith, cmp-eq a b)

pub lt_trans :
    (a b c : Text) → cmp a b ≡ Ordering.lt → (cmp b c ≡ Ordering.gt → ⊥) → cmp a c ≡ Ordering.lt
unfolding cmp
lt_trans [] [] c h k = absurd (cc)
lt_trans [] (y ∷ b) [] h k = absurd (k refl)
lt_trans [] (y ∷ b) (z ∷ c) h k = refl
lt_trans (x ∷ a) [] c h k = absurd (cc)
lt_trans (x ∷ a) (y ∷ b) [] h k = absurd (k refl)
lt_trans (x ∷ a) (y ∷ b) (z ∷ c) h k = ground (arith, lt_trans a b c)

pub gt_trans :
    (a b c : Text) → cmp a c ≡ Ordering.gt → (cmp b c ≡ Ordering.gt → ⊥) → cmp a b ≡ Ordering.gt
unfolding cmp
gt_trans [] b [] h k = absurd (cc)
gt_trans [] b (z ∷ c) h k = absurd (cc)
gt_trans (x ∷ a) [] c h k = refl
gt_trans (x ∷ a) (y ∷ b) [] h k = absurd (k refl)
gt_trans (x ∷ a) (y ∷ b) (z ∷ c) h k = ground (arith, gt_trans a b c)

pub order-cases : (o : Ordering) → (o ≡ Ordering.eq) ⊎ ((o ≡ Ordering.lt) ⊎ (o ≡ Ordering.gt))
order-cases Ordering.eq = inl refl
order-cases Ordering.lt = inr (inl refl)
order-cases Ordering.gt = inr (inr refl)

pub one_less : (i : ℕ) → suc i - 1 ≡ i
one_less i = omega arith
