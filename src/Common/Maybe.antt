-- ===== src/Common/Maybe.antt =====
-- `?` on an `Option`, and the searches of Rust's iterators.
use mathlib.Core.Path.{◌≡◌, refl, ap, ◌∙◌}
use mathlib.Core.Bool.{Bool, false, ◌||◌}
use mathlib.Core.Option.{Option, none, some}
use mathlib.Core.List.{List, [], ◌∷◌, ◌++◌}
use native.Mathlib.Omega.{arith}
use rust_dlopen.Common.Tests.{if◌then◌else◌, or_else}
use rust_dlopen.Common.Eq.{str_eq}
use Prim.Native.String.{String}

infixl 5 ◌>>=◌
abbrev pub ◌>>=◌ {ℓ κ} : {A : Type ℓ} {B : Type κ} → Option A → (A → Option B) → Option B
none >>= f = none
some a >>= f = f a

abbrev get_or {ℓ} : {A : Type ℓ} → A → Option A → A
get_or d none = d
get_or d (some a) = a

pub some-injective {ℓ} : {A : Type ℓ} {a b : A} → some a ≡ some b → a ≡ b
some-injective {a = a} p = ap (get_or a) p

pub bind-some {ℓ κ} :
    {A : Type ℓ} {B : Type κ} {m : Option A} (f : A → Option B) {a : A} {b : Option B}
    → m ≡ some a
    → f a ≡ b
    → (m >>= f) ≡ b
bind-some f e k = ap (λ x. x >>= f) e ∙ k

module _ {ℓ κ} {A : Type ℓ} {B : Type κ} where
  -- `iter.find_map(f)`
  unfoldable pub find_map : (A → Option B) → List A → Option B
  find_map f [] = none
  find_map f (x ∷ xs) = or_else (f x) (find_map f xs)

  -- `iter.filter_map(f).collect()`
  unfoldable pub filter_map : (A → Option B) → List A → List B
  filter_map f [] = []
  filter_map f (x ∷ xs) = elim (f x) [ none ↦ filter_map f xs | some y ↦ y ∷ filter_map f xs ]

  pub find_map-append :
      (f : A → Option B) (xs ys : List A)
      → find_map f (xs ++ ys) ≡ or_else (find_map f xs) (find_map f ys)
  unfolding find_map
  find_map-append f [] ys = refl
  find_map-append f (x ∷ xs) ys = ground (arith, find_map-append f xs ys)

module _ {ℓ} {A : Type ℓ} where
  -- `iter.find(p)`
  unfoldable pub find_first : (A → Bool) → List A → Option A
  find_first p [] = none
  find_first p (x ∷ xs) = if p x then some x else find_first p xs

  -- What follows the first element that satisfies `p`; `none` if none does.
  unfoldable pub after_first : (A → Bool) → List A → Option (List A)
  after_first p [] = none
  after_first p (x ∷ xs) = if p x then some xs else after_first p xs

-- Membership of a name in a list of names.
unfoldable pub elem : String → List String → Bool
elem a [] = false
elem a (x ∷ xs) = str_eq a x || elem a xs
