-- ===== src/Common/Assoc.antt =====
-- Keyed tables: an ordered map with unique keys as an association list.
use mathlib.Core.Path.{◌≡◌, refl}
use mathlib.Core.Bool.{Bool}
use mathlib.Core.Option.{Option, none, some}
use mathlib.Core.List.{List, [], ◌∷◌}
use native.Mathlib.Omega.{arith}
use Prim.Native.Nat.{suc}
use rust_dlopen.Common.Tests.{is_some, if◌then◌else◌}
use rust_dlopen.Common.Lists.{length}
use rust_dlopen.Common.Eq.{Eq}

-- What a table answers after `retain`.
abbrev pub kept {κ} : {V : Type κ} → (V → Bool) → Option V → Option V
kept keep none = none
kept keep (some v) = if keep v then some v else none

module _ {ℓ κ} {K : Type ℓ} {V : Type κ} ⦃e : Eq K⦄ where
  -- `map.get(key)`
  unfoldable pub lookup : K → List (K × V) → Option V
  lookup k [] = none
  lookup k ((j, v) ∷ m) = if e.beq j k then some v else lookup k m

  -- `map.insert(key, value)`: a present key keeps its place, a new one goes to the end.
  unfoldable pub insert : K → V → List (K × V) → List (K × V)
  insert k v [] = (k, v) ∷ []
  insert k v ((j, w) ∷ m) = if e.beq j k then (k, v) ∷ m else (j, w) ∷ insert k v m

  -- `map.shift_remove(key)`
  unfoldable pub shift_remove : K → List (K × V) → List (K × V)
  shift_remove k [] = []
  shift_remove k ((j, v) ∷ m) = if e.beq j k then m else (j, v) ∷ shift_remove k m

  -- `map.retain(|_, v| keep(v))`
  unfoldable pub retain : (V → Bool) → List (K × V) → List (K × V)
  retain keep [] = []
  retain keep ((j, v) ∷ m) = let rest = retain keep m in if keep v then (j, v) ∷ rest else rest

  -- No key stands twice.
  abbrev pub IsDistinct : List (K × V) → Type κ
  IsDistinct [] = Unit
  IsDistinct ((k, v) ∷ m) = (lookup k m ≡ none) × IsDistinct m

  pub lookup-insert :
      (k j : K) (v : V) (m : List (K × V))
      → lookup j (insert k v m) ≡ (if e.beq k j then some v else lookup j m)
  unfolding lookup insert
  lookup-insert k j v [] = refl
  lookup-insert k j v ((i, w) ∷ m) =
      ground (arith, e.beq_iff k j, e.beq_iff i k, e.beq_iff i j, lookup-insert k j v m)

  pub lookup-shift_remove :
      (k j : K) (m : List (K × V))
      → IsDistinct m
      → lookup j (shift_remove k m) ≡ (if e.beq k j then none else lookup j m)
  unfolding lookup shift_remove
  lookup-shift_remove k j [] d = ground arith
  lookup-shift_remove k j ((i, w) ∷ m) d =
      ground (arith, e.beq_iff k j, e.beq_iff i k, e.beq_iff i j, lookup-shift_remove k j m d.1)

  pub length-insert_new :
      (k : K) (v : V) (m : List (K × V))
      → lookup k m ≡ none
      → length (insert k v m) ≡ suc (length m)
  unfolding lookup insert
  length-insert_new k v [] h = refl
  length-insert_new k v ((i, w) ∷ m) h = ground (arith, length-insert_new k v m)

  pub length-insert_old :
      (k : K) (v w : V) (m : List (K × V)) → lookup k m ≡ some w → length (insert k v m) ≡ length m
  unfolding lookup insert
  length-insert_old k v w [] h = cc
  length-insert_old k v w ((i, x) ∷ m) h = ground (arith, length-insert_old k v w m)

  pub length-shift_remove :
      (k : K) (v : V) (m : List (K × V))
      → lookup k m ≡ some v
      → suc (length (shift_remove k m)) ≡ length m
  unfolding lookup shift_remove
  length-shift_remove k v [] h = cc
  length-shift_remove k v ((i, x) ∷ m) h = ground (arith, length-shift_remove k v m)

  pub shift_remove_absent : (k : K) (m : List (K × V)) → lookup k m ≡ none → shift_remove k m ≡ m
  unfolding lookup shift_remove
  shift_remove_absent k [] h = refl
  shift_remove_absent k ((i, x) ∷ m) h = ground (arith, shift_remove_absent k m)

  pub insert-IsDistinct :
      (k : K) (v : V) (m : List (K × V)) → IsDistinct m → IsDistinct (insert k v m)
  unfolding insert
  insert-IsDistinct k v [] d = (unfold lookup in refl, tt)
  insert-IsDistinct k v ((i, w) ∷ m) d =
      ground
        (arith, e.beq_iff i k, e.beq_iff k i, lookup-insert k i v m, insert-IsDistinct k v m d.1)

  pub shift_remove-IsDistinct :
      (k : K) (m : List (K × V)) → IsDistinct m → IsDistinct (shift_remove k m)
  unfolding shift_remove
  shift_remove-IsDistinct k [] d = tt
  shift_remove-IsDistinct k ((i, w) ∷ m) d =
      ground (arith, lookup-shift_remove k i m d.1, shift_remove-IsDistinct k m d.1)

  pub lookup-retain :
      (keep : V → Bool) (j : K) (m : List (K × V))
      → IsDistinct m
      → lookup j (retain keep m) ≡ kept keep (lookup j m)
  unfolding lookup retain
  lookup-retain keep j [] d = refl
  lookup-retain keep j ((i, w) ∷ m) d = ground (arith, e.beq_iff i j, lookup-retain keep j m d.1)

  pub retain-IsDistinct :
      (keep : V → Bool) (m : List (K × V)) → IsDistinct m → IsDistinct (retain keep m)
  unfolding retain
  retain-IsDistinct keep [] d = tt
  retain-IsDistinct keep ((i, w) ∷ m) d =
      ground (arith, lookup-retain keep i m d.1, retain-IsDistinct keep m d.1)

  -- `map.contains_key(key)`
  abbrev pub contains_key : K → List (K × V) → Bool
  contains_key k m = is_some (lookup k m)
