-- ===== src/Dlopen/Rollback.antt =====
-- `Drop for OpenContext` of src/api/dlopen.rs and the invariant of the registry.
use rust_dlopen.Common.{String, ◌≡◌, refl, Bool, true, false, ◌&&◌, not, List, [], ◌∷◌, arith}
use rust_dlopen.Common.Eq.{str_eq, str_eq_iff, string_eq}
use rust_dlopen.Common.Maybe.{elem}
use rust_dlopen.Common.Outcome.{done}
use rust_dlopen.Registry.LinkContext.{LinkContext, LinkContextLaws}
use rust_dlopen.Registry.State.{Manager}
use rust_dlopen.Registry.Consistent.{IsConsistent, registered}
use rust_dlopen.Registry.Consistent.Remove.{IsWithout, remove_lem}
use rust_dlopen.Dlopen.{remove_added_libraries, drop_context}

-- The names are distinct and each satisfies `p`.
abbrev pub AreAdded : (String → Bool) → List String → Type 0
AreAdded p [] = Unit
AreAdded p (name ∷ names) = (p name ≡ true) × (elem name names ≡ false) × AreAdded p names

AreAdded-weaken :
    (p q : String → Bool) (name : String) (names : List String)
    → ((k : String) → q k ≡ (p k && not (str_eq name k)))
    → elem name names ≡ false
    → AreAdded p names
    → AreAdded q names
unfolding elem
AreAdded-weaken p q name [] e h a = tt
AreAdded-weaken p q name (x ∷ names) e h (b, c, d) =
    (ground (arith, e x, str_eq_iff name x), c, AreAdded-weaken p q name names e (ground arith) d)

module _ (L : LinkContext) (laws : LinkContextLaws L) (debug : Bool) where
  registered_without :
      (name : String) (m m' : Manager L)
      → IsWithout L laws name m m'
      → (k : String) → registered L m' k ≡ (registered L m k && not (str_eq name k))
  registered_without name m m' w k = ground (arith, w.find_without k, w.pending_without k)

  remove_added_libraries_lem :
      (names : List String) (m : Manager L)
      → IsConsistent L m
      → AreAdded (registered L m) names
      → (m' : Manager L) × (remove_added_libraries debug L names m ≡ done m')
        × IsConsistent L m'
        × ((k : String) → registered L m' k ≡ (registered L m k && not (elem k names)))
  unfolding remove_added_libraries elem
  remove_added_libraries_lem [] m c a = (m, refl, c, λ k. ground arith)
  remove_added_libraries_lem (name ∷ names) m c (known, once, rest) =
      let (m₁, e₁, c₁, w, _, _, _) = remove_lem L laws name debug m c known in
      let without = registered_without name m m₁ w in
      let (m₂, e₂, c₂, left) =
        remove_added_libraries_lem names m₁ c₁
          (AreAdded-weaken (registered L m) (registered L m₁) name names without once rest) in
      (
        m₂,
        rw e₁ e₂,
        c₂,
        λ k. ground (arith, left k, without k, str_eq_iff name k, str_eq_iff k name),
      )

  -- Undoing an operation that was not committed, in a consistent registry where its reserved names
  -- are distinct and registered, does not panic and keeps the registry consistent; exactly the
  -- reserved names are unregistered.
  pub drop_context_lem :
      (names : List String) (m : Manager L)
      → IsConsistent L m
      → AreAdded (registered L m) names
      → (m' : Manager L) × (drop_context debug L false names m ≡ done m')
        × IsConsistent L m'
        × ((k : String) → registered L m' k ≡ (registered L m k && not (elem k names)))
  unfolding drop_context
  drop_context_lem names m c a = remove_added_libraries_lem names m c a
