-- ===== src/Registry/Symbols/Laws.antt =====
-- The lookups of symbols and addresses, and `relocation_scope`, of src/core_impl/register.rs.
use rust_dlopen.Common.{
  ℕ, String, ◌≡◌, refl, ap, subst, ◌+◌, ◌%◌, ◌^◌, ◌≤◌, ◌<◌, ◌↔◌, Bool, true, false, ◌||◌, none,
  some, List, [], ◌∷◌, ◌++◌, map, or_else, arith, Option-cases, Bool-cases, inl, inr, All,
}
use rust_dlopen.Common.Assoc
use rust_dlopen.Common.Eq.{str_eq_iff, string_eq}
use rust_dlopen.Common.Outcome.{done}
use rust_dlopen.Common.Maybe.{find_map, find_first, elem, some-injective}
use rust_dlopen.Flags.{OpenFlags, is_deepbind}
use rust_dlopen.Registry.Types.{LoadedDylib, ElfLibrary, shortname}
use rust_dlopen.Registry.LinkContext.{LinkContext}
use rust_dlopen.Registry.State.{Manager}
use rust_dlopen.Registry.Lookup.{
  all_values, global_values, push_unique, library_scope, relocation_scope,
}
use rust_dlopen.Registry.Update.{add_global}
use rust_dlopen.Registry.Consistent.Insert.{no_assert}
use rust_dlopen.Registry.Symbols.{covers, global_find, addr2dso}

-- The addresses of a library: from its base up to where it ends.
abbrev pub IsMappedOver : ℕ → LoadedDylib → Type 0
IsMappedOver addr lib = (lib.base ≤ addr) × (addr < (lib.base + lib.mapped_len) % 2 ^ 64)

covers-IsMappedOver :
    (addr : ℕ) (lib : LoadedDylib) → (covers addr lib ≡ true) ↔ IsMappedOver addr lib
unfolding covers
covers-IsMappedOver addr lib = let n : ℕ = (lib.base + lib.mapped_len) % 2 ^ 64 in ground arith

find_first_split :
    (addr : ℕ) (libs : List LoadedDylib) (x : LoadedDylib)
    → find_first (covers addr) libs ≡ some x
    → (before after : List LoadedDylib) × (libs ≡ before ++ x ∷ after)
      × IsMappedOver addr x
      × All (λ other. IsMappedOver addr other → ⊥) before
unfolding find_first
find_first_split addr [] x h = cc
find_first_split addr (lib ∷ libs) x h = elim (Bool-cases (covers addr lib)) [
  | inl t ↦
      let same : lib ≡ x = some-injective (rw (find_first, t) at h) in
      (
        [],
        libs,
        ap (λ y. y ∷ libs) same,
        subst (IsMappedOver addr) same ((covers-IsMappedOver addr lib).0 t),
        tt,
      )
  | inr t ↦
      let (before, after, split, here, others) = find_first_split addr libs x (ground (arith, t)) in
      (
        lib ∷ before,
        after,
        ap (λ y. lib ∷ y) split,
        here,
        ((λ over. ground (arith, t, (covers-IsMappedOver addr lib).1 over)), others),
      )
]

insert-append :
    (k : String) (v : LoadedDylib) (t : List (String × LoadedDylib))
    → Assoc.lookup k t ≡ none
    → Assoc.insert k v t ≡ t ++ (k, v) ∷ []
unfolding Assoc.lookup Assoc.insert
insert-append k v [] h = refl
insert-append k v ((j, w) ∷ t) h = ground (arith, insert-append k v t)

find_in_values :
    (name k : String) (v : LoadedDylib) (t : List (String × LoadedDylib))
    → find_map (λ lib. lib.get name) (map (λ e. e.1) (t ++ (k, v) ∷ []))
      ≡ or_else (find_map (λ lib. lib.get name) (map (λ e. e.1) t)) (v.get name)
unfolding find_map
find_in_values name k v [] = ground arith
find_in_values name k v ((j, w) ∷ t) = ground (arith, find_in_values name k v t)

names : List LoadedDylib → List String
names libs = map shortname libs

-- No short name twice, and none of those in `seen`.
abbrev pub IsFresh : List String → List LoadedDylib → Type 0
IsFresh seen [] = Unit
IsFresh seen (lib ∷ libs) =
    (elem (shortname lib) seen ≡ false) × IsFresh (shortname lib ∷ seen) libs

push_unique-IsFresh :
    (seen : List String) (libs : List LoadedDylib) → IsFresh seen (push_unique seen libs)
unfolding push_unique
push_unique-IsFresh seen [] = tt
push_unique-IsFresh seen (lib ∷ libs) =
    ground (arith, push_unique-IsFresh seen libs, push_unique-IsFresh (shortname lib ∷ seen) libs)

elem-push_unique :
    (k : String) (seen : List String) (libs : List LoadedDylib)
    → (elem k seen || elem k (map shortname (push_unique seen libs)))
      ≡ (elem k seen || elem k (map shortname libs))
unfolding push_unique elem
elem-push_unique k seen [] = refl
elem-push_unique k seen (lib ∷ libs) = ground (
  arith,
  elem-push_unique k seen libs,
  elem-push_unique k (shortname lib ∷ seen) libs,
  str_eq_iff k (shortname lib),
)

elem-names_append :
    (k : String) (xs ys : List LoadedDylib)
    → elem k (map shortname (xs ++ ys)) ≡ (elem k (map shortname xs) || elem k (map shortname ys))
unfolding elem
elem-names_append k [] ys = refl
elem-names_append k (x ∷ xs) ys = ground (arith, elem-names_append k xs ys)

find_first-holds :
    (p : LoadedDylib → Bool) (xs : List LoadedDylib) (x : LoadedDylib)
    → find_first p xs ≡ some x
    → p x ≡ true
unfolding find_first
find_first-holds p [] x h = cc
find_first-holds p (y ∷ xs) x h = ground (arith, find_first-holds p xs x)

find_first-none :
    (p : LoadedDylib → Bool) (xs : List LoadedDylib)
    → find_first p xs ≡ none
    → All (λ x. p x ≡ false) xs
unfolding find_first
find_first-none p [] h = tt
find_first-none p (y ∷ xs) h = ground (arith, find_first-none p xs)

module _ (L : LinkContext) (debug : Bool) where
  -- A library that enters the global scope under a new key is searched last: a symbol that the
  -- scope defined before keeps its address, and the others are those of the library; no assertion
  -- fails.
  pub global_find-add_global :
      (m : Manager L) (key name : String) (lib : LoadedDylib)
      → Assoc.lookup key m.global ≡ none
      → (m' : Manager L) × (add_global debug L key lib m ≡ done m')
        × (global_find L m' name ≡ or_else (global_find L m name) (lib.get name))
  unfolding add_global global_find global_values
  global_find-add_global m key name lib h = (
    record m { global = Assoc.insert key lib m.global },
    rw (h, no_assert debug),
    rw (insert-append key lib m.global h) (find_in_values name key lib m.global),
  )

module _ (L : LinkContext) where
  -- The scope that a group of libraries is relocated in has each short name once, and it has
  -- exactly the short names of the group and of the global scope.
  pub relocation_scope_lem :
      (m : Manager L) (group_scope : List LoadedDylib) (flags : OpenFlags)
      → IsFresh [] (relocation_scope L m group_scope flags)
        × ((k : String)
            → elem k (map shortname (relocation_scope L m group_scope flags))
              ≡ (elem k (map shortname group_scope) || elem k (map shortname (global_values L m))))
  unfolding relocation_scope elem
  relocation_scope_lem m group_scope flags = elim (Bool-cases (is_deepbind flags)) [
    | inl e ↦ (
      rw e (push_unique-IsFresh [] (group_scope ++ global_values L m)),
      λ k. ground (
        arith,
        e,
        elem-push_unique k [] (group_scope ++ global_values L m),
        elem-names_append k group_scope (global_values L m),
      ),
    )
    | inr e ↦ (
      rw e (push_unique-IsFresh [] (global_values L m ++ group_scope)),
      λ k. ground (
        arith,
        e,
        elem-push_unique k [] (global_values L m ++ group_scope),
        elem-names_append k (global_values L m) group_scope,
      ),
    )
  ]

  -- The library that an address is attributed to is the first in the order of registration that is
  -- mapped over it: from its base on, and below the sum modulo 2 ^ 64 of its base and its length.
  -- The answer has the library's scope.
  pub addr2dso_lem :
      (m : Manager L) (addr : ℕ) (lib : ElfLibrary)
      → addr2dso L m addr ≡ some lib
      → (before after : List LoadedDylib) × (all_values L m ≡ before ++ lib.inner ∷ after)
        × IsMappedOver addr lib.inner
        × All (λ other. IsMappedOver addr other → ⊥) before
        × (library_scope L m (shortname lib.inner) ≡ lib.deps)
  unfolding addr2dso
  addr2dso_lem m addr lib h = elim (Option-cases (find_first (covers addr) (all_values L m))) [
    | inl e ↦ absurd (ground (arith, e))
    | inr (x, e) ↦ elim (Option-cases (library_scope L m (shortname x))) [
      | inl f ↦ absurd (ground (arith, e, f))
      | inr (deps, f) ↦
          let (before, after, split, here, others) = find_first_split addr (all_values L m) x e in
          let same : record { inner = x; deps = some deps } ≡ lib =
            some-injective (rw (addr2dso, e, f) at h) in
          subst
            (λ y.
              (before' after' : List LoadedDylib) × (all_values L m ≡ before' ++ y.inner ∷ after')
              × IsMappedOver addr y.inner
              × All (λ other. IsMappedOver addr other → ⊥) before'
              × (library_scope L m (shortname y.inner) ≡ y.deps))
            same (before, after, split, here, others, f)
    ]
  ]
