-- ===== src/Dlopen/Alone/Found.antt =====
-- What the lookups of src/core_impl/register.rs say of the registered names.
use rust_dlopen.Common.{
  String, ◌≡◌, subst, ◌⊎◌, true, false, Option, none, some, arith, or_else, Option-cases, inl, inr,
}
use rust_dlopen.Common.Assoc
use rust_dlopen.Common.Eq.{string_eq}
use rust_dlopen.Common.Maybe.{◌>>=◌}
use rust_dlopen.Registry.Types.{FileIdentity, identity_eq, LibraryLookup, lookup_shortname}
use rust_dlopen.Registry.LinkContext.{LinkContext, LinkContextLaws, committed, find, entry_at}
use rust_dlopen.Registry.State.{Manager}
use rust_dlopen.Registry.Consistent.{registered, committed-find, find_of_committed}
use rust_dlopen.Registry.Lookup.{
  committed_id, committed_lookup, pending_lookup, lookup, lookup_by_identity,
}

or_else-cases :
    (a b : Option LibraryLookup) {lib : LibraryLookup}
    → or_else a b ≡ some lib
    → (a ≡ some lib) ⊎ (b ≡ some lib)
or_else-cases none b h = inr h
or_else-cases (some x) b h = inl h

module _ (L : LinkContext) (laws : LinkContextLaws L) (m : Manager L) where
  committed_lookup-registered :
      (key : String) (lib : LibraryLookup)
      → committed_lookup L m key ≡ some lib
      → registered L m (lookup_shortname lib) ≡ true
  unfolding committed_lookup committed_id lookup_shortname
  committed_lookup-registered key lib h = ground (arith, committed-find L laws m.link_ctx key)

  pending_lookup-registered :
      (key : String) (lib : LibraryLookup)
      → pending_lookup L m key ≡ some lib
      → registered L m (lookup_shortname lib) ≡ true
  unfolding pending_lookup lookup_shortname
  pending_lookup-registered key lib h = ground arith

  by_alias :
      (c : String) (lib : LibraryLookup)
      → or_else (committed_lookup L m c) (pending_lookup L m c) ≡ some lib
      → registered L m (lookup_shortname lib) ≡ true
  by_alias c lib h = elim (or_else-cases _ _ h) [
    | inl e ↦ committed_lookup-registered c lib e
    | inr e ↦ pending_lookup-registered c lib e
  ]

  -- What a lookup finds is registered under its canonical name.
  pub lookup-registered :
      (name : String) (lib : LibraryLookup)
      → lookup L m name ≡ some lib
      → registered L m (lookup_shortname lib) ≡ true
  unfolding lookup
  lookup-registered name lib h = elim (or_else-cases _ _ h) [
    | inl e ↦ committed_lookup-registered name lib e
    | inr e ↦ elim (or_else-cases _ _ e) [
      | inl e' ↦ pending_lookup-registered name lib e'
      | inr e' ↦ elim (Option-cases (Assoc.lookup name m.aliases)) [
        | inl none_of ↦ absurd (ground (arith, none_of))
        | inr (c, of_alias) ↦ by_alias c lib (
            subst
              (λ (a : Option String).
                (a >>= λ canonical.
                or_else (committed_lookup L m canonical) (pending_lookup L m canonical))
                ≡ some lib)
              of_alias e')
      ]
    ]
  ]

  pub lookup_by_identity-registered :
      (i : FileIdentity) (lib : LibraryLookup)
      → lookup_by_identity L m i ≡ some lib
      → registered L m (lookup_shortname lib) ≡ true
  unfolding lookup_by_identity
  lookup_by_identity-registered i lib h = elim (Option-cases (Assoc.lookup i m.identities)) [
    | inl e ↦ absurd (ground (arith, e))
    | inr (name, e) ↦ lookup-registered name lib (ground (arith, e))
  ]

  -- A name that a lookup misses is not registered.
  pub lookup-missing : (name : String) → lookup L m name ≡ none → registered L m name ≡ false
  unfolding lookup committed_lookup committed_id pending_lookup find entry_at
  lookup-missing name h = elim (Option-cases (committed L m.link_ctx name)) [
    | inl e ↦ ground (arith, e)
    | inr (id, e) ↦
        let (x, at, _) = find_of_committed L laws m.link_ctx name id e in
        absurd (ground (arith, e, at))
  ]
