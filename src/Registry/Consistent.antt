-- ===== src/Registry/Consistent.antt =====
-- The invariant of the registry of src/core_impl/register.rs.
pub mod Insert
pub mod Alias
pub mod Remove
pub mod Promote
pub mod Publish
pub mod Merge
use rust_dlopen.Common.{
  ◌+◌, String, ◌≡◌, refl, ◌∙◌, Bool, true, false, ◌||◌, Option, none, some, List, [], arith,
  is_some, length, Option-cases, Bool-cases, inl, inr, if◌then◌else◌,
}
use rust_dlopen.Common.Assoc
use rust_dlopen.Common.Assoc.{IsDistinct}
use rust_dlopen.Common.Eq.{string_eq}
use rust_dlopen.Common.Maybe.{elem}
use rust_dlopen.Flags.{is_global}
use rust_dlopen.Registry.Types.{FileIdentity, identity_eq}
use rust_dlopen.Registry.LinkContext.{
  LinkContext, LinkContextLaws, Entry, committed, entry_at, find,
}
use rust_dlopen.Registry.State.{Manager, empty_manager}
use rust_dlopen.Registry.Lookup.{contains_canonical_key}

-- A linked library that is in the global scope.
abbrev pub is_global_entry : Option Entry → Bool
is_global_entry none = false
is_global_entry (some e) = is_global e.meta.flags

abbrev pub entry_libnames : Option Entry → List String
entry_libnames none = []
entry_libnames (some e) = e.meta.libnames

module _ (L : LinkContext) where
  -- A library is pending or committed under the name.
  abbrev pub registered : Manager L → String → Bool
  registered m k = is_some (Assoc.lookup k m.pending) || is_some (find L m.link_ctx k)

  -- The names that the library under a canonical name has been given.
  abbrev pub libnames : Manager L → String → List String
  libnames m k = elim (Assoc.lookup k m.pending) [
    | none ↦ entry_libnames (find L m.link_ctx k)
    | some p ↦ p.libnames
  ]

  -- What holds at every point of an operation.
  pub record IsSound (m : Manager L) : Type 0 where
    -- Every table has each key once.
    pub pending_distinct : IsDistinct m.pending
    pub global_distinct : IsDistinct m.global
    pub aliases_distinct : IsDistinct m.aliases
    pub identities_distinct : IsDistinct m.identities
    -- No library is both pending and committed.
    pub disjoint :
        (k : String) → is_some (Assoc.lookup k m.pending) ≡ true → find L m.link_ctx k ≡ none
    -- An alias leads to a registered library, which lists it among its names.
    pub alias_registered :
        (a c : String) → Assoc.lookup a m.aliases ≡ some c → registered m c ≡ true
    pub alias_listed :
        (a c : String) → Assoc.lookup a m.aliases ≡ some c → elem a (libnames m c) ≡ true
    -- A file identity leads to a registered library.
    pub identity_registered :
        (i : FileIdentity) (k : String)
        → Assoc.lookup i m.identities ≡ some k
        → registered m k ≡ true
    -- The two counters account for what is registered.
    pub counted : m.adds ≡ m.subs + length m.pending + length (L.load_order m.link_ctx)

  -- The global scope holds exactly the committed libraries with the flag.
  abbrev pub GlobalMatches : Manager L → Type 0
  GlobalMatches m =
      (k : String) → is_some (Assoc.lookup k m.global) ≡ is_global_entry (find L m.link_ctx k)

  -- What holds between operations.
  pub record IsConsistent (m : Manager L) : Type 0 where
    pub sound : IsSound m
    pub global_matches : GlobalMatches m

  -- `m'` has the libraries of `m`, in the same places and with the same flags and code: only
  -- names and identities may be new.
  pub record SameLibraries (m m' : Manager L) : Type 0 where
    pub same_global : m'.global ≡ m.global
    pub same_flag :
        (k : String)
        → is_global_entry (find L m'.link_ctx k) ≡ is_global_entry (find L m.link_ctx k)
    pub same_committed :
        (k : String) → is_some (find L m'.link_ctx k) ≡ is_some (find L m.link_ctx k)
    pub same_registered : (k : String) → registered m' k ≡ registered m k

  pub SameLibraries-refl : (m : Manager L) → SameLibraries m m
  SameLibraries-refl m = record {
    same_global = refl;
    same_flag = λ k. refl;
    same_committed = λ k. refl;
    same_registered = λ k. refl;
  }

  pub SameLibraries-trans :
      {a b c : Manager L} → SameLibraries a b → SameLibraries b c → SameLibraries a c
  SameLibraries-trans p q = record {
    same_global = q.same_global ∙ p.same_global;
    same_flag = λ k. q.same_flag k ∙ p.same_flag k;
    same_committed = λ k. q.same_committed k ∙ p.same_committed k;
    same_registered = λ k. q.same_registered k ∙ p.same_registered k;
  }

  module _ (laws : LinkContextLaws L) where
    contains_of_committed :
        (c : L.Ctx) (k : String) (id : L.KeyId) → committed L c k ≡ some id → L.contains c id ≡ true
    unfolding committed
    contains_of_committed c k id e = ground arith

    -- A committed identifier leads to the entry of its key.
    pub find_of_committed :
        (c : L.Ctx) (k : String) (id : L.KeyId)
        → committed L c k ≡ some id
        → (e : Entry) × (entry_at L c id ≡ some e) × (find L c k ≡ some e)
    unfolding find
    find_of_committed c k id h =
        let (e, at) = laws.contains_entry c id (contains_of_committed c k id h) in
        (e, at, rw (h, find) at)

    pub committed-find : (c : L.Ctx) (k : String) → is_some (committed L c k) ≡ is_some (find L c k)
    unfolding find
    committed-find c k = elim (Option-cases (committed L c k)) [
      | inl e ↦ rw (e, find)
      | inr (id, e) ↦ let (x, at, found) = find_of_committed c k id e in rw (e, find, at)
    ]

    -- The code's test for a canonical name.
    pub contains-registered :
        (m : Manager L) (k : String) → contains_canonical_key L m k ≡ registered m k
    unfolding contains_canonical_key
    contains-registered m k = rw (committed-find m.link_ctx k)

    -- The empty registry is consistent.
    pub empty_manager-IsConsistent : IsConsistent (empty_manager L)
    unfolding empty_manager Assoc.lookup
    empty_manager-IsConsistent = record {
      sound = record {
        pending_distinct = tt;
        global_distinct = tt;
        aliases_distinct = tt;
        identities_distinct = tt;
        disjoint = λ k h. laws.find_new k;
        alias_registered = λ a c h. cc;
        alias_listed = λ a c h. cc;
        identity_registered = λ i k h. cc;
        counted = rw laws.order_new (omega arith);
      };
      global_matches = λ k. rw (laws.find_new k);
    }
