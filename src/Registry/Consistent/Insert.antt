-- ===== src/Registry/Consistent/Insert.antt =====
-- `add_loaded`, `add_pending_reservation`, `add_identity` and `add_global` of
-- src/core_impl/register.rs and the invariant.
use rust_dlopen.Common.{
  ◌&&◌, ◌+◌, String, ◌≡◌, refl, Bool, true, false, none, some, [], arith, if◌then◌else◌,
}
use rust_dlopen.Common.Assoc
use rust_dlopen.Common.Eq.{str_eq, str_eq_iff, string_eq}
use rust_dlopen.Common.Outcome.{done, debug_assert}
use rust_dlopen.Flags.{OpenFlags}
use rust_dlopen.Registry.Types.{LoadedDylib, FileIdentity, identity_eq, reserved}
use rust_dlopen.Registry.LinkContext.{LinkContext, LinkContextLaws, Entry, find}
use rust_dlopen.Registry.State.{Manager}
use rust_dlopen.Registry.Lookup.{canonical_direct_deps}
use rust_dlopen.Registry.Update.{add_loaded, add_global, add_identity, add_pending_reservation}
use rust_dlopen.Registry.Consistent.{IsSound, registered, libnames, contains-registered}

-- A linked library as it is first committed.
abbrev pub linked : LoadedDylib → OpenFlags → Entry
linked lib flags = record { module_ = lib; meta = record { flags = flags; libnames = [] } }

pub no_assert : (debug : Bool) → debug_assert debug true ≡ done tt
no_assert true = refl
no_assert false = refl

module _ (debug : Bool) (L : LinkContext) (laws : LinkContextLaws L) where
  module _ (name : String) (m : Manager L) (sound : IsSound L m)
      (fresh : registered L m name ≡ false) where
    not_pending : Assoc.lookup name m.pending ≡ none
    not_pending = ground arith

    not_committed : find L m.link_ctx name ≡ none
    not_committed = ground arith

    module _ (lib : LoadedDylib) (flags : OpenFlags) (c' : L.Ctx)
        (e : L.insert_with_meta m.link_ctx name lib
            (canonical_direct_deps L m lib)
            (linked lib flags).meta
          ≡ some c') where
      abbrev found :
          (k : String)
          → find L c' k ≡ (if str_eq name k then some (linked lib flags) else find L m.link_ctx k)
      found k = laws.find_insert m.link_ctx c' name lib _ _ k e

      abbrev after_insert : Manager L
      after_insert = record m { link_ctx = c'; adds = m.adds + 1 }

      registered_after : (k : String) → registered L m k ≡ true → registered L after_insert k ≡ true
      registered_after k h = ground (arith, found k)

      libnames_after :
          (k : String) → registered L m k ≡ true → libnames L after_insert k ≡ libnames L m k
      libnames_after k h = ground (arith, found k, str_eq_iff name k)

      after_insert-IsSound : IsSound L after_insert
      after_insert-IsSound = record {
        pending_distinct = sound.pending_distinct;
        global_distinct = sound.global_distinct;
        aliases_distinct = sound.aliases_distinct;
        identities_distinct = sound.identities_distinct;
        disjoint =
            λ k h. ground (arith, found k, sound.disjoint k h, str_eq_iff name k, not_pending);
        alias_registered = λ a c h. registered_after c (sound.alias_registered a c h);
        alias_listed = λ a c h.
            rw (libnames_after c (sound.alias_registered a c h)) (sound.alias_listed a c h);
        identity_registered = λ i k h. registered_after k (sound.identity_registered i k h);
        counted = omega (arith, sound.counted, laws.order_insert m.link_ctx c' name lib _ _ e);
      }

    -- `add_loaded` of a new name does not panic, commits the library with no other name, and
    -- leaves the rest of the registry alone.
    pub add_loaded_lem :
        (lib : LoadedDylib) (flags : OpenFlags)
        → (m' : Manager L) × (add_loaded debug L name lib flags m ≡ done m')
          × IsSound L m'
          × (m'.global ≡ m.global)
          × (m'.pending ≡ m.pending)
          × ((k : String)
              → find L m'.link_ctx k
                ≡ (if str_eq name k then some (linked lib flags) else find L m.link_ctx k))
    unfolding add_loaded
    add_loaded_lem lib flags =
        let (c', e) =
          laws.insert_new m.link_ctx name lib (canonical_direct_deps L m lib)
            (linked lib flags).meta not_committed in
        (
          after_insert lib flags c' e,
          rw (contains-registered L laws m name, fresh, e, no_assert debug),
          after_insert-IsSound lib flags c' e,
          refl,
          refl,
          found lib flags c' e,
        )

    abbrev pub after_reserve : OpenFlags → Manager L
    after_reserve flags = record m {
      pending = Assoc.insert name (reserved flags) m.pending;
      adds = m.adds + 1;
    }

    -- `add_pending_reservation` of a new name does not panic and keeps the invariant.
    pub add_pending_reservation_lem :
        (flags : OpenFlags)
        → (add_pending_reservation debug L name flags m ≡ done (after_reserve flags))
          × IsSound L (after_reserve flags)
    unfolding add_pending_reservation reserved
    add_pending_reservation_lem flags = (
      rw (contains-registered L laws m name, fresh, not_pending, no_assert debug),
      record {
        pending_distinct = Assoc.insert-IsDistinct name _ m.pending sound.pending_distinct;
        global_distinct = sound.global_distinct;
        aliases_distinct = sound.aliases_distinct;
        identities_distinct = sound.identities_distinct;
        disjoint = λ k h. ground (
          arith,
          Assoc.lookup-insert name k (reserved flags) m.pending,
          sound.disjoint k,
          str_eq_iff name k,
          not_committed,
        );
        alias_registered = λ a c h. ground (
          arith,
          Assoc.lookup-insert name c (reserved flags) m.pending,
          sound.alias_registered a c h,
        );
        alias_listed = λ a c h. ground (
          arith,
          Assoc.lookup-insert name c (reserved flags) m.pending,
          sound.alias_registered a c h,
          sound.alias_listed a c h,
          str_eq_iff name c,
          fresh,
        );
        identity_registered = λ i k h. ground (
          arith,
          Assoc.lookup-insert name k (reserved flags) m.pending,
          sound.identity_registered i k h,
        );
        counted = omega (
          arith,
          sound.counted,
          Assoc.length-insert_new name (reserved flags) m.pending not_pending,
        );
      },
    )

  module _ (m : Manager L) (sound : IsSound L m) where
    -- `add_identity` of a registered name keeps the invariant.
    pub add_identity_lem :
        (identity : FileIdentity) (name : String)
        → registered L m name ≡ true
        → IsSound L (add_identity debug L identity name m)
    unfolding add_identity
    add_identity_lem identity name known = record {
      pending_distinct = sound.pending_distinct;
      global_distinct = sound.global_distinct;
      aliases_distinct = sound.aliases_distinct;
      identities_distinct =
          Assoc.insert-IsDistinct identity name m.identities sound.identities_distinct;
      disjoint = sound.disjoint;
      alias_registered = sound.alias_registered;
      alias_listed = sound.alias_listed;
      identity_registered = λ i k h.
          ground (
            arith,
            Assoc.lookup-insert identity i name m.identities,
            sound.identity_registered i k,
          );
      counted = sound.counted;
    }

    -- `add_global` panics only with debug assertions, for a library that is in the global scope.
    pub add_global_lem :
        (name : String) (lib : LoadedDylib)
        → (debug && Assoc.contains_key name m.global) ≡ false
        → (add_global debug L name lib m
            ≡ done (record m { global = Assoc.insert name lib m.global }))
          × IsSound L (record m { global = Assoc.insert name lib m.global })
    unfolding add_global
    add_global_lem name lib allowed = (
      ground arith,
      record {
        pending_distinct = sound.pending_distinct;
        global_distinct = Assoc.insert-IsDistinct name lib m.global sound.global_distinct;
        aliases_distinct = sound.aliases_distinct;
        identities_distinct = sound.identities_distinct;
        disjoint = sound.disjoint;
        alias_registered = sound.alias_registered;
        alias_listed = sound.alias_listed;
        identity_registered = sound.identity_registered;
        counted = sound.counted;
      },
    )
