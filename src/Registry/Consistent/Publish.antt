-- ===== src/Registry/Consistent/Publish.antt =====
-- `register_loaded` and `reserve_pending` of src/core_impl/register.rs and the invariant.
use rust_dlopen.Common.{
  String, ◌≡◌, refl, ◌∙◌, Bool, true, false, ◌||◌, not, Option, none, some, List, arith, is_some,
  Bool-cases, inl, inr, if◌then◌else◌,
}
use rust_dlopen.Common.Assoc
use rust_dlopen.Common.Eq.{str_eq, str_eq_iff, string_eq}
use rust_dlopen.Common.Outcome.{done}
use rust_dlopen.Flags.{OpenFlags, is_global}
use rust_dlopen.Names.{normalized_flags, libc_compat_aliases}
use rust_dlopen.Names.Laws.{is_global-normalized}
use rust_dlopen.Registry.Types.{FileIdentity, LoadedDylib, shortname, reserved}
use rust_dlopen.Registry.LinkContext.{LinkContext, LinkContextLaws, Entry, find}
use rust_dlopen.Registry.State.{Manager}
use rust_dlopen.Registry.Update.{add_identity, add_aliases}
use rust_dlopen.Registry.Loading.{identified, publish, register_loaded, reserve_pending}
use rust_dlopen.Registry.Consistent.{
  IsSound, IsConsistent, SameLibraries, SameLibraries-refl, registered, is_global_entry,
}
use rust_dlopen.Registry.Consistent.Insert.{
  linked, after_reserve, add_loaded_lem, add_identity_lem, add_global_lem,
  add_pending_reservation_lem,
}
use rust_dlopen.Registry.Consistent.Alias.{add_aliases_lem}

module _ (debug : Bool) (L : LinkContext) (laws : LinkContextLaws L) where
  identified_lem :
      (identity : Option FileIdentity) (key : String) (m : Manager L)
      → IsSound L m
      → registered L m key ≡ true
      → IsSound L (identified debug L identity key m)
        × SameLibraries L m (identified debug L identity key m)
  unfolding add_identity
  identified_lem none key m sound known = (sound, SameLibraries-refl L m)
  identified_lem (some i) key m sound known = (
    add_identity_lem debug L laws m sound i key known,
    record {
      same_global = refl;
      same_flag = λ k. refl;
      same_committed = λ k. refl;
      same_registered = λ k. refl;
    },
  )

  -- The identity and the names of a registered library.
  named_lem :
      (identity : Option FileIdentity) (key : String) (names : List String) (m : Manager L)
      → IsSound L m
      → registered L m key ≡ true
      → (m' : Manager L) × (add_aliases debug L key names (identified debug L identity key m)
          ≡ done m')
        × IsSound L m'
        × SameLibraries L m m'
  named_lem identity key names m sound known =
      let (sound₁, same₁) = identified_lem identity key m sound known in
      let (m', e, sound', same', _, _) =
        add_aliases_lem L laws debug key names (identified debug L identity key m) sound₁
          (same₁.same_registered key ∙ known) in
      (
        m',
        e,
        sound',
        record {
          same_global = same'.same_global ∙ same₁.same_global;
          same_flag = λ k. same'.same_flag k ∙ same₁.same_flag k;
          same_committed = λ k. same'.same_committed k ∙ same₁.same_committed k;
          same_registered = λ k. same'.same_registered k ∙ same₁.same_registered k;
        },
      )

  -- The same libraries are pending, committed and flagged global.
  pub record SameShape (m m' : Manager L) : Type 0 where
    pub shape_flag :
        (k : String)
        → is_global_entry (find L m'.link_ctx k) ≡ is_global_entry (find L m.link_ctx k)
    pub shape_committed :
        (k : String) → is_some (find L m'.link_ctx k) ≡ is_some (find L m.link_ctx k)
    pub shape_registered : (k : String) → registered L m' k ≡ registered L m k

  module _ (key : String) (lib : LoadedDylib) (in_scope : Bool) (ins : Manager L)
      (sound : IsSound L ins)
      (matches : (k : String)
        → is_some (Assoc.lookup k ins.global)
          ≡ (if str_eq key k then false else is_global_entry (find L ins.link_ctx k)))
      (x : Entry) (at : find L ins.link_ctx key ≡ some x)
      (scoped : in_scope ≡ is_global x.meta.flags) where
    -- A library that has just been committed enters the global scope if its flags say so.
    pub publish_lem :
        (m' : Manager L) × (publish debug L key lib in_scope ins ≡ done m')
        × IsConsistent L m'
        × SameShape ins m'
    unfolding publish
    publish_lem =
        let (m₁, e, sound₁, same) =
          named_lem lib.file_identity key (libc_compat_aliases key) ins sound (ground arith) in
        elim (Bool-cases in_scope) [
          | inl yes_ ↦
              let out : Assoc.contains_key key m₁.global ≡ false =
                ground (arith, same.same_global, matches key, str_eq_iff key key) in
              let (e₂, sound₂) = add_global_lem debug L laws m₁ sound₁ key lib (ground arith) in
              (
                record m₁ { global = Assoc.insert key lib m₁.global },
                rw (e, yes_) e₂,
                record {
                  sound = sound₂;
                  global_matches = λ k. ground (
                    arith,
                    Assoc.lookup-insert key k lib m₁.global,
                    same.same_global,
                    same.same_flag k,
                    matches k,
                    str_eq_iff key k,
                  );
                },
                record {
                  shape_flag = same.same_flag;
                  shape_committed = same.same_committed;
                  shape_registered = same.same_registered;
                },
              )
          | inr no_ ↦ (
            m₁,
            rw (e, no_),
            record {
              sound = sound₁;
              global_matches = λ k.
                  ground (arith, same.same_global, same.same_flag k, matches k, str_eq_iff key k);
            },
            record {
              shape_flag = same.same_flag;
              shape_committed = same.same_committed;
              shape_registered = same.same_registered;
            },
          )
        ]

  -- `register_loaded` of a library whose short name is new in a consistent registry does not panic
  -- and keeps the registry consistent, provided the program itself (the empty name) is registered
  -- as global; afterwards the library is committed, and the same others as before.
  pub register_loaded_lem :
      (lib : LoadedDylib) (flags : OpenFlags) (m : Manager L)
      → IsConsistent L m
      → registered L m (shortname lib) ≡ false
      → (is_global flags || not (str_eq lib.name "")) ≡ true
      → (m' : Manager L) × (register_loaded debug L lib flags m ≡ done m')
        × IsConsistent L m'
        × ((k : String)
            → is_some (find L m'.link_ctx k)
              ≡ (str_eq (shortname lib) k || is_some (find L m.link_ctx k)))
  unfolding register_loaded
  register_loaded_lem lib flags m c fresh main_global =
      let (ins, e, sound, g, p, found) =
        add_loaded_lem debug L laws (shortname lib) m c.sound fresh lib
          (normalized_flags lib.name flags) in
      let x = linked lib (normalized_flags lib.name flags) in
      let (m', e', c', shape) =
        publish_lem (shortname lib) lib
          (is_global (normalized_flags lib.name flags) || str_eq lib.name "") ins sound
          (λ k. ground (arith, g, found k, c.global_matches k, str_eq_iff (shortname lib) k)) x
          (ground (arith, found (shortname lib), str_eq_iff (shortname lib) (shortname lib)))
          (ground (arith, is_global-normalized lib.name flags)) in
      (m', rw e e', c', λ k. ground (arith, shape.shape_committed k, found k))

  -- `reserve_pending` of a new name in a consistent registry does not panic and keeps the registry
  -- consistent; afterwards the name is registered, every other name is if it was before, and the
  -- same names are committed as before.
  pub reserve_pending_lem :
      (name full_name : String) (identity : Option FileIdentity) (flags : OpenFlags) (m : Manager L)
      → IsConsistent L m
      → registered L m name ≡ false
      → (m' : Manager L) × (reserve_pending debug L name full_name identity flags m ≡ done m')
        × IsConsistent L m'
        × ((k : String) → registered L m' k ≡ (str_eq name k || registered L m k))
        × ((k : String) → is_some (find L m'.link_ctx k) ≡ is_some (find L m.link_ctx k))
  unfolding reserve_pending
  reserve_pending_lem name full_name identity flags m c fresh =
      let flags' = normalized_flags full_name flags in
      let (e, sound) = add_pending_reservation_lem debug L laws name m c.sound fresh flags' in
      let r : Manager L = after_reserve debug L laws name m c.sound fresh flags' in
      let at : (k : String)
          → Assoc.lookup k r.pending
            ≡ (if str_eq name k then some (reserved flags') else Assoc.lookup k m.pending) =
        λ k. Assoc.lookup-insert name k (reserved flags') m.pending in
      let (m', e', sound', same) =
        named_lem identity name (libc_compat_aliases name) r sound
          (ground (arith, at name, str_eq_iff name name)) in
      (
        m',
        rw e e',
        record {
          sound = sound';
          global_matches =
              λ k. ground (arith, same.same_global, same.same_flag k, c.global_matches k);
        },
        λ k. ground (arith, same.same_registered k, at k),
        same.same_committed,
      )
