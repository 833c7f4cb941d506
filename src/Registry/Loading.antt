-- ===== src/Registry/Loading.antt =====
-- How libraries come into the registry: `register_loaded`, `reserve_pending`, `merge_link_context`
-- and `rebuild_link_ctx` of src/core_impl/register.rs.
use rust_dlopen.Common.{
  ◌+◌, String, Bool, true, false, ◌||◌, Option, none, some, List, [], ◌∷◌, is_some, if◌then◌else◌,
}
use rust_dlopen.Common.Assoc
use rust_dlopen.Common.Eq.{str_eq, string_eq}
use rust_dlopen.Common.Outcome.{Outcome, done, ◌>>=◌, ◌>>◌, expect, debug_assert}
use rust_dlopen.Flags.{OpenFlags, is_global}
use rust_dlopen.Names.{normalized_flags, libc_compat_aliases}
use rust_dlopen.Registry.Types.{
  FileIdentity, LoadedDylib, PendingDylib, GlobalMeta, shortname, identity_eq,
}
use rust_dlopen.Registry.LinkContext.{LinkContext}
use rust_dlopen.Registry.State.{Manager}
use rust_dlopen.Registry.Lookup.{canonical_direct_deps, canonical_name_owned, committed_id}
use rust_dlopen.Registry.Update.{
  add_loaded, add_global, add_identity, add_aliases, add_pending_reservation,
}

module _ (L : LinkContext) where
  -- The keys of identifiers, each of which must resolve.
  unfoldable pub keys_of : L.Ctx → List L.KeyId → Outcome (List String)
  keys_of source [] = done []
  keys_of source (id ∷ ids) = do
    key ← expect (L.key source id)
    rest ← keys_of source ids
    done (key ∷ rest)

  abbrev pub deps_or_empty : Option (List L.KeyId) → List L.KeyId
  deps_or_empty none = []
  deps_or_empty (some ids) = ids

  -- The metadata of a library that is merged: that of its reservation, if it has one.
  unfoldable pub merged_meta : Option PendingDylib → LoadedDylib → OpenFlags → GlobalMeta
  merged_meta (some lib) module_ flags = record { flags = lib.flags; libnames = lib.libnames }
  merged_meta none module_ flags = record {
    flags = normalized_flags module_.name flags;
    libnames = [];
  }

  -- `visible_direct_deps`
  unfoldable pub visible_direct_deps : Manager L → String → Outcome (Option (List String))
  unfolding canonical_name_owned committed_id
  visible_direct_deps m name = elim (canonical_name_owned L m name) [
    | none ↦ done none
    | some canonical ↦ elim (committed_id L m canonical) [
      | some id ↦ elim (L.direct_deps m.link_ctx id) [
        | none ↦ done none
        | some ids ↦ (do keys ← keys_of m.link_ctx ids; done (some keys))
      ]
      | none ↦ elim (Assoc.lookup canonical m.pending) [
        | none ↦ done none
        | some lib ↦ elim lib.inner [
          | none ↦ done none
          | some dylib ↦ done (some (canonical_direct_deps L m dylib))
        ]
      ]
    ]
  ]

module _ (debug : Bool) (L : LinkContext) where
  abbrev pub identified : Option FileIdentity → String → Manager L → Manager L
  identified none key m = m
  identified (some identity) key m = add_identity debug L identity key m

  -- The last steps for a library that has just been committed under `key`: its file identity, the
  -- names it answers to, and the global scope.
  unfoldable pub publish : String → LoadedDylib → Bool → Manager L → Outcome (Manager L)
  publish key lib in_scope m = do
    m' ← add_aliases debug L key (libc_compat_aliases key) (identified lib.file_identity key m)
    if in_scope then add_global debug L key lib m' else done m'

  unfoldable pub register_loaded : LoadedDylib → OpenFlags → Manager L → Outcome (Manager L)
  unfolding publish
  register_loaded lib flags m = do
    let flags' = normalized_flags lib.name flags
    m' ← add_loaded debug L (shortname lib) lib flags' m
    publish (shortname lib) lib (is_global flags' || str_eq lib.name "") m'

  unfoldable pub reserve_pending :
      String → String → Option FileIdentity → OpenFlags → Manager L → Outcome (Manager L)
  reserve_pending shortname full_name identity flags m = do
    m' ← add_pending_reservation debug L shortname (normalized_flags full_name flags) m
    add_aliases debug L shortname (libc_compat_aliases shortname) (identified identity shortname m')

  -- The body of the loop of `merge_link_context` for a module that is not committed yet.
  unfoldable pub merge_module :
      String → LoadedDylib → List String → OpenFlags → Manager L → Outcome (Manager L)
  unfolding publish merged_meta
  merge_module key module_ direct_deps flags m = do
    let pending = Assoc.lookup key m.pending
    let meta = merged_meta L pending module_ flags
    ctx ← expect (L.insert_with_meta m.link_ctx key module_ direct_deps meta)
    publish key module_ (is_global meta.flags) (record m {
      pending = Assoc.shift_remove key m.pending;
      link_ctx = ctx;
      adds = if is_some pending then m.adds else m.adds + 1;
    })

  -- One round of the loop of `merge_link_context`.
  unfoldable pub merge_id : L.Ctx → L.KeyId → OpenFlags → Manager L → Outcome (Manager L)
  unfolding keys_of
  merge_id source id flags m = do
    key ← expect (L.key source id)
    if L.contains_key m.link_ctx key then done m else elim (L.get source id) [
      | none ↦ done m
      | some module_ ↦ (do
        direct_deps ← keys_of L source (deps_or_empty L (L.direct_deps source id))
        merge_module key module_ direct_deps flags m)
    ]

  unfoldable pub merge_ids : L.Ctx → List L.KeyId → OpenFlags → Manager L → Outcome (Manager L)
  unfolding merge_id
  merge_ids source [] flags m = done m
  merge_ids source (id ∷ ids) flags m = do
    m' ← merge_id source id flags m
    merge_ids source ids flags m'

  -- The closing assertion: every module of the source is in the registry.
  unfoldable pub all_merged : L.Ctx → List L.KeyId → Manager L → Bool
  all_merged source [] m = true
  all_merged source (id ∷ ids) m =
      let rest = all_merged source ids m in
      elim (L.key source id) [
        | none ↦ false
        | some key ↦ if L.contains_key m.link_ctx key then rest else false
      ]

  unfoldable pub merge_link_context :
      L.Ctx → List L.KeyId → OpenFlags → Manager L → Outcome (Manager L)
  unfolding merge_ids all_merged
  merge_link_context source committed flags m = do
    m' ← merge_ids source committed flags m
    debug_assert debug (all_merged source (L.load_order source) m')
    done m'

  -- `rebuild_link_ctx`: the entries in load order, with their dependencies looked up again.
  unfoldable pub rebuild_entries :
      Manager L → List L.KeyId → Outcome (List (String × LoadedDylib × List String × GlobalMeta))
  rebuild_entries m [] = done []
  rebuild_entries m (id ∷ ids) = do
    key ← expect (L.key m.link_ctx id)
    module_ ← expect (L.get m.link_ctx id)
    meta ← expect (L.meta m.link_ctx id)
    rest ← rebuild_entries m ids
    done ((key, module_, canonical_direct_deps L m module_, meta) ∷ rest)

  unfoldable pub insert_entries :
      List (String × LoadedDylib × List String × GlobalMeta) → L.Ctx → Outcome L.Ctx
  insert_entries [] ctx = done ctx
  insert_entries ((key, module_, direct_deps, meta) ∷ rest) ctx = do
    ctx' ← expect (L.insert_with_meta ctx key module_ direct_deps meta)
    insert_entries rest ctx'

  unfoldable pub rebuild_link_ctx : Manager L → Outcome (Manager L)
  unfolding rebuild_entries insert_entries
  rebuild_link_ctx m = do
    entries ← rebuild_entries m (L.load_order m.link_ctx)
    ctx ← insert_entries entries L.new
    done (record m { link_ctx = ctx })
