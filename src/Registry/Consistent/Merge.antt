-- ===== src/Registry/Consistent/Merge.antt =====
-- `Manager::merge_link_context` of src/core_impl/register.rs and the invariant.
use rust_dlopen.Common.{
  ◌+◌, String, ◌≡◌, refl, Bool, true, false, ◌||◌, ◌&&◌, not, none, some, List, [], ◌∷◌, arith,
  is_some, length, Option-cases, inl, inr, if◌then◌else◌,
}
use rust_dlopen.Common.Assoc
use rust_dlopen.Common.Eq.{str_eq, str_eq_iff, string_eq}
use rust_dlopen.Common.Outcome.{done}
use rust_dlopen.Flags.{OpenFlags, is_global}
use rust_dlopen.Names.Laws.{is_global-normalized}
use rust_dlopen.Registry.Types.{LoadedDylib}
use rust_dlopen.Registry.LinkContext.{LinkContext, LinkContextLaws, Entry, find}
use rust_dlopen.Registry.State.{Manager}
use rust_dlopen.Registry.Loading.{
  merged_meta, merge_module, keys_of, deps_or_empty, merge_id, merge_ids, all_merged,
  merge_link_context,
}
use rust_dlopen.Registry.Consistent.{IsSound, IsConsistent, registered, libnames}
use rust_dlopen.Registry.Consistent.Insert.{no_assert}
use rust_dlopen.Registry.Consistent.Publish.{publish_lem}

module _ (debug : Bool) (L : LinkContext) (laws : LinkContextLaws L) where
  module _ (key : String) (module_ : LoadedDylib) (direct_deps : List String) (flags : OpenFlags)
      (m : Manager L) (c : IsConsistent L m) (new : find L m.link_ctx key ≡ none) where
    abbrev merged_entry : Entry
    merged_entry = record {
      module_ = module_;
      meta = merged_meta L (Assoc.lookup key m.pending) module_ flags;
    }

    module _ (ctx : L.Ctx)
        (e : L.insert_with_meta m.link_ctx key module_ direct_deps merged_entry.meta
          ≡ some ctx) where
      abbrev merged : Manager L
      merged = record m {
        pending = Assoc.shift_remove key m.pending;
        link_ctx = ctx;
        adds = if is_some (Assoc.lookup key m.pending) then m.adds else m.adds + 1;
      }

      abbrev found :
          (k : String)
          → find L ctx k ≡ (if str_eq key k then some merged_entry else find L m.link_ctx k)
      found k = laws.find_insert m.link_ctx ctx key module_ direct_deps _ k e

      abbrev left_pending :
          (k : String)
          → Assoc.lookup k merged.pending
            ≡ (if str_eq key k then none else Assoc.lookup k m.pending)
      left_pending k = Assoc.lookup-shift_remove key k m.pending c.sound.pending_distinct

      registered-merged : (k : String) → registered L merged k ≡ (str_eq key k || registered L m k)
      registered-merged k = ground (arith, found k, left_pending k)

      libnames_merged :
          (k : String) → registered L m k ≡ true → libnames L merged k ≡ libnames L m k
      unfolding merged_meta
      libnames_merged k h =
          ground (arith, found k, left_pending k, str_eq_iff key k, new, c.sound.disjoint k)

      merged_counted : merged.adds ≡ merged.subs + length merged.pending + length (L.load_order ctx)
      merged_counted =
          let order = laws.order_insert m.link_ctx ctx key module_ direct_deps _ e in
          elim (Option-cases (Assoc.lookup key m.pending)) [
            | inl none_ ↦
                rw (none_, Assoc.shift_remove_absent key m.pending none_)
                  (omega (arith, c.sound.counted, order))
            | inr (p, waiting) ↦ rw waiting (
                omega (
                  arith,
                  c.sound.counted,
                  order,
                  Assoc.length-shift_remove key p m.pending waiting,
                ))
          ]

      merged-IsSound : IsSound L merged
      merged-IsSound = record {
        pending_distinct = Assoc.shift_remove-IsDistinct key m.pending c.sound.pending_distinct;
        global_distinct = c.sound.global_distinct;
        aliases_distinct = c.sound.aliases_distinct;
        identities_distinct = c.sound.identities_distinct;
        disjoint = λ k h. ground (arith, found k, left_pending k, c.sound.disjoint k);
        alias_registered =
            λ a k h. ground (arith, registered-merged k, c.sound.alias_registered a k h);
        alias_listed = λ a k h.
            rw (libnames_merged k (c.sound.alias_registered a k h)) (c.sound.alias_listed a k h);
        identity_registered =
            λ i k h. ground (arith, registered-merged k, c.sound.identity_registered i k h);
        counted = merged_counted;
      }

    -- Whether the library was asked for with RTLD_GLOBAL: when it was reserved, if it was, and
    -- otherwise by the call.
    abbrev pub should_be_global : Bool
    should_be_global = elim (Assoc.lookup key m.pending) [
      | some lib ↦ is_global lib.flags
      | none ↦ is_global flags
    ]

    merged_flags : is_global merged_entry.meta.flags ≡ should_be_global
    unfolding merged_meta
    merged_flags = elim (Option-cases (Assoc.lookup key m.pending)) [
      | inr (lib, e) ↦ rw (should_be_global, e) refl
      | inl e ↦ rw (should_be_global, e) (is_global-normalized module_.name flags)
    ]

    -- Committing a module whose key is not committed, in a consistent registry, does not panic and
    -- keeps the registry consistent. The key is then committed, and it is in the global scope
    -- exactly if RTLD_GLOBAL is in the flags of its reservation, or, where it has none, in the flags of
    -- the call. No other key
    -- becomes committed or registered, or ceases to be.
    pub merge_module_lem :
        (m' : Manager L) × (merge_module debug L key module_ direct_deps flags m ≡ done m')
        × IsConsistent L m'
        × ((k : String)
            → is_some (find L m'.link_ctx k) ≡ (str_eq key k || is_some (find L m.link_ctx k)))
        × ((k : String) → registered L m' k ≡ (str_eq key k || registered L m k))
        × (is_some (Assoc.lookup key m'.global) ≡ should_be_global)
    unfolding merge_module
    merge_module_lem =
        let (ctx, e) = laws.insert_new m.link_ctx key module_ direct_deps merged_entry.meta new in
        let (m', e', c', shape) =
          publish_lem debug L laws key module_ (is_global merged_entry.meta.flags) (merged ctx e)
            (merged-IsSound ctx e)
            (λ k. ground (arith, found ctx e k, c.global_matches k, new, str_eq_iff key k))
            merged_entry (ground (arith, found ctx e key, str_eq_iff key key)) refl in
        (
          m',
          rw e e',
          c',
          λ k. ground (arith, shape.shape_committed k, found ctx e k),
          λ k. ground (arith, shape.shape_registered k, registered-merged ctx e k),
          ground (
            arith,
            c'.global_matches key,
            shape.shape_flag key,
            found ctx e key,
            str_eq_iff key key,
            merged_flags,
          ),
        )

  -- What a source of modules answers about one that it has committed.
  pub record Resolves (source : L.Ctx) (id : L.KeyId) : Type 0 where
    pub key : String
    pub module_ : LoadedDylib
    pub deps : List String
    pub has_key : L.key source id ≡ some key
    pub has_module : L.get source id ≡ some module_
    pub has_deps : keys_of L source (deps_or_empty L (L.direct_deps source id)) ≡ done deps

  -- A round of the loop of `merge_link_context` does not panic and keeps the invariant: the key
  -- is committed afterwards, and what was registered or committed still is.
  merge_id_lem :
      (source : L.Ctx) (id : L.KeyId) (flags : OpenFlags) (m : Manager L)
      → (r : Resolves source id) → IsConsistent L m
      → (m' : Manager L) × (merge_id debug L source id flags m ≡ done m')
        × IsConsistent L m'
        × (is_some (find L m'.link_ctx r.key) ≡ true)
        × ((k : String) → registered L m k ≡ true → registered L m' k ≡ true)
        × ((k : String)
            → is_some (find L m.link_ctx k) ≡ true
            → is_some (find L m'.link_ctx k) ≡ true)
  unfolding merge_id
  merge_id_lem source id flags m r c = elim (Option-cases (find L m.link_ctx r.key)) [
    | inl new ↦
        let (m', e, c', committed', registered', scope) =
          merge_module_lem r.key r.module_ r.deps flags m c new in
        (
          m',
          rw (r.has_key, laws.contains_key_find m.link_ctx r.key, new, r.has_module, r.has_deps) e,
          c',
          ground (arith, committed' r.key, str_eq_iff r.key r.key),
          λ k h. ground (arith, registered' k),
          λ k h. ground (arith, committed' k),
        )
    | inr (x, old) ↦ (
      m,
      rw (r.has_key, laws.contains_key_find m.link_ctx r.key, old),
      c,
      rw old,
      λ k h. h,
      λ k h. h,
    )
  ]

  -- All identifiers of the list resolve.
  abbrev pub AllResolve : L.Ctx → List L.KeyId → Type 0
  AllResolve source [] = Unit {0}
  AllResolve source (id ∷ ids) = Resolves source id × AllResolve source ids

  -- The loop over identifiers that resolve in their source ends without a panic and keeps the
  -- invariant; every module of the list is committed afterwards, and what was registered or
  -- committed still is.
  pub merge_ids_lem :
      (source : L.Ctx) (ids : List L.KeyId) (flags : OpenFlags) (m : Manager L)
      → AllResolve source ids
      → IsConsistent L m
      → (m' : Manager L) × (merge_ids debug L source ids flags m ≡ done m')
        × IsConsistent L m'
        × (all_merged debug L source ids m' ≡ true)
        × ((k : String) → registered L m k ≡ true → registered L m' k ≡ true)
        × ((k : String)
            → is_some (find L m.link_ctx k) ≡ true
            → is_some (find L m'.link_ctx k) ≡ true)
  unfolding merge_ids all_merged
  merge_ids_lem source [] flags m r c = (m, refl, c, refl, λ k h. h, λ k h. h)
  merge_ids_lem source (id ∷ ids) flags m (r, rs) c =
      let (m₁, e₁, c₁, here, reg₁, com₁) = merge_id_lem source id flags m r c in
      let (m₂, e₂, c₂, merged₂, reg₂, com₂) = merge_ids_lem source ids flags m₁ rs c₁ in
      (
        m₂,
        rw e₁ e₂,
        c₂,
        rw (r.has_key, all_merged, laws.contains_key_find m₂.link_ctx r.key, com₂ r.key here)
            merged₂,
        λ k h. reg₂ k (reg₁ k h),
        λ k h. com₂ k (com₁ k h),
      )

  -- Merging all the modules of a finished load, each of which resolves in its source, into a
  -- consistent registry does not panic, closing assertion included. The registry stays consistent,
  -- every module of the source is committed, and what was registered or committed still is.
  pub merge_link_context_lem :
      (source : L.Ctx) (flags : OpenFlags) (m : Manager L)
      → AllResolve source (L.load_order source)
      → IsConsistent L m
      → (m' : Manager L) × (merge_link_context debug L source (L.load_order source) flags m
          ≡ done m')
        × IsConsistent L m'
        × (all_merged debug L source (L.load_order source) m' ≡ true)
        × ((k : String) → (registered L m k && not (registered L m' k)) ≡ false)
        × ((k : String)
            → (is_some (find L m.link_ctx k) && not (is_some (find L m'.link_ctx k))) ≡ false)
  unfolding merge_link_context
  merge_link_context_lem source flags m r c =
      let (m', e, c', all, kept, still) = merge_ids_lem source (L.load_order source) flags m r c in
      (
        m',
        rw (e, all, no_assert debug),
        c',
        all,
        λ k. ground (arith, kept k),
        λ k. ground (arith, still k),
      )
