-- ===== src/Registry/Consistent/Promote.antt =====
-- `Manager::promote` of src/core_impl/register.rs and the invariant.
use rust_dlopen.Common.{
  String, ◌≡◌, refl, ◌∙◌, subst, Bool, true, false, ◌||◌, ◌&&◌, not, some, arith, is_some,
  Bool-cases, inl, inr, if◌then◌else◌,
}
use rust_dlopen.Common.Assoc
use rust_dlopen.Common.Eq.{str_eq, str_eq_iff, string_eq}
use rust_dlopen.Common.Outcome.{done, panic}
use rust_dlopen.Flags.{OpenFlags, is_global, is_nodelete, contains, promotable, join}
use rust_dlopen.Flags.Laws.{
  is_global-join, is_nodelete-join, is_global-promotable, is_nodelete-promotable,
  contains-is_global, contains-is_nodelete,
}
use rust_dlopen.Registry.LinkContext.{LinkContext, LinkContextLaws, Entry, committed, find}
use rust_dlopen.Registry.State.{Manager}
use rust_dlopen.Registry.Lookup.{committed_id}
use rust_dlopen.Registry.Update.{promote, add_global}
use rust_dlopen.Registry.Consistent.{IsSound, IsConsistent}
use rust_dlopen.Registry.Consistent.Insert.{add_global_lem}
use rust_dlopen.Registry.Consistent.Alias.{answers_of_find}

-- Promotion would put into the global scope a library that is there already: the entry is global,
-- the request is global, and it asks for something that the entry lacks.
abbrev pub repeats_global : OpenFlags → OpenFlags → Bool
repeats_global held flags =
    is_global held && is_global flags && not (contains held (promotable flags))

module _ (L : LinkContext) (laws : LinkContextLaws L) (debug : Bool) (name : String)
    (flags : OpenFlags) (m : Manager L) (c : IsConsistent L m) (e : Entry)
    (linked : find L m.link_ctx name ≡ some e) where
  -- What promotion does to the entry, whichever way it goes.
  pub record IsPromoted (m' : Manager L) : Type 0 where
    pub entry : Entry
    pub found : find L m'.link_ctx name ≡ some entry
    pub same_module : entry.module_ ≡ e.module_
    pub same_names : entry.meta.libnames ≡ e.meta.libnames
    pub global_joined : is_global entry.meta.flags ≡ (is_global e.meta.flags || is_global flags)
    pub nodelete_joined :
        is_nodelete entry.meta.flags ≡ (is_nodelete e.meta.flags || is_nodelete flags)
    pub others : (k : String) → str_eq name k ≡ false → find L m'.link_ctx k ≡ find L m.link_ctx k

  abbrev raised : Entry
  raised = record e { meta = record e.meta { flags = join e.meta.flags (promotable flags) } }

  module _ (id : L.KeyId) (at : committed L m.link_ctx name ≡ some id) where
    abbrev relinked : Manager L
    relinked = record m { link_ctx = L.set_meta m.link_ctx id raised.meta }

    abbrev find_at :
        (k : String)
        → find L relinked.link_ctx k ≡ (if str_eq name k then some raised else find L m.link_ctx k)
    find_at k = rw linked at (laws.find_set_meta m.link_ctx name id raised.meta k at)

    relinked-IsSound : IsSound L relinked
    relinked-IsSound = record {
      pending_distinct = c.sound.pending_distinct;
      global_distinct = c.sound.global_distinct;
      aliases_distinct = c.sound.aliases_distinct;
      identities_distinct = c.sound.identities_distinct;
      disjoint = λ k h. ground (arith, find_at k, c.sound.disjoint k h, str_eq_iff name k);
      alias_registered = λ a k h. ground (arith, find_at k, c.sound.alias_registered a k h);
      alias_listed =
          λ a k h. ground (arith, find_at k, c.sound.alias_listed a k h, str_eq_iff name k);
      identity_registered = λ i k h. ground (arith, find_at k, c.sound.identity_registered i k h);
      counted = rw (laws.order_set_meta m.link_ctx id raised.meta) c.sound.counted;
    }

    raised_flags :
        (is_global raised.meta.flags ≡ (is_global e.meta.flags || is_global flags))
        × (is_nodelete raised.meta.flags ≡ (is_nodelete e.meta.flags || is_nodelete flags))
    raised_flags = (
      ground (arith, is_global-join e.meta.flags (promotable flags), is_global-promotable flags),
      ground
          (arith, is_nodelete-join e.meta.flags (promotable flags), is_nodelete-promotable flags),
    )

    raised_at_name : find L relinked.link_ctx name ≡ some raised
    raised_at_name = ground (arith, find_at name, str_eq_iff name name)

    relinked-IsPromoted : IsPromoted relinked
    relinked-IsPromoted = record {
      entry = raised;
      found = raised_at_name;
      same_module = refl;
      same_names = refl;
      global_joined = raised_flags.0;
      nodelete_joined = raised_flags.1;
      others = λ k h. ground (arith, find_at k);
    }

  unchanged-IsPromoted : contains e.meta.flags (promotable flags) ≡ true → IsPromoted m
  unchanged-IsPromoted h = record {
    entry = e;
    found = linked;
    same_module = refl;
    same_names = refl;
    global_joined =
        ground
          (arith, contains-is_global e.meta.flags (promotable flags) h, is_global-promotable flags);
    nodelete_joined = ground (
      arith,
      contains-is_nodelete e.meta.flags (promotable flags) h,
      is_nodelete-promotable flags,
    );
    others = λ k h. refl;
  }

  module _ (id : L.KeyId) (at : committed L m.link_ctx name ≡ some id) where
    abbrev promoted : Manager L
    promoted = record (relinked id at) { global = Assoc.insert name e.module_ m.global }

    module _ (asked : is_global flags ≡ true)
        (allowed : (debug && Assoc.contains_key name m.global) ≡ false) where
      add_global-relinked :
          (add_global debug L name e.module_ (relinked id at) ≡ done promoted) × IsSound L promoted
      add_global-relinked =
          add_global_lem debug L laws (relinked id at) (relinked-IsSound id at) name e.module_
            allowed

      promoted-IsConsistent : IsConsistent L promoted
      promoted-IsConsistent = record {
        sound = add_global-relinked.1;
        global_matches = λ k. ground (
          arith,
          find_at id at k,
          Assoc.lookup-insert name k e.module_ m.global,
          c.global_matches k,
          raised_flags id at,
        );
      }

    promoted-IsPromoted : IsPromoted promoted
    promoted-IsPromoted = record {
      entry = raised;
      found = raised_at_name id at;
      same_module = refl;
      same_names = refl;
      global_joined = (raised_flags id at).0;
      nodelete_joined = (raised_flags id at).1;
      others = (relinked-IsPromoted id at).others;
    }

    relinked-IsConsistent : is_global flags ≡ false → IsConsistent L (relinked id at)
    relinked-IsConsistent local_ = record {
      sound = relinked-IsSound id at;
      global_matches = λ k. ground (
        arith,
        find_at id at k,
        c.global_matches k,
        str_eq_iff name k,
        linked,
        raised_flags id at,
      );
    }

    module _ (meta : L.meta m.link_ctx id ≡ some e.meta)
        (new : contains e.meta.flags (promotable flags) ≡ false) where
      promote_local : is_global flags ≡ false → promote debug L name flags m ≡ done (relinked id at)
      unfolding promote committed_id
      promote_local local_ = rw (at, meta, new, local_)

      promote_global :
          is_global flags ≡ true
          → L.get (relinked id at).link_ctx id ≡ some e.module_
          → promote debug L name flags m ≡ add_global debug L name e.module_ (relinked id at)
      unfolding promote committed_id
      promote_global asked got = rw (at, meta, new, asked, got)

      got_relinked : L.get (relinked id at).link_ctx id ≡ some e.module_
      got_relinked =
          let (id', at', key, meta', got) =
            answers_of_find L laws (relinked id at).link_ctx name raised (raised_at_name id at) in
          let same : committed L (relinked id at).link_ctx name ≡ some id =
            laws.committed_set_meta m.link_ctx id raised.meta name ∙ at in
          subst (λ i. L.get (relinked id at).link_ctx i ≡ some e.module_) (cc (at', same)) got

  in_global_scope : is_some (Assoc.lookup name m.global) ≡ is_global e.meta.flags
  in_global_scope = rw linked at (c.global_matches name)

  -- Promoting a committed library of a consistent registry does not panic and keeps the registry
  -- consistent, unless debug assertions are on and the library would enter the global scope a
  -- second time. It is global afterwards if it was or the request is, and the same holds of
  -- NODELETE; its module and its names stay, and so does every other entry.
  pub promote_lem :
      (debug && repeats_global e.meta.flags flags) ≡ false
      → (m' : Manager L) × (promote debug L name flags m ≡ done m')
        × IsConsistent L m'
        × IsPromoted m'
  promote_lem allowed =
      let (id, at, key, meta, got) = answers_of_find L laws m.link_ctx name e linked in
      elim (Bool-cases (contains e.meta.flags (promotable flags))) [
        | inl old ↦
            (m, unfold promote committed_id in rw (at, meta, old), c, unchanged-IsPromoted old)
        | inr new ↦ elim (Bool-cases (is_global flags)) [
          | inl asked ↦
              let free : (debug && Assoc.contains_key name m.global) ≡ false =
                ground (arith, in_global_scope) in
              (
                promoted id at,
                promote_global id at meta new asked (got_relinked id at meta new)
                    ∙ (add_global-relinked id at asked free).0,
                promoted-IsConsistent id at asked free,
                promoted-IsPromoted id at,
              )
          | inr local_ ↦ (
            relinked id at,
            promote_local id at meta new local_,
            relinked-IsConsistent id at local_,
            relinked-IsPromoted id at,
          )
        ]
      ]

  -- With debug assertions, promoting a committed library of a consistent registry panics if the
  -- library is global, the request is global, and the library lacks a promotable flag of the
  -- request.
  pub promote_panics :
      debug ≡ true → repeats_global e.meta.flags flags ≡ true → promote debug L name flags m ≡ panic
  promote_panics on again =
      let (id, at, key, meta, got) = answers_of_find L laws m.link_ctx name e linked in
      let new : contains e.meta.flags (promotable flags) ≡ false = ground arith in
      promote_global id at meta new (ground arith) (got_relinked id at meta new)
      ∙ (unfold add_global in ground (arith, in_global_scope))
