-- ===== src/Registry/Consistent/Alias.antt =====
-- `Manager::add_alias` of src/core_impl/register.rs and the invariant.
use rust_dlopen.Common.{
  String, ◌≡◌, refl, ◌∙◌, Bool, true, not, ◌&&◌, ◌||◌, Option, or_else, none, some, List, [], ◌∷◌,
  ◌++◌, arith, Option-cases, Bool-cases, inl, inr, if◌then◌else◌,
}
use rust_dlopen.Common.Assoc
use rust_dlopen.Common.Eq.{str_eq, str_eq_iff, string_eq}
use rust_dlopen.Common.Maybe.{elem}
use rust_dlopen.Common.Outcome.{done}
use rust_dlopen.Registry.Types.{GlobalMeta, PendingDylib}
use rust_dlopen.Registry.LinkContext.{
  LinkContext, LinkContextLaws, Entry, committed, entry_at, find,
}
use rust_dlopen.Registry.State.{Manager}
use rust_dlopen.Registry.Update.{record_alias, add_alias, add_aliases}
use rust_dlopen.Registry.Consistent.{
  IsSound, SameLibraries, SameLibraries-refl, SameLibraries-trans, registered, libnames,
  contains-registered,
}
use rust_dlopen.Registry.Consistent.Insert.{no_assert}

pub elem-append_one :
    (a b : String) (xs : List String) → elem a (xs ++ b ∷ []) ≡ (elem a xs || str_eq a b)
unfolding elem
elem-append_one a b [] = ground arith
elem-append_one a b (x ∷ xs) = ground (arith, elem-append_one a b xs)

-- `library.libnames.push(alias)`
abbrev named : GlobalMeta → String → GlobalMeta
named x alias = record x { libnames = x.libnames ++ alias ∷ [] }

abbrev named_pending : PendingDylib → String → PendingDylib
named_pending p alias = record p { libnames = p.libnames ++ alias ∷ [] }

module _ (L : LinkContext) (laws : LinkContextLaws L) where
  -- What the link context answers about the key of an entry.
  pub answers_of_find :
      (c : L.Ctx) (k : String) (e : Entry)
      → find L c k ≡ some e
      → (id : L.KeyId) × (committed L c k ≡ some id)
        × (L.key_id c k ≡ some id)
        × (L.meta c id ≡ some e.meta)
        × (L.get c id ≡ some e.module_)
  unfolding find committed entry_at
  answers_of_find c k e h = ground arith

  module _ (debug : Bool) (canonical alias : String) where
    module _ (m : Manager L) (sound : IsSound L m)
        (fresh : Assoc.lookup alias m.aliases ≡ none) where
      module _ (p : PendingDylib) (waiting : Assoc.lookup canonical m.pending ≡ some p) where
        abbrev alias_pending : Manager L
        alias_pending = record m {
          pending = Assoc.insert canonical (named_pending p alias) m.pending;
          aliases = Assoc.insert alias canonical m.aliases;
        }

        abbrev pending_at :
            (k : String)
            → Assoc.lookup k alias_pending.pending ≡ (
                if str_eq canonical k
                then some (named_pending p alias)
                else Assoc.lookup k m.pending)
        pending_at k = Assoc.lookup-insert canonical k (named_pending p alias) m.pending

        pending_same : SameLibraries L m alias_pending
        pending_same = record {
          same_global = refl;
          same_flag = λ k. refl;
          same_committed = λ k. refl;
          same_registered = λ k. ground (arith, pending_at k, str_eq_iff canonical k);
        }

        pending_listed :
            (a c : String)
            → Assoc.lookup a alias_pending.aliases ≡ some c
            → elem a (libnames L alias_pending c) ≡ true
        pending_listed a c h = ground (
          arith,
          pending_at c,
          Assoc.lookup-insert alias a canonical m.aliases,
          sound.alias_listed a c,
          str_eq_iff canonical c,
          str_eq_iff alias a,
          str_eq_iff a alias,
          elem-append_one a alias p.libnames,
        )

        pending-IsSound : IsSound L alias_pending
        pending-IsSound = record {
          pending_distinct = Assoc.insert-IsDistinct canonical _ m.pending sound.pending_distinct;
          global_distinct = sound.global_distinct;
          aliases_distinct = Assoc.insert-IsDistinct alias _ m.aliases sound.aliases_distinct;
          identities_distinct = sound.identities_distinct;
          disjoint = λ k h. ground (arith, pending_at k, sound.disjoint k, str_eq_iff canonical k);
          alias_registered = λ a c h. ground (
            arith,
            pending_same.same_registered c,
            Assoc.lookup-insert alias a canonical m.aliases,
            sound.alias_registered a c,
            pending_at c,
          );
          alias_listed = pending_listed;
          identity_registered = λ i k h.
              ground (arith, pending_same.same_registered k, sound.identity_registered i k h);
          counted =
              rw (Assoc.length-insert_old canonical (named_pending p alias) p m.pending waiting)
                sound.counted;
        }

      module _ (absent_ : Assoc.lookup canonical m.pending ≡ none) (e : Entry)
          (linked : find L m.link_ctx canonical ≡ some e) (id : L.KeyId)
          (at : committed L m.link_ctx canonical ≡ some id) where
        abbrev alias_linked : Manager L
        alias_linked = record m {
          link_ctx = L.set_meta m.link_ctx id (named e.meta alias);
          aliases = Assoc.insert alias canonical m.aliases;
        }

        abbrev find_at :
            (k : String)
            → find L alias_linked.link_ctx k ≡ (
                if str_eq canonical k
                then some (record e { meta = named e.meta alias })
                else find L m.link_ctx k)
        find_at k =
            rw linked at (laws.find_set_meta m.link_ctx canonical id (named e.meta alias) k at)

        linked_same : SameLibraries L m alias_linked
        linked_same = record {
          same_global = refl;
          same_flag = λ k. ground (arith, find_at k, str_eq_iff canonical k);
          same_committed = λ k. ground (arith, find_at k, str_eq_iff canonical k);
          same_registered = λ k. ground (arith, find_at k, str_eq_iff canonical k);
        }

        linked_listed :
            (a c : String)
            → Assoc.lookup a alias_linked.aliases ≡ some c
            → elem a (libnames L alias_linked c) ≡ true
        linked_listed a c h = ground (
          arith,
          find_at c,
          Assoc.lookup-insert alias a canonical m.aliases,
          sound.alias_listed a c,
          str_eq_iff canonical c,
          str_eq_iff alias a,
          str_eq_iff a alias,
          elem-append_one a alias e.meta.libnames,
        )

        linked-IsSound : IsSound L alias_linked
        linked-IsSound = record {
          pending_distinct = sound.pending_distinct;
          global_distinct = sound.global_distinct;
          aliases_distinct = Assoc.insert-IsDistinct alias _ m.aliases sound.aliases_distinct;
          identities_distinct = sound.identities_distinct;
          disjoint = λ k h. ground (arith, find_at k, sound.disjoint k h, str_eq_iff canonical k);
          alias_registered = λ a c h. ground (
            arith,
            Assoc.lookup-insert alias a canonical m.aliases,
            sound.alias_registered a c,
            find_at c,
          );
          alias_listed = linked_listed;
          identity_registered = λ i k h.
              ground (arith, linked_same.same_registered k, sound.identity_registered i k h);
          counted = rw (laws.order_set_meta m.link_ctx id (named e.meta alias)) sound.counted;
        }

    -- A new alias of a registered library is recorded without a panic.
    record_alias_lem :
        (m : Manager L)
        → IsSound L m
        → registered L m canonical ≡ true
        → Assoc.lookup alias m.aliases ≡ none
        → (m' : Manager L) × (record_alias debug L canonical alias m ≡ done m')
          × IsSound L m'
          × SameLibraries L m m'
          × ((a : String)
              → Assoc.lookup a m'.aliases
                ≡ (if str_eq alias a then some canonical else Assoc.lookup a m.aliases))
    unfolding record_alias
    record_alias_lem m sound known fresh = elim (Option-cases (Assoc.lookup canonical m.pending)) [
      | inr (p, waiting) ↦ (
        alias_pending m sound fresh p waiting,
        rw (waiting, record_alias),
        pending-IsSound m sound fresh p waiting,
        pending_same m sound fresh p waiting,
        now_listed m,
      )
      | inl e ↦ elim (Option-cases (find L m.link_ctx canonical)) [
        | inl f ↦ absurd (ground arith)
        | inr (x, f) ↦
            let (id, at, key, meta, got) = answers_of_find m.link_ctx canonical x f in
            (
              alias_linked m sound fresh e x f id at,
              rw (e, record_alias, key, meta),
              linked-IsSound m sound fresh e x f id at,
              linked_same m sound fresh e x f id at,
              now_listed m,
            )
      ]
    ]
      where
        now_listed :
            (m : Manager L) (a : String)
            → Assoc.lookup a (Assoc.insert alias canonical m.aliases)
              ≡ (if str_eq alias a then some canonical else Assoc.lookup a m.aliases)
        now_listed m a = Assoc.lookup-insert alias a canonical m.aliases

    -- Where a name leads after a new alias was asked for.
    abbrev pub leads_to : Manager L → Bool → String → Option String
    leads_to m asked a =
        or_else (Assoc.lookup a m.aliases)
          (if asked && not (registered L m a) then some canonical else none)

    -- `add_alias` for a registered library does not panic and keeps the invariant, and the name
    -- leads to the library unless it is taken.
    pub add_alias_lem :
        (m : Manager L)
        → IsSound L m
        → registered L m canonical ≡ true
        → (m' : Manager L) × (add_alias debug L canonical alias m ≡ done m')
          × IsSound L m'
          × SameLibraries L m m'
          × ((a : String) → Assoc.lookup a m'.aliases ≡ leads_to m (str_eq a alias) a)
    unfolding add_alias
    add_alias_lem m sound known =
        elim (Bool-cases (registered L m alias || Assoc.contains_key alias m.aliases)) [
          | inl taken ↦ (
            m,
            rw (
              contains-registered L laws m canonical,
              known,
              no_assert debug,
              contains-registered L laws m alias,
              taken,
            ),
            sound,
            SameLibraries-refl L m,
            λ a. ground (arith, taken, str_eq_iff a alias),
          )
          | inr free ↦
              let (m', e, sound', same, listed) = record_alias_lem m sound known (ground arith) in
              (
                m',
                rw
                    (
                      contains-registered L laws m canonical,
                      known,
                      no_assert debug,
                      contains-registered L laws m alias,
                      free,
                    )
                    e,
                sound',
                same,
                λ a. ground (arith, free, listed a, str_eq_iff a alias, str_eq_iff alias a),
              )
        ]

  -- Adding names to a registered library of a sound registry does not panic and leaves the
  -- registry sound. A name that was an alias leads to what it led to; of the others, those that were
  -- asked for and under which nothing is registered lead to the library, and no more become
  -- aliases. The library then lists its aliases as its names. The global scope and which libraries
  -- are registered, committed and flagged global stay.
  pub add_aliases_lem :
      (debug : Bool) (canonical : String) (aliases : List String) (m : Manager L)
      → IsSound L m
      → registered L m canonical ≡ true
      → (m' : Manager L) × (add_aliases debug L canonical aliases m ≡ done m')
        × IsSound L m'
        × SameLibraries L m m'
        × ((a : String)
            → Assoc.lookup a m'.aliases ≡ (elim (Assoc.lookup a m.aliases) [
              | some c ↦ some c
              | none ↦ if elem a aliases && not (registered L m a) then some canonical else none
            ]))
        × ((a : String)
            → Assoc.lookup a m'.aliases ≡ some canonical
            → elem a (libnames L m' canonical) ≡ true)
  unfolding add_aliases elem
  add_aliases_lem debug canonical [] m sound known = (
    m,
    refl,
    sound,
    SameLibraries-refl L m,
    λ a. ground arith,
    λ a h. sound.alias_listed a canonical h,
  )
  add_aliases_lem debug canonical (alias ∷ rest) m sound known =
      let (m₁, e₁, sound₁, same₁, leads₁) = add_alias_lem debug canonical alias m sound known in
      let (m₂, e₂, sound₂, same₂, leads₂, listed₂) =
        add_aliases_lem debug canonical rest m₁ sound₁ (same₁.same_registered canonical ∙ known) in
      (
        m₂,
        rw e₁ e₂,
        sound₂,
        SameLibraries-trans L same₁ same₂,
        (λ a. ground (arith, leads₁ a, leads₂ a, same₁.same_registered a)),
        listed₂,
      )
