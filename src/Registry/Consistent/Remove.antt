-- ===== src/Registry/Consistent/Remove.antt =====
-- `Manager::remove` of src/core_impl/register.rs and the invariant.
use rust_dlopen.Common.{
  ◌+◌, String, ◌≡◌, ◌≢◌, ◌↔◌, refl, subst, Bool, true, false, not, none, some, List, [], ◌∷◌, arith,
  is_some, length, Option-cases, inl, inr, if◌then◌else◌,
}
use rust_dlopen.Common.Assoc
use rust_dlopen.Common.Assoc.{IsDistinct}
use rust_dlopen.Common.Eq.{str_eq, str_eq_iff, string_eq}
use rust_dlopen.Common.Maybe.{elem}
use rust_dlopen.Common.Outcome.{done}
use rust_dlopen.Flags.{is_global}
use rust_dlopen.Registry.Types.{FileIdentity, PendingDylib, identity_eq}
use rust_dlopen.Registry.LinkContext.{LinkContext, LinkContextLaws, Entry, committed, find}
use rust_dlopen.Registry.State.{Manager}
use rust_dlopen.Registry.Lookup.{committed_id}
use rust_dlopen.Registry.Update.{remove_aliases, both_equal, take_entry, remove}
use rust_dlopen.Registry.Consistent.{IsConsistent, registered, libnames}
use rust_dlopen.Registry.Consistent.Insert.{no_assert}
use rust_dlopen.Registry.Consistent.Alias.{answers_of_find}

pub lookup-remove_aliases :
    (names : List String) (a : String) (aliases : List (String × String))
    → IsDistinct aliases
    → Assoc.lookup a (remove_aliases names aliases)
      ≡ (if elem a names then none else Assoc.lookup a aliases)
unfolding remove_aliases elem
lookup-remove_aliases [] a aliases d = refl
lookup-remove_aliases (n ∷ names) a aliases d = ground (
  arith,
  lookup-remove_aliases names a (Assoc.shift_remove n aliases)
      (Assoc.shift_remove-IsDistinct n aliases d),
  Assoc.lookup-shift_remove n a aliases d,
  str_eq_iff n a,
  str_eq_iff a n,
)

pub remove_aliases-IsDistinct :
    (names : List String) (aliases : List (String × String))
    → IsDistinct aliases
    → IsDistinct (remove_aliases names aliases)
unfolding remove_aliases
remove_aliases-IsDistinct [] aliases d = d
remove_aliases-IsDistinct (n ∷ names) aliases d =
    remove_aliases-IsDistinct names (Assoc.shift_remove n aliases)
      (Assoc.shift_remove-IsDistinct n aliases d)

module _ (L : LinkContext) (laws : LinkContextLaws L) (name : String) where
  -- The registry after `remove`, given the tables without the entry and the names it had.
  abbrev pub removed : Manager L → List (String × PendingDylib) → L.Ctx → List String → Manager L
  removed m pending ctx names = record m {
    pending = pending;
    link_ctx = ctx;
    subs = m.subs + 1;
    global = Assoc.shift_remove name m.global;
    aliases = remove_aliases names m.aliases;
    identities = Assoc.retain (λ v. not (str_eq v name)) m.identities;
  }

  -- The same at every other name, and nothing at this one.
  pub record IsWithout (m m' : Manager L) : Type 0 where
    pub find_without :
        (k : String) → find L m'.link_ctx k ≡ (if str_eq name k then none else find L m.link_ctx k)
    pub pending_without :
        (k : String)
        → Assoc.lookup k m'.pending ≡ (if str_eq name k then none else Assoc.lookup k m.pending)
    pub aliases_without :
        (a : String) → Assoc.lookup a m.aliases ≡ none → Assoc.lookup a m'.aliases ≡ none

  -- What the other tables forget: the names of the library as aliases, of which none leads to it
  -- any more; its place in the global scope; and the file identities that lead to it.
  pub record Forgets (m m' : Manager L) : Type 0 where
    pub aliases_left :
        (a : String)
        → Assoc.lookup a m'.aliases
          ≡ (if elem a (libnames L m name) then none else Assoc.lookup a m.aliases)
    pub no_alias_left : (a : String) → Assoc.lookup a m'.aliases ≡ some name → ⊥
    pub global_left :
        (k : String)
        → Assoc.lookup k m'.global ≡ (if str_eq name k then none else Assoc.lookup k m.global)
    pub identities_left :
        (i : FileIdentity) (k : String)
        → (Assoc.lookup i m'.identities ≡ some k)
          ↔ ((Assoc.lookup i m.identities ≡ some k) × (k ≢ name))

  module _ (m : Manager L) (c : IsConsistent L m) (pending : List (String × PendingDylib))
      (ctx : L.Ctx) (without : IsWithout m (removed m pending ctx (libnames L m name)))
      (distinct : IsDistinct pending) where
    abbrev rest : Manager L
    rest = removed m pending ctx (libnames L m name)

    alias_kept :
        (a k : String)
        → Assoc.lookup a rest.aliases ≡ some k
        → (Assoc.lookup a m.aliases ≡ some k) × (str_eq name k ≡ false)
    alias_kept a k h = ground (
      arith,
      lookup-remove_aliases (libnames L m name) a m.aliases c.sound.aliases_distinct,
      c.sound.alias_listed a k,
      str_eq_iff name k,
    )

    removed-Forgets : Forgets m rest
    removed-Forgets = record {
      aliases_left =
          λ a. lookup-remove_aliases (libnames L m name) a m.aliases c.sound.aliases_distinct;
      no_alias_left = λ a h. ground (arith, alias_kept a name h, str_eq_iff name name);
      global_left = λ k. Assoc.lookup-shift_remove name k m.global c.sound.global_distinct;
      identities_left = λ i k. ground (
        arith,
        Assoc.lookup-retain (λ v. not (str_eq v name)) i m.identities c.sound.identities_distinct,
        str_eq_iff k name,
      );
    }

    removed-IsConsistent :
        rest.adds ≡ rest.subs + length pending + length (L.load_order ctx) → IsConsistent L rest
    removed-IsConsistent counted = record {
      sound = record {
        pending_distinct = distinct;
        global_distinct = Assoc.shift_remove-IsDistinct name m.global c.sound.global_distinct;
        aliases_distinct = remove_aliases-IsDistinct _ m.aliases c.sound.aliases_distinct;
        identities_distinct = Assoc.retain-IsDistinct _ m.identities c.sound.identities_distinct;
        disjoint = λ k h.
            ground (arith, without.find_without k, without.pending_without k, c.sound.disjoint k);
        alias_registered = λ a k h. ground (
          arith,
          alias_kept a k h,
          without.find_without k,
          without.pending_without k,
          c.sound.alias_registered a k,
        );
        alias_listed = λ a k h. ground (
          arith,
          alias_kept a k h,
          without.find_without k,
          without.pending_without k,
          c.sound.alias_listed a k,
        );
        identity_registered = λ i k h. ground (
          arith,
          Assoc.lookup-retain (λ v. not (str_eq v name)) i m.identities c.sound.identities_distinct,
          without.find_without k,
          without.pending_without k,
          c.sound.identity_registered i k,
          str_eq_iff name k,
          str_eq_iff k name,
        );
        counted = counted;
      };
      global_matches = λ k. ground (
        arith,
        Assoc.lookup-shift_remove name k m.global c.sound.global_distinct,
        without.find_without k,
        c.global_matches k,
      );
    }

  both_equal_self : (b : Bool) → both_equal b b ≡ true
  both_equal_self true = refl
  both_equal_self false = refl

  module _ (debug : Bool) (m : Manager L) where
    remove_pending_eq :
        (p : PendingDylib)
        → Assoc.lookup name m.pending ≡ some p
        → remove debug L name m
          ≡ done (removed m (Assoc.shift_remove name m.pending) m.link_ctx p.libnames)
    unfolding remove take_entry
    remove_pending_eq p waiting = rw (waiting, take_entry, no_assert debug)

    remove_linked_eq :
        (id : L.KeyId) (x : Entry) (ctx : L.Ctx)
        → Assoc.lookup name m.pending ≡ none
        → committed L m.link_ctx name ≡ some id
        → L.remove m.link_ctx id ≡ some (x.meta, ctx)
        → is_some (Assoc.lookup name m.global) ≡ is_global x.meta.flags
        → remove debug L name m ≡ done (removed m m.pending ctx x.meta.libnames)
    unfolding remove take_entry committed_id
    remove_linked_eq id x ctx e at gone agrees =
        rw (
          e,
          take_entry,
          at,
          gone,
          agrees,
          both_equal_self (is_global x.meta.flags),
          no_assert debug,
        )

  -- `remove` of a registered name of a consistent registry does not panic, with or without debug
  -- assertions, and keeps the registry consistent. Afterwards nothing is registered under the name,
  -- and what is registered under every other name is as before. No alias leads to the name: of the
  -- aliases exactly the names that the library listed as its own are gone, and the others lead to
  -- what they led to. The name is not in the global scope, whose other entries stay, and the file
  -- identities that are left are those that led to another name. The removal is counted.
  pub remove_lem :
      (debug : Bool) (m : Manager L)
      → IsConsistent L m
      → registered L m name ≡ true
      → (m' : Manager L) × (remove debug L name m ≡ done m')
        × IsConsistent L m'
        × IsWithout m m'
        × Forgets m m'
        × (m'.subs ≡ m.subs + 1)
        × (m'.adds ≡ m.adds)
  remove_lem debug m c known = elim (Option-cases (Assoc.lookup name m.pending)) [
    | inr (p, waiting) ↦
        let nothing : find L m.link_ctx name ≡ none = c.sound.disjoint name (rw waiting) in
        let w : IsWithout m (removed m (Assoc.shift_remove name m.pending) m.link_ctx p.libnames) =
          record {
            find_without = λ k. ground (arith, nothing, str_eq_iff name k);
            pending_without =
                λ k. Assoc.lookup-shift_remove name k m.pending c.sound.pending_distinct;
            aliases_without = λ a h.
                ground
                  (arith, lookup-remove_aliases p.libnames a m.aliases c.sound.aliases_distinct);
          } in
        let names : libnames L m name ≡ p.libnames = rw (waiting, libnames) in
        (
          removed m (Assoc.shift_remove name m.pending) m.link_ctx p.libnames,
          remove_pending_eq debug m p waiting,
          subst (λ n. IsConsistent L (removed m (Assoc.shift_remove name m.pending) m.link_ctx n))
              names
              (removed-IsConsistent m c (Assoc.shift_remove name m.pending) m.link_ctx (rw names w)
                (Assoc.shift_remove-IsDistinct name m.pending c.sound.pending_distinct)
                (omega
                  (arith, c.sound.counted, Assoc.length-shift_remove name p m.pending waiting))),
          w,
          subst (λ n. Forgets m (removed m (Assoc.shift_remove name m.pending) m.link_ctx n)) names
              (removed-Forgets m c (Assoc.shift_remove name m.pending) m.link_ctx (rw names w)
                (Assoc.shift_remove-IsDistinct name m.pending c.sound.pending_distinct)),
          refl,
          refl,
        )
    | inl e ↦ elim (Option-cases (find L m.link_ctx name)) [
      | inl f ↦ absurd (ground arith)
      | inr (x, f) ↦
          let (id, at, key, meta, got) = answers_of_find L laws m.link_ctx name x f in
          let (ctx, gone) = laws.remove_committed m.link_ctx name id x at f in
          let w : IsWithout m (removed m m.pending ctx x.meta.libnames) = record {
            find_without = λ k. laws.find_remove m.link_ctx ctx name id x.meta k at gone;
            pending_without = λ k. ground (arith, e, str_eq_iff name k);
            aliases_without = λ a h.
                ground (
                  arith,
                  lookup-remove_aliases x.meta.libnames a m.aliases c.sound.aliases_distinct,
                );
          } in
          let names : libnames L m name ≡ x.meta.libnames = rw (e, libnames, f) in
          (
            removed m m.pending ctx x.meta.libnames,
            remove_linked_eq debug m id x ctx e at gone (rw f at (c.global_matches name)),
            subst (λ n. IsConsistent L (removed m m.pending ctx n)) names
                (removed-IsConsistent m c m.pending ctx (rw names w) c.sound.pending_distinct (
                  omega (arith, c.sound.counted, laws.order_remove m.link_ctx ctx id x.meta gone))),
            w,
            subst (λ n. Forgets m (removed m m.pending ctx n)) names
                (removed-Forgets m c m.pending ctx (rw names w) c.sound.pending_distinct),
            refl,
            refl,
          )
    ]
  ]
