-- ===== src/Tests/Table.antt =====
-- A link context that keeps its modules in a table, as an instance of the interface.
use mathlib.Core.Option
use rust_dlopen.Common.{
  String, ◌≡◌, refl, sym, ap, ◌∙◌, true, Option, none, some, List, [], ◌∷◌, map, is_some, length,
  arith, Option-cases, inl, inr, if◌then◌else◌,
}
use rust_dlopen.Common.Assoc
use rust_dlopen.Common.Assoc.{IsDistinct}
use rust_dlopen.Common.Eq.{str_eq, str_eq_iff, string_eq}
use rust_dlopen.Registry.Types.{GlobalMeta}
use rust_dlopen.Registry.LinkContext.{
  LinkContext, LinkContextLaws, Entry, committed, entry_at, find, with_meta,
}

abbrev pub Modules : Type 0
Modules = List (String × Entry)

abbrev pub Table : Type 0
Table = (t : Modules) × IsDistinct t

abbrev set_entry : Table → String → GlobalMeta → Option Entry → Table
set_entry c k x none = c
set_entry c k x (some e) = (
  Assoc.insert k (record e { meta = x }) c.0,
  Assoc.insert-IsDistinct k (record e { meta = x }) c.0 c.1,
)

abbrev add_entry : Table → String → Entry → Option Entry → Option Table
add_entry c k e none = some (Assoc.insert k e c.0, Assoc.insert-IsDistinct k e c.0 c.1)
add_entry c k e (some old) = none

abbrev take_out : Table → String → Option Entry → Option (GlobalMeta × Table)
take_out c k none = none
take_out c k (some e) =
    some (e.meta, (Assoc.shift_remove k c.0, Assoc.shift_remove-IsDistinct k c.0 c.1))

abbrev pub table : LinkContext
table = record {
  Ctx = Table;
  KeyId = String;
  new = ([], tt);
  key_id = λ c k. some k;
  key = λ c id. Option.map (λ _. id) (Assoc.lookup id c.0);
  contains = λ c id. is_some (Assoc.lookup id c.0);
  contains_key = λ c k. is_some (Assoc.lookup k c.0);
  get = λ c id. Option.map (λ e. e.module_) (Assoc.lookup id c.0);
  meta = λ c id. Option.map (λ e. e.meta) (Assoc.lookup id c.0);
  set_meta = λ c id x. set_entry c id x (Assoc.lookup id c.0);
  direct_deps = λ c id. Option.map (λ _. []) (Assoc.lookup id c.0);
  dependency_modules = λ c id. [];
  load_order = λ c. map (λ p. p.0) c.0;
  insert_with_meta =
      λ c k m d x. add_entry c k (record { module_ = m; meta = x }) (Assoc.lookup k c.0);
  remove = λ c id. take_out c id (Assoc.lookup id c.0);
}

pub find-lookup : (c : Table) (k : String) → find table c k ≡ Assoc.lookup k c.0
unfolding find committed entry_at
find-lookup c k = ground arith

length-order : (t : Modules) → length (map (λ p. p.0) t) ≡ length t
length-order [] = refl
length-order (p ∷ t) = ground (arith, length-order t)

abbrev modules : Option Table → Modules
modules none = []
modules (some c) = c.0

abbrev modules_left : Option (GlobalMeta × Table) → Modules
modules_left none = []
modules_left (some (x, c)) = c.0

added :
    (c c' : Table) (k : String) (e : Entry) (o : Option Entry)
    → add_entry c k e o ≡ some c'
    → (o ≡ none) × (c'.0 ≡ Assoc.insert k e c.0)
added c c' k e none h = (refl, sym (ap modules h))
added c c' k e (some old) h = absurd (cc)

taken :
    (c c' : Table) (k : String) (x : GlobalMeta) (o : Option Entry)
    → take_out c k o ≡ some (x, c')
    → (e : Entry) × (o ≡ some e) × (c'.0 ≡ Assoc.shift_remove k c.0)
taken c c' k x none h = absurd (cc)
taken c c' k x (some e) h = (e, refl, sym (ap modules_left h))

set_lookup :
    (c : Table) (k j : String) (x : GlobalMeta) (o : Option Entry)
    → Assoc.lookup k c.0 ≡ o
    → Assoc.lookup j (set_entry c k x o).0
      ≡ (if str_eq k j then with_meta table x o else Assoc.lookup j c.0)
set_lookup c k j x none h = ground (arith, str_eq_iff k j)
set_lookup c k j x (some e) h = Assoc.lookup-insert k j (record e { meta = x }) c.0

set_length :
    (c : Table) (k : String) (x : GlobalMeta) (o : Option Entry)
    → Assoc.lookup k c.0 ≡ o
    → length (set_entry c k x o).0 ≡ length c.0
set_length c k x none h = refl
set_length c k x (some e) h = Assoc.length-insert_old k (record e { meta = x }) e c.0 h

committed_key :
    (c : Table) (k id : String)
    → committed table c k ≡ some id
    → (id ≡ k) × (is_some (Assoc.lookup k c.0) ≡ true)
unfolding committed
committed_key c k id h = (ground arith, ground arith)

committed-lookup :
    (c : Table) (k : String)
    → committed table c k ≡ (if is_some (Assoc.lookup k c.0) then some k else none)
unfolding committed
committed-lookup c k = refl

entry-lookup : (c : Table) (k : String) → entry_at table c k ≡ Assoc.lookup k c.0
unfolding entry_at
entry-lookup c k = ground arith

insertable :
    (c : Table) (k : String) (e : Entry) (o : Option Entry)
    → o ≡ none
    → (c' : Table) × (add_entry c k e o ≡ some c')
insertable c k e none h = (_, refl)
insertable c k e (some old) h = absurd (cc)

removable :
    (c : Table) (k : String) (e : Entry) (o : Option Entry)
    → o ≡ some e
    → (c' : Table) × (take_out c k o ≡ some (e.meta, c'))
removable c k e none h = absurd (cc)
removable c k e (some old) h =
    let same : old ≡ e = ground (arith, h) in
    let left : Table = (Assoc.shift_remove k c.0, Assoc.shift_remove-IsDistinct k c.0 c.1) in
    (left, ap (λ (x : Entry). some (x.meta, left)) same)

is_some-set :
    (c : Table) (k j : String) (x : GlobalMeta)
    → is_some (Assoc.lookup j (set_entry c k x (Assoc.lookup k c.0)).0)
      ≡ is_some (Assoc.lookup j c.0)
is_some-set c k j x = ground (arith, set_lookup c k j x (Assoc.lookup k c.0) refl, str_eq_iff k j)

pub table-LinkContextLaws : LinkContextLaws table
table-LinkContextLaws = record {
  contains_entry = λ c id h. elim (Option-cases (Assoc.lookup id c.0)) [
    | inl e ↦ absurd (ground (arith, e))
    | inr (x, e) ↦ (x, entry-lookup c id ∙ e)
  ];
  contains_key_find = λ c k. rw (find-lookup c k);
  find_new = λ k. find-lookup ([], tt) k ∙ (unfold Assoc.lookup in refl);
  order_new = refl;
  insert_new = λ c k m d x h. insertable c k _ (Assoc.lookup k c.0) (sym (find-lookup c k) ∙ h);
  find_insert = λ c c' k m d x j h.
      let (fresh, e) = added c c' k _ (Assoc.lookup k c.0) h in
      rw (find-lookup c' j, find-lookup c j, e) (Assoc.lookup-insert k j _ c.0);
  order_insert = λ c c' k m d x h.
      let (fresh, e) = added c c' k _ (Assoc.lookup k c.0) h in
      rw (length-order c'.0, length-order c.0, e) (Assoc.length-insert_new k _ c.0 fresh);
  find_set_meta = λ c k id x j h.
      let (same, there) = committed_key c k id h in
      rw (same, find-lookup (table.set_meta c k x) j, find-lookup c j, find-lookup c k)
        (set_lookup c k j x (Assoc.lookup k c.0) refl);
  committed_set_meta = λ c id x k.
      rw (committed-lookup (table.set_meta c id x) k, committed-lookup c k, is_some-set c id k x);
  order_set_meta = λ c id x.
      rw (length-order (table.set_meta c id x).0, length-order c.0)
        (set_length c id x (Assoc.lookup id c.0) refl);
  remove_committed = λ c k id e h f.
      let (same, there) = committed_key c k id h in
      removable c id e (Assoc.lookup id c.0) (rw same (sym (find-lookup c k) ∙ f));
  find_remove = λ c c' k id x j h f.
      let (same, there) = committed_key c k id h in
      let (e, found, left) = taken c c' id x (Assoc.lookup id c.0) f in
      rw (find-lookup c' j, find-lookup c j, left, same) (Assoc.lookup-shift_remove k j c.0 c.1);
  order_remove = λ c c' id x h.
      let (e, found, left) = taken c c' id x (Assoc.lookup id c.0) h in
      rw (length-order c'.0, length-order c.0, left) (Assoc.length-shift_remove id e c.0 found);
}

pub single-IsDistinct : (k : String) (e : Entry) → IsDistinct ((k, e) ∷ [])
unfolding Assoc.lookup
single-IsDistinct k e = (refl, tt)
