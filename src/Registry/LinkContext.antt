-- ===== src/Registry/LinkContext.antt =====
-- The link context of the ELF loader library, which the registry keeps its linked modules in: the
-- operations that register.rs calls, and the behaviour that it counts on.
use rust_dlopen.Common.{
  suc, String, ◌≡◌, Bool, true, Option, none, some, List, [], is_some, length, if◌then◌else◌,
}
use rust_dlopen.Common.Eq.{str_eq}
use rust_dlopen.Registry.Types.{LoadedDylib, GlobalMeta}

-- `LinkContext<String, ExtraData, GlobalMeta>`; writing through `meta_mut` is `set_meta`.
pub record LinkContext : Type 1 where
  pub Ctx : Type 0
  pub KeyId : Type 0
  pub new : Ctx
  pub key_id : Ctx → String → Option KeyId
  pub key : Ctx → KeyId → Option String
  pub contains : Ctx → KeyId → Bool
  pub contains_key : Ctx → String → Bool
  pub get : Ctx → KeyId → Option LoadedDylib
  pub meta : Ctx → KeyId → Option GlobalMeta
  pub set_meta : Ctx → KeyId → GlobalMeta → Ctx
  pub direct_deps : Ctx → KeyId → Option (List KeyId)
  pub dependency_modules : Ctx → KeyId → List LoadedDylib
  pub load_order : Ctx → List KeyId
  pub insert_with_meta : Ctx → String → LoadedDylib → List String → GlobalMeta → Option Ctx
  pub remove : Ctx → KeyId → Option (GlobalMeta × Ctx)

-- A linked module with its metadata.
pub record Entry : Type 0 where
  pub module_ : LoadedDylib
  pub meta : GlobalMeta

module _ (L : LinkContext) where
  -- The identifier of a key under which a module is committed.
  unfoldable pub committed : L.Ctx → String → Option L.KeyId
  committed c k = elim (L.key_id c k) [
    | none ↦ none
    | some id ↦ if L.contains c id then some id else none
  ]

  unfoldable pub entry_at : L.Ctx → L.KeyId → Option Entry
  entry_at c id = elim (L.get c id) [
    | none ↦ none
    | some m ↦ elim (L.meta c id) [ none ↦ none | some x ↦ some (record { module_ = m; meta = x }) ]
  ]

  -- What is committed under a key.
  unfoldable pub find : L.Ctx → String → Option Entry
  find c k = elim (committed c k) [ none ↦ none | some id ↦ entry_at c id ]

  abbrev pub with_meta : GlobalMeta → Option Entry → Option Entry
  with_meta x none = none
  with_meta x (some e) = some (record e { meta = x })

  -- What the registry relies on.
  pub record LinkContextLaws : Type 0 where
    -- A committed identifier has a module and metadata.
    pub contains_entry :
        (c : L.Ctx) (id : L.KeyId) → L.contains c id ≡ true → (e : Entry) × (entry_at c id ≡ some e)
    pub contains_key_find : (c : L.Ctx) (k : String) → L.contains_key c k ≡ is_some (find c k)
    pub find_new : (k : String) → find L.new k ≡ none
    pub order_new : L.load_order L.new ≡ []
    -- A new key is accepted, and is the only one that changes.
    pub insert_new :
        (c : L.Ctx) (k : String) (m : LoadedDylib) (d : List String) (x : GlobalMeta)
        → find c k ≡ none
        → (c' : L.Ctx) × (L.insert_with_meta c k m d x ≡ some c')
    pub find_insert :
        (c c' : L.Ctx) (k : String) (m : LoadedDylib) (d : List String) (x : GlobalMeta)
        (j : String)
        → L.insert_with_meta c k m d x ≡ some c'
        → find c' j ≡ (if str_eq k j then some (record { module_ = m; meta = x }) else find c j)
    pub order_insert :
        (c c' : L.Ctx) (k : String) (m : LoadedDylib) (d : List String) (x : GlobalMeta)
        → L.insert_with_meta c k m d x ≡ some c'
        → length (L.load_order c') ≡ suc (length (L.load_order c))
    pub find_set_meta :
        (c : L.Ctx) (k : String) (id : L.KeyId) (x : GlobalMeta) (j : String)
        → committed c k ≡ some id
        → find (L.set_meta c id x) j ≡ (if str_eq k j then with_meta x (find c k) else find c j)
    pub committed_set_meta :
        (c : L.Ctx) (id : L.KeyId) (x : GlobalMeta) (k : String)
        → committed (L.set_meta c id x) k ≡ committed c k
    pub order_set_meta :
        (c : L.Ctx) (id : L.KeyId) (x : GlobalMeta)
        → length (L.load_order (L.set_meta c id x)) ≡ length (L.load_order c)
    -- A committed module can be removed, and only its key changes.
    pub remove_committed :
        (c : L.Ctx) (k : String) (id : L.KeyId) (e : Entry)
        → committed c k ≡ some id
        → find c k ≡ some e
        → (c' : L.Ctx) × (L.remove c id ≡ some (e.meta, c'))
    pub find_remove :
        (c c' : L.Ctx) (k : String) (id : L.KeyId) (x : GlobalMeta) (j : String)
        → committed c k ≡ some id
        → L.remove c id ≡ some (x, c')
        → find c' j ≡ (if str_eq k j then none else find c j)
    pub order_remove :
        (c c' : L.Ctx) (id : L.KeyId) (x : GlobalMeta)
        → L.remove c id ≡ some (x, c')
        → suc (length (L.load_order c')) ≡ length (L.load_order c)
