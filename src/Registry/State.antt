-- ===== src/Registry/State.antt =====
-- `Manager` of src/core_impl/register.rs.
use rust_dlopen.Common.{ℕ, String, List, []}
use rust_dlopen.Registry.Types.{FileIdentity, LoadedDylib, PendingDylib}
use rust_dlopen.Registry.LinkContext.{LinkContext}

pub record Manager (L : LinkContext) : Type 0 where
  pub pending : List (String × PendingDylib)
  pub global : List (String × LoadedDylib)
  pub aliases : List (String × String)
  pub identities : List (FileIdentity × String)
  pub link_ctx : L.Ctx
  pub adds : ℕ
  pub subs : ℕ

-- The initial value of the static `MANAGER`.
unfoldable pub empty_manager : (L : LinkContext) → Manager L
empty_manager L = record {
  pending = [];
  global = [];
  aliases = [];
  identities = [];
  link_ctx = L.new;
  adds = 0;
  subs = 0;
}
