-- ===== src/Flags.antt =====
-- src/lib.rs: `OpenFlags`, a word of flag bits. `bits & other == other` is `contains`, and the
-- operators are those of the `bitflags` macro on the underlying `u32`.
pub mod Laws
use Prim.Native.Nat.{bit_and, bit_or}
use rust_dlopen.Common.{ℕ, Bool, ◌==◌}

abbrev pub OpenFlags : Type 0
OpenFlags = ℕ

abbrev pub rtld_local : OpenFlags
rtld_local = 0

abbrev pub rtld_lazy : OpenFlags
rtld_lazy = 1

abbrev pub rtld_now : OpenFlags
rtld_now = 2

abbrev pub rtld_noload : OpenFlags
rtld_noload = 4

abbrev pub rtld_deepbind : OpenFlags
rtld_deepbind = 8

abbrev pub rtld_global : OpenFlags
rtld_global = 256

abbrev pub rtld_nodelete : OpenFlags
rtld_nodelete = 4096

-- `OpenFlags::empty()`
abbrev pub no_flags : OpenFlags
no_flags = 0

-- `a | b` and `a & b`
unfoldable pub join : OpenFlags → OpenFlags → OpenFlags
join a b = bit_or a b

unfoldable pub meet : OpenFlags → OpenFlags → OpenFlags
meet a b = bit_and a b

-- `a.contains(b)`
unfoldable pub contains : OpenFlags → OpenFlags → Bool
unfolding meet
contains a b = meet a b == b

unfoldable pub is_global : OpenFlags → Bool
unfolding contains
is_global f = contains f rtld_global

unfoldable pub is_nodelete : OpenFlags → Bool
unfolding contains
is_nodelete f = contains f rtld_nodelete

unfoldable pub is_now : OpenFlags → Bool
unfolding contains
is_now f = contains f rtld_now

unfoldable pub is_noload : OpenFlags → Bool
unfolding contains
is_noload f = contains f rtld_noload

unfoldable pub is_lazy : OpenFlags → Bool
unfolding contains
is_lazy f = contains f rtld_lazy

unfoldable pub is_deepbind : OpenFlags → Bool
unfolding contains
is_deepbind f = contains f rtld_deepbind

-- What `dlopen` of a loaded library may add to its flags.
unfoldable pub promotable : OpenFlags → OpenFlags
unfolding join meet
promotable f = meet f (join rtld_global rtld_nodelete)
