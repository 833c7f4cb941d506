-- ===== src/Flags/Laws.antt =====
-- The laws of the flag words that the registry relies on.
use Prim.Native.Nat.{bit_and, bit_or}
use rust_dlopen.Common.{◌≡◌, true, ◌||◌, arith, ◌==◌}
use rust_dlopen.Common.Bits.{bit, bit-le-one, bit-bit_and, bit-bit_or, bit_and-pow}
use rust_dlopen.Flags.{OpenFlags, join, contains, is_global, is_nodelete, promotable}

is_global-bit : (f : OpenFlags) → is_global f ≡ (bit 8 f == 1)
unfolding is_global
is_global-bit f = ground (arith, bit_and-pow 8 f, bit-le-one 8 f)

is_nodelete-bit : (f : OpenFlags) → is_nodelete f ≡ (bit 12 f == 1)
unfolding is_nodelete
is_nodelete-bit f = ground (arith, bit_and-pow 12 f, bit-le-one 12 f)

-- Joining flags joins what they say.
pub is_global-join : (f g : OpenFlags) → is_global (join f g) ≡ (is_global f || is_global g)
unfolding join
is_global-join f g = ground (
  arith,
  is_global-bit f,
  is_global-bit g,
  is_global-bit (bit_or f g),
  bit-bit_or 8 f g,
  bit-le-one 8 f,
  bit-le-one 8 g,
)

pub is_nodelete-join : (f g : OpenFlags) → is_nodelete (join f g) ≡ (is_nodelete f || is_nodelete g)
unfolding join
is_nodelete-join f g = ground (
  arith,
  is_nodelete-bit f,
  is_nodelete-bit g,
  is_nodelete-bit (bit_or f g),
  bit-bit_or 12 f g,
  bit-le-one 12 f,
  bit-le-one 12 g,
)

-- `promotable` keeps the two bits.
pub is_global-promotable : (f : OpenFlags) → is_global (promotable f) ≡ is_global f
unfolding promotable bit
is_global-promotable f =
    ground
      (arith, is_global-bit f, is_global-bit (bit_and f 4352), bit-bit_and 8 f 4352, bit-le-one 8 f)

pub is_nodelete-promotable : (f : OpenFlags) → is_nodelete (promotable f) ≡ is_nodelete f
unfolding promotable bit
is_nodelete-promotable f = ground (
  arith,
  is_nodelete-bit f,
  is_nodelete-bit (bit_and f 4352),
  bit-bit_and 12 f 4352,
  bit-le-one 12 f,
)

-- A word that contains another has its bits.
pub contains-is_global :
    (f g : OpenFlags) → contains f g ≡ true → is_global g ≡ true → is_global f ≡ true
unfolding contains
contains-is_global f g h k =
    ground (arith, is_global-bit f, is_global-bit g, bit-bit_and 8 f g, bit-le-one 8 f)

pub contains-is_nodelete :
    (f g : OpenFlags) → contains f g ≡ true → is_nodelete g ≡ true → is_nodelete f ≡ true
unfolding contains
contains-is_nodelete f g h k =
    ground (arith, is_nodelete-bit f, is_nodelete-bit g, bit-bit_and 12 f g, bit-le-one 12 f)
