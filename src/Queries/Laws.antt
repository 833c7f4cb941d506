-- ===== src/Queries/Laws.antt =====
-- The symbol that `dladdr` of src/api/dladdr.rs chooses.
use rust_dlopen.Common.{
  ℕ, suc, ◌≡◌, ◌≤◌, ◌⊎◌, String, Bool, true, ◌&&◌, Option, none, some, List, get_elem?,
  if◌then◌else◌,
}
use rust_dlopen.Registry.LinkContext.{LinkContext}
use rust_dlopen.Queries.{ElfSymbol, DlInfo, start_of, overlaps, is_better, take_name}

-- The table has, at some index, a symbol with this start and name that overlaps the address.
abbrev pub Overlapped : List ElfSymbol → ℕ → ℕ → ℕ → ℕ → String → Type 0
Overlapped syms addr base i start name =
    (s : ElfSymbol) × (get_elem? syms i ≡ some s)
    × (overlaps addr base s ≡ true)
    × (start_of base s ≡ start)
    × (s.cname ≡ some name)

-- One more than the start, and 0 for no match.
abbrev reach : Option (ℕ × String) → ℕ
reach none = 0
reach (some (start, name)) = suc start

-- The body of the loop, of what it computes of a symbol.
abbrev chosen : Bool → ℕ → Option String → Option (ℕ × String) → Option (ℕ × String)
chosen o start name best = if o && is_better start best then take_name start name best else best

-- The start and the name of a match, or what is given for no match.
abbrev start_or : ℕ → Option (ℕ × String) → ℕ
start_or d none = d
start_or d (some (start, name)) = start

abbrev name_of : Option (ℕ × String) → Option String
name_of none = none
name_of (some (start, name)) = some name

abbrev symbol_or : ElfSymbol → Option ElfSymbol → ElfSymbol
symbol_or d none = d
symbol_or d (some s) = s

-- What is stored says of the table: that no symbol with a name overlaps the address, or which of
-- those that do starts last.
abbrev pub Describes : List ElfSymbol → ℕ → DlInfo → Type 0
Describes syms addr info =
    let base = info.dylib.inner.base in
    ((info.sname ≡ none)
      × (info.saddr ≡ 0)
      × ((i start : ℕ) (name : String) → Overlapped syms addr base i start name → ⊥))
    ⊎ ((i : ℕ) × (name : String) × (info.sname ≡ some name)
        × Overlapped syms addr base i info.saddr name
        × ((j start : ℕ) (other : String)
            → Overlapped syms addr base j start other
            → start ≤ info.saddr))

abbrev info_or : DlInfo → Option DlInfo → DlInfo
info_or d none = d
info_or d (some info) = info
