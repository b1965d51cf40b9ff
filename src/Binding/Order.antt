-- ===== src/Binding/Order.antt =====
-- The order of a list of bindings: a directory never stands before what lies below it, so that
-- the first match of a search is the deepest. Insertion keeps the order.
pub mod Scan
pub mod Insert
use doki_proot.Prelude.{◌≢◌, List, [], ◌∷◌, All}
use doki_proot.Path.Compare.Relate.{Within}
use doki_proot.Binding.{Side, guest, host, pending, Binding}
use doki_proot.Binding.Keys.{key}

-- Two bindings of one place do not stand in one list, except on the host side.
abbrev pub Distinct : Side → Binding → Binding → Type 0
Distinct host b c = Unit
Distinct guest b c = key guest b ≢ key guest c
Distinct pending b c = key pending b ≢ key pending c

-- What holds of a binding and one behind it.
abbrev pub Apart : Side → Binding → Binding → Type 0
Apart side b c = (¬ Within (key side b) (key side c)) × Distinct side b c

abbrev pub IsOrdered : Side → List Binding → Type 0
IsOrdered side [] = Unit
IsOrdered side (b ∷ l) = All (Apart side b) l × IsOrdered side l
