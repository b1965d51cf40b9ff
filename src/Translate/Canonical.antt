-- ===== src/Translate/Canonical.antt =====
-- What translate_path of proot/src/path/path.c gives is the host's place of a canonical guest path.
use doki_proot.Prelude.{◌≡◌, Bool, Bytes, ok}
use doki_proot.Binding.{guest, Bindings, substitute_binding}
use doki_proot.Canon.Canonical.{IsResult}

-- The host's place of a canonical guest path.
abbrev pub IsPlace : Bindings → Bytes → Type 0
IsPlace fs result =
    (canonical : Bytes) × (moves : Bool) × IsResult canonical
    × (substitute_binding fs guest canonical ≡ ok (moves, result))
