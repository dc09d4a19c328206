-- ===== src/Prelude/Texts.antt =====
-- Texts put together, as by fmt.Sprintf.
use Prim.Native.String.{String}
use Prim.Native.String.{◌++◌ as append}
use mathlib.Core.List.{List, [], ◌∷◌}

abbrev pub concat : List String → String
concat [] = ""
concat (s ∷ ss) = append s (concat ss)
