-- ===== src/Prelude/Text.antt =====
-- Texts put together, as `fmt.Sprintf` and `strings.Join` do.
use Prim.Native.String.{String, ◌++◌}
use mathlib.Core.List.{List, [], ◌∷◌}

unfoldable pub concat : List String → String
concat [] = ""
concat (s ∷ texts) = s ++ concat texts
