-- ===== src/Prelude/Text.antt =====
-- Texts put together, as `format!` does.
use Prim.Native.String.{String, ◌++◌}

abbrev pub concat : String → String → String
concat s t = s ++ t
