-- ===== src/Prelude/Text.antt =====
-- C string literals as bytes.
use Prim.Native.Char.{code}
use Prim.Native.String.{String}
use mathlib.Core.List.{[], ◌∷◌}
use agentx_subagent.Prelude.Lists.{Bytes}

-- The code points of an ASCII text are its bytes.
abbrev pub text : String → Bytes
text String.[] = []
text (String.◌∷◌ c s) = code c ∷ text s
