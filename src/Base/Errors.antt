-- ===== src/Base/Errors.antt =====
-- Go errors: a sentinel value, or a message around another error (`fmt.Errorf` with `%w`).
use mathlib.Core.Bool.{Bool, false}
use Prim.Native.String.{String}
use text.Mathlib.Text.{◌==◌}

pub data GoError : Type 0 where
  sentinel : String → GoError
  wrapped : String → GoError → GoError

-- err == ErrX, which looks at the outermost error only.
unfoldable pub is_same : GoError → String → Bool
is_same (sentinel name) target = name == target
is_same (wrapped message e) target = false

-- errors.Is(err, ErrX)
unfoldable pub is_error : GoError → String → Bool
is_error (sentinel name) target = name == target
is_error (wrapped message e) target = is_error e target
