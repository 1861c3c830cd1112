-- ===== src/Examples/Scripts.antt =====
-- Concrete inputs for the theorems on src/execve/shebang.c.
use proot.Prelude.{◌≡◌, refl, [], ◌∷◌, none, ok, arith}
use proot.Shebang.{extract_shebang, script, space}
use proot.Shebang.Line.{shebang-no_newline}

-- "#! sh" runs "s".
shebang-no_newline_example :
    extract_shebang 128
      (ok (record { bytes = b'#' ∷ b'!' ∷ space ∷ b's' ∷ b'h' ∷ []; failure = none }))
    ≡ ok (script (b's' ∷ []) [])
shebang-no_newline_example =
    shebang-no_newline 128 (space ∷ []) b's' [] b'h' (refl, tt) ((refl, refl, omega arith), tt)
      (refl, refl, omega arith) (omega arith)
