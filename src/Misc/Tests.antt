-- ===== src/Misc/Tests.antt =====
-- Runs of the functions on memory and text, and their theorems at concrete inputs.
use dev_hub.Base.{◌≡◌, refl, [], ◌∷◌, ◌++◌, codes, arith}
use dev_hub.Misc.{bin2hex, strclearblank}
use dev_hub.Misc.Blank.{strclearblank-without_blanks}
use dev_hub.Scanner.{c_string}

printed : bin2hex (0 ∷ 171 ∷ 255 ∷ []) ≡ codes "00abff"
unfolding bin2hex
printed = refl

strclearblank-without_blanks_example :
    c_string (strclearblank (codes " a b" ++ (0 ∷ 99 ∷ []))) ≡ codes "ab"
strclearblank-without_blanks_example =
    strclearblank-without_blanks (codes " a b") (99 ∷ [])
      (ground arith, (ground arith, (ground arith, (ground arith, tt))))
