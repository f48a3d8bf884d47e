-- ===== src/Scanner/Tests.antt =====
-- Runs of the scanners, and their theorems at concrete inputs.
use dev_hub.Base.{
  ℕ, zero, suc, true, none, some, List, [], ◌∷◌, ◌++◌, length, Text, codes, pos, Json, ◌≡◌, refl,
  arith,
}
use dev_hub.Scanner.{key_ascii_map, on_data, scan_report, keyence_on_data, c_string}
use dev_hub.Scanner.Typed.{clean, stroke, strokes, AreKeysOf}
use dev_hub.Scanner.Enter.{scan_reported, scan_overruns}

abbrev plain : Json → Text
plain v = codes "json"

-- The table has 51 entries, so that the code 51 passes the test and is read behind it.
table_size : length key_ascii_map ≡ 51
table_size = refl

behind_the_table : on_data plain (stroke 51 (pos 0)) (clean (codes "usb") true []) ≡ none
unfolding on_data dev_hub.Scanner.on_event
behind_the_table = refl

keyence_text :
    keyence_on_data plain (codes "k") true (pos 3) (49 ∷ 50 ∷ 0 ∷ 51 ∷ []) ≡ codes "json" ∷ []
unfolding keyence_on_data
keyence_text = refl

-- The keys 2, 30 and 50 are "1", "a" and "m".
scan_reported_example :
    on_data plain
      (strokes (2 ∷ 30 ∷ 50 ∷ []) (pos 7) ++ stroke 28 (pos 7))
      (clean (codes "usb") true [])
    ≡ some (
        clean
          (codes "usb")
          true
          ([] ++ (plain (scan_report (codes "usb") (pos 7) (codes "1am")) ∷ [])))
scan_reported_example =
    scan_reported plain (2 ∷ 30 ∷ 50 ∷ []) (codes "1am") (pos 7) (codes "usb") []
      (refl, ground arith, (refl, ground arith, (refl, ground arith, tt))) (omega arith)
      (omega arith)

abbrev many : ℕ → ℕ → List ℕ
many zero v = []
many (suc n) v = v ∷ many n v

many_keys : (n : ℕ) → AreKeysOf (many n 30) (many n 97)
many_keys zero = tt
many_keys (suc n) = (refl, ground arith, many_keys n)

scan_overruns_example :
    on_data plain (strokes (many 50 30) (pos 7) ++ stroke 28 (pos 7)) (clean (codes "usb") true [])
    ≡ none
scan_overruns_example =
    scan_overruns plain (many 50 30) (many 50 97) (pos 7) (codes "usb") [] (many_keys 50) refl
