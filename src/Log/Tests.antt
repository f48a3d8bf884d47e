-- ===== src/Log/Tests.antt =====
-- Runs of the log's functions, and its theorems at concrete inputs.
use dev_hub.Base.{
  ℕ, zero, suc, ◌<◌, ◌≤◌, ◌≡◌, refl, ap, true, false, none, some, List, [], ◌∷◌, ◌++◌, length, take,
  if◌then◌else◌, ◌==◌, drop, Text, codes, arith,
}
use mathlib.Core.List.{append-nil}
use dev_hub.Log.{Outcome, again, accepts, write_in_full, dlogs, by_size}
use dev_hub.Log.Shift.{Files, exists, shift_log, shift_log_keeps}
use dev_hub.Log.Write.{Wrote, write_in_full-Wrote}
use dev_hub.Log.Flush.{TakesAll, unbounded, log_with, disk_with}
use dev_hub.Log.Whole.{HasText}
use dev_hub.Log.Line.{Gives}
use dev_hub.Log.Complete.{lines, dlogs-Gives}

partial_write :
    write_in_full (accepts 2 ∷ again ∷ accepts 9 ∷ []) (codes "hello")
    ≡ some (some 5, codes "hello")
unfolding write_in_full
partial_write = refl

write_in_full-Wrote_example :
    Wrote (codes "hi") (write_in_full (accepts 1 ∷ again ∷ accepts 5 ∷ []) (codes "hi"))
write_in_full-Wrote_example =
    write_in_full-Wrote (accepts 1 ∷ again ∷ accepts 5 ∷ []) (codes "hi") (omega arith)

abbrev whole : ℕ → List Outcome
whole k = accepts 65536 ∷ []

take-all : (n : ℕ) (xs : Text) → length xs ≤ n → take n xs ≡ xs
take-all zero [] h = refl
take-all zero (x ∷ xs) h = absurd (omega arith)
take-all (suc n) [] h = refl
take-all (suc n) (x ∷ xs) h = ap (λ r. x ∷ r) (take-all n xs (omega arith))

drop-all : (n : ℕ) (xs : Text) → length xs ≤ n → drop n xs ≡ []
drop-all zero [] h = refl
drop-all zero (x ∷ xs) h = absurd (omega arith)
drop-all (suc n) [] h = refl
drop-all (suc n) (x ∷ xs) h = drop-all n xs (omega arith)

accepts_all :
    (n : ℕ) (xs : Text)
    → length xs ≤ n
    → write_in_full (accepts n ∷ []) xs ≡ some (some (length xs), xs)
unfolding write_in_full
accepts_all n [] h = refl
accepts_all zero (x ∷ xs) h = absurd (omega arith)
accepts_all (suc n) (x ∷ xs) h =
    rw (drop-all n xs (omega arith)) rw (take-all n xs (omega arith)) rw (append-nil xs)
      (ap (λ m. some (some m, x ∷ xs)) (omega arith))

whole-TakesAll : TakesAll whole
whole-TakesAll k buf h = accepts_all 65536 buf h

abbrev two_lines : List (ℕ × Text × Text)
two_lines = (5, codes "[1] ", codes "up") ∷ (70000, codes "[2] ", codes "down") ∷ []

abbrev old_files : ℕ → Files
old_files q k = if k == 0 then some (codes "old") else none

old-HasText : HasText 1 (codes "old") (old_files 0)
old-HasText = record {
  n = 1;
  few = omega arith;
  chain = record { there = λ k h. ground arith; behind = λ k h. ground arith };
  content = refl;
}

-- A file above the limit of three bytes is rotated.
dlogs-Gives_example :
    Gives 0 5 ((codes "old" ++ []) ++ lines two_lines) (unbounded by_size 3 false false) 0 (
      dlogs
        (λ type sec. sec)
        9
        whole
        two_lines
        (log_with (unbounded by_size 3 false false) [] 0 0)
        (disk_with old_files 0))
dlogs-Gives_example =
    dlogs-Gives (λ type sec. sec) 9 by_size 3 false false whole whole-TakesAll two_lines [] 0 0 0 1
      old_files 0 (codes "old") ((refl, omega arith), ((refl, omega arith), tt)) (omega arith)
      old-HasText (omega arith)

abbrev rotated : Files
rotated zero = some (codes "full")
rotated (suc zero) = some (codes "old")
rotated (suc (suc k)) = none

rotated_there : (k : ℕ) → k < 2 → exists (rotated k) ≡ true
rotated_there zero h = refl
rotated_there (suc zero) h = refl
rotated_there (suc (suc k)) h = absurd (omega arith)

shift_log_keeps_example :
    (shift_log 9 4 0 rotated 0 ≡ none)
    × ((k : ℕ) → k < 2 → shift_log 9 4 0 rotated (suc k) ≡ rotated k)
shift_log_keeps_example =
    shift_log_keeps 9 4 2 rotated (codes "full") refl (omega arith) (omega arith)
      (record { there = rotated_there; end = refl }) (omega arith)
