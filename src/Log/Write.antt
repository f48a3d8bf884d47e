-- ===== src/Log/Write.antt =====
-- write_in_full of tools/ut_log.c: all bytes or an error.
use dev_hub.Base.{
  ℕ, zero, suc, ◌≤◌, ◌≡◌, ◌≢◌, refl, ap, ◌∙◌, Option, none, some, List, [], ◌∷◌, ◌++◌, length, take,
  drop, length-append, Text, arith,
}
use mathlib.Core.List.{append_assoc}
use dev_hub.Log.{Outcome, again, failed, accepts, add_written, write_in_full}
use mathlib.Core.Path.{subst}

-- The outcomes in which a `write` takes at least one byte.
abbrev pub progress : List Outcome → ℕ
progress [] = 0
progress (again ∷ os) = progress os
progress (failed ∷ os) = progress os
progress (accepts zero ∷ os) = progress os
progress (accepts (suc n) ∷ os) = suc (progress os)

take-append-drop : (n : ℕ) (xs : Text) → take n xs ++ drop n xs ≡ xs
take-append-drop zero xs = refl
take-append-drop (suc n) [] = refl
take-append-drop (suc n) (x ∷ xs) = ap (λ r. x ∷ r) (take-append-drop n xs)

length-drop : (n : ℕ) (xs : Text) → length (drop n xs) ≤ length xs
length-drop zero xs = omega arith
length-drop (suc n) [] = omega arith
length-drop (suc n) (x ∷ xs) = omega (arith, length-drop n xs)

-- What a result says about the bytes `buf` that were to be written.
abbrev pub Wrote : Text → Option (Option ℕ × Text) → Type 0
Wrote buf none = ⊥
Wrote buf (some (none, out)) = (rest : Text) × (out ++ rest ≡ buf) × (rest ≢ [])
Wrote buf (some (some total, out)) = (out ≡ buf) × (total ≡ length buf)

add_written-Wrote :
    (front back : Text) (o : Option (Option ℕ × Text))
    → Wrote back o
    → Wrote (front ++ back) (add_written front o)
unfolding add_written
add_written-Wrote front back none h = h
add_written-Wrote front back (some (none, out)) h =
    (h.0, append_assoc front out h.0 ∙ ap (λ r. front ++ r) h.1, h.2)
add_written-Wrote front back (some (some total, out)) h =
    (ap (λ r. front ++ r) h.0, omega (arith, h.1, length-append front back))

-- When the system makes progress at least as often as there are bytes, write_in_full returns:
-- either all bytes are written and the total is their number, or it returns -1 and a proper
-- prefix of them is written.
pub write_in_full-Wrote :
    (os : List Outcome) (buf : Text) → length buf ≤ progress os → Wrote buf (write_in_full os buf)
unfolding write_in_full
write_in_full-Wrote os [] h = (refl, refl)
write_in_full-Wrote [] (c ∷ buf) h = omega arith
write_in_full-Wrote (again ∷ os) (c ∷ buf) h = write_in_full-Wrote os (c ∷ buf) h
write_in_full-Wrote (failed ∷ os) (c ∷ buf) h = (c ∷ buf, refl, ground arith)
write_in_full-Wrote (accepts zero ∷ os) (c ∷ buf) h = (c ∷ buf, refl, ground arith)
write_in_full-Wrote (accepts (suc n) ∷ os) (c ∷ buf) h =
    let rest = write_in_full-Wrote os (drop n buf) (omega (arith, length-drop n buf)) in
    let whole =
      add_written-Wrote (c ∷ take n buf) (drop n buf) (write_in_full os (drop n buf)) rest in
    subst (λ b. Wrote b (add_written (c ∷ take n buf) (write_in_full os (drop n buf))))
      (ap (λ r. c ∷ r) (take-append-drop n buf)) whole
