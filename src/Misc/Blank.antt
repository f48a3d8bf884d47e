-- ===== src/Misc/Blank.antt =====
-- strclearblank of tools/ut_misc.c, which works in place.
use mathlib.Core.List.{append_assoc, append-nil}
use dev_hub.Base.{
  ℕ, suc, ◌+◌, ◌≡◌, ◌≢◌, refl, sym, ap, ◌∙◌, List, [], ◌∷◌, ◌++◌, Text, if◌then◌else◌, length,
  length-append, get_or, get_or-middle, set, All, arith, Bool-cases, inl, inr,
}
use dev_hub.Misc.{isblank, clear_loop, strlen, strclearblank}
use dev_hub.Scanner.{c_string}

abbrev pub without_blanks : Text → Text
without_blanks [] = []
without_blanks (c ∷ cs) = let rest = without_blanks cs in if isblank c then rest else c ∷ rest

set-middle : (d r : Text) (x c : ℕ) → set (d ++ (x ∷ r)) (length d) c ≡ d ++ (c ∷ r)
set-middle [] r x c = refl
set-middle (y ∷ d) r x c = ap (λ m. y ∷ m) (set-middle d r x c)

-- What stands between the characters that are kept and those that are not read yet.
abbrev push : Text → ℕ → Text
push [] c = []
push (y ∷ js) c = js ++ (c ∷ [])

abbrev junk : Text → Text → Text
junk j [] = j
junk j (c ∷ cs) = if isblank c then junk (j ++ (c ∷ [])) cs else junk (push j c) cs

set-push :
    (d j r : Text) (c : ℕ)
    → set (d ++ (j ++ (c ∷ r))) (length d) c ≡ (d ++ (c ∷ [])) ++ (push j c ++ r)
set-push d [] r c = set-middle d r c c ∙ sym (append_assoc d (c ∷ []) r)
set-push d (y ∷ js) r c =
    set-middle d (js ++ (c ∷ r)) y c
    ∙ (ap (λ m. d ++ (c ∷ m)) (sym (append_assoc js (c ∷ []) r))
        ∙ sym (append_assoc d (c ∷ []) ((js ++ (c ∷ [])) ++ r)))

length-push : (j : Text) (c : ℕ) → length (push j c) ≡ length j
length-push [] c = refl
length-push (y ∷ js) c = omega (arith, length-append js (c ∷ []))

get_or-behind : (d j r : Text) (c : ℕ) → get_or (d ++ (j ++ (c ∷ r))) (length d + length j) 0 ≡ c
get_or-behind d j r c =
    rw (← append_assoc d j (c ∷ r), ← length-append d j) (get_or-middle (d ++ j) r c)

-- `m` has what is kept, `d`, junk, `j`, and what is not read yet.
clear_loop_lem :
    (cs d j r : Text) (i pos : ℕ) (m : List ℕ)
    → m ≡ d ++ (j ++ (cs ++ r))
    → i ≡ length d + length j
    → pos ≡ length d
    → clear_loop (length cs) i pos m
      ≡ ((d ++ without_blanks cs) ++ (junk j cs ++ r), length (d ++ without_blanks cs))
unfolding clear_loop
clear_loop_lem [] d j r i pos m em ei ep = rw (append-nil d, em, ep) refl
clear_loop_lem (c ∷ cs) d j r i pos m em ei ep =
    let g : get_or m i 0 ≡ c = rw (em, ei) (get_or-behind d j (cs ++ r) c) in
    rw g (elim (Bool-cases (isblank c)) [
      | inl b ↦ rw b (
          clear_loop_lem cs d (j ++ (c ∷ [])) r (suc i) pos m
            (em ∙ ap (λ x. d ++ x) (sym (append_assoc j (c ∷ []) (cs ++ r))))
            (omega (arith, ei, length-append j (c ∷ []))) ep)
      | inr b ↦ rw b (
          clear_loop_lem cs (d ++ (c ∷ [])) (push j c) r (suc i) (suc pos) (set m pos c)
            (rw (em, ep) (set-push d j (cs ++ r) c))
            (omega (arith, ei, length-append d (c ∷ []), length-push j c))
            (omega (arith, ep, length-append d (c ∷ [])))
          ∙ rw (append_assoc d (c ∷ []) (without_blanks cs)) refl)
    ])

strlen-terminated : (s r : Text) → All (λ c. c ≢ 0) s → strlen (s ++ (0 ∷ r)) ≡ length s
strlen-terminated [] r h = refl
strlen-terminated (c ∷ s) r h = ground (arith, h.0, strlen-terminated s r h.1)

c_string-terminated : (s r : Text) → All (λ c. c ≢ 0) s → c_string (s ++ (0 ∷ r)) ≡ s
unfolding c_string
c_string-terminated [] r h = refl
c_string-terminated (c ∷ s) r h = ground (arith, h.0, c_string-terminated s r h.1)

without_blanks-nonzero : (s : Text) → All (λ c. c ≢ 0) s → All (λ c. c ≢ 0) (without_blanks s)
without_blanks-nonzero [] h = tt
without_blanks-nonzero (c ∷ s) h = elim (Bool-cases (isblank c)) [
  | inl b ↦ rw b (without_blanks-nonzero s h.1)
  | inr b ↦ rw b (h.0, without_blanks-nonzero s h.1)
]

c_string-ended :
    (d j r : Text) → All (λ c. c ≢ 0) d → c_string (set (d ++ (j ++ (0 ∷ r))) (length d) 0) ≡ d
c_string-ended d [] r h = rw (set-middle d r 0 0) (c_string-terminated d r h)
c_string-ended d (y ∷ j) r h =
    rw (set-middle d (j ++ (0 ∷ r)) y 0) (c_string-terminated d (j ++ (0 ∷ r)) h)

-- On memory with a string and its NUL strclearblank leaves the string without its blanks and tabs.
pub strclearblank-without_blanks :
    (str tail : Text)
    → All (λ c. c ≢ 0) str
    → c_string (strclearblank (str ++ (0 ∷ tail))) ≡ without_blanks str
unfolding strclearblank
strclearblank-without_blanks str tail h =
    rw
      (
        strlen-terminated str tail h,
        clear_loop_lem str [] [] (0 ∷ tail) 0 0 (str ++ (0 ∷ tail)) refl refl refl,
      )
      (c_string-ended (without_blanks str) (junk [] str) tail (without_blanks-nonzero str h))
