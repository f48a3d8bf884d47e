-- ===== src/Machine/Split.antt =====
-- SplitString of transcation/machine.cpp, which reads the list of data formats, against joining.
use dev_hub.Base.{
  ℕ, zero, suc, ◌≤◌, false, Option, none, some, List, [], ◌∷◌, ◌++◌, if◌then◌else◌, ◌==◌, ==_self,
  length, length-append, Text, All, ◌≡◌, ◌≢◌, refl, ap, ◌∙◌, arith,
}

-- What is behind `c` at the beginning of a text.
abbrev pub strip : Text → Text → Option Text
strip [] s = some s
strip (x ∷ c) [] = none
strip (x ∷ c) (y ∷ s) = if x == y then strip c s else none

abbrev pub with_front : ℕ → Option (Text × Text) → Option (Text × Text)
with_front x none = none
with_front x (some (p, r)) = some (x ∷ p, r)

abbrev pub found : Option Text → Option (Text × Text) → Option (Text × Text)
found none other = other
found (some r) other = some ([], r)

-- `find(c)`: what is before the first `c` and what is behind it.
unfoldable pub find : Text → Text → Option (Text × Text)
find c [] = found (strip c []) none
find c (x ∷ s) = found (strip c (x ∷ s)) (with_front x (find c s))

-- One round of SplitString on what is left of the text; the last piece only if it is not empty.
abbrev pub next_piece : (Text → List Text) → Text → Option (Text × Text) → List Text
next_piece more [] none = []
next_piece more (x ∷ s) none = (x ∷ s) ∷ []
next_piece more s (some (p, r)) = p ∷ more r

-- The `while` loop.
unfoldable pub split_loop : ℕ → Text → Text → List Text
unfolding find
split_loop zero c s = []
split_loop (suc fuel) c s = next_piece (split_loop fuel c) s (find c s)

-- SplitString. Each round takes a separator away; an empty separator is not used by the program.
unfoldable pub split_string : Text → Text → List Text
unfolding split_loop
split_string s c = split_loop (suc (length s)) c s

-- The texts with the separator between them.
unfoldable pub join : ℕ → List Text → Text
join c [] = []
join c (w ∷ []) = w
join c (w ∷ x ∷ ws) = let rest = join c (x ∷ ws) in w ++ (c ∷ rest)

abbrev pub Lacks : ℕ → Text → Type 0
Lacks c w = All (λ x. x ≢ c) w

-- The last text, if there is one, is not empty.
abbrev pub EndsFull : List Text → Type 0
EndsFull [] = Unit
EndsFull (w ∷ []) = w ≢ []
EndsFull (w ∷ x ∷ ws) = EndsFull (x ∷ ws)

find-found : (c : ℕ) (w r : Text) → Lacks c w → find (c ∷ []) (w ++ (c ∷ r)) ≡ some (w, r)
unfolding find
find-found c [] r h = rw (==_self c) refl
find-found c (x ∷ w) r h =
    let e : (c == x) ≡ false = ground (arith, h.0) in
    rw e (ap (with_front x) (find-found c w r h.1))

find_nothing : (c : ℕ) (w : Text) → Lacks c w → find (c ∷ []) w ≡ none
unfolding find
find_nothing c [] h = refl
find_nothing c (x ∷ w) h =
    let e : (c == x) ≡ false = ground (arith, h.0) in
    rw e (ap (with_front x) (find_nothing c w h.1))

split_last :
    (fuel c : ℕ) (w : Text) → Lacks c w → w ≢ [] → split_loop (suc fuel) (c ∷ []) w ≡ w ∷ []
unfolding split_loop
split_last fuel c [] h n = elim (n refl) [ ]
split_last fuel c (x ∷ w) h n =
    ap (next_piece (split_loop fuel (c ∷ [])) (x ∷ w)) (find_nothing c (x ∷ w) h)

next_piece-some :
    (more : Text → List Text) (s p r : Text) → next_piece more s (some (p, r)) ≡ p ∷ more r
next_piece-some more [] p r = refl
next_piece-some more (x ∷ s) p r = refl

split_more :
    (fuel c : ℕ) (w r : Text)
    → Lacks c w
    → split_loop (suc fuel) (c ∷ []) (w ++ (c ∷ r)) ≡ w ∷ split_loop fuel (c ∷ []) r
unfolding split_loop
split_more fuel c w r h =
    ap (next_piece (split_loop fuel (c ∷ [])) (w ++ (c ∷ r))) (find-found c w r h)
    ∙ next_piece-some (split_loop fuel (c ∷ [])) (w ++ (c ∷ r)) w r

split_empty : (fuel c : ℕ) → split_loop (suc fuel) (c ∷ []) [] ≡ []
unfolding split_loop find
split_empty fuel c = refl

split_loop-join :
    (fuel c : ℕ) (ws : List Text)
    → length ws ≤ fuel
    → All (Lacks c) ws
    → EndsFull ws
    → split_loop (suc fuel) (c ∷ []) (join c ws) ≡ ws
unfolding join
split_loop-join fuel c [] k h n = split_empty fuel c
split_loop-join fuel c (w ∷ []) k h n = split_last fuel c w h.0 n
split_loop-join zero c (w ∷ x ∷ ws) k h n = ground (arith, k)
split_loop-join (suc fuel) c (w ∷ x ∷ ws) k h n =
    split_more (suc fuel) c w (join c (x ∷ ws)) h.0
    ∙ ap (λ l. w ∷ l) (split_loop-join fuel c (x ∷ ws) (omega (arith, k)) h.1 n)

length_full : (w : Text) → w ≢ [] → 1 ≤ length w
length_full [] n = elim (n refl) [ ]
length_full (x ∷ w) n = omega arith

length-join : (c : ℕ) (ws : List Text) → EndsFull ws → length ws ≤ length (join c ws)
unfolding join
length-join c [] n = omega arith
length-join c (w ∷ []) n = length_full w n
length-join c (w ∷ x ∷ ws) n =
    let rest = length-join c (x ∷ ws) n in
    omega (arith, rest, length-append w (c ∷ join c (x ∷ ws)))

-- Texts without the separator, the last of them not empty, are what SplitString makes of them
-- when they are joined by a separator of one character.
pub split_string-join :
    (c : ℕ) (ws : List Text)
    → All (Lacks c) ws
    → EndsFull ws
    → split_string (join c ws) (c ∷ []) ≡ ws
unfolding split_string
split_string-join c ws h n = split_loop-join (length (join c ws)) c ws (length-join c ws n) h n
