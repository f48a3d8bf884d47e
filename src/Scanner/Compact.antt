-- ===== src/Scanner/Compact.antt =====
-- The loop of equipment/Scanner.cpp that takes every second character of a buffer in place.
use dev_hub.Base.{
  ℕ, zero, suc, ◌+◌, ◌*◌, ◌≤◌, ◌<◌, false, some, List, [], ◌∷◌, ◌++◌, ◌==◌, ==_iff, get_elem?,
  get_or, set, Text, length, length-set, get_or-set, All, ◌≡◌, ◌≢◌, refl, ap, ◌∙◌, inl, inr, arith,
  Bool-cases,
}
use dev_hub.Scanner.{with_char, compact, c_string}

get_elem?-get_or : (xs : List ℕ) (i : ℕ) → i < length xs → get_elem? xs i ≡ some (get_or xs i 0)
get_elem?-get_or [] i h = absurd (omega arith)
get_elem?-get_or (x ∷ xs) zero h = refl
get_elem?-get_or (x ∷ xs) (suc i) h = get_elem?-get_or xs i (omega arith)

-- After the rounds before `j` on `a`: the places up to `j` hold every second character of `a`, the
-- others what they held.
pub record IsHalfway (a b : List ℕ) (j : ℕ) : Type 0 where
  pub size : length b ≡ length a
  pub done : (x : ℕ) → x ≤ j → get_or b x 0 ≡ get_or a (x * 2) 0
  pub rest : (x : ℕ) → j < x → get_or b x 0 ≡ get_or a x 0

round-IsHalfway :
    (a b : List ℕ) (j : ℕ)
    → suc j * 2 < length a
    → IsHalfway a b j
    → IsHalfway a (set b (suc j) (get_or b (j * 2 + 2) 0)) (suc j)
round-IsHalfway a b j h i =
    let e : j * 2 + 2 ≡ suc j * 2 = omega arith in
    let c = get_or b (j * 2 + 2) 0 in
    let here : c ≡ get_or a (suc j * 2) 0 =
      i.rest (j * 2 + 2) (omega arith) ∙ ap (λ k. get_or a k 0) e in
    record {
      size = length-set b (suc j) c ∙ i.size;
      done = λ x k.
          get_or-set b (suc j) x c (omega (arith, i.size)) ∙ elim (Bool-cases (suc j == x)) [
            | inl z ↦ rw z (here ∙ ap (λ m. get_or a (m * 2) 0) ((==_iff (suc j) x).0 z))
            | inr z ↦ let n : x ≤ j = ground (arith, k, z) in rw z (i.done x n)
          ];
      rest = λ x k.
          get_or-set b (suc j) x c (omega (arith, i.size))
          ∙ (let z : (suc j == x) ≡ false = ground (arith, k) in rw z (i.rest x (omega arith)));
    }

pub compact-IsHalfway :
    (n j : ℕ) (a b : List ℕ)
    → (j + n) * 2 < length a
    → IsHalfway a b j
    → (b' : List ℕ) × (compact n j b ≡ some b') × IsHalfway a b' (j + n)
unfolding compact
compact-IsHalfway zero j a b h i = let e : j + 0 ≡ j = omega arith in (b, refl, rw e i)
compact-IsHalfway (suc n) j a b h i =
    let c = get_or b (j * 2 + 2) 0 in
    let step = round-IsHalfway a b j (omega arith) i in
    let e : suc j + n ≡ j + suc n = omega arith in
    let (b', eq, i') = compact-IsHalfway n (suc j) a (set b (suc j) c) (omega arith) step in
    (
      b',
      ap (with_char (λ d. compact n (suc j) (set b (suc j) d)))
            (get_elem?-get_or b (j * 2 + 2) (omega (arith, i.size)))
          ∙ eq,
      rw (← e) i',
    )

-- A buffer that begins with a text without zeros, and then a zero, as a string.
pub c_string-prefix :
    (cs b : Text)
    → All (λ c. c ≢ 0) cs
    → length cs < length b
    → ((x : ℕ) → x < length cs → get_or b x 0 ≡ get_or cs x 0)
    → get_or b (length cs) 0 ≡ 0
    → c_string b ≡ cs
unfolding c_string
c_string-prefix cs [] n h p z = absurd (omega arith)
c_string-prefix [] (y ∷ b) n h p z = rw z refl
c_string-prefix (c ∷ cs) (y ∷ b) n h p z =
    let e : y ≡ c = p 0 (omega arith) in
    let other : (c == 0) ≡ false = ground (arith, n.0) in
    let rest = c_string-prefix cs b n.1 (omega arith) (λ x k. p (suc x) (omega arith)) z in
    rw (e, other) (ap (λ r. c ∷ r) rest)

-- A text with every character twice.
abbrev pub doubled : Text → Text
doubled [] = []
doubled (c ∷ cs) = c ∷ c ∷ doubled cs

pub length-doubled : (cs : Text) → length (doubled cs) ≡ length cs * 2
length-doubled [] = omega arith
length-doubled (c ∷ cs) = omega (arith, length-doubled cs)

pub get_or-doubled :
    (cs back : Text) (x : ℕ) → x < length cs → get_or (doubled cs ++ back) (x * 2) 0 ≡ get_or cs x 0
get_or-doubled [] back x h = absurd (omega arith)
get_or-doubled (c ∷ cs) back zero h = refl
get_or-doubled (c ∷ cs) back (suc x) h =
    let e : suc x * 2 ≡ suc (suc (x * 2)) = omega arith in
    rw e (get_or-doubled cs back x (omega arith))
