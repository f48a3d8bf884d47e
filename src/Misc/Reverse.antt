-- ===== src/Misc/Reverse.antt =====
-- reverse_mem of tools/ut_misc.c.
use dev_hub.Base.{
  length-set, get_or-set, ℕ, zero, suc, ◌+◌, ◌-◌, ◌*◌, ◌/◌, ◌<◌, ◌≤◌, ◌≡◌, refl, ap, ◌∙◌, inl, inr,
  Bool, true, false, ◌&&◌, [], ◌∷◌, if◌then◌else◌, ltb, leb, ◌==◌, length, get_or, set, Text, arith,
  Bool-cases,
}
use dev_hub.Misc.{swap, reverse_loop, reverse_mem}

length-swap : (i : ℕ) (mem : Text) → length (swap i mem) ≡ length mem
unfolding swap
length-swap i mem = omega (
  arith,
  length-set mem i (get_or mem (length mem - 1 - i) 0),
  length-set (set mem i (get_or mem (length mem - 1 - i) 0)) (length mem - 1 - i) (get_or mem i 0),
)

get_or-swap :
    (i j : ℕ) (mem : Text)
    → i + i < length mem
    → get_or (swap i mem) j 0 ≡ (
        if (length mem - 1 - i) == j
        then get_or mem i 0
        else if i == j
        then get_or mem (length mem - 1 - i) 0
        else get_or mem j 0)
unfolding swap
get_or-swap i j mem h =
    let inner = set mem i (get_or mem (length mem - 1 - i) 0) in
    rw
      (get_or-set inner (length mem - 1 - i) j (get_or mem i 0)
        (omega (arith, length-set mem i (get_or mem (length mem - 1 - i) 0))))
      rw (get_or-set mem i j (get_or mem (length mem - 1 - i) 0) (omega arith)) refl

-- The places that `steps` rounds from `i` on exchange.
abbrev within : ℕ → ℕ → ℕ → ℕ → Bool
within n i steps j =
    if leb i j
    then (if ltb j (i + steps) then true else leb (n - (i + steps)) j && ltb j (n - i))
    else false

get_or-reverse_loop :
    (steps i j : ℕ) (mem : Text)
    → 2 * (i + steps) ≤ length mem
    → j < length mem
    → get_or (reverse_loop steps i mem) j 0 ≡ (
        if within (length mem) i steps j then get_or mem (length mem - 1 - j) 0 else get_or mem j 0)
unfolding reverse_loop
get_or-reverse_loop zero i j mem h l = ground arith
get_or-reverse_loop (suc steps) i j mem h l =
    let rest =
      get_or-reverse_loop steps (i + 1) j (swap i mem) (omega (arith, length-swap i mem))
        (omega (arith, length-swap i mem)) in
    ground (
      arith,
      rest,
      length-swap i mem,
      get_or-swap i j mem (omega arith),
      get_or-swap i (length mem - 1 - j) mem (omega arith),
    )

length-reverse_loop : (steps i : ℕ) (mem : Text) → length (reverse_loop steps i mem) ≡ length mem
unfolding reverse_loop
length-reverse_loop zero i mem = refl
length-reverse_loop (suc steps) i mem =
    omega (arith, length-reverse_loop steps (i + 1) (swap i mem), length-swap i mem)

-- reverse_mem keeps the length, and the byte at each place is the one at the same distance from
-- the other end.
pub get_or-reverse_mem :
    (mem : Text) (j : ℕ)
    → j < length mem
    → (length (reverse_mem mem) ≡ length mem)
      × (get_or (reverse_mem mem) j 0 ≡ get_or mem (length mem - 1 - j) 0)
unfolding reverse_mem
get_or-reverse_mem mem j h = (length-reverse_loop (length mem / 2) 0 mem, end)
  where
    middle : within (length mem) 0 (length mem / 2) j ≡ false → length mem - 1 - j ≡ j
    middle z = ground arith

    end : get_or (reverse_loop (length mem / 2) 0 mem) j 0 ≡ get_or mem (length mem - 1 - j) 0
    end =
        rw (get_or-reverse_loop (length mem / 2) 0 j mem (omega arith) h)
          (elim (Bool-cases (within (length mem) 0 (length mem / 2) j)) [
            | inl z ↦ rw z refl
            | inr z ↦ rw z rw (middle z) refl
          ])

extensional :
    (xs ys : Text)
    → length xs ≡ length ys
    → ((j : ℕ) → j < length xs → get_or xs j 0 ≡ get_or ys j 0)
    → xs ≡ ys
extensional [] [] h f = refl
extensional [] (y ∷ ys) h f = absurd (omega arith)
extensional (x ∷ xs) [] h f = absurd (omega arith)
extensional (x ∷ xs) (y ∷ ys) h f =
    rw (f 0 (omega arith)) rw (extensional xs ys (omega arith) (λ j l. f (suc j) (omega arith)))
      refl

-- Reversing memory twice gives it back.
pub reverse_mem-reverse_mem : (mem : Text) → reverse_mem (reverse_mem mem) ≡ mem
unfolding reverse_mem
reverse_mem-reverse_mem mem =
    let once : length (reverse_mem mem) ≡ length mem = length-reverse_loop (length mem / 2) 0 mem in
    let twice : length (reverse_mem (reverse_mem mem)) ≡ length (reverse_mem mem) =
      length-reverse_loop (length (reverse_mem mem) / 2) 0 (reverse_mem mem) in
    extensional (reverse_mem (reverse_mem mem)) mem (twice ∙ once) (λ j l.
      (get_or-reverse_mem (reverse_mem mem) j (omega (arith, once, twice))).1
      ∙ ((get_or-reverse_mem mem (length (reverse_mem mem) - 1 - j) (omega (arith, once, twice))).1
          ∙ ap (λ k. get_or mem k 0) (omega (arith, once, twice))))
