-- ===== src/Log/Whole.antt =====
-- What a rotated log of tools/ut_log.c holds, from its oldest file to its newest.
use mathlib.Core.Path.{subst}
use mathlib.Core.List.{append_assoc, append-nil}
use dev_hub.Base.{
  ℕ, zero, suc, ◌<◌, ◌≤◌, ◌≡◌, ◌≢◌, refl, sym, ap, ◌∙◌, inl, inr, true, false, Option, none, some,
  [], ◌++◌, ◌==◌, leb, length, Text, arith, Bool-cases, Option-cases,
}
use dev_hub.Log.Shift.{Files, exists, shift_log, IsLogOf, shift_log_keeps, shift_log_behind}
use dev_hub.Log.{text_of, append_to}

-- All that the files of the indices below `n` have, the highest index first.
abbrev pub whole : ℕ → Files → Text
whole zero fs = []
whole (suc n) fs = text_of (fs n) ++ whole n fs

-- The files stand at the indices below `n` and nowhere else.
pub record IsChain (n : ℕ) (fs : Files) : Type 0 where
  pub there : (k : ℕ) → k < n → exists (fs k) ≡ true
  pub behind : (k : ℕ) → n ≤ k → exists (fs k) ≡ false

-- A log of at most `m` files has just this text.
pub record HasText (m : ℕ) (text : Text) (fs : Files) : Type 0 where
  pub n : ℕ
  pub few : n ≤ m
  pub chain : IsChain n fs
  pub content : whole n fs ≡ text

nothing : (o : Option Text) → exists o ≡ false → o ≡ none
nothing none h = refl
nothing (some t) h = ground arith

whole-append_to :
    (n : ℕ) (out : Text) (fs : Files) → whole (suc n) (append_to out fs) ≡ whole (suc n) fs ++ out
whole-append_to zero out fs =
    append-nil (text_of (fs 0) ++ out) ∙ ap (λ t. t ++ out) (sym (append-nil (text_of (fs 0))))
whole-append_to (suc n) out fs =
    let above : append_to out fs (suc n) ≡ fs (suc n) = ground arith in
    ap (λ o. text_of o ++ whole (suc n) (append_to out fs)) above
    ∙ (ap (λ t. text_of (fs (suc n)) ++ t) (whole-append_to n out fs)
        ∙ sym (append_assoc (text_of (fs (suc n))) (whole (suc n) fs) out))

-- Bytes at the end of a log: the file of index 0 gets them.
pub append_to-HasText :
    (m : ℕ) (text out : Text) (fs : Files)
    → HasText m text fs
    → HasText (suc m) (text ++ out) (append_to out fs)
append_to-HasText m text out fs h = go h.n h.few h.chain h.content
  where
    go :
        (n : ℕ)
        → n ≤ m
        → IsChain n fs
        → whole n fs ≡ text
        → HasText (suc m) (text ++ out) (append_to out fs)
    go zero l c e = record {
      n = 1;
      few = omega (arith, l);
      chain = record { there = λ k z. ground arith; behind = λ k z. ground (arith, c.behind k) };
      content =
          whole-append_to 0 out fs
          ∙ ap (λ t. t ++ out)
              (ap (λ o. text_of o ++ []) (nothing (fs 0) (c.behind 0 (omega arith))) ∙ e);
    }
    go (suc n) l c e = record {
      n = suc n;
      few = omega (arith, l);
      chain = record {
        there = λ k z. ground (arith, c.there k);
        behind = λ k z. ground (arith, c.behind k);
      };
      content = whole-append_to n out fs ∙ ap (λ t. t ++ out) e;
    }

whole-shifted :
    (n j : ℕ) (fs g : Files)
    → g 0 ≡ none
    → ((k : ℕ) → k < n → g (suc k) ≡ fs k)
    → j ≤ n
    → whole (suc j) g ≡ whole j fs
whole-shifted n zero fs g z s l = ap (λ o. text_of o ++ []) z
whole-shifted n (suc j) fs g z s l =
    ap (λ o. text_of o ++ whole (suc j) g) (s j (omega arith))
    ∙ ap (λ t. text_of (fs j) ++ t) (whole-shifted n j fs g z s (omega arith))

-- A rotated log gets its next bytes in a new file.
shifted-HasText :
    (m n : ℕ) (text out : Text) (fs g : Files)
    → n ≤ m
    → IsChain n fs
    → whole n fs ≡ text
    → g 0 ≡ none
    → ((k : ℕ) → k < n → g (suc k) ≡ fs k)
    → ((k : ℕ) → n < k → g k ≡ fs k)
    → HasText (suc m) (text ++ out) (append_to out g)
shifted-HasText m n text out fs g l c e z s b = record {
  n = suc n;
  few = omega (arith, l);
  chain = record { there = there; behind = λ k h. ground (arith, b k, c.behind k) };
  content =
      whole-append_to n out g ∙ ap (λ t. t ++ out) (whole-shifted n n fs g z s (omega arith) ∙ e);
}
  where
    there : (k : ℕ) → k < suc n → exists (append_to out g k) ≡ true
    there zero h = ground arith
    there (suc k) h = ground (arith, s k, c.there k)

-- Without a size limit, a file, or enough bytes in it the files stay as they are.
unlimited :
    (fuel max_size : ℕ) (fs : Files) → (max_size == 0) ≡ true → shift_log fuel max_size 0 fs ≡ fs
unfolding shift_log
unlimited fuel max_size fs z = rw z refl

no_file :
    (fuel max_size : ℕ) (fs : Files)
    → (max_size == 0) ≡ false
    → fs 0 ≡ none
    → shift_log fuel max_size 0 fs ≡ fs
unfolding shift_log
no_file fuel max_size fs z e = rw (z, e) refl

below_limit :
    (fuel max_size : ℕ) (fs : Files) (t : Text)
    → (max_size == 0) ≡ false
    → fs 0 ≡ some t
    → leb max_size (length t) ≡ false
    → shift_log fuel max_size 0 fs ≡ fs
unfolding shift_log
below_limit fuel max_size fs t z e l = rw (z, e) rw l refl

chain-IsLogOf : (n : ℕ) (fs : Files) → IsChain n fs → IsLogOf n fs
chain-IsLogOf n fs c = record { there = c.there; end = c.behind n (omega arith) }

-- Rotation without a number of files loses nothing, whatever the size limit.
pub shift_log-HasText :
    (fuel max_size m : ℕ) (text out : Text) (fs : Files)
    → HasText m text fs
    → m < fuel
    → HasText (suc m) (text ++ out) (append_to out (shift_log fuel max_size 0 fs))
shift_log-HasText fuel max_size m text out fs h f = elim (Bool-cases (max_size == 0)) [
  | inl z ↦ same (unlimited fuel max_size fs z)
  | inr z ↦ elim (Option-cases (fs 0)) [
    | inl e ↦ same (no_file fuel max_size fs z e)
    | inr (t, e) ↦ elim (Bool-cases (leb max_size (length t))) [
      | inl l ↦ moved t z e l
      | inr l ↦ same (below_limit fuel max_size fs t z e l)
    ]
  ]
]
  where
    same :
        shift_log fuel max_size 0 fs ≡ fs
        → HasText (suc m) (text ++ out) (append_to out (shift_log fuel max_size 0 fs))
    same q =
        subst (λ g. HasText (suc m) (text ++ out) (append_to out g)) (sym q)
          (append_to-HasText m text out fs h)

    moved :
        (t : Text)
        → (max_size == 0) ≡ false
        → fs 0 ≡ some t
        → leb max_size (length t) ≡ true
        → HasText (suc m) (text ++ out) (append_to out (shift_log fuel max_size 0 fs))
    moved t z e l =
        let is_log = chain-IsLogOf h.n fs h.chain in
        let positive : max_size ≢ 0 = ground (arith, z) in
        let full : max_size ≤ length t = ground (arith, l) in
        let enough : h.n < fuel = omega (arith, h.few, f) in
        let up = shift_log_keeps fuel max_size h.n fs t e positive full is_log enough in
        shifted-HasText m h.n text out fs (shift_log fuel max_size 0 fs) h.few h.chain h.content
          up.0 up.1
          (λ k b. shift_log_behind fuel max_size h.n fs t k e positive full is_log enough b)
