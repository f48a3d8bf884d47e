-- ===== src/Log/Shift.antt =====
-- The rotation of tools/ut_log.c by number: inner_shift_log and shift_log without `use_fork`, on
-- the files of one log, `base.log`, `base.log.1`, …, known by their index.
use dev_hub.Base.{
  ℕ, zero, suc, ◌+◌, ◌-◌, ◌<◌, ◌≤◌, ◌≡◌, ◌≢◌, refl, sym, ap, ◌∙◌, ◌⊎◌, inl, inr, Bool, true, false,
  Option, none, some, if◌then◌else◌, ltb, leb, ◌==◌, length, Text, arith, Option-cases,
}

abbrev pub Files : Type 0
Files = ℕ → Option Text

abbrev pub exists : Option Text → Bool
exists none = false
exists (some t) = true

abbrev pub unlink : ℕ → Files → Files
unlink i fs k = if k == i then none else fs k

-- `rename` of file `i`, which exists, to `i + 1`: what was there is replaced.
abbrev pub rename : ℕ → Files → Files
rename i fs k = if k == i then none else if k == i + 1 then fs i else fs k

-- The first loop: how many files there are from `i` on without a gap, `fuel` at most.
unfoldable pub count : ℕ → ℕ → Files → ℕ
count zero i fs = 0
count (suc fuel) i fs = let more = count fuel (i + 1) fs in if exists (fs i) then suc more else 0

-- The second loop, from `num - 1` down to 0.
unfoldable pub shift_loop : ℕ → Files → Files
shift_loop zero fs = fs
shift_loop (suc i) fs = shift_loop i (if exists (fs i) then rename i fs else fs)

unfoldable pub inner_shift_log : ℕ → ℕ → Files → Files
unfolding count shift_loop
inner_shift_log fuel log_num fs =
    if log_num == 1
    then unlink 0 fs
    else shift_loop (if log_num == 0 then count fuel 0 fs else log_num - 1) fs

-- shift_log: nothing is done without a size limit, without the file or below the limit.
unfoldable pub shift_log : ℕ → ℕ → ℕ → Files → Files
unfolding inner_shift_log
shift_log fuel max_size log_num fs = if max_size == 0 then fs else elim (fs 0) [
  | none ↦ fs
  | some text ↦ if leb max_size (length text) then inner_shift_log fuel log_num fs else fs
]

-- `a` if it is there.
abbrev pub or_else : Option Text → Option Text → Option Text
or_else none b = b
or_else (some t) b = some t

-- What stands at each index after `num` rounds.
abbrev pub shifted : ℕ → Files → Files
shifted num fs k =
    if num == 0
    then fs k
    else if k == 0
    then none
    else if ltb k num
    then fs (k - 1)
    else if k == num
    then or_else (fs (num - 1)) (fs num)
    else fs k

or_else-none : (o : Option Text) → or_else o none ≡ o
or_else-none none = refl
or_else-none (some t) = refl

missing : (i : ℕ) (fs : Files) (k : ℕ) → fs i ≡ none → shifted i fs k ≡ shifted (suc i) fs k
missing zero fs zero z = z
missing (suc i) fs zero z = ground arith
missing zero fs (suc k) z = ground (arith, z)
missing (suc i) fs (suc k) z = ground (arith, or_else-none (fs i), z)

renamed :
    (i : ℕ) (fs : Files) (k : ℕ) (t : Text)
    → fs i ≡ some t
    → shifted i (rename i fs) k ≡ shifted (suc i) fs k
renamed zero fs zero t z = ground arith
renamed (suc i) fs zero t z = ground arith
renamed zero fs (suc k) t z = ground (arith, z)
renamed (suc i) fs (suc k) t z = ground (arith, z)

shift_loop-shifted : (num : ℕ) (fs : Files) (k : ℕ) → shift_loop num fs k ≡ shifted num fs k
unfolding shift_loop
shift_loop-shifted zero fs k = refl
shift_loop-shifted (suc i) fs k = elim (Option-cases (fs i)) [
  | inl z ↦ rw z (shift_loop-shifted i fs k ∙ missing i fs k z)
  | inr (t, z) ↦ rw z (shift_loop-shifted i (rename i fs) k ∙ renamed i fs k t z)
]

-- When the file has reached its size limit, `log_num` files are kept, at least two, and rotation
-- moves them up: index 0 is free, each other index below the last gets the file before it, the last
-- one too if there is such a file, and the indices behind are as before.
pub shift_log-shifted :
    (fuel max_size log_num : ℕ) (fs : Files) (text : Text)
    → fs 0 ≡ some text
    → max_size ≢ 0
    → max_size ≤ length text
    → 2 ≤ log_num
    → let fs' = shift_log fuel max_size log_num fs in
      (fs' 0 ≡ none)
      × ((k : ℕ) → suc k < log_num - 1 → fs' (suc k) ≡ fs k)
      × (fs' (log_num - 1) ≡ or_else (fs (log_num - 2)) (fs (log_num - 1)))
      × ((k : ℕ) → log_num ≤ k → fs' k ≡ fs k)
shift_log-shifted fuel max_size log_num fs text e n l m = (
  at 0 ∙ ground arith,
  λ k h. at (suc k) ∙ ground arith,
  at (log_num - 1) ∙ ground arith,
  λ k h. at k ∙ ground arith,
)
  where
    at : (k : ℕ) → shift_log fuel max_size log_num fs k ≡ shifted (log_num - 1) fs k
    at k = unfold shift_log in ground (arith, e, shift_loop-shifted (log_num - 1) fs k)

-- The files of a log stand at the indices below `n` and only there.
pub record IsLogOf (n : ℕ) (fs : Files) : Type 0 where
  pub there : (k : ℕ) → k < n → exists (fs k) ≡ true
  pub end : exists (fs n) ≡ false

count-IsLogOf : (fuel i n : ℕ) (fs : Files) → IsLogOf (i + n) fs → n < fuel → count fuel i fs ≡ n
unfolding count
count-IsLogOf zero i n fs h l = absurd (omega arith)
count-IsLogOf (suc fuel) i zero fs h l =
    let e : exists (fs i) ≡ false = ap (λ k. exists (fs k)) (omega arith) ∙ h.end in rw e refl
count-IsLogOf (suc fuel) i (suc n) fs h l =
    let e : exists (fs i) ≡ true = h.there i (omega arith) in
    let h' : IsLogOf ((i + 1) + n) fs = record {
      there = λ k m. h.there k (omega arith);
      end = ap (λ k. exists (fs k)) (omega arith) ∙ h.end;
    } in
    rw (e, count) rw (count-IsLogOf fuel (i + 1) n fs h' (omega arith)) refl

-- Without a number of files, rotation of a log of `n` files loses none: every file moves up by one
-- and index 0 is free.
pub shift_log_keeps :
    (fuel max_size n : ℕ) (fs : Files) (text : Text)
    → fs 0 ≡ some text
    → max_size ≢ 0
    → max_size ≤ length text
    → IsLogOf n fs
    → n < fuel
    → let fs' = shift_log fuel max_size 0 fs in
      (fs' 0 ≡ none) × ((k : ℕ) → k < n → fs' (suc k) ≡ fs k)
shift_log_keeps fuel max_size n fs text e m l h f =
    (at 0 ∙ shifted_zero, λ k g. at (suc k) ∙ shifted_suc k g (Option-cases (fs k)) (h.there k g))
  where
    from : IsLogOf (0 + n) fs
    from = record {
      there = λ k g. h.there k (omega arith);
      end = ap (λ k. exists (fs k)) (omega arith) ∙ h.end;
    }

    first : exists (fs 0) ≡ true
    first = rw e refl

    some_file : n ≢ 0
    some_file z =
        let gone : exists (fs 0) ≡ false = ap (λ k. exists (fs k)) (sym z) ∙ h.end in
        ground (arith, first)

    shifted_zero : shifted n fs 0 ≡ none
    shifted_zero = ground (arith, some_file)

    shifted_suc :
        (k : ℕ)
        → k < n
        → (fs k ≡ none) ⊎ ((t : Text) × (fs k ≡ some t))
        → exists (fs k) ≡ true
        → shifted n fs (suc k) ≡ fs k
    shifted_suc k g (inl z) x = absurd (ground (arith, z))
    shifted_suc k g (inr (t, z)) x = ground (arith, z)

    at : (k : ℕ) → shift_log fuel max_size 0 fs k ≡ shifted n fs k
    at k =
        unfold shift_log in
        ground (arith, e, count-IsLogOf fuel 0 n fs from f, shift_loop-shifted n fs k)

-- An index behind the files is left alone.
pub shift_log_behind :
    (fuel max_size n : ℕ) (fs : Files) (text : Text) (k : ℕ)
    → fs 0 ≡ some text
    → max_size ≢ 0
    → max_size ≤ length text
    → IsLogOf n fs
    → n < fuel
    → n < k
    → shift_log fuel max_size 0 fs k ≡ fs k
unfolding shift_log
shift_log_behind fuel max_size n fs text k e m l h f g =
    let from : IsLogOf (0 + n) fs = record {
      there = λ i j. h.there i (omega arith);
      end = ap (λ i. exists (fs i)) (omega arith) ∙ h.end;
    } in
    ground (arith, e, count-IsLogOf fuel 0 n fs from f, shift_loop-shifted n fs k)
