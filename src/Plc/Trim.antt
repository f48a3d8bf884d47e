-- ===== src/Plc/Trim.antt =====
-- What trim of transcation/PlcFins.cpp takes away.
use dev_hub.Base.{ℕ, zero, suc, false, [], ◌∷◌, ◌++◌, ◌==◌, Text, ◌≡◌, ◌≢◌, refl, ap, ◌∙◌, arith}
use dev_hub.Plc.Fins.{drop_spaces, keep, drop_last_spaces, trim}

abbrev pub spaces : ℕ → Text
spaces zero = []
spaces (suc n) = 32 ∷ spaces n

drop_spaces-spaces : (n : ℕ) (s : Text) → drop_spaces (spaces n ++ s) ≡ drop_spaces s
unfolding drop_spaces
drop_spaces-spaces zero s = refl
drop_spaces-spaces (suc n) s = drop_spaces-spaces n s

drop_last_spaces-spaces : (n : ℕ) → drop_last_spaces (spaces n) ≡ []
unfolding drop_last_spaces
drop_last_spaces-spaces zero = refl
drop_last_spaces-spaces (suc n) = ap (keep 32) (drop_last_spaces-spaces n)

-- Behind a character that is no space all spaces go, and what is before it stays.
drop_last_spaces-append :
    (s : Text) (c n : ℕ) → c ≢ 32 → drop_last_spaces (s ++ (c ∷ spaces n)) ≡ s ++ (c ∷ [])
unfolding drop_last_spaces
drop_last_spaces-append [] c n h =
    let e : (c == 32) ≡ false = ground (arith, h) in
    ap (keep c) (drop_last_spaces-spaces n) ∙ (rw e refl)
drop_last_spaces-append (x ∷ s) c n h =
    ap (keep x) (drop_last_spaces-append s c n h) ∙ keep-append x s
  where
    keep-append : (y : ℕ) (t : Text) → keep y (t ++ (c ∷ [])) ≡ y ∷ (t ++ (c ∷ []))
    keep-append y [] = refl
    keep-append y (z ∷ t) = refl

-- A text that begins and ends with characters that are no spaces is what trim leaves of it when
-- spaces are put before and behind it.
pub trim-spaces :
    (b c m n : ℕ) (s : Text)
    → b ≢ 32
    → c ≢ 32
    → trim (spaces m ++ (b ∷ s ++ (c ∷ spaces n))) ≡ b ∷ s ++ (c ∷ [])
unfolding trim drop_spaces
trim-spaces b c m n s hb hc =
    let e : (b == 32) ≡ false = ground (arith, hb) in
    ap drop_last_spaces (drop_spaces-spaces m (b ∷ s ++ (c ∷ spaces n)) ∙ (rw e refl))
    ∙ drop_last_spaces-append (b ∷ s) c n hc
