-- ===== src/Misc/Hex.antt =====
-- bin2hex and hex2bin of tools/ut_misc.c against each other.
use dev_hub.Base.{
  ℕ, ◌+◌, ◌*◌, ◌/◌, ◌%◌, ◌<◌, ◌≡◌, refl, sym, ap, ◌∙◌, inl, inr, Option, none, some, [], ◌∷◌, Text,
  All, arith, Option-cases,
}
use dev_hub.Misc.{hex, bin2hex, hex2int, hex2bin, tolower, strtolower}

hex2int-hex : (n : ℕ) → n < 16 → hex2int (hex n) ≡ some n
unfolding hex2int
hex2int-hex n h = ground arith

-- The digit of a value is the digit it was read from, in lower case.
hex-hex2int : (c n : ℕ) → hex2int c ≡ some n → hex n ≡ tolower c
unfolding hex2int
hex-hex2int c n h = ground arith

hex2int-below : (c n : ℕ) → hex2int c ≡ some n → n < 16
unfolding hex2int
hex2int-below c n h = ground arith

hex2bin_cons :
    (a b p q : ℕ) (rest bytes : Text)
    → hex2int a ≡ some p
    → hex2int b ≡ some q
    → hex2bin rest ≡ some bytes
    → hex2bin (a ∷ b ∷ rest) ≡ some ((p * 16 + q) ∷ bytes)
unfolding hex2bin
hex2bin_cons a b p q rest bytes h h' h'' = rw (h, hex2bin) rw (h', hex2bin) rw (h'', hex2bin) refl

-- Memory printed by bin2hex is read back by hex2bin, if it consists of bytes.
pub hex2bin-bin2hex : (mem : Text) → All (λ c. c < 256) mem → hex2bin (bin2hex mem) ≡ some mem
unfolding bin2hex
hex2bin-bin2hex [] h = unfold hex2bin in refl
hex2bin-bin2hex (c ∷ mem) h =
    let rest = hex2bin-bin2hex mem h.1 in
    let whole =
      hex2bin_cons (hex ((c % 256) / 16)) (hex (c % 16)) ((c % 256) / 16) (c % 16) (bin2hex mem) mem
        (hex2int-hex ((c % 256) / 16) (omega arith)) (hex2int-hex (c % 16) (omega arith)) rest in
    let byte : ((c % 256) / 16) * 16 + c % 16 ≡ c = omega arith in
    whole ∙ ap (λ b. some (b ∷ mem)) byte

some_injective : (a b : Text) → some a ≡ some b → a ≡ b
some_injective a b h = ground arith

not_both : (o : Option Text) (t : Text) → o ≡ none → ¬ (o ≡ some t)
not_both o t e e' = ground arith

-- What hex2bin gives for a text with two digits in front.
hex2bin_inv :
    (a b : ℕ) (rest bytes : Text)
    → hex2bin (a ∷ b ∷ rest) ≡ some bytes
    → (p : ℕ) × (q : ℕ) × (tail : Text) × (hex2int a ≡ some p)
      × (hex2int b ≡ some q)
      × (hex2bin rest ≡ some tail)
      × (((p * 16 + q) ∷ tail) ≡ bytes)
unfolding hex2bin
hex2bin_inv a b rest bytes h = elim (Option-cases (hex2int a)) [
  | inl z ↦ absurd (not_both (hex2bin (a ∷ b ∷ rest)) bytes (rw (z, hex2bin) refl) h)
  | inr (p, z) ↦ elim (Option-cases (hex2int b)) [
    | inl y ↦
        absurd (not_both (hex2bin (a ∷ b ∷ rest)) bytes (rw (z, hex2bin) rw (y, hex2bin) refl) h)
    | inr (q, y) ↦ elim (Option-cases (hex2bin rest)) [
      | inl x ↦ absurd (
          not_both (hex2bin (a ∷ b ∷ rest)) bytes
            (rw (z, hex2bin) rw (y, hex2bin) rw (x, hex2bin) refl) h)
      | inr (tail, x) ↦
          (p, q, tail, z, y, x, some_injective _ _ (sym (hex2bin_cons a b p q rest tail z y x) ∙ h))
    ]
  ]
]

-- What hex2bin accepts comes back from bin2hex in lower case.
pub bin2hex-hex2bin :
    (text bytes : Text) → hex2bin text ≡ some bytes → bin2hex bytes ≡ strtolower text
unfolding bin2hex strtolower hex2bin
bin2hex-hex2bin [] bytes h = let e : [] ≡ bytes = some_injective [] bytes h in rw (sym e) refl
bin2hex-hex2bin (a ∷ []) bytes h = absurd (ground arith)
bin2hex-hex2bin (a ∷ b ∷ rest) bytes h =
    let (p, q, tail, z, y, x, e) = hex2bin_inv a b rest bytes h in
    let below = hex2int-below b q y in
    let below' = hex2int-below a p z in
    let high : ((p * 16 + q) % 256) / 16 ≡ p = omega arith in
    let low : (p * 16 + q) % 16 ≡ q = omega arith in
    rw (sym e) rw (high, bin2hex) rw low rw (hex-hex2int a p z) rw (hex-hex2int b q y) rw
      (bin2hex-hex2bin rest tail x) refl
