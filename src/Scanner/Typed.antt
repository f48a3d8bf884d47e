-- ===== src/Scanner/Typed.antt =====
-- What the hand-held scanner of equipment/Scanner.cpp makes of the keys of a code.
use dev_hub.Base.{
  ℕ, zero, suc, ◌+◌, ◌*◌, ◌≤◌, ◌<◌, Bool, true, false, some, List, [], ◌∷◌, ◌++◌, ltb, ◌==◌, ==_iff,
  get_elem?, set, length, length-append, zeros, Text, ℤ, Json, ◌≡◌, ◌≢◌, refl, sym, ap, ◌∙◌, inl,
  inr, arith, Bool-cases,
}
use mathlib.Core.Path.{subst}
use mathlib.Core.List.{append_assoc}
use dev_hub.Scanner.{
  key_ascii_map, InputEvent, HandhelScanner, put, then_go, on_char, on_event, on_data,
}
use dev_hub.Scanner.Compact.{doubled}

abbrev pub scanner_at : Text → Bool → List ℕ → ℕ → List Text → HandhelScanner
scanner_at dev u buf i updates = record {
  dev_name = dev;
  has_updater = u;
  bar_buf = buf;
  i = i;
  updates = updates;
}

-- Between two codes.
abbrev pub clean : Text → Bool → List Text → HandhelScanner
clean dev u updates = scanner_at dev u (zeros 100) 0 updates

-- The events of a key: it is pressed and released.
abbrev pub stroke : ℕ → ℤ → List InputEvent
stroke code time =
    record { kind = 1; code = code; time = time }
    ∷ record { kind = 1; code = code; time = time }
    ∷ []

abbrev pub strokes : List ℕ → ℤ → List InputEvent
strokes [] time = []
strokes (k ∷ ks) time = stroke k time ++ strokes ks time

-- The keys that stand for the characters of a text.
abbrev pub AreKeysOf : List ℕ → Text → Type 0
AreKeysOf [] [] = Unit
AreKeysOf [] (c ∷ cs) = ⊥
AreKeysOf (k ∷ ks) [] = ⊥
AreKeysOf (k ∷ ks) (c ∷ cs) = (get_elem? key_ascii_map k ≡ some c) × (c ≢ 0) × AreKeysOf ks cs

pub set-append :
    (front back : List ℕ) (y c : ℕ)
    → set (front ++ (y ∷ back)) (length front) c ≡ front ++ (c ∷ back)
set-append [] back y c = refl
set-append (x ∷ front) back y c = ap (λ l. x ∷ l) (set-append front back y c)

set-append_next :
    (front back : List ℕ) (x y c : ℕ)
    → set (front ++ (x ∷ y ∷ back)) (suc (length front)) c ≡ front ++ (x ∷ c ∷ back)
set-append_next [] back x y c = refl
set-append_next (z ∷ front) back x y c = ap (λ l. z ∷ l) (set-append_next front back x y c)

pub put_at :
    (dev : Text) (u : Bool) (buf buf' : List ℕ) (i c : ℕ) (updates : List Text)
    → i < 100
    → set buf i c ≡ buf'
    → put c (scanner_at dev u buf i updates) ≡ some (scanner_at dev u buf' (suc i) updates)
unfolding put
put_at dev u buf buf' i c updates h s =
    let e : ltb i 100 ≡ true = ground (arith, h) in rw (e, s) refl

get_elem?-length : (xs : List ℕ) (i c : ℕ) → get_elem? xs i ≡ some c → i < length xs
get_elem?-length [] i c h = ground (arith, h)
get_elem?-length (x ∷ xs) zero c h = omega arith
get_elem?-length (x ∷ xs) (suc i) c h = omega (arith, get_elem?-length xs i c h)

-- No character stands for the Enter key.
not_enter : (k c : ℕ) → get_elem? key_ascii_map k ≡ some c → c ≢ 0 → (k == 28) ≡ false
not_enter k c e n = elim (Bool-cases (k == 28)) [
  | inr z ↦ z
  | inl z ↦
      let entry : get_elem? key_ascii_map 28 ≡ some c =
        subst (λ j. get_elem? key_ascii_map j ≡ some c) ((==_iff k 28).0 z) e in
      ground (arith, entry, n)
]

on_char-put : (c : ℕ) (s : HandhelScanner) → c ≢ 0 → on_char (some c) s ≡ put c s
on_char-put zero s n = elim (n refl) [ ]
on_char-put (suc c) s n = refl

module _ (styled : Json → Text) where
  key_at :
      (k c : ℕ) (time : ℤ) (s : HandhelScanner)
      → get_elem? key_ascii_map k ≡ some c
      → c ≢ 0
      → on_event styled (record { kind = 1; code = k; time = time }) s ≡ put c s
  unfolding on_event
  key_at k c time s e n =
      let inside : ltb 51 k ≡ false = ground (arith, get_elem?-length key_ascii_map k c e) in
      rw (not_enter k c e n, inside, e) (on_char-put c s n)

  -- One event and then the others.
  pub on_data-step :
      (e : InputEvent) (es : List InputEvent) (s t : HandhelScanner)
      → on_event styled e s ≡ some t
      → on_data styled (e ∷ es) s ≡ on_data styled es t
  unfolding on_data
  on_data-step e es s t h = ap (then_go (λ x. on_data styled es x)) h

  -- A key puts its character into the buffer twice.
  stroke_at :
      (k c : ℕ) (time : ℤ) (es : List InputEvent) (dev : Text) (u : Bool) (front : List ℕ) (m : ℕ)
      (updates : List Text)
      → get_elem? key_ascii_map k ≡ some c
      → c ≢ 0
      → suc (length front) < 100
      → on_data styled
          (stroke k time ++ es)
          (scanner_at dev u (front ++ zeros (suc (suc m))) (length front) updates)
        ≡ on_data styled es
            (scanner_at dev u (front ++ (c ∷ c ∷ zeros m)) (suc (suc (length front))) updates)
  stroke_at k c time es dev u front m updates e n h =
      let ev : InputEvent = record { kind = 1; code = k; time = time } in
      let s1 = scanner_at dev u (front ++ (c ∷ zeros (suc m))) (suc (length front)) updates in
      on_data-step ev (ev ∷ es) _ s1 (
        key_at k c time _ e n
        ∙ put_at dev u _ _ (length front) c updates (omega arith)
            (set-append front (zeros (suc m)) 0 c))
      ∙ on_data-step ev es s1 _ (
          key_at k c time s1 e n
          ∙ put_at dev u _ _ (suc (length front)) c updates h
              (set-append_next front (zeros m) c 0 c))

  -- The keys of a text put every character into the buffer twice.
  pub strokes_at :
      (ks : List ℕ) (cs : Text) (time : ℤ) (es : List InputEvent) (dev : Text) (u : Bool)
      (front : List ℕ) (m : ℕ) (updates : List Text)
      → AreKeysOf ks cs
      → length front + length cs * 2 ≤ 100
      → on_data styled
          (strokes ks time ++ es)
          (scanner_at dev u (front ++ zeros (length cs * 2 + m)) (length front) updates)
        ≡ on_data styled es (
            scanner_at dev u
              (front ++ (doubled cs ++ zeros m))
              (length front + length cs * 2)
              updates)
  strokes_at [] [] time es dev u front m updates h n =
      let e1 : 0 + m ≡ m = omega arith in
      let e2 : length front + 0 ≡ length front = omega arith in rw (e1, e2) refl
  strokes_at [] (c ∷ cs) time es dev u front m updates h n = elim h [ ]
  strokes_at (k ∷ ks) [] time es dev u front m updates h n = elim h [ ]
  strokes_at (k ∷ ks) (c ∷ cs) time es dev u front m updates h n =
      let front' = front ++ (c ∷ c ∷ []) in
      let rest = strokes_at ks cs time es dev u front' m updates h.2 in
      let size : length front' ≡ suc (suc (length front)) =
        omega (arith, length-append front (c ∷ c ∷ [])) in
      let n1 : suc (length cs) * 2 + m ≡ suc (suc (length cs * 2 + m)) = omega arith in
      let go = on_data styled (strokes ks time ++ es) in
      let end_ : length front' + length cs * 2 ≡ length front + suc (length cs) * 2 =
        omega (arith, size) in
      rw n1 (
        stroke_at k c time (strokes ks time ++ es) dev u front (length cs * 2 + m) updates h.0 h.1
          (omega (arith, n))
        ∙ ap (λ b. go (scanner_at dev u b (suc (suc (length front))) updates))
            (sym (append_assoc front (c ∷ c ∷ []) (zeros (length cs * 2 + m))))
        ∙ ap (λ i. go (scanner_at dev u (front' ++ zeros (length cs * 2 + m)) i updates)) (sym size)
        ∙ rest (omega (arith, size, n))
        ∙ ap (λ b. on_data styled es (scanner_at dev u b (length front' + length cs * 2) updates))
            (append_assoc front (c ∷ c ∷ []) (doubled cs ++ zeros m))
        ∙ ap
            (λ i.
              on_data styled es
                (scanner_at dev u (front ++ (c ∷ c ∷ (doubled cs ++ zeros m))) i updates))
            end_)
