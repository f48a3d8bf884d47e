-- ===== src/Scanner/Enter.antt =====
-- What the Enter key does in equipment/Scanner.cpp, and what a whole code gives.
use dev_hub.Base.{
  ℕ, suc, ◌+◌, ◌*◌, ◌/◌, ◌-◌, ◌<◌, Bool, true, false, none, some, List, [], ◌∷◌, ◌++◌, ltb, ◌==◌,
  ==_self, set, length, length-set, length-append, get_or-set, zeros, length-zeros, All, Text, ℤ,
  Json, ◌≡◌, ◌≢◌, refl, sym, ap, ◌∙◌, arith,
}
use dev_hub.Scanner.{
  InputEvent, put, compact, c_string, scan_report, report_code, after_enter, on_event, on_data,
}
use dev_hub.Scanner.Compact.{
  IsHalfway, compact-IsHalfway, c_string-prefix, doubled, length-doubled, get_or-doubled,
}
use dev_hub.Scanner.Typed.{
  scanner_at, clean, stroke, strokes, AreKeysOf, put_at, set-append, on_data-step, strokes_at,
}

-- The buffer when Enter comes.
abbrev entered : Text → ℕ → List ℕ
entered cs m = doubled cs ++ (10 ∷ zeros m)

length-entered : (cs : Text) (m : ℕ) → length (entered cs m) ≡ length cs * 2 + suc m
length-entered cs m =
    omega (arith, length-append (doubled cs) (10 ∷ zeros m), length-doubled cs, length-zeros m)

start-IsHalfway : (a : List ℕ) → IsHalfway a a 0
start-IsHalfway a = record {
  size = refl;
  done = λ x k. let e : x ≡ 0 = omega arith in rw e refl;
  rest = λ x k. refl;
}

compacted :
    (cs : Text) (m : ℕ)
    → (b : List ℕ) × (compact (length cs) 0 (entered cs m) ≡ some b)
      × IsHalfway (entered cs m) b (0 + length cs)
compacted cs m =
    compact-IsHalfway (length cs) 0 (entered cs m) (entered cs m)
      (omega (arith, length-entered cs m)) (start-IsHalfway (entered cs m))

compacted_text :
    (cs : Text) (m : ℕ) (b : List ℕ)
    → All (λ c. c ≢ 0) cs
    → IsHalfway (entered cs m) b (0 + length cs)
    → c_string (set b (length cs) 0) ≡ cs
compacted_text cs m b h i =
    let n = length cs in
    let inside : n < length b = omega (arith, i.size, length-entered cs m) in
    c_string-prefix cs (set b n 0) h (omega (arith, length-set b n 0, inside))
      (λ x k.
        let other : (n == x) ≡ false = ground (arith, k) in
        get_or-set b n x 0 inside
        ∙ (rw other refl)
        ∙ i.done x (omega arith)
        ∙ get_or-doubled cs (10 ∷ zeros m) x k)
      (get_or-set b n n 0 inside ∙ (rw (==_self n) refl))

module _ (styled : Json → Text) where
  abbrev enter : ℤ → InputEvent
  enter time = record { kind = 1; code = 28; time = time }

  -- Enter after the doubled characters of a text: the text is reported.
  enter_at :
      (cs : Text) (m : ℕ) (time : ℤ) (dev : Text) (updates : List Text)
      → All (λ c. c ≢ 0) cs
      → length cs * 2 + suc m ≡ 100
      → 0 < length cs
      → on_event styled
          (enter time)
          (scanner_at dev true (doubled cs ++ zeros (suc m)) (length cs * 2) updates)
        ≡ some (clean dev true (updates ++ (styled (scan_report dev time cs) ∷ [])))
  unfolding on_event
  enter_at cs m time dev updates h n k =
      let (b, eq, i) = compacted cs m in
      let s = scanner_at dev true (entered cs m) (suc (length cs * 2)) updates in
      let half : suc (length cs * 2) / 2 ≡ length cs = omega arith in
      let some_text : ltb 0 (length cs) ≡ true = ground (arith, k) in
      ap (after_enter styled time) (
        put_at dev true _ (entered cs m) (length cs * 2) 10 updates (omega (arith, n))
          ((rw (← length-doubled cs) (set-append (doubled cs) (zeros m) 0 10))))
      ∙ ap (λ j. report_code styled time j s (compact j 0 (entered cs m))) half
      ∙ ap (report_code styled time (length cs) s) eq
      ∙ (rw (some_text, compacted_text cs m b h i) refl)

  -- Enter when nothing was typed, as on its release: nothing is reported.
  enter_alone :
      (time : ℤ) (dev : Text) (u : Bool) (updates : List Text)
      → on_event styled (enter time) (clean dev u updates) ≡ some (clean dev u updates)
  unfolding on_event put compact c_string
  enter_alone time dev true updates = refl
  enter_alone time dev false updates = refl

  text_of_keys : (ks : List ℕ) (cs : Text) → AreKeysOf ks cs → All (λ c. c ≢ 0) cs
  text_of_keys [] [] h = tt
  text_of_keys [] (c ∷ cs) h = elim h [ ]
  text_of_keys (k ∷ ks) [] h = elim h [ ]
  text_of_keys (k ∷ ks) (c ∷ cs) h = (h.1, text_of_keys ks cs h.2)

  -- The keys of a text from the clean state on, before other events.
  typed_at :
      (ks : List ℕ) (cs : Text) (time : ℤ) (es : List InputEvent) (dev : Text) (m : ℕ)
      (updates : List Text)
      → AreKeysOf ks cs
      → length cs * 2 + m ≡ 100
      → on_data styled (strokes ks time ++ es) (clean dev true updates)
        ≡ on_data styled es (scanner_at dev true (doubled cs ++ zeros m) (length cs * 2) updates)
  typed_at ks cs time es dev m updates h n =
      let z : 0 + length cs * 2 ≡ length cs * 2 = omega arith in
      ap (λ k. on_data styled (strokes ks time ++ es) (scanner_at dev true (zeros k) 0 updates))
        (sym n)
      ∙ strokes_at styled ks cs time es dev true [] m updates h (omega (arith, n))
      ∙ ap (λ i. on_data styled es (scanner_at dev true (doubled cs ++ zeros m) i updates)) z

  -- The keys of a code of 1 to 49 characters and Enter, all pressed and released, on a scanner
  -- that has an updater and is between two codes: the code is reported once, and the scanner is
  -- between two codes again.
  pub scan_reported :
      (ks : List ℕ) (cs : Text) (time : ℤ) (dev : Text) (updates : List Text)
      → AreKeysOf ks cs
      → 0 < length cs
      → length cs < 50
      → on_data styled (strokes ks time ++ stroke 28 time) (clean dev true updates)
        ≡ some (clean dev true (updates ++ (styled (scan_report dev time cs) ∷ [])))
  unfolding on_data
  scan_reported ks cs time dev updates h k l =
      let m = 99 - length cs * 2 in
      let n : length cs * 2 + suc m ≡ 100 = omega arith in
      let after = clean dev true (updates ++ (styled (scan_report dev time cs) ∷ [])) in
      typed_at ks cs time (stroke 28 time) dev (suc m) updates h n
      ∙ on_data-step styled (enter time) (enter time ∷ [])
          (scanner_at dev true (doubled cs ++ zeros (suc m)) (length cs * 2) updates) after
          (enter_at cs m time dev updates (text_of_keys ks cs h) n k)
      ∙ on_data-step styled (enter time) [] after after (enter_alone time dev true _)

  -- The keys of a code of 50 characters and Enter make the code write behind its buffer.
  pub scan_overruns :
      (ks : List ℕ) (cs : Text) (time : ℤ) (dev : Text) (updates : List Text)
      → AreKeysOf ks cs
      → length cs ≡ 50
      → on_data styled (strokes ks time ++ stroke 28 time) (clean dev true updates) ≡ none
  unfolding on_data on_event put
  scan_overruns ks cs time dev updates h n =
      let size : length cs * 2 + 0 ≡ 100 = omega arith in
      typed_at ks cs time (stroke 28 time) dev 0 updates h size ∙ (rw n refl)
