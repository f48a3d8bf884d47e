-- ===== src/Balance/Weighed.antt =====
-- From a frame of the balance, equipment/ElecBalance.cpp, to the value that a PLC gets,
-- transcation/PlcFins.cpp.
use dev_hub.Base.{
  ℕ, zero, suc, ◌+◌, ◌∙◌, ◌&&◌, length, length-append, get_or-middle, All, false, Option, none,
  some, List, [], ◌∷◌, ◌++◌, if◌then◌else◌, ◌==◌, get_or, Text, codes, text_eq, ℤ, Json, obj,
  Fields, ◌≡◌, ◌≢◌, refl, ap, ◌⊎◌, inl, inr, arith,
}
use mathlib.Core.List.{append_assoc}
use dev_hub.Scanner.{c_string}
use dev_hub.Plc.Trim.{spaces, trim-spaces}
use dev_hub.Command.{member, find_field}
use dev_hub.Plc.{FinsLib}
use dev_hub.Plc.Fins.{PlcFins, Net, trim, value_text, text_of, send_value, update_info}
use dev_hub.Balance.{
  ElecBalance, stopped, measurement, time_use, value_of, value_loop, negation, stop_timer,
  on_steady, on_data,
}

-- The text of the value with the sign that the frame gives.
abbrev pub signed_text : ℕ → Text → Text
signed_text sign data_ = if sign == 43 then value_of data_ else 45 ∷ trim (value_of data_)

-- Texts that begin differently.
differ : (s t : Text) → get_or s 0 0 ≢ get_or t 0 0 → text_eq s t ≡ false
unfolding text_eq
differ [] [] n = elim (n refl) [ ]
differ [] (y ∷ t) n = refl
differ (x ∷ s) [] n = refl
differ (x ∷ s) (y ∷ t) n = let e : (x == y) ≡ false = ground (arith, n) in rw e refl

-- What PlcFins reads from the values of the balance.
value_text-plus :
    (used : ℤ) (data_ : Text)
    → value_text (measurement used (codes "+") data_) ≡ some (value_of data_)
unfolding value_text text_of member find_field text_eq
value_text-plus used data_ = refl

value_text-minus :
    (used : ℤ) (data_ : Text)
    → value_text (measurement used (codes "-") data_) ≡ some (45 ∷ trim (value_of data_))
unfolding value_text text_of member find_field text_eq
value_text-minus used data_ = refl

not_space : (c : ℕ) → (negation c == 32) ≡ false
not_space c = ground arith

-- The loop reads the characters behind the first three.
value_loop-chars :
    (cs pre rest : Text) (n i : ℕ)
    → length cs ≡ n
    → length pre ≡ i + 3
    → value_loop n i (pre ++ (cs ++ rest)) ≡ cs
unfolding value_loop
value_loop-chars [] pre rest zero i l p = refl
value_loop-chars [] pre rest (suc n) i l p = absurd (omega arith)
value_loop-chars (c ∷ cs) pre rest zero i l p = absurd (omega arith)
value_loop-chars (c ∷ cs) pre rest (suc n) i l p =
    let here : get_or (pre ++ (c ∷ (cs ++ rest))) (i + 3) 0 ≡ c =
      rw (← p) (get_or-middle pre (cs ++ rest) c) in
    let later : value_loop n (suc i) (pre ++ (c ∷ (cs ++ rest))) ≡ cs =
      rw (← append_assoc pre (c ∷ []) (cs ++ rest)) (
        value_loop-chars cs (pre ++ (c ∷ [])) rest n (suc i) (omega arith)
          (omega (arith, length-append pre (c ∷ [])))) in
    let other : ((i == 0) && (negation c == 32)) ≡ false = ground (arith, not_space c) in
    rw here rw other rw later refl

c_string-nonzero : (s : Text) → All (λ c. c ≢ 0) s → c_string s ≡ s
unfolding c_string
c_string-nonzero [] h = refl
c_string-nonzero (c ∷ s) h = ground (arith, h.0, c_string-nonzero s h.1)

value_of-chars :
    (pre cs rest : Text)
    → length pre ≡ 3
    → length cs ≡ 8
    → All (λ c. c ≢ 0) cs
    → value_of (pre ++ (cs ++ rest)) ≡ cs
unfolding value_of
value_of-chars pre cs rest p l h =
    ap c_string (value_loop-chars cs pre rest 8 0 l p) ∙ c_string-nonzero cs h

stopped-kept :
    (o : Option ℕ) (b : ElecBalance)
    → ((stopped o b).updates ≡ b.updates) × ((stopped o b).start_time ≡ b.start_time)
stopped-kept none b = (refl, refl)
stopped-kept (some tid) b = (refl, refl)

module _ {D H : Type 0} (parse : Text → Option Json) (read_float : Text → List ℕ)
    (lib : FinsLib D H) where
  -- A message that the JSON library reads, and that is none of the error texts.
  update_info_value :
      (msg valuestr : Text) (root : Json) (s : PlcFins × Net D H)
      → get_or msg 0 0 ≡ 123
      → parse msg ≡ some root
      → value_text root ≡ some valuestr
      → update_info parse read_float lib msg s ≡ some (send_value lib (read_float valuestr) s)
  unfolding update_info
  update_info_value msg valuestr root s o p v =
      let frame : text_eq msg (codes "errorFrame") ≡ false =
        differ msg (codes "errorFrame") (ground (arith, o)) in
      let data_ : text_eq msg (codes "errorData") ≡ false =
        differ msg (codes "errorData") (ground (arith, o)) in
      rw (frame, data_, p, v) refl

  -- The messages of steady frames, with `value_of` for the value.
  weighed_value :
      (styled : Json → Text) (data_ : Text) (now : ℕ) (b : ElecBalance) (s : PlcFins × Net D H)
      → ((used : ℤ) (symbol : Text)
          → parse (styled (measurement used symbol data_)) ≡ some (measurement used symbol data_))
      → ((fields : Fields) → get_or (styled (obj fields)) 0 0 ≡ 123)
      → get_or data_ 0 0 ≡ 75
      → get_or data_ 1 0 ≡ 32
      → (get_or data_ 2 0 ≡ 43) ⊎ (get_or data_ 2 0 ≡ 45)
      → (msg : Text) × ((on_data styled data_ now b).updates ≡ b.updates ++ (msg ∷ []))
        × (update_info parse read_float lib msg s
            ≡ some (send_value lib (read_float (signed_text (get_or data_ 2 0) data_)) s))
  unfolding on_data on_steady stop_timer
  weighed_value styled data_ now b s r o k w (inl e) =
      let kept = stopped-kept b.timer b in
      let used = time_use now (stopped b.timer b).start_time in
      (
        styled (measurement used (codes "+") data_),
        (rw (k, w, e) (ap (λ l. l ++ (styled (measurement used (codes "+") data_) ∷ [])) kept.0)),
        (rw e (update_info_value _ _ _ s (o _) (r used (codes "+")) (value_text-plus used data_))),
      )
  weighed_value styled data_ now b s r o k w (inr e) =
      let kept = stopped-kept b.timer b in
      let used = time_use now (stopped b.timer b).start_time in
      (
        styled (measurement used (codes "-") data_),
        (rw (k, w, e) (ap (λ l. l ++ (styled (measurement used (codes "-") data_) ∷ [])) kept.0)),
        (rw e (update_info_value _ _ _ s (o _) (r used (codes "-")) (value_text-minus used data_))),
      )

  -- A steady frame of the balance, with a plus or a minus, eight characters for the value and any
  -- rest, where the value is a number of at least two characters without spaces at its ends, between
  -- spaces: OnData gives m_updater one message, and for that message a PlcFins does `send_value` with
  -- the float of the eight characters for a plus, and of a minus and the number without the spaces
  -- for a minus. The JSON library is supposed to read back the object that it wrote, and to begin an
  -- object by a brace.
  pub weighed :
      (styled : Json → Text) (sign m x y n : ℕ) (core rest : Text) (now : ℕ) (b : ElecBalance)
      (s : PlcFins × Net D H)
      → let chars = spaces m ++ (x ∷ core ++ (y ∷ spaces n)) in
        let data_ = 75 ∷ 32 ∷ sign ∷ (chars ++ rest) in
        ((used : ℤ) (symbol : Text)
          → parse (styled (measurement used symbol data_)) ≡ some (measurement used symbol data_))
        → ((fields : Fields) → get_or (styled (obj fields)) 0 0 ≡ 123)
        → (sign ≡ 43) ⊎ (sign ≡ 45)
        → length chars ≡ 8
        → All (λ c. c ≢ 0) chars
        → x ≢ 32
        → y ≢ 32
        → (msg : Text) × ((on_data styled data_ now b).updates ≡ b.updates ++ (msg ∷ []))
          × (update_info parse read_float lib msg s
              ≡ some (
                  send_value lib
                    (read_float (if sign == 43 then chars else 45 ∷ (x ∷ core ++ (y ∷ []))))
                    s))
  weighed styled sign m x y n core rest now b s r o g l z hx hy =
      let chars = spaces m ++ (x ∷ core ++ (y ∷ spaces n)) in
      let w = weighed_value styled (75 ∷ 32 ∷ sign ∷ (chars ++ rest)) now b s r o refl refl g in
      let v : value_of (75 ∷ 32 ∷ sign ∷ (chars ++ rest)) ≡ chars =
        value_of-chars (75 ∷ 32 ∷ sign ∷ []) chars rest refl l z in
      (w.0, w.1, w.2 ∙ (rw (v, trim-spaces x y m n core hx hy) refl))
