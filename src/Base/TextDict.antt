-- ===== src/Base/TextDict.antt =====
-- std::map with text keys: an association list in the order of the texts.
use mathlib.Core.Path.{◌≡◌, refl, ◌∙◌}
use mathlib.Core.Logic.{inl, inr}
use mathlib.Core.Bool.{Bool, true, false}
use mathlib.Core.List.{List, [], ◌∷◌}
use mathlib.Core.Option.{Option, none, some}
use dev_hub.Base.Tests.{◌==◌, ltb, if◌then◌else◌, Bool-cases}
use dev_hub.Base.Bytes.{Text, text_eq, text_eq_self, text_eq_eq, text_eq_comm}

-- `std::string <`.
unfoldable pub text_ltb : Text → Text → Bool
text_ltb s [] = false
text_ltb [] (y ∷ ys) = true
text_ltb (x ∷ xs) (y ∷ ys) =
    let rest = text_ltb xs ys in if ltb x y then true else if x == y then rest else false

module _ {ℓ} {V : Type ℓ} where
  -- `find(k)`: the value, or `end()`.
  abbrev pub find_key : Text → List (Text × V) → Option V
  find_key k [] = none
  find_key k ((j, v) ∷ m) = if text_eq j k then some v else find_key k m

  -- `m[k] = v`: a new key goes to its place in the order.
  abbrev pub assign_key : Text → V → List (Text × V) → List (Text × V)
  assign_key k v [] = (k, v) ∷ []
  assign_key k v ((j, w) ∷ m) =
      let rest = assign_key k v m in
      if text_eq k j
      then (k, v) ∷ m
      else if text_ltb k j
      then (k, v) ∷ (j, w) ∷ m
      else (j, w) ∷ rest

  -- `insert` of a pair whose key is not in the map, and nothing for a key that is.
  abbrev pub add_unless : Option V → Text → V → List (Text × V) → List (Text × V)
  add_unless none k v m = assign_key k v m
  add_unless (some w) k v m = m

  abbrev pub add_key : Text → V → List (Text × V) → List (Text × V)
  add_key k v m = add_unless (find_key k m) k v m

  pub find_key-assign_key_self :
      (k : Text) (v : V) (m : List (Text × V)) → find_key k (assign_key k v m) ≡ some v
  find_key-assign_key_self k v [] = rw (text_eq_self k) refl
  find_key-assign_key_self k v ((j, w) ∷ m) = elim (Bool-cases (text_eq k j)) [
    | inl e ↦ rw (e, text_eq_self k) refl
    | inr e ↦ elim (Bool-cases (text_ltb k j)) [
      | inl z ↦ rw (e, z, text_eq_self k) refl
      | inr z ↦ rw (e, z, text_eq_comm j k ∙ e) (find_key-assign_key_self k v m)
    ]
  ]

  pub find_key-assign_key_other :
      (j k : Text) (v : V) (m : List (Text × V))
      → text_eq k j ≡ false
      → find_key j (assign_key k v m) ≡ find_key j m
  find_key-assign_key_other j k v [] e = rw e refl
  find_key-assign_key_other j k v ((i, w) ∷ m) e = elim (Bool-cases (text_eq k i)) [
    | inl a ↦ rw (a, e, ← text_eq_eq k i a, e) refl
    | inr a ↦ elim (Bool-cases (text_ltb k i)) [
      | inl b ↦ rw (a, b, e) refl
      | inr b ↦ rw (a, b, find_key-assign_key_other j k v m e) refl
    ]
  ]
