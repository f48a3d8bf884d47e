-- ===== src/Session/Stream.antt =====
-- Streams of frames through `Session::OnData`, read in any pieces.
use dev_hub.Base.{
  ℕ, ◌+◌, ◌<◌, ◌≡◌, ◌≢◌, refl, ap, ◌∙◌, inl, inr, true, false, none, some, List, [], ◌∷◌, ◌++◌,
  if◌then◌else◌, ◌==◌, length, length-append, Text, All, arith, Bool-cases, ==_iff,
}
use mathlib.Core.List.{append_assoc, append-nil}
use dev_hub.Session.{on_data, on_datas, send_message}
use dev_hub.Session.Frames.{split, on_data-split, StartsWithNul}

-- What a peer writes for its messages: each with a closing NUL.
abbrev pub wire : List Text → Text
wire [] = []
wire (f ∷ fs) = f ++ (0 ∷ wire fs)

abbrev pub concat : List Text → Text
concat [] = []
concat (b ∷ bs) = b ++ concat bs

abbrev pub NulFree : Text → Type 0
NulFree f = All (λ c. c ≢ 0) f

-- No run that closes in the stream has exactly one byte.
abbrev Long : Text → Text → Type 0
Long acc [] = Unit
Long acc (c ∷ cs) =
    ((c ≡ 0) → (length acc ≢ 1) × Long [] cs) × ((c ≢ 0) → Long (acc ++ (c ∷ [])) cs)

split-append :
    (xs ys acc : Text)
    → let (a, out) = split acc xs in
      let (b, rest) = split a ys in split acc (xs ++ ys) ≡ (b, out ++ rest)
unfolding split
split-append [] ys acc = refl
split-append (c ∷ xs) ys acc =
    ground (arith, split-append xs ys [], split-append xs ys (acc ++ (c ∷ [])))

split-frame :
    (f acc rest : Text)
    → NulFree f
    → 0 < length acc + length f
    → let (a, out) = split [] rest in split acc (f ++ (0 ∷ rest)) ≡ (a, (acc ++ f) ∷ out)
unfolding split
split-frame [] acc rest n h = ground (arith, append-nil acc)
split-frame (c ∷ f) acc rest n h = ground (
  arith,
  split-frame f (acc ++ (c ∷ [])) rest n.1 (omega (arith, length-append acc (c ∷ []))),
  append_assoc acc (c ∷ []) f,
)

Long-StartsWithNul : (acc xs : Text) → Long acc xs → ¬ ((length acc ≡ 1) × StartsWithNul xs)
Long-StartsWithNul acc [] l h = h.1
Long-StartsWithNul acc (c ∷ cs) l h = (l.0 h.1).0 h.0

Long-prefix : (xs ys acc : Text) → Long acc (xs ++ ys) → Long acc xs
Long-prefix [] ys acc l = tt
Long-prefix (c ∷ xs) ys acc l = (
  λ z. ((l.0 z).0, Long-prefix xs ys [] (l.0 z).1),
  λ z. Long-prefix xs ys (acc ++ (c ∷ [])) (l.1 z),
)

-- The run that stays open does not depend on the runs that closed.
split-open :
    (c : ℕ) (xs acc : Text)
    → (split acc (c ∷ xs)).0 ≡ (if c == 0 then (split [] xs).0 else (split (acc ++ (c ∷ [])) xs).0)
unfolding split
split-open c xs acc = ground arith

Long-rest : (xs ys acc : Text) → Long acc (xs ++ ys) → Long (split acc xs).0 ys
Long-rest [] ys acc l = unfold split in l
Long-rest (c ∷ xs) ys acc l = elim (Bool-cases (c == 0)) [
  | inl z ↦ rw (split-open, z) (Long-rest xs ys [] (l.0 ((==_iff c 0).0 z)).1)
  | inr z ↦ rw (split-open, z) (Long-rest xs ys (acc ++ (c ∷ [])) (l.1 (ground arith)))
]

-- However a stream without one-byte frames is cut into reads, the result is that of one read.
on_datas-split :
    (bufs : List Text) (acc : Text)
    → Long acc (concat bufs)
    → on_datas acc bufs ≡ split acc (concat bufs)
unfolding on_datas
on_datas-split [] acc l = unfold split in refl
on_datas-split (buf ∷ bufs) acc l = ground (
  arith,
  on_data-split acc buf (Long-StartsWithNul acc buf (Long-prefix buf (concat bufs) acc l)),
  on_datas-split bufs (split acc buf).0 (Long-rest buf (concat bufs) acc l),
  split-append buf (concat bufs) acc,
)

Long-frame :
    (f acc rest : Text)
    → NulFree f
    → 1 < length acc + length f
    → Long [] rest
    → Long acc (f ++ (0 ∷ rest))
Long-frame [] acc rest n h l = (λ z. (omega arith, l), λ z. absurd (z refl))
Long-frame (c ∷ f) acc rest n h l = (
  λ z. absurd (n.0 z),
  λ z. Long-frame f (acc ++ (c ∷ [])) rest n.1 (omega (arith, length-append acc (c ∷ []))) l,
)

-- A frame as the peers of the hub send it: no NUL inside, and at least two bytes.
abbrev pub IsFrame : Text → Type 0
IsFrame f = NulFree f × (1 < length f)

Long-wire : (fs : List Text) → All IsFrame fs → Long [] (wire fs)
Long-wire [] h = tt
Long-wire (f ∷ fs) h = Long-frame f [] (wire fs) h.0.0 (omega arith) (Long-wire fs h.1)

split-wire : (fs : List Text) → All IsFrame fs → split [] (wire fs) ≡ ([], fs)
split-wire [] h = unfold split in refl
split-wire (f ∷ fs) h =
    ground (arith, split-frame f [] (wire fs) h.0.0 (omega arith), split-wire fs h.1)

-- Frames of at least two bytes and without NUL, each sent with its closing NUL, arrive whole, in
-- order and nothing else, into whatever reads the stream is cut; the buffer ends empty.
pub on_datas-wire :
    (fs bufs : List Text) → All IsFrame fs → concat bufs ≡ wire fs → on_datas [] bufs ≡ ([], fs)
on_datas-wire fs bufs h e =
    on_datas-split bufs [] (rw e (Long-wire fs h)) ∙ ap (split []) e ∙ split-wire fs h

-- A message of at least one byte and without NUL that a connected session sends is, read in one
-- piece by another session with an empty buffer, exactly one frame with the message's bytes; a
-- session with no connection sends nothing.
pub on_data-send_message :
    (str : Text)
    → NulFree str
    → 0 < length str
    → ((bytes : Text) × (send_message true str ≡ some bytes) × (on_data [] bytes ≡ ([], str ∷ [])))
      × (send_message false str ≡ none)
on_data-send_message str n h = (
  (
    str ++ (0 ∷ []),
    unfold send_message in refl,
    on_data-split [] (str ++ (0 ∷ [])) (λ p. omega arith)
        ∙ unfold split in split-frame str [] [] n (omega arith),
  ),
  unfold send_message in refl,
)
