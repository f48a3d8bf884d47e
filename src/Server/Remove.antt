-- ===== src/Server/Remove.antt =====
-- The subscriptions after a session is gone (RemoveSessionInMap).
use dev_hub.Base.{
  ℕ, ◌<◌, ◌≡◌, refl, ◌∙◌, inl, inr, true, false, not, ◌&&◌, none, some, List, [], ◌∷◌, ◌++◌, ltb,
  ◌==◌, ==_iff, ltb→lt, length, length-append, lookup, insert, keys, contains, All, Bool-cases,
  Option-cases, arith,
}
use dev_hub.Server.{subscribe, erase, is_empty, remove_session}
use dev_hub.Server.Subscribe.{subscribed, contains-append}
use mathlib.Core.Path.{subst}

abbrev pub Distinct : List ℕ → Type 0
Distinct [] = Unit
Distinct (x ∷ xs) = (contains x xs ≡ false) × Distinct xs

-- The map of the server: the ids ascending, no empty list, no session twice in a list.
abbrev pub IsValid : List (ℕ × List ℕ) → Type 0
IsValid [] = Unit
IsValid ((id, l) ∷ m) = All (λ k. id < k) (keys m) × (0 < length l) × Distinct l × IsValid m

contains-erase_ne :
    (s x : ℕ) (l : List ℕ) → (x == s) ≡ false → contains x (erase s l) ≡ contains x l
unfolding erase
contains-erase_ne s x [] h = refl
contains-erase_ne s x (y ∷ l) h = ground (arith, contains-erase_ne s x l h)

pub contains-erase_self : (s : ℕ) (l : List ℕ) → Distinct l → contains s (erase s l) ≡ false
unfolding erase
contains-erase_self s [] d = refl
contains-erase_self s (y ∷ l) d = ground (arith, contains-erase_self s l d.1)

Distinct-erase : (s : ℕ) (l : List ℕ) → Distinct l → Distinct (erase s l)
unfolding erase
Distinct-erase s [] d = tt
Distinct-erase s (y ∷ l) d = elim (Bool-cases (y == s)) [
  | inl e ↦ rw e d.1
  | inr e ↦ rw e (contains-erase_ne s y l e ∙ d.0, Distinct-erase s l d.1)
]

contains-erase :
    (s x : ℕ) (l : List ℕ) → Distinct l → contains x (erase s l) ≡ (contains x l && not (x == s))
contains-erase s x l d = elim (Bool-cases (x == s)) [
  | inl e ↦ ground (arith, contains-erase_self s l d)
  | inr e ↦ ground (arith, contains-erase_ne s x l e)
]

contains-empty : (x : ℕ) (l : List ℕ) → is_empty l ≡ true → contains x l ≡ false
unfolding is_empty
contains-empty x [] h = refl
contains-empty x (y ∷ l) h = cc

pub lookup-missing :
    (id : ℕ) (m : List (ℕ × List ℕ)) → All (λ k. id < k) (keys m) → lookup id m ≡ none
lookup-missing id [] h = refl
lookup-missing id ((k, l) ∷ m) h = ground (arith, lookup-missing id m h.1)

keys-remove_session :
    (s id : ℕ) (m : List (ℕ × List ℕ))
    → All (λ k. id < k) (keys m)
    → All (λ k. id < k) (keys (remove_session s m))
unfolding remove_session
keys-remove_session s id [] h = tt
keys-remove_session s id ((k, l) ∷ m) h = elim (Bool-cases (is_empty (erase s l))) [
  | inl e ↦ rw e (keys-remove_session s id m h.1)
  | inr e ↦ rw e (h.0, keys-remove_session s id m h.1)
]

length-pos : (l : List ℕ) → is_empty l ≡ false → 0 < length l
unfolding is_empty
length-pos [] h = cc
length-pos (x ∷ l) h = omega arith

-- RemoveSessionInMap keeps the map valid.
pub remove_session-IsValid :
    (s : ℕ) (m : List (ℕ × List ℕ)) → IsValid m → IsValid (remove_session s m)
unfolding remove_session
remove_session-IsValid s [] v = tt
remove_session-IsValid s ((k, l) ∷ m) v = elim (Bool-cases (is_empty (erase s l))) [
  | inl e ↦ rw e (remove_session-IsValid s m v.3)
  | inr e ↦ rw e (
    keys-remove_session s k m v.0,
    length-pos (erase s l) e,
    Distinct-erase s l v.2,
    remove_session-IsValid s m v.3,
  )
]

-- After RemoveSessionInMap on a valid map the session is subscribed to nothing, and every other
-- session to what it was subscribed to.
pub remove_session-subscribed :
    (s j x : ℕ) (m : List (ℕ × List ℕ))
    → IsValid m
    → subscribed j x (remove_session s m) ≡ (subscribed j x m && not (x == s))
unfolding remove_session
remove_session-subscribed s j x [] v = refl
remove_session-subscribed s j x ((k, l) ∷ m) v = ground (
  arith,
  remove_session-subscribed s j x m v.3,
  contains-erase s x l v.2,
  contains-empty x (erase s l),
  lookup-missing k (remove_session s m) (keys-remove_session s k m v.0),
)

Distinct-append :
    (l : List ℕ) (s : ℕ) → Distinct l → contains s l ≡ false → Distinct (l ++ (s ∷ []))
Distinct-append [] s d h = (refl, tt)
Distinct-append (x ∷ l) s d h =
    (ground (arith, contains-append x l (s ∷ [])), Distinct-append l s d.1 (ground arith))

keys-insert :
    (k id : ℕ) (l : List ℕ) (m : List (ℕ × List ℕ))
    → k < id
    → All (λ j. k < j) (keys m)
    → All (λ j. k < j) (keys (insert id l m))
keys-insert k id l [] lt h = (lt, tt)
keys-insert k id l ((j, l') ∷ m) lt h = ground (arith, keys-insert k id l m lt h.1)

All-above : (k id : ℕ) (ks : List ℕ) → k < id → All (λ j. id < j) ks → All (λ j. k < j) ks
All-above k id [] lt h = tt
All-above k id (j ∷ ks) lt h = (omega arith, All-above k id ks lt h.1)

insert-IsValid :
    (id : ℕ) (l : List ℕ) (m : List (ℕ × List ℕ))
    → 0 < length l
    → Distinct l
    → IsValid m
    → IsValid (insert id l m)
insert-IsValid id l [] p d v = (tt, p, d, tt)
insert-IsValid id l ((j, l') ∷ m) p d v = elim (Bool-cases (id == j)) [
  | inl e ↦ rw e (rw ((==_iff id j).0 e) (v.0, p, d, v.3))
  | inr e ↦ rw e (elim (Bool-cases (ltb id j)) [
    | inl lt ↦ rw lt ((ltb→lt id j lt, All-above id j (keys m) (ltb→lt id j lt) v.0), p, d, v)
    | inr ge ↦
        rw ge (keys-insert j id l m (ground arith) v.0, v.1, v.2, insert-IsValid id l m p d v.3)
  ])
]

lookup-IsValid :
    (id : ℕ) (m : List (ℕ × List ℕ)) (l : List ℕ) → IsValid m → lookup id m ≡ some l → Distinct l
lookup-IsValid id [] l v e = cc
lookup-IsValid id ((j, l') ∷ m) l v e = elim (Bool-cases (j == id)) [
  | inl h ↦ (let same : l' ≡ l = ground arith in subst Distinct same v.2)
  | inr h ↦ lookup-IsValid id m l v.3 (rw h at e)
]

length-last : (l : List ℕ) (s : ℕ) → 0 < length (l ++ (s ∷ []))
length-last l s = omega (arith, length-append l (s ∷ []))

-- SubscibeTranscationId keeps the map valid.
pub subscribe-IsValid :
    (id s : ℕ) (m : List (ℕ × List ℕ)) → IsValid m → IsValid (subscribe id s m).1
subscribe-IsValid id s m v = elim (Option-cases (lookup id m)) [
  | inl e ↦
      unfold subscribe in
      rw (e, subscribe) (insert-IsValid id (s ∷ []) m (omega arith) (refl, tt) v)
  | inr (l, e) ↦ elim (Bool-cases (contains s l)) [
    | inl old ↦ unfold subscribe in rw (e, subscribe) (rw old v)
    | inr new ↦
        unfold subscribe in
        rw (e, subscribe)
          (rw new (
            insert-IsValid id (l ++ (s ∷ [])) m (length-last l s)
              (Distinct-append l s (lookup-IsValid id m l v e) new) v))
  ]
]
