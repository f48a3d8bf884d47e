-- ===== src/Server/Frame.antt =====
-- Who gets a frame (OnFrame).
use dev_hub.Base.{
  ℕ, ◌<◌, ◌≡◌, ◌≢◌, refl, inl, inr, false, List, [], ◌∷◌, if◌then◌else◌, Text, Json, keys, contains,
  All, Bool-cases, arith,
}
use dev_hub.Task.{TaskStatus, task_idle}
use dev_hub.Server.{down_all, on_frame, busy_message, is_idle}
use dev_hub.Server.Subscribe.{subscribed}
use dev_hub.Server.Remove.{IsValid, lookup-missing}

-- The transcations of a session, in the order of the map.
unfoldable pub targets : ℕ → List (ℕ × List ℕ) → List ℕ
targets s [] = []
targets s ((id, l) ∷ m) = let rest = targets s m in if contains s l then id ∷ rest else rest

-- The down channel is called with the frame for one id after the other.
abbrev pub each : {S : Type 0} → (ℕ → Text → S → S) → Text → List ℕ → S → S
each down frame [] st = st
each down frame (id ∷ ids) st = each down frame ids (down id frame st)

down_all-targets :
    {S : Type 0} (down : ℕ → Text → S → S) (frame : Text) (s : ℕ) (m : List (ℕ × List ℕ)) (st : S)
    → down_all down frame s m st ≡ each down frame (targets s m) st
unfolding down_all targets
down_all-targets down frame s [] st = refl
down_all-targets down frame s ((id, l) ∷ m) st = elim (Bool-cases (contains s l)) [
  | inl e ↦ rw e (down_all-targets down frame s m (down id frame st))
  | inr e ↦ rw e (down_all-targets down frame s m st)
]

targets-above :
    (k s : ℕ) (m : List (ℕ × List ℕ))
    → All (λ j. k < j) (keys m)
    → All (λ j. k < j) (targets s m) × (contains k (targets s m) ≡ false)
unfolding targets
targets-above k s [] h = (tt, refl)
targets-above k s ((id, l) ∷ m) h = elim (Bool-cases (contains s l)) [
  | inl e ↦ rw e ((h.0, (targets-above k s m h.1).0), ground (arith, (targets-above k s m h.1).1))
  | inr e ↦ rw e (targets-above k s m h.1)
]

abbrev pub Ascending : List ℕ → Type 0
Ascending [] = Unit
Ascending (k ∷ ks) = All (λ r. k < r) ks × Ascending ks

targets-Ascending : (s : ℕ) (m : List (ℕ × List ℕ)) → IsValid m → Ascending (targets s m)
unfolding targets
targets-Ascending s [] v = tt
targets-Ascending s ((id, l) ∷ m) v = elim (Bool-cases (contains s l)) [
  | inl e ↦ rw e ((targets-above id s m v.0).0, targets-Ascending s m v.3)
  | inr e ↦ rw e (targets-Ascending s m v.3)
]

targets-subscribed :
    (s id : ℕ) (m : List (ℕ × List ℕ)) → IsValid m → contains id (targets s m) ≡ subscribed id s m
unfolding targets
targets-subscribed s id [] v = refl
targets-subscribed s id ((k, l) ∷ m) v =
    ground
      (arith, targets-subscribed s id m v.3, (targets-above k s m v.0).1, lookup-missing k m v.0)

-- A frame of a session whose task is busy is answered by exactly one "Busy" message and goes
-- nowhere. A frame of an idle session on a valid map goes down once for each transcation that the
-- session is subscribed to and for no other, in the ascending order of the ids.
pub on_frame-targets :
    {S : Type 0} (down : ℕ → Text → S → S) (styled : Json → Text) (send : Text → S → S)
    (status : S → TaskStatus) (frame : Text) (s : ℕ) (m : List (ℕ × List ℕ)) (st : S)
    → IsValid m
    → (status st ≢ task_idle
        → on_frame down styled send status frame s m st ≡ send (busy_message styled) st)
      × (status st ≡ task_idle
          → on_frame down styled send status frame s m st ≡ each down frame (targets s m) st)
      × Ascending (targets s m)
      × ((id : ℕ) → contains id (targets s m) ≡ subscribed id s m)
on_frame-targets down styled send status frame s m st v = (
  λ busy. unfold on_frame is_idle in ground arith,
  λ idle.
      unfold on_frame in rw (idle, is_idle) (unfold is_idle in down_all-targets down frame s m st),
  targets-Ascending s m v,
  λ id. targets-subscribed s id m v,
)
