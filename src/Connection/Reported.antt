-- ===== src/Connection/Reported.antt =====
-- How often a ConnectorImp reports a connection.
use mathlib.Core.Path.{subst}
use dev_hub.Base.{
  ℕ, suc, ◌≡◌, refl, ◌+◌, ◌≤◌, ◌<◌, Bool, true, false, Option, none, some, List, [], ◌∷◌, contains,
  length, length-append, arith, Bool-cases, inl, inr,
}
use dev_hub.Connection.{SocketLib, Connection}
use dev_hub.Connection.Connector.{
  Connector, Operation, connecting, cancelling, fired, Outcome, quietly, told, resume, once,
  connects, connect, without, delete_event, cancel, destroy, report, on_connect_result, on_connect,
  step, run,
}

length-without : (s : ℕ) (l : List ℕ) → length (without s l) ≤ length l
length-without s [] = omega arith
length-without s (x ∷ xs) = ground (arith, length-without s xs)

length-without_shorter :
    (s : ℕ) (l : List ℕ) → contains s l ≡ true → suc (length (without s l)) ≡ length l
length-without_shorter s [] h = ground arith
length-without_shorter s (x ∷ xs) h = ground (arith, length-without_shorter s xs)

-- At most so many reports, those that may still come from an added event included.
abbrev pub Reports : {B : Type 0} → ℕ → Outcome B → Type 0
Reports n none = Unit
Reports n (some (c, rs)) = length rs + length c.pending ≤ n

told-Reports :
    {B : Type 0} (r : List (Option (Connection B))) (x : Outcome B) (n m : ℕ)
    → Reports n x
    → length r + n ≤ m
    → Reports m (told r x)
told-Reports r none n m h k = tt
told-Reports r (some (c, rs)) n m h k = omega (arith, h, k, length-append r rs)

resume-Reports :
    {B : Type 0} (next : Connector → Outcome B) (x : Outcome B) (n k : ℕ)
    → Reports n x
    → ((c : Connector) → Reports (length c.pending + k) (next c))
    → Reports (n + k) (resume next x)
resume-Reports next none n k h g = tt
resume-Reports next (some (c, r)) n k h g =
    told-Reports r (next c) (length c.pending + k) (n + k) (g c) (omega (arith, h))

delete_event-Reports :
    (B : Type 0) (e : Option ℕ) (c : Connector) (n : ℕ)
    → length c.pending ≤ n
    → Reports n (quietly {B = B} (delete_event e c))
unfolding delete_event
delete_event-Reports B none c n h = tt
delete_event-Reports B (some e) c n h = omega (arith, h, length-without e c.pending)

module _ {D B : Type 0} (lib : SocketLib D B) where
  report-Reports :
      (k : Option ℕ) (error : Bool) (s : ℕ) (c : Connector) (n : ℕ)
      → length c.pending < n
      → Reports n (some (report lib k error s c))
  unfolding report
  report-Reports none error s c n h = omega (arith, h)
  report-Reports (some k) true s c n h = omega (arith, h)
  report-Reports (some k) false s c n h = omega (arith, h)

  step-Reports :
      (o : Operation) (c : Connector) → Reports (length c.pending + once o) (step lib o c)
  unfolding step connect cancel on_connect on_connect_result
  step-Reports (connecting s) c = omega arith
  step-Reports cancelling c = elim (Bool-cases c.connecting) [
    | inl e ↦ rw e (
        delete_event-Reports B c.event (record c { connecting = true }) (length c.pending + 0)
          (omega arith))
    | inr e ↦ rw e (omega arith)
  ]
  step-Reports (fired s error) c = elim (Bool-cases (contains s c.pending)) [
    | inl e ↦ rw e (
        report-Reports c.sink error s
          (record c { pending = without s c.pending; connecting = false }) (length c.pending + 0)
          (omega (arith, length-without_shorter s c.pending e)))
    | inr e ↦ rw e (omega arith)
  ]

  -- Over any operations on a connector its sink gets at most as many calls of OnConnection as
  -- Connect was called, and as events were added before; those events that are still added in the
  -- end are counted with the calls.
  pub run-Reports :
      (os : List Operation) (c : Connector)
      → Reports (length c.pending + connects os) (run lib os c)
  unfolding run
  run-Reports [] c = omega arith
  run-Reports (o ∷ os) c =
      subst (λ n. Reports n (run lib (o ∷ os) c)) (omega arith)
        (resume-Reports (run lib os) (step lib o c) (length c.pending + once o) (connects os)
          (step-Reports o c) (run-Reports os))

-- After a Cancel that ends a Connect the destructor calls event_del with NULL.
abbrev pub Undeletable : Option Connector → Type 0
Undeletable none = ⊥
Undeletable (some c) = destroy c ≡ none

pub cancel-Undeletable :
    (c : Connector) (e : ℕ) → c.connecting ≡ true → c.event ≡ some e → Undeletable (cancel c)
unfolding cancel delete_event destroy
cancel-Undeletable c e h k = rw (h, k) refl
