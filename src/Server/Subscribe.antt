-- ===== src/Server/Subscribe.antt =====
-- Who is subscribed to what, after SubscibeTranscationId and OnConnection.
use dev_hub.Base.{
  ℕ, ◌≡◌, refl, ◌∙◌, inl, inr, Bool, true, false, not, ◌&&◌, ◌||◌, none, some, List, [], ◌∷◌, ◌++◌,
  if◌then◌else◌, ◌==◌, lookup, lookup-insert, contains, Option-cases, arith,
}
use dev_hub.Server.{Server, subscribe, subscribe_all, on_connection}

-- The session is in the list of the transcation.
abbrev pub subscribed : ℕ → ℕ → List (ℕ × List ℕ) → Bool
subscribed id s m = elim (lookup id m) [ none ↦ false | some l ↦ contains s l ]

pub contains-append :
    (x : ℕ) (xs ys : List ℕ) → contains x (xs ++ ys) ≡ (contains x xs || contains x ys)
contains-append x [] ys = refl
contains-append x (y ∷ xs) ys = ground (arith, contains-append x xs ys)

-- SubscibeTranscationId answers whether the session was not subscribed to the transcation before.
-- After it the session is; who else is subscribed to what does not change.
pub subscribe-subscribed :
    (id s j x : ℕ) (m : List (ℕ × List ℕ))
    → let (fresh, m') = subscribe id s m in
      (fresh ≡ not (subscribed id s m))
      × (subscribed j x m' ≡ ((id == j && s == x) || subscribed j x m))
unfolding subscribe
subscribe-subscribed id s j x m = elim (Option-cases (lookup id m)) [
  | inl e ↦ ground (arith, e, lookup-insert j id (s ∷ []) m)
  | inr (l, e) ↦
      ground (arith, e, lookup-insert j id (l ++ (s ∷ [])) m, contains-append x l (s ∷ []))
]

subscribe_all-subscribed :
    {S : Type 0} (add set_task : ℕ → ℕ → S → S) (ids : List ℕ) (s j x : ℕ) (m : List (ℕ × List ℕ))
    (st : S)
    → subscribed j x (subscribe_all add set_task ids s m st).0
      ≡ ((contains j ids && s == x) || subscribed j x m)
unfolding subscribe_all
subscribe_all-subscribed add set_task [] s j x m st = refl
subscribe_all-subscribed add set_task (id ∷ ids) s j x m st =
    subscribe_all-subscribed add set_task ids s j x (subscribe id s m).1
      (set_task id s (add id s st))
    ∙ ground (arith, (subscribe-subscribed id s j x m).1)

-- A connection that the server's own acceptor hands over: its session is subscribed to exactly the
-- transcations of the peer's address in addition to what was there, nobody else's subscriptions
-- change, and the connection is listed and alive. A null connection, a null acceptor or another
-- acceptor changes nothing.
pub on_connection-subscribed :
    {S : Type 0} (add set_task : ℕ → ℕ → S → S) (has_ca has_conn is_connector own : Bool)
    (conn s : ℕ) (ids : List ℕ) (srv : Server) (st : S) (j x : ℕ)
    → let srv' =
        (on_connection add set_task has_ca has_conn is_connector own conn s ids srv st).0 in
      let accepted = has_ca && has_conn && not is_connector && own in
      (subscribed j x srv'.transcation_sessions
        ≡ ((accepted && contains j ids && s == x) || subscribed j x srv.transcation_sessions))
      × (srv'.connections ≡ (if accepted then srv.connections ++ (conn ∷ []) else srv.connections))
      × (srv'.live ≡ (if accepted then conn ∷ srv.live else srv.live))
unfolding on_connection
on_connection-subscribed add set_task true true false true conn s ids srv st j x =
    (subscribe_all-subscribed add set_task ids s j x srv.transcation_sessions st, refl, refl)
on_connection-subscribed add set_task true true false false conn s ids srv st j x =
    (refl, refl, refl)
on_connection-subscribed add set_task true true true own conn s ids srv st j x = (refl, refl, refl)
on_connection-subscribed add set_task true false ic own conn s ids srv st j x = (refl, refl, refl)
on_connection-subscribed add set_task false hc ic own conn s ids srv st j x = (refl, refl, refl)
