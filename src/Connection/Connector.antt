-- ===== src/Connection/Connector.antt =====
-- ConnectorImp of Communication/connbaseimp.cpp: a connection that is asked for.
-- `event` is m_connectEvent, named by the socket that it was made for, or `none` for NULL.
-- `pending` has the sockets whose event is added in libevent, for one time. What is reported is
-- OnConnection of the sink, with `none` for a NULL connection. `none` as a result: event_del is
-- called with NULL.
use dev_hub.Base.{
  ℕ, ◌+◌, ◌==◌, ◌++◌, Bool, true, false, Option, none, some, List, [], ◌∷◌, Text, if◌then◌else◌,
  contains,
}
use dev_hub.Connection.{SocketLib, Connection, new_connection}

pub record Connector : Type 0 where
  pub peer_addr : Text
  pub peer_port : ℕ
  pub sink : Option ℕ
  pub fd : Option ℕ
  pub connecting : Bool
  pub event : Option ℕ
  pub pending : List ℕ

-- The constructor. m_connecting is not set: `before` is what the memory has.
unfoldable pub new_connector : Text → ℕ → Option ℕ → Bool → Connector
new_connector addr port sink before = record {
  peer_addr = addr;
  peer_port = port;
  sink = sink;
  fd = none;
  connecting = before;
  event = none;
  pending = [];
}

-- event_del.
abbrev pub without : ℕ → List ℕ → List ℕ
without s [] = []
without s (x ∷ xs) = if s == x then xs else x ∷ without s xs

-- Connect, with the socket that `socket` made. StrToAddress does not fail.
unfoldable pub connect : ℕ → Connector → Connector
connect s c = record c { connecting = true; fd = some s; event = some s; pending = s ∷ c.pending }

-- Cancel, while m_connecting.
unfoldable pub delete_event : Option ℕ → Connector → Option Connector
delete_event none c = none
delete_event (some e) c =
    some (record c { sink = none; fd = none; event = none; pending = without e c.pending })

-- ConnectorImp::Cancel. It leaves m_connecting as it is.
unfoldable pub cancel : Connector → Option Connector
cancel c = if c.connecting then delete_event c.event c else some c

-- The end of ~ConnectorImp, which closes m_fd and deletes the event.
unfoldable pub deleted : Option ℕ → List ℕ → Option (List ℕ)
deleted none p = none
deleted (some e) p = some (without e p)

-- ConnectorImp::~ConnectorImp: what is pending after it.
unfoldable pub destroy : Connector → Option (List ℕ)
destroy c = elim (cancel c) [ none ↦ none | some c' ↦ deleted c'.event c'.pending ]

module _ {D B : Type 0} where
  unfoldable pub report :
      SocketLib D B → Option ℕ → Bool → ℕ → Connector → Connector × List (Option (Connection B))
  report lib none error s c = (c, [])
  report lib (some k) true s c = (c, none ∷ [])
  report lib (some k) false s c = (record c { fd = none }, some (new_connection lib s) ∷ [])

  -- ConnectorImp::OnConnectResult.
  unfoldable pub on_connect_result :
      SocketLib D B → ℕ → Bool → Connector → Connector × List (Option (Connection B))
  on_connect_result lib s error c = report lib c.sink error s (record c { connecting = false })

  -- on_connect, when libevent fires the event of a socket: `error` is that it timed out or that
  -- the socket has no peer.
  unfoldable pub on_connect :
      SocketLib D B → ℕ → Bool → Connector → Connector × List (Option (Connection B))
  on_connect lib s error c =
      if contains s c.pending
      then on_connect_result lib s error (record c { pending = without s c.pending })
      else (c, [])

pub data Operation : Type 0 where
  connecting : ℕ → Operation
  cancelling : Operation
  fired : ℕ → Bool → Operation

abbrev pub Outcome : Type 0 → Type 0
Outcome B = Option (Connector × List (Option (Connection B)))

abbrev pub quietly : {B : Type 0} → Option Connector → Outcome B
quietly none = none
quietly (some c) = some (c, [])

abbrev pub told : {B : Type 0} → List (Option (Connection B)) → Outcome B → Outcome B
told r none = none
told r (some (c, rs)) = some (c, r ++ rs)

abbrev pub resume : {B : Type 0} → (Connector → Outcome B) → Outcome B → Outcome B
resume next none = none
resume next (some (c, r)) = told r (next c)

module _ {D B : Type 0} where
  unfoldable pub step : SocketLib D B → Operation → Connector → Outcome B
  step lib (connecting s) c = some (connect s c, [])
  step lib cancelling c = quietly (cancel c)
  step lib (fired s error) c = some (on_connect lib s error c)

  -- All reports, in order.
  unfoldable pub run : SocketLib D B → List Operation → Connector → Outcome B
  run lib [] c = some (c, [])
  run lib (o ∷ os) c = resume (run lib os) (step lib o c)

abbrev pub once : Operation → ℕ
once (connecting s) = 1
once cancelling = 0
once (fired s error) = 0

abbrev pub connects : List Operation → ℕ
connects [] = 0
connects (o ∷ os) = once o + connects os
