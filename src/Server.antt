-- ===== src/Server.antt =====
-- CommServer of Communication/CommServer.cpp with the closing of sessions in
-- Communication/session.cpp: which sessions are subscribed to which transcations, and who gets a
-- frame. Sessions and connections are named by numbers. `live` are the connections that are not
-- deleted; a use of another one is a fault.
pub mod Subscribe
pub mod Remove
pub mod Frame
pub mod Broadcast
mod Tests
use dev_hub.Base.{
  ℕ, zero, suc, ◌+◌, Bool, true, false, Option, none, some, List, [], ◌∷◌, ◌++◌, if◌then◌else◌,
  ◌==◌, ltb, ◌&&◌, not, Text, codes, Json, str, obj, end, field, lookup, insert, contains, length,
}
use dev_hub.Task.{TaskStatus, task_idle, task_accept, task_run}

pub record Server : Type 0 where
  pub connections : List ℕ
  pub transcation_sessions : List (ℕ × List ℕ)
  pub session_list : List ℕ
  pub live : List ℕ

-- SubscibeTranscationId: false if the session is in the transcation's list already.
unfoldable pub subscribe : ℕ → ℕ → List (ℕ × List ℕ) → Bool × List (ℕ × List ℕ)
subscribe id s m = elim (lookup id m) [
  | none ↦ (true, insert id (s ∷ []) m)
  | some l ↦ if contains s l then (false, m) else (true, insert id (l ++ (s ∷ [])) m)
]

-- `list::erase` of the first element that is the value.
unfoldable pub erase : ℕ → List ℕ → List ℕ
erase s [] = []
erase s (x ∷ xs) = if x == s then xs else x ∷ erase s xs

is_empty : List ℕ → Bool
is_empty [] = true
is_empty (x ∷ xs) = false

-- RemoveSessionInMap: the session leaves each list, and a list that gets empty leaves the map.
unfoldable pub remove_session : ℕ → List (ℕ × List ℕ) → List (ℕ × List ℕ)
unfolding erase is_empty
remove_session s [] = []
remove_session s ((id, l) ∷ m) =
    let rest = remove_session s m in
    let l' = erase s l in if is_empty l' then rest else (id, l') ∷ rest

-- OnSessionClose.
unfoldable pub on_session_close : ℕ → Server → Server
unfolding erase
on_session_close s srv = record srv { session_list = erase s srv.session_list }

-- Session::OnDisconnect: the session leaves the map and the list, and Close deletes its
-- connection, if it has one.
unfoldable pub on_disconnect : ℕ → Option ℕ → Server → Server
unfolding on_session_close remove_session erase
on_disconnect s conn srv =
    let srv' =
      on_session_close s
        (record srv { transcation_sessions = remove_session s srv.transcation_sessions }) in
    elim conn [ none ↦ srv' | some c ↦ record srv' { live = erase c srv'.live } ]

-- The loop of OnConnection over the transcations of the peer's address: the session is subscribed,
-- its task gets the transcation, and the transcation gets the task. `add` and `set_task` are
-- Task::AddTranscation and TranscationManager::SetTransTask on the state outside the server.
module _ {S : Type 0} (add set_task : ℕ → ℕ → S → S) where
  unfoldable pub subscribe_all : List ℕ → ℕ → List (ℕ × List ℕ) → S → List (ℕ × List ℕ) × S
  unfolding subscribe
  subscribe_all [] s m st = (m, st)
  subscribe_all (id ∷ ids) s m st =
      subscribe_all ids s (subscribe id s m).1 (set_task id s (add id s st))

  -- OnConnection for the connection `conn` and a new session `s`. The tests: both pointers are
  -- given, and the acceptor is no connector and the server's own. `ids` is what GetTransIds says of
  -- the peer's address.
  unfoldable pub on_connection :
      Bool → Bool → Bool → Bool → ℕ → ℕ → List ℕ → Server → S → Server × S
  on_connection has_ca has_conn is_connector own conn s ids srv st =
      if not has_ca
      then (srv, st)
      else if not has_conn
      then (srv, st)
      else if not is_connector && own
      then (let (m', st') = subscribe_all ids s srv.transcation_sessions st in
          (
            record srv {
              connections = srv.connections ++ (conn ∷ []);
              transcation_sessions = m';
              live = conn ∷ srv.live;
            },
            st',
          ))
      else (srv, st)

is_idle : TaskStatus → Bool
is_idle task_idle = true
is_idle task_accept = false
is_idle task_run = false

-- The reply to a session whose task is not idle; `styled` is `Json::Value::toStyledString`.
abbrev pub busy_message : (Json → Text) → Text
busy_message styled = styled (obj (field (codes "cmd") (str (codes "Busy")) end))

-- OnFrame. `down` is OnDownStream of the down channel, `send` the session's SendMessage.
module _ {S : Type 0} (down : ℕ → Text → S → S) where
  unfoldable pub down_all : Text → ℕ → List (ℕ × List ℕ) → S → S
  down_all frame s [] st = st
  down_all frame s ((id, l) ∷ m) st =
      down_all frame s m (if contains s l then down id frame st else st)

  unfoldable pub on_frame :
      (Json → Text) → (Text → S → S) → (S → TaskStatus) → Text → ℕ → List (ℕ × List ℕ) → S → S
  unfolding down_all is_idle
  on_frame styled send status frame s m st =
      if not (is_idle (status st)) then send (busy_message styled) st else down_all frame s m st

-- Update: the data to each session of the transcation, if the map has it.
unfoldable pub send_all {ℓ} : {S : Type ℓ} → (ℕ → S → S) → List ℕ → S → S
send_all send [] st = st
send_all send (s ∷ l) st = send_all send l (send s st)

unfoldable pub update {ℓ} : {S : Type ℓ} → (ℕ → S → S) → ℕ → List (ℕ × List ℕ) → S → S
unfolding send_all
update send id m st = elim (lookup id m) [ none ↦ st | some l ↦ send_all send l st ]

-- `strncpy(dst, src, n)` on a text without NUL.
unfoldable pub strncpy : Text → ℕ → Text
strncpy buf zero = []
strncpy [] (suc n) = 0 ∷ strncpy [] n
strncpy (c ∷ buf) (suc n) = c ∷ strncpy buf n

-- What UpdateInfo does: it writes behind the end of its array, it uses a connection that was deleted,
-- or it hands a text to Connection::Send of each of these connections.
pub data Sending : Type 0 where
  overrun use_of_deleted : Sending
  sends : List (ℕ × Text) → Sending

abbrev pub and_send : ℕ × Text → Sending → Sending
and_send p overrun = overrun
and_send p use_of_deleted = use_of_deleted
and_send p (sends out) = sends (p ∷ out)

-- One connection after the other.
unfoldable pub send_to : List ℕ → Text → List ℕ → Sending
send_to live msg [] = sends []
send_to live msg (c ∷ cs) =
    let rest = send_to live msg cs in
    if contains c live then and_send (c, msg) rest else use_of_deleted

-- UpdateInfo: the array `send` has 1025 bytes.
unfoldable pub update_info : Text → ℕ → Server → Sending
unfolding strncpy send_to
update_info buf len srv =
    if ltb 1024 len then overrun else send_to srv.live (strncpy buf len ++ (0 ∷ [])) srv.connections
