-- ===== src/Connection.antt =====
-- A connection of Communication/connbaseimp.cpp: what is sent, what is kept, when it is closed.
-- libevent and the socket are a record of functions on a state `D` of the world, `B` is the type
-- of an evbuffer. A connection is `opened` with its sink, its socket, whether the write event is
-- added, and its buffer, or it is `closed`, as Close leaves it: no socket, no events, no buffer.
-- The read event is added from the constructor to Close.
pub mod Delivery
pub mod Waiting
pub mod Connector
pub mod Reported
mod Tests
use dev_hub.Base.{
  ℕ, zero, suc, Bool, true, false, ◌||◌, Option, none, some, List, [], ◌∷◌, Text, ℤ, pos, negsuc,
  if◌then◌else◌, ◌==◌, ltb,
}

abbrev pub minus_one : ℤ
minus_one = negsuc 0

-- EAGAIN, which is EWOULDBLOCK too.
abbrev pub eagain : ℕ
eagain = 11

abbrev pub max_read_len : ℕ
max_read_len = 2048

-- `write` is evbuffer_write: the number of bytes or -1, and the buffer without those bytes.
-- `recv` gives the bytes, or `none` for -1. `event_add` says whether it succeeded.
pub record SocketLib (D B : Type 0) : Type 0 where
  pub new_buffer : B
  pub get_length : B → ℕ
  pub add : B → Text → Option B
  pub write : B → ℕ → D → ℤ × B × D
  pub recv : ℕ → ℕ → D → Option Text × D
  pub close_socket : ℕ → D → D
  pub event_add : D → Bool × D
  pub errno : D → ℕ

pub data Connection (B : Type 0) : Type 0 where
  opened : Option ℕ → ℕ → Bool → B → Connection B
  closed : Option ℕ → Connection B

-- The calls of a sink.
pub data Notice : Type 0 where
  data_for : ℕ → Text → Notice
  disconnected : ℕ → ℕ → Notice

abbrev data_to : Option ℕ → Text → List Notice
data_to none s = []
data_to (some k) s = data_for k s ∷ []

abbrev disconnected_to : Option ℕ → ℕ → List Notice
disconnected_to none e = []
disconnected_to (some k) e = disconnected k e ∷ []

-- SetConnectionSink.
unfoldable pub set_connection_sink : {B : Type 0} → Option ℕ → Connection B → Connection B
set_connection_sink k (opened k' fd a b) = opened k fd a b
set_connection_sink k (closed k') = closed k

module _ {D B : Type 0} where
  -- The constructor of TcpConnection.
  unfoldable pub new_connection : SocketLib D B → ℕ → Connection B
  new_connection lib fd = opened none fd false lib.new_buffer

  -- Send, after evbuffer_get_length and evbuffer_add.
  unfoldable pub sent :
      SocketLib D B → ℕ → Option B → Option ℕ → ℕ → Bool → B → D → ℤ × Connection B × D
  sent lib left none k fd a b d = (minus_one, opened k fd a b, d)
  sent lib zero (some b') k fd a b d =
      let (rt, b'', d') = lib.write b' fd d in (rt, opened k fd a b'', d')
  sent lib (suc n) (some b') k fd a b d =
      let (ok, d') = lib.event_add d in
      (if ok then pos 0 else minus_one, opened k fd (a || ok) b', d')

  -- Connection::Send.
  unfoldable pub send : SocketLib D B → Text → Connection B → D → ℤ × Connection B × D
  send lib s (closed k) d = (minus_one, closed k, d)
  send lib s (opened k fd a b) d = sent lib (lib.get_length b) (lib.add b s) k fd a b d

  -- Connection::Close.
  unfoldable pub close : SocketLib D B → Connection B → D → Connection B × D
  close lib (closed k) d = (closed k, d)
  close lib (opened k fd a b) d = (closed none, lib.close_socket fd d)

  -- The end of OnRead and OnWrite after an error.
  unfoldable pub failed :
      SocketLib D B → ℕ → Option ℕ → ℕ → Bool → B → D → Connection B × List Notice × D
  failed lib err k fd a b d =
      if err == eagain
      then (opened k fd a b, [], d)
      else (let (c, d') = close lib (opened k fd a b) d in (c, disconnected_to k err, d'))

  -- OnRead, after recv.
  unfoldable pub received :
      SocketLib D B → Option Text → Option ℕ → ℕ → Bool → B → D → Connection B × List Notice × D
  received lib none k fd a b d = failed lib (lib.errno d) k fd a b d
  received lib (some []) k fd a b d = failed lib (lib.errno d) k fd a b d
  received lib (some (x ∷ xs)) k fd a b d = (opened k fd a b, data_to k (x ∷ xs), d)

  -- Connection::OnRead, when the socket is readable: a closed connection has no read event.
  unfoldable pub on_read : SocketLib D B → Connection B → D → Connection B × List Notice × D
  on_read lib (closed k) d = (closed k, [], d)
  on_read lib (opened k fd a b) d =
      let (r, d') = lib.recv fd max_read_len d in received lib r k fd a b d'

  -- OnWrite, after evbuffer_write. The event was added for one time only.
  unfoldable pub written :
      SocketLib D B → ℤ → ℕ → Option ℕ → ℕ → B → D → Connection B × List Notice × D
  written lib (negsuc m) left k fd b d = failed lib (lib.errno d) k fd false b d
  written lib (pos sz) left k fd b d =
      if ltb sz left
      then (let (ok, d') = lib.event_add d in (opened k fd ok b, [], d'))
      else (opened k fd false b, [], d)

  unfoldable pub write_left :
      SocketLib D B → ℕ → Option ℕ → ℕ → B → D → Connection B × List Notice × D
  write_left lib zero k fd b d = (opened k fd false b, [], d)
  write_left lib (suc n) k fd b d =
      let (sz, b', d') = lib.write b fd d in written lib sz (suc n) k fd b' d'

  -- Connection::OnWrite, when the socket is writable: nothing without an added write event.
  unfoldable pub on_write : SocketLib D B → Connection B → D → Connection B × List Notice × D
  on_write lib (closed k) d = (closed k, [], d)
  on_write lib (opened k fd false b) d = (opened k fd false b, [], d)
  on_write lib (opened k fd true b) d = write_left lib (lib.get_length b) k fd b d
