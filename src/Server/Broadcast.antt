-- ===== src/Server/Broadcast.antt =====
-- What CommServer::UpdateInfo needs to be sound, and what a closed session does to it.
use dev_hub.Base.{
  ℕ, zero, suc, ◌+◌, ◌≤◌, ◌≡◌, refl, ap, ◌∙◌, ◌==◌, Bool, true, false, Option, none, some, List, [],
  ◌∷◌, ◌++◌, length, length-append, Text, contains, All, arith,
}
use dev_hub.Server.Remove.{Distinct, contains-erase_self}
use dev_hub.Server.Subscribe.{contains-append}
use dev_hub.Server.{
  Server, use_of_deleted, sends, erase, on_session_close, on_connection, on_disconnect, strncpy,
  send_to, update_info,
}

length-strncpy : (buf : Text) (n : ℕ) → length (strncpy buf n) ≡ n
unfolding strncpy
length-strncpy buf zero = refl
length-strncpy [] (suc n) = ap suc (length-strncpy [] n)
length-strncpy (c ∷ buf) (suc n) = ap suc (length-strncpy buf n)

abbrev pub pair_each : Text → List ℕ → List (ℕ × Text)
pair_each msg [] = []
pair_each msg (c ∷ cs) = (c, msg) ∷ pair_each msg cs

send_to-live :
    (live : List ℕ) (msg : Text) (cs : List ℕ)
    → All (λ c. contains c live ≡ true) cs
    → send_to live msg cs ≡ sends (pair_each msg cs)
unfolding send_to
send_to-live live msg [] h = refl
send_to-live live msg (c ∷ cs) h = ground (arith, send_to-live live msg cs h.1)

send_to-dead :
    (live : List ℕ) (msg : Text) (cs : List ℕ) (c : ℕ)
    → contains c cs ≡ true
    → contains c live ≡ false
    → send_to live msg cs ≡ use_of_deleted
unfolding send_to
send_to-dead live msg [] c h d = cc
send_to-dead live msg (x ∷ cs) c h d = ground (arith, send_to-dead live msg cs c)

-- While every listed connection is alive, a text of at most 1024 bytes goes to every connection in
-- the order in which they came, as that many bytes and a closing NUL.
pub update_info-live :
    (buf : Text) (len : ℕ) (srv : Server)
    → All (λ c. contains c srv.live ≡ true) srv.connections
    → len ≤ 1024
    → (update_info buf len srv ≡ sends (pair_each (strncpy buf len ++ (0 ∷ [])) srv.connections))
      × (length (strncpy buf len ++ (0 ∷ [])) ≡ len + 1)
update_info-live buf len srv h le = (
  unfold update_info in
      ground (arith, send_to-live srv.live (strncpy buf len ++ (0 ∷ [])) srv.connections h),
  omega (arith, length-append (strncpy buf len) (0 ∷ []), length-strncpy buf len),
)

-- What happens to the server later: connections and closed sessions.
pub data Event : Type 0 where
  connects : Bool → Bool → Bool → Bool → ℕ → ℕ → List ℕ → Event
  disconnects : ℕ → Option ℕ → Event

-- No new connection is made at the address `c`.
abbrev pub Avoids : ℕ → Event → Type 0
Avoids c (connects has_ca has_conn is_connector own conn s ids) = (c == conn) ≡ false
Avoids c (disconnects s conn) = Unit

-- Listed, and deleted.
abbrev IsDangling : ℕ → Server → Type 0
IsDangling c srv = (contains c srv.connections ≡ true) × (contains c srv.live ≡ false)

contains-erase_other :
    (x c : ℕ) (l : List ℕ) → contains c l ≡ false → contains c (erase x l) ≡ false
unfolding erase
contains-erase_other x c [] h = refl
contains-erase_other x c (y ∷ l) h = ground (arith, contains-erase_other x c l)

module _ {S : Type 0} (add set_task : ℕ → ℕ → S → S) where
  unfoldable pub after : List Event → Server → S → Server × S
  unfolding on_connection on_disconnect
  after [] srv st = (srv, st)
  after (connects has_ca has_conn is_connector own conn s ids ∷ es) srv st =
      let (srv', st') =
        on_connection add set_task has_ca has_conn is_connector own conn s ids srv st in
      after es srv' st'
  after (disconnects s conn ∷ es) srv st = after es (on_disconnect s conn srv) st

  on_connection-IsDangling :
      (c : ℕ) (has_ca has_conn is_connector own : Bool) (conn s : ℕ) (ids : List ℕ) (srv : Server)
      (st : S)
      → (c == conn) ≡ false
      → IsDangling c srv
      → IsDangling c
          (on_connection add set_task has_ca has_conn is_connector own conn s ids srv st).0
  unfolding on_connection
  on_connection-IsDangling c true true false true conn s ids srv st n d =
      (contains-append c srv.connections (conn ∷ []) ∙ ground (arith, d.0), ground (arith, n, d.1))
  on_connection-IsDangling c true true true own conn s ids srv st n d = d
  on_connection-IsDangling c true true false false conn s ids srv st n d = d
  on_connection-IsDangling c true false is_connector own conn s ids srv st n d = d
  on_connection-IsDangling c false has_conn is_connector own conn s ids srv st n d = d

  on_disconnect-IsDangling :
      (c s : ℕ) (conn : Option ℕ) (srv : Server)
      → IsDangling c srv
      → IsDangling c (on_disconnect s conn srv)
  unfolding on_disconnect on_session_close
  on_disconnect-IsDangling c s none srv d = d
  on_disconnect-IsDangling c s (some x) srv d = (d.0, contains-erase_other x c srv.live d.1)

  after-IsDangling :
      (c : ℕ) (es : List Event) (srv : Server) (st : S)
      → All (Avoids c) es
      → IsDangling c srv
      → IsDangling c (after es srv st).0
  unfolding after
  after-IsDangling c [] srv st a d = d
  after-IsDangling c (connects has_ca has_conn is_connector own conn s ids ∷ es) srv st a d =
      let r = on_connection add set_task has_ca has_conn is_connector own conn s ids srv st in
      after-IsDangling c es r.0 r.1 a.1
        (on_connection-IsDangling c has_ca has_conn is_connector own conn s ids srv st a.0 d)
  after-IsDangling c (disconnects s conn ∷ es) srv st a d =
      after-IsDangling c es (on_disconnect s conn srv) st a.1
        (on_disconnect-IsDangling c s conn srv d)

  -- Once a session with a listed connection is disconnected, the connection is deleted but stays in
  -- the list: whatever connections and closed sessions follow, as long as no new connection is made
  -- at the same address, an UpdateInfo of at most 1024 bytes uses the deleted object. (No connection
  -- is alive twice before.)
  pub update_info-dangling :
      (buf : Text) (len s c : ℕ) (srv : Server) (es : List Event) (st : S)
      → contains c srv.connections ≡ true
      → Distinct srv.live
      → All (Avoids c) es
      → len ≤ 1024
      → let srv' = (after es (on_disconnect s (some c) srv) st).0 in
        (contains c srv'.connections ≡ true) × (update_info buf len srv' ≡ use_of_deleted)
  unfolding on_disconnect on_session_close
  update_info-dangling buf len s c srv es st listed once avoids le =
      let d =
        after-IsDangling c es (on_disconnect s (some c) srv) st avoids
          (listed, contains-erase_self c srv.live once) in
      let srv' = (after es (on_disconnect s (some c) srv) st).0 in
      (
        d.0,
        unfold update_info in
            ground (
              arith,
              send_to-dead srv'.live (strncpy buf len ++ (0 ∷ [])) srv'.connections c d.0 d.1,
            ),
      )
