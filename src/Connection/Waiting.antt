-- ===== src/Connection/Waiting.antt =====
-- What a Connection leaves in its buffer when its write event is not added.
use dev_hub.Base.{
  ℕ, ◌≡◌, refl, ◌∙◌, ap, ◌++◌, true, false, Option, none, some, List, [], ◌∷◌, Text, ◌==◌, All,
  Bool-cases, inl, inr,
}
use dev_hub.Connection.{
  SocketLib, Connection, opened, closed, eagain, set_connection_sink, send, sent, close, failed,
  received, on_read, on_write, max_read_len,
}
use dev_hub.Connection.Delivery.{
  Operation, sending, readable, writable, closing, sink_is, IsBuffer, step, run,
}

-- Anything but a Send.
abbrev pub IsQuiet : Operation → Type 0
IsQuiet (sending s) = ⊥
IsQuiet readable = Unit
IsQuiet writable = Unit
IsQuiet closing = Unit
IsQuiet (sink_is k) = Unit

-- The write event is not added.
abbrev pub IsUnarmed : {B : Type 0} → Connection B → Type 0
IsUnarmed (opened k fd true b) = ⊥
IsUnarmed (opened k fd false b) = Unit
IsUnarmed (closed k) = Unit

-- An open connection has these bytes in its evbuffer; Close has freed that of a closed one.
abbrev pub HasLeft : {B : Type 0} → (B → Text) → Text → Connection B → Type 0
HasLeft contents rest (opened k fd a b) = contents b ≡ rest
HasLeft contents rest (closed k) = Unit

module _ {D B : Type 0} (lib : SocketLib D B) (contents : B → Text) (wire : D → Text)
    (laws : IsBuffer lib contents wire) where
  abbrev Unwritten : Text → Connection B → D → D → Type 0
  Unwritten rest c d' d = (wire d' ≡ wire d) × IsUnarmed c × HasLeft contents rest c

  failed-Unwritten :
      (rest : Text) (err : ℕ) (k : Option ℕ) (fd : ℕ) (b : B) (d : D)
      → contents b ≡ rest
      → let r = failed lib err k fd false b d in Unwritten rest r.0 r.2 d
  unfolding failed close
  failed-Unwritten rest err k fd b d h = elim (Bool-cases (err == eagain)) [
    | inl e ↦ rw e (refl, tt, h)
    | inr e ↦ rw e (laws.shut fd d, tt, tt)
  ]

  received-Unwritten :
      (rest : Text) (r : Option Text) (k : Option ℕ) (fd : ℕ) (b : B) (d : D)
      → contents b ≡ rest
      → let s = received lib r k fd false b d in Unwritten rest s.0 s.2 d
  unfolding received
  received-Unwritten rest none k fd b d h = failed-Unwritten rest (lib.errno d) k fd b d h
  received-Unwritten rest (some []) k fd b d h = failed-Unwritten rest (lib.errno d) k fd b d h
  received-Unwritten rest (some (x ∷ xs)) k fd b d h = (refl, tt, h)

  step-Unwritten :
      (rest : Text) (o : Operation) (c : Connection B) (d : D)
      → IsQuiet o
      → IsUnarmed c
      → HasLeft contents rest c
      → let r = step lib o c d in Unwritten rest r.0 r.1 d
  unfolding step close on_read on_write set_connection_sink
  step-Unwritten rest (sending s) c d q u h = elim q [ ]
  step-Unwritten rest o (opened k fd true b) d q u h = elim u [ ]
  step-Unwritten rest readable (opened k fd false b) d q u h =
      let r = lib.recv fd max_read_len d in
      let x = received-Unwritten rest r.0 k fd b r.1 h in
      (x.0 ∙ laws.read fd max_read_len d, x.1, x.2)
  step-Unwritten rest writable (opened k fd false b) d q u h = (refl, tt, h)
  step-Unwritten rest closing (opened k fd false b) d q u h = (laws.shut fd d, tt, tt)
  step-Unwritten rest (sink_is k) (opened k' fd false b) d q u h = (refl, tt, h)
  step-Unwritten rest readable (closed k) d q u h = (refl, tt, tt)
  step-Unwritten rest writable (closed k) d q u h = (refl, tt, tt)
  step-Unwritten rest closing (closed k) d q u h = (refl, tt, tt)
  step-Unwritten rest (sink_is k) (closed k') d q u h = (refl, tt, tt)

  run_stays :
      (rest : Text) (os : List Operation) (c : Connection B) (d : D)
      → All IsQuiet os
      → IsUnarmed c
      → HasLeft contents rest c
      → let r = run lib os c d in (wire r.1 ≡ wire d) × HasLeft contents rest r.0
  unfolding run
  run_stays rest [] c d q u h = (refl, h)
  run_stays rest (o ∷ os) c d q u h =
      let r = step lib o c d in
      let x = step-Unwritten rest o c d q.0 u h in
      let y = run_stays rest os r.0 r.1 q.1 x.1 x.2 in (y.0 ∙ x.0, y.1)

  -- After a Send that an open connection's evbuffer takes, when this was empty and the write event
  -- is not added, the bytes are on the wire up to some point, and the others are left: whatever
  -- happens then but a Send, nothing more is written, and as long as the connection is open its
  -- evbuffer has just the bytes that were left, however often the socket becomes writable.
  -- libevent and the socket are supposed to append, to move and to leave alone the bytes.
  pub send_stays :
      (s : Text) (k : Option ℕ) (fd : ℕ) (b b' : B) (d : D) (os : List Operation)
      → lib.get_length b ≡ 0
      → lib.add b s ≡ some b'
      → All IsQuiet os
      → let r = send lib s (opened k fd false b) d in
        let r' = run lib os r.1 r.2 in
        (rest : Text) × (wire r.2 ++ rest ≡ wire d ++ (contents b ++ s))
        × (wire r'.1 ≡ wire r.2)
        × HasLeft contents rest r'.0
  unfolding send sent
  send_stays s k fd b b' d os e a q =
      let w = lib.write b' fd d in
      let x = run_stays (contents w.1) os (opened k fd false w.1) w.2 q tt refl in
      rw (e, a)
        (contents w.1, laws.moved b' fd d ∙ ap (λ t. wire d ++ t) (laws.added b b' s a), x.0, x.1)
