-- ===== src/Connection/Delivery.antt =====
-- What a Connection puts on the wire, over any operations.
use mathlib.Core.List.{append_assoc, append-nil}
use dev_hub.Base.{
  ℕ, zero, suc, ◌≡◌, refl, sym, ◌∙◌, ap, Bool, true, false, Option, none, some, List, [], ◌∷◌, ◌++◌,
  Text, ℤ, pos, negsuc, ◌==◌, ltb, Bool-cases, inl, inr,
}
use dev_hub.Connection.{
  SocketLib, Connection, opened, closed, eagain, set_connection_sink, send, sent, close, failed,
  received, on_read, written, write_left, on_write, max_read_len,
}

pub data Operation : Type 0 where
  sending : Text → Operation
  readable writable closing : Operation
  sink_is : Option ℕ → Operation

-- Of an evbuffer, its bytes; of the world, what was written to the connection's socket.
pub record IsBuffer {D B : Type 0} (lib : SocketLib D B) (contents : B → Text) (wire : D → Text)
    : Type 0 where
  pub added : (b b' : B) (s : Text) → lib.add b s ≡ some b' → contents b' ≡ contents b ++ s
  pub moved :
      (b : B) (fd : ℕ) (d : D)
      → wire (lib.write b fd d).2 ++ contents (lib.write b fd d).1 ≡ wire d ++ contents b
  pub read : (fd n : ℕ) (d : D) → wire (lib.recv fd n d).1 ≡ wire d
  pub shut : (fd : ℕ) (d : D) → wire (lib.close_socket fd d) ≡ wire d
  pub waits : (d : D) → wire (lib.event_add d).1 ≡ wire d

abbrev pub kept_by : {B : Type 0} → Option B → Text → Text
kept_by none s = []
kept_by (some b) s = s

module _ {D B : Type 0} where
  unfoldable pub step : SocketLib D B → Operation → Connection B → D → Connection B × D
  step lib (sending s) c d = ((send lib s c d).1, (send lib s c d).2)
  step lib readable c d = ((on_read lib c d).0, (on_read lib c d).2)
  step lib writable c d = ((on_write lib c d).0, (on_write lib c d).2)
  step lib closing c d = close lib c d
  step lib (sink_is k) c d = (set_connection_sink k c, d)

  -- The bytes that the evbuffer takes of a call: those of a Send on an open connection.
  unfoldable pub kept : SocketLib D B → Operation → Connection B → Text
  kept lib (sending s) (opened k fd a b) = kept_by (lib.add b s) s
  kept lib (sending s) (closed k) = []
  kept lib readable c = []
  kept lib writable c = []
  kept lib closing c = []
  kept lib (sink_is k) c = []

  unfoldable pub run : SocketLib D B → List Operation → Connection B → D → Connection B × D
  run lib [] c d = (c, d)
  run lib (o ∷ os) c d = let (c', d') = step lib o c d in run lib os c' d'

  unfoldable pub all_kept : SocketLib D B → List Operation → Connection B → D → Text
  all_kept lib [] c d = []
  all_kept lib (o ∷ os) c d = let (c', d') = step lib o c d in kept lib o c ++ all_kept lib os c' d'

  -- The wire has a part of the bytes, from their start; an open connection has the rest.
  abbrev pub Delivers : (B → Text) → (D → Text) → Text → Connection B → D → Type 0
  Delivers contents wire all (opened k fd a b) d = wire d ++ contents b ≡ all
  Delivers contents wire all (closed k) d = (rest : Text) × (wire d ++ rest ≡ all)

module _ {D B : Type 0} (lib : SocketLib D B) (contents : B → Text) (wire : D → Text)
    (laws : IsBuffer lib contents wire) where
  same_wire :
      (d d' : D) (b : B) (all : Text)
      → wire d' ≡ wire d
      → wire d ++ contents b ≡ all
      → wire d' ++ contents b ≡ all
  same_wire d d' b all e h = ap (λ w. w ++ contents b) e ∙ h

  failed-Delivers :
      (err : ℕ) (k : Option ℕ) (fd : ℕ) (a : Bool) (b : B) (d : D) (all : Text)
      → wire d ++ contents b ≡ all
      → let r = failed lib err k fd a b d in Delivers contents wire all r.0 r.2
  unfolding failed close
  failed-Delivers err k fd a b d all h = elim (Bool-cases (err == eagain)) [
    | inl e ↦ rw e h
    | inr e ↦ rw e (contents b, same_wire d (lib.close_socket fd d) b all (laws.shut fd d) h)
  ]

  received-Delivers :
      (r : Option Text) (k : Option ℕ) (fd : ℕ) (a : Bool) (b : B) (d : D) (all : Text)
      → wire d ++ contents b ≡ all
      → let s = received lib r k fd a b d in Delivers contents wire all s.0 s.2
  unfolding received
  received-Delivers none k fd a b d all h = failed-Delivers (lib.errno d) k fd a b d all h
  received-Delivers (some []) k fd a b d all h = failed-Delivers (lib.errno d) k fd a b d all h
  received-Delivers (some (x ∷ xs)) k fd a b d all h = h

  written-Delivers :
      (sz : ℤ) (left : ℕ) (k : Option ℕ) (fd : ℕ) (b : B) (d : D) (all : Text)
      → wire d ++ contents b ≡ all
      → let s = written lib sz left k fd b d in Delivers contents wire all s.0 s.2
  unfolding written
  written-Delivers (negsuc m) left k fd b d all h =
      failed-Delivers (lib.errno d) k fd false b d all h
  written-Delivers (pos sz) left k fd b d all h = elim (Bool-cases (ltb sz left)) [
    | inl e ↦ rw e (same_wire d (lib.event_add d).1 b all (laws.waits d) h)
    | inr e ↦ rw e h
  ]

  write_left-Delivers :
      (left : ℕ) (k : Option ℕ) (fd : ℕ) (b : B) (d : D) (all : Text)
      → wire d ++ contents b ≡ all
      → let s = write_left lib left k fd b d in Delivers contents wire all s.0 s.2
  unfolding write_left
  write_left-Delivers zero k fd b d all h = h
  write_left-Delivers (suc n) k fd b d all h =
      let r = lib.write b fd d in
      written-Delivers r.0 (suc n) k fd r.1 r.2 all (laws.moved b fd d ∙ h)

  grown :
      (o : Option B) (b b' : B) (s : Text) (d : D) (all : Text)
      → lib.add b s ≡ o
      → o ≡ some b'
      → wire d ++ contents b ≡ all
      → wire d ++ contents b' ≡ all ++ s
  grown o b b' s d all e z h =
      ap (λ r. wire d ++ r) (laws.added b b' s (e ∙ z))
      ∙ (sym (append_assoc (wire d) (contents b) s) ∙ ap (λ r. r ++ s) h)

  sent-Delivers :
      (left : ℕ) (o : Option B) (s : Text) (k : Option ℕ) (fd : ℕ) (a : Bool) (b : B) (d : D)
      (all : Text)
      → lib.add b s ≡ o
      → wire d ++ contents b ≡ all
      → let r = sent lib left o k fd a b d in Delivers contents wire (all ++ kept_by o s) r.1 r.2
  unfolding sent
  sent-Delivers left none s k fd a b d all e h = h ∙ sym (append-nil all)
  sent-Delivers zero (some b') s k fd a b d all e h =
      laws.moved b' fd d ∙ grown (some b') b b' s d all e refl h
  sent-Delivers (suc n) (some b') s k fd a b d all e h =
      same_wire d (lib.event_add d).1 b' (all ++ s) (laws.waits d)
        (grown (some b') b b' s d all e refl h)

  step-Delivers :
      (o : Operation) (c : Connection B) (d : D) (all : Text)
      → Delivers contents wire all c d
      → let r = step lib o c d in Delivers contents wire (all ++ kept lib o c) r.0 r.1
  unfolding step send close on_read on_write set_connection_sink kept
  step-Delivers (sending s) (opened k fd a b) d all h =
      sent-Delivers (lib.get_length b) (lib.add b s) s k fd a b d all refl h
  step-Delivers (sending s) (closed k) d all h = rw (append-nil all) h
  step-Delivers readable (opened k fd a b) d all h =
      let r = lib.recv fd max_read_len d in
      rw (append-nil all) (
        received-Delivers r.0 k fd a b r.1 all
          (same_wire d r.1 b all (laws.read fd max_read_len d) h))
  step-Delivers readable (closed k) d all h = rw (append-nil all) h
  step-Delivers writable (opened k fd true b) d all h =
      rw (append-nil all) (write_left-Delivers (lib.get_length b) k fd b d all h)
  step-Delivers writable (opened k fd false b) d all h = rw (append-nil all) h
  step-Delivers writable (closed k) d all h = rw (append-nil all) h
  step-Delivers closing (opened k fd a b) d all h =
      rw (append-nil all) (contents b, same_wire d (lib.close_socket fd d) b all (laws.shut fd d) h)
  step-Delivers closing (closed k) d all h = rw (append-nil all) h
  step-Delivers (sink_is k) (opened k' fd a b) d all h = rw (append-nil all) h
  step-Delivers (sink_is k) (closed k') d all h = rw (append-nil all) h

  -- Over any operations, what is on the wire and in the evbuffer of an open connection together
  -- are what was there before, followed by the bytes of all Sends that the evbuffer took, in
  -- order; of a connection that is closed in the end the wire has a part of this from its start.
  -- libevent and the socket are supposed to append, to move and to leave alone the bytes.
  pub run-Delivers :
      (os : List Operation) (c : Connection B) (d : D) (all : Text)
      → Delivers contents wire all c d
      → let r = run lib os c d in Delivers contents wire (all ++ all_kept lib os c d) r.0 r.1
  unfolding run all_kept
  run-Delivers [] c d all h = rw (append-nil all) h
  run-Delivers (o ∷ os) c d all h =
      let r = step lib o c d in
      rw (← append_assoc all (kept lib o c) (all_kept lib os r.0 r.1))
        (run-Delivers os r.0 r.1 (all ++ kept lib o c) (step-Delivers o c d all h))
