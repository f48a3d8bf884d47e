-- ===== src/Solder/Shared.antt =====
-- What the shared states of equipment/Sequence.cpp mean for one machine and for two.
use dev_hub.Base.{
  ℕ, ◌≡◌, ◌≢◌, refl, sym, ◌∙◌, inl, inr, some, List, [], ◌∷◌, ◌==◌, take, length, Text, codes,
  text_eq, lookup, insert, lookup-insert_self, lookup-insert_other, Bool-cases,
}
use dev_hub.Solder.{
  SequenceType, idle, up_load, Hub, write_peripheral, output, construct, set_state, change_state,
  recv_down_stream, recv_command, on_task_timeout, on_byte, on_bytes, on_data, Event, command,
  device_data, task_timeout, step, run,
}
use dev_hub.Solder.Run.{machine}
use dev_hub.Solder.Kept.{
  IsOwned, KeepsTo, and_then-KeepsTo, set_state-KeepsTo, stays, recv_down_stream-KeepsTo,
  upstream-KeepsTo, on_byte-KeepsTo,
}

on_bytes-KeepsTo :
    (convert : ℕ → Text) (e : ℕ) (bytes : Text) (h : Hub)
    → IsOwned e h
    → KeepsTo e h (on_bytes convert e bytes h)
unfolding on_bytes
on_bytes-KeepsTo convert e [] h o = stays e h o
on_bytes-KeepsTo convert e (b ∷ bytes) h o =
    and_then-KeepsTo e h (on_byte convert e b h) (on_bytes convert e bytes)
      (on_byte-KeepsTo e h o convert b) (λ h' o'. on_bytes-KeepsTo convert e bytes h' o')

step-KeepsTo :
    (convert : ℕ → Text) (e : ℕ) (ev : Event) (h : Hub)
    → IsOwned e h
    → KeepsTo e h (step convert e ev h)
unfolding step recv_command on_task_timeout on_data
step-KeepsTo convert e (command cmd) h o =
    rw (o.found, recv_command) (recv_down_stream-KeepsTo e h o o.ctrl.state cmd o.owns)
step-KeepsTo convert e (device_data []) h o = tt
step-KeepsTo convert e (device_data (b ∷ bytes)) h o = elim (Bool-cases (b == 6)) [
  | inl z ↦ rw z (upstream-KeepsTo e h o convert (b ∷ bytes))
  | inr z ↦ rw z (on_bytes-KeepsTo convert e (take (length (b ∷ bytes)) (b ∷ bytes)) h o)
]
step-KeepsTo convert e task_timeout h o = set_state-KeepsTo e idle h o.ctrl o.found

-- As long as only one machine is used, whatever commands, reads and timeouts reach it: unless a
-- step faults, its state stays its own, all that is written or sent is its own, and no other
-- machine changes.
pub run-KeepsTo :
    (convert : ℕ → Text) (e : ℕ) (evs : List Event) (h : Hub)
    → IsOwned e h
    → KeepsTo e h (run convert e evs h)
unfolding run
run-KeepsTo convert e [] h o = stays e h o
run-KeepsTo convert e (ev ∷ evs) h o =
    and_then-KeepsTo e h (step convert e ev h) (run convert e evs) (step-KeepsTo convert e ev h o)
      (λ h' o'. run-KeepsTo convert e evs h' o')

-- A machine that is just constructed owns its state.
pub construct-IsOwned : (e : ℕ) (t : SequenceType) (h : Hub) → IsOwned e (construct e t h)
unfolding construct
construct-IsOwned e t h = record {
  ctrl = machine t idle [];
  found = lookup-insert_self e (machine t idle []) h.equips;
  owns = refl;
}

-- When a second machine `b` is constructed after `a`, a command for `a` is written to `b`, and it
-- is `b` that waits for the answer; `a` stays idle.
pub recv_command_crossed :
    (a b : ℕ) (ta tb : SequenceType) (h : Hub)
    → a ≢ b
    → let both = construct b tb (construct a ta h) in
      (h' : Hub) × (recv_command a (codes "GetSpitParam") both
        ≡ some (h', write_peripheral b (5 ∷ []) ∷ []))
      × (lookup a h'.equips ≡ some (record { type = ta; state = idle; equip_data = [] }))
      × (lookup b h'.equips ≡ some (record { type = tb; state = up_load; equip_data = [] }))
unfolding construct recv_command recv_down_stream change_state set_state output text_eq
recv_command_crossed a b ta tb h n =
    let ma = machine ta idle [] in
    let mb = machine tb idle [] in
    let both = insert b mb (insert a ma h.equips) in
    let n' : b ≢ a = λ z. n (sym z) in
    let at_a : lookup a both ≡ some ma =
      lookup-insert_other a b mb (insert a ma h.equips) n' ∙ lookup-insert_self a ma h.equips in
    (
      record {
        equips = insert b (machine tb up_load []) both;
        idle_equip = b;
        up_load_equip = b;
        rep_equip = h.rep_equip;
        a0_equip = h.a0_equip;
      },
      rw (at_a, recv_command) rw (lookup-insert_self b mb (insert a ma h.equips), set_state) refl,
      lookup-insert_other a b (machine tb up_load []) both n' ∙ at_a,
      lookup-insert_self b (machine tb up_load []) both,
    )
