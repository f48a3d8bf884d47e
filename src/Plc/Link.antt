-- ===== src/Plc/Link.antt =====
-- The links of transcation/PlcFins.cpp and transcation/PlcProxy.cpp: when a handle is kept.
use dev_hub.Base.{
  ℕ, Bool, true, false, Option, none, some, List, [], ◌∷◌, Text, ◌≡◌, refl, Json, ◌==◌, text_eq,
  codes, ◌||◌, Bool-cases, Option-cases, inl, inr, ◌⊎◌,
}
use dev_hub.Plc.{
  ConnectionStatus, connect_ok, connect_no, FinsLib, Plc, connect, connected, on_disconnect,
}
use dev_hub.Plc.Fins.{
  PlcStatus, error_timeout, PlcFins, Net, plc_status_busy, plc_status_idel, write_cmd,
  plc_on_disconnect, write_data, fins_connect, on_command, detect_idle, detect_busy, on_timer,
  send_value, value_text, update_info, ebalance_qp, ebalance_cz, swapped_cmd, timed_out,
}

-- The status says whether there is a handle.
abbrev pub Agrees : {H : Type 0} → ConnectionStatus → Option H → Type 0
Agrees connect_ok none = ⊥
Agrees connect_ok (some h) = Unit
Agrees connect_no none = Unit
Agrees connect_no (some h) = ⊥

abbrev pub IsLinked : {H : Type 0} → Plc H → Type 0
IsLinked p = Agrees p.connection_status p.sys

-- What happens to a PlcFins.
pub data Event : Type 0 where
  timer : ℕ → ℕ → Event
  result : Text → Event

pub Status-cases : (c : ConnectionStatus) → (c ≡ connect_ok) ⊎ (c ≡ connect_no)
Status-cases connect_ok = inl refl
Status-cases connect_no = inr refl

pub Busy-cases : (b : PlcStatus) → (b ≡ plc_status_busy) ⊎ (b ≡ plc_status_idel)
Busy-cases plc_status_busy = inl refl
Busy-cases plc_status_idel = inr refl

abbrev pub net_at :
    {D H : Type 0} → ConnectionStatus → Option H → Text → ℕ → D → List Text → Net D H
net_at c sys ip port d written = record {
  plc = record { connection_status = c; ip = ip; port = port; sys = sys };
  device = d;
  written = written;
}

module _ {D H : Type 0} (lib : FinsLib D H) where
  pub connected-IsLinked :
      (r : Option H × Bool × D) (p : Plc H)
      → Agrees {H = H} p.connection_status none
      → IsLinked (connected lib r p).1
  connected-IsLinked (some h, true, d) p e = tt
  connected-IsLinked (some h, false, d) p e = e
  connected-IsLinked (none, b, d) p e = e

  connect-IsLinked_at :
      (c : ConnectionStatus) (sys : Option H) (ip : Text) (port : ℕ) (d : D)
      → Agrees c sys
      → IsLinked
          (connect lib (record { connection_status = c; ip = ip; port = port; sys = sys }) d).1
  unfolding connect
  connect-IsLinked_at connect_ok (some h) ip port d a = tt
  connect-IsLinked_at connect_ok none ip port d a = elim a [ ]
  connect-IsLinked_at connect_no (some h) ip port d a = elim a [ ]
  connect-IsLinked_at connect_no none ip port d a =
      connected-IsLinked (lib.tcp_connect ip port d)
        (record { connection_status = connect_no; ip = ip; port = port; sys = none }) tt

  pub connect-IsLinked : (p : Plc H) (d : D) → IsLinked p → IsLinked (connect lib p d).1
  connect-IsLinked p d = connect-IsLinked_at p.connection_status p.sys p.ip p.port d

  abbrev pub KeepsLink : (PlcFins × Net D H → PlcFins × Net D H) → Type 0
  KeepsLink op = (s : PlcFins × Net D H) → IsLinked s.1.plc → IsLinked (op s).1.plc

  pub fins_connect-IsLinked : KeepsLink (fins_connect lib)
  unfolding fins_connect
  fins_connect-IsLinked (f, s) h = connect-IsLinked s.plc s.device h

  pub on_command-IsLinked : (now cmd : ℕ) → KeepsLink (on_command lib now cmd)
  unfolding on_command write_cmd write_data
  on_command-IsLinked now cmd (f, s) h = elim (Bool-cases (cmd == ebalance_qp)) [
    | inl e ↦ rw e h
    | inr e ↦ elim (Bool-cases (cmd == ebalance_cz)) [ inl z ↦ rw (e, z) h | inr z ↦ rw (e, z) h ]
  ]

  detect_idle-IsLinked_at :
      (now : ℕ) (f : PlcFins) (c : ConnectionStatus) (sys : Option H) (ip : Text) (port : ℕ) (d : D)
      (written : List Text)
      → Agrees c sys
      → IsLinked (detect_idle lib now (f, net_at c sys ip port d written)).1.plc
  unfolding detect_idle plc_on_disconnect on_disconnect
  detect_idle-IsLinked_at now f c none ip port d written a = a
  detect_idle-IsLinked_at now f c (some k) ip port d written a =
      let r = lib.read_word (some k) f.cmd_addr 1 d in
      elim (Option-cases r.0) [
        | inl z ↦ rw z tt
        | inr (m_cmd, z) ↦ rw z (
            on_command-IsLinked now (swapped_cmd m_cmd) (f, net_at c (some k) ip port r.1 written)
              a)
      ]

  pub detect_idle-IsLinked : (now : ℕ) → KeepsLink (detect_idle lib now)
  detect_idle-IsLinked now (f, s) =
      let p = s.plc in
      detect_idle-IsLinked_at now f p.connection_status p.sys p.ip p.port s.device s.written

  pub detect_busy-IsLinked : (now : ℕ) → KeepsLink (detect_busy lib now)
  unfolding detect_busy write_cmd plc_on_disconnect on_disconnect
  detect_busy-IsLinked now (f, s) h = elim (Bool-cases (timed_out now f.start_time)) [
    | inr e ↦ rw e h
    | inl e ↦ elim (Bool-cases (write_cmd lib f error_timeout s).0) [
      | inl z ↦ rw (e, z) h
      | inr z ↦ rw (e, z) tt
    ]
  ]

  pub on_timer-IsLinked : (tid now : ℕ) → KeepsLink (on_timer lib tid now)
  unfolding on_timer write_data
  on_timer-IsLinked tid now (f, s) h = elim (Bool-cases (tid == f.detect)) [
    | inl e ↦ elim (Busy-cases f.status) [
      | inl z ↦ rw (e, z) (detect_busy-IsLinked now (f, s) h)
      | inr z ↦ rw (e, z) (detect_idle-IsLinked now (f, s) h)
    ]
    | inr e ↦ elim (Bool-cases (tid == f.reconnect)) [
      | inl z ↦ elim (Option-cases s.plc.sys) [
        | inl y ↦ rw (e, z, y) (fins_connect-IsLinked (f, s) h)
        | inr (k, y) ↦ rw (e, z, y) h
      ]
      | inr z ↦ elim (Bool-cases (tid == f.value_polling)) [
        | inr y ↦ rw (e, z, y) h
        | inl y ↦ elim (Busy-cases f.status) [
          | inl x ↦ rw (e, z, y, x) h
          | inr x ↦ rw (e, z, y, x) h
        ]
      ]
    ]
  ]

  pub send_value-IsLinked : (val : List ℕ) → KeepsLink (send_value lib val)
  unfolding send_value write_cmd plc_on_disconnect on_disconnect
  send_value-IsLinked val (f, s) h =
      elim (Bool-cases (lib.write_int32 s.plc.sys f.data_addr val s.device).0) [
        | inl z ↦ rw z h
        | inr z ↦ rw z tt
      ]

-- A PlcFins with its Plc goes through events; an exception ends the program.
module _ {D H : Type 0} (parse : Text → Option Json) (read_float : Text → List ℕ)
    (lib : FinsLib D H) where
  unfoldable pub step : Event → PlcFins × Net D H → Option (PlcFins × Net D H)
  step (timer tid now) s = some (on_timer lib tid now s)
  step (result buf) s = update_info parse read_float lib buf s

  unfoldable pub run : List Event → PlcFins × Net D H → Option (PlcFins × Net D H)
  run [] s = some s
  run (e ∷ es) s = elim (step e s) [ none ↦ none | some s' ↦ run es s' ]

  abbrev pub IsLinkedIn : Option (PlcFins × Net D H) → Type 0
  IsLinkedIn none = Unit
  IsLinkedIn (some s) = IsLinked s.1.plc

  pub step-IsLinked : (e : Event) (s : PlcFins × Net D H) → IsLinked s.1.plc → IsLinkedIn (step e s)
  unfolding step update_info write_cmd
  step-IsLinked (timer tid now) s h = on_timer-IsLinked lib tid now s h
  step-IsLinked (result buf) (f, s) h =
      elim (Bool-cases (text_eq buf (codes "errorFrame") || text_eq buf (codes "errorData"))) [
        | inl e ↦ rw e h
        | inr e ↦ elim (Option-cases (parse buf)) [
          | inl z ↦ rw (e, z) h
          | inr (root, z) ↦ elim (Option-cases (value_text root)) [
            | inl y ↦ rw (e, z, y) tt
            | inr (valuestr, y) ↦
                rw (e, z, y) (send_value-IsLinked lib (read_float valuestr) (f, s) h)
          ]
        ]
      ]

  pub and_then-IsLinked :
      (r : Option (PlcFins × Net D H)) (g : PlcFins × Net D H → Option (PlcFins × Net D H))
      → IsLinkedIn r
      → ((s : PlcFins × Net D H) → IsLinked s.1.plc → IsLinkedIn (g s))
      → IsLinkedIn (elim r [ none ↦ none | some s ↦ g s ])
  and_then-IsLinked none g h k = tt
  and_then-IsLinked (some s) g h k = k s h

  -- The Plc of a PlcFins that goes through any events has a handle exactly if its status says so.
  pub run-IsLinked :
      (es : List Event) (s : PlcFins × Net D H) → IsLinked s.1.plc → IsLinkedIn (run es s)
  unfolding run
  run-IsLinked [] s h = h
  run-IsLinked (e ∷ es) s h =
      and_then-IsLinked (step e s) (run es) (step-IsLinked e s h) (run-IsLinked es)
