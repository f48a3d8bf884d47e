-- ===== src/Solder.antt =====
-- SolderCtrl and GlueDispenser of equipment/SolderCtrl.cpp with the states of
-- equipment/Sequence.cpp. Each state is one object that all machines share; it keeps the address
-- of the machine that entered it last (`m_sequenceEquipmen`). Machines are known by numbers, and
-- what a step writes to a device or sends to the server is listed in order. `none` is a read or
-- write out of bounds or the use of an object that does not exist.
mod Tests
pub mod Run
pub mod Answer
pub mod Kept
pub mod Shared
pub mod Exchange
use dev_hub.Base.{
  ℕ, ◌+◌, ◌-◌, Bool, true, false, ◌&&◌, Option, none, some, List, [], ◌∷◌, ◌++◌, if◌then◌else◌, ltb,
  ◌==◌, get_elem?, take, length, Text, codes, text_eq, zeros, lookup, insert,
}
use dev_hub.Reply.{solder_reply, glue_reply}

pub data SequenceType : Type 0 where
  glue_sequence : SequenceType
  solder_sequence : SequenceType

pub data SequenceState : Type 0 where
  idle : SequenceState
  up_load : SequenceState
  up_load_rep : SequenceState
  up_load_rep_a0 : SequenceState

pub record SolderCtrl : Type 0 where
  pub type : SequenceType
  pub state : SequenceState
  pub equip_data : Text

-- The machines, and `m_sequenceEquipmen` of each state.
pub record Hub : Type 0 where
  pub equips : List (ℕ × SolderCtrl)
  pub idle_equip : ℕ
  pub up_load_equip : ℕ
  pub rep_equip : ℕ
  pub a0_equip : ℕ

pub data Output : Type 0 where
  write_peripheral : ℕ → Text → Output
  up_stream : ℕ → Text → Output

abbrev pub Step : Type 0
Step = Option (Hub × List Output)

abbrev pub done : Hub → Step
done h = some (h, [])

-- One call after the other.
unfoldable pub and_then : Step → (Hub → Step) → Step
and_then none f = none
and_then (some (h, out)) f = elim (f h) [ none ↦ none | some (h', more) ↦ some (h', out ++ more) ]

unfoldable pub output : Output → Step → Step
output o none = none
output o (some (h, out)) = some (h, o ∷ out)

abbrev pub equipment : SequenceState → Hub → ℕ
equipment idle h = h.idle_equip
equipment up_load h = h.up_load_equip
equipment up_load_rep h = h.rep_equip
equipment up_load_rep_a0 h = h.a0_equip

-- `Instance(type, equip)` of the states: the shared object takes the machine's address.
abbrev pub instance_of : SequenceState → ℕ → Hub → Hub
instance_of idle e h = record h { idle_equip = e }
instance_of up_load e h = record h { up_load_equip = e }
instance_of up_load_rep e h = record h { rep_equip = e }
instance_of up_load_rep_a0 e h = record h { a0_equip = e }

-- SolderCtrl::ChangeState.
unfoldable pub set_state : ℕ → SequenceState → Hub → Step
set_state e s h = elim (lookup e h.equips) [
  | none ↦ none
  | some c ↦ done (record h { equips = insert e (record c { state = s }) h.equips })
]

-- `ChangeState(&S::Instance(m_sequenceEquipmen->m_type, m_sequenceEquipmen))` in a state.
unfoldable pub change_state : SequenceState → SequenceState → Hub → Step
unfolding set_state
change_state self s h = set_state (equipment self h) s (instance_of s (equipment self h) h)

-- The constructors of SolderCtrl and GlueDispenser.
unfoldable pub construct : ℕ → SequenceType → Hub → Hub
construct e type h = record (instance_of idle e h) {
  equips = insert e (record { type = type; state = idle; equip_data = [] }) h.equips;
}

-- RecvDownStream of the states.
unfoldable pub recv_down_stream : SequenceState → Text → Hub → Step
unfolding change_state output
recv_down_stream idle msg h =
    if text_eq msg (codes "GetSpitParam")
    then output (write_peripheral h.idle_equip (5 ∷ [])) (change_state idle up_load h)
    else done h
recv_down_stream up_load msg h = done h
recv_down_stream up_load_rep msg h = done h
recv_down_stream up_load_rep_a0 msg h = done h

-- RecvCommand.
unfoldable pub recv_command : ℕ → Text → Hub → Step
unfolding recv_down_stream
recv_command e cmd h = elim (lookup e h.equips) [
  | none ↦ none
  | some c ↦ recv_down_stream c.state cmd h
]

-- OnTaskTimeout.
unfoldable pub on_task_timeout : ℕ → Hub → Step
unfolding set_state
on_task_timeout e h = set_state e idle (instance_of idle e h)

-- What SequenceUpLoadState asks the machine for.
abbrev pub request : SequenceType → Text
request glue_sequence = 2 ∷ (codes "08UL000,01DA" ++ (3 ∷ []))
request solder_sequence = 2 ∷ (codes "08UL001D01C1" ++ (3 ∷ []))

abbrev pub after_request : SequenceType → SequenceState
after_request glue_sequence = up_load_rep
after_request solder_sequence = up_load_rep_a0

-- The answer to the server, by the machine's type.
abbrev pub reply_of : (ℕ → Text) → SequenceType → Text → Option Text
reply_of convert glue_sequence buf = glue_reply convert buf
reply_of convert solder_sequence buf = solder_reply buf

-- `data[3] == 'A' && data[4] == '2'`; the second byte is read after the first fits.
unfoldable pub is_a2 : Text → Option Bool
is_a2 buf = elim (get_elem? buf 3) [
  | none ↦ none
  | some c ↦
      if c == 65
      then elim (get_elem? buf 4) [ none ↦ none | some d ↦ some (d == 50) ]
      else some false
]

-- RecvUpstream of SequenceUpLoadState.
unfoldable pub up_load_recv : Text → Hub → Step
unfolding change_state output
up_load_recv [] h = none
up_load_recv (b ∷ buf) h =
    if b == 6
    then elim (lookup h.up_load_equip h.equips) [
      | none ↦ none
      | some c ↦
          output (write_peripheral h.up_load_equip (request c.type))
            (change_state up_load (after_request c.type) h)
    ]
    else done h

-- RecvUpstream of SequenceUpLoadRepState.
unfoldable pub up_load_rep_recv : (ℕ → Text) → Text → Hub → Step
unfolding change_state output
up_load_rep_recv convert buf h = elim (lookup h.rep_equip h.equips) [
  | none ↦ none
  | some c ↦ elim (reply_of convert c.type buf) [
    | none ↦ none
    | some resp ↦
        output (up_stream h.rep_equip resp)
          (output (write_peripheral h.rep_equip (4 ∷ [])) (change_state up_load_rep idle h))
  ]
]

-- RecvUpstream of SequenceUpLoadRepA0State.
unfoldable pub up_load_rep_a0_recv : Text → Hub → Step
unfolding change_state output is_a2
up_load_rep_a0_recv buf h = elim (is_a2 buf) [
  | none ↦ none
  | some a2 ↦
      if a2
      then output
          (write_peripheral h.a0_equip (2 ∷ (codes "02" ++ (24 ∷ 24 ∷ (codes "6E" ++ (3 ∷ []))))))
          (output (write_peripheral h.a0_equip (4 ∷ [])) (
            output (up_stream h.a0_equip (codes "{\"result\":null}"))
              (change_state up_load_rep_a0 idle h)))
      else output (write_peripheral h.a0_equip (6 ∷ [])) (change_state up_load_rep_a0 up_load_rep h)
]

unfoldable pub recv_upstream : (ℕ → Text) → SequenceState → Text → Hub → Step
unfolding up_load_recv up_load_rep_recv up_load_rep_a0_recv
recv_upstream convert idle buf h = done h
recv_upstream convert up_load buf h = up_load_recv buf h
recv_upstream convert up_load_rep buf h = up_load_rep_recv convert buf h
recv_upstream convert up_load_rep_a0 buf h = up_load_rep_a0_recv buf h

-- `m_state->RecvUpstream(buf, …)` of a machine.
unfoldable pub upstream : (ℕ → Text) → ℕ → Text → Hub → Step
unfolding recv_upstream
upstream convert e buf h = elim (lookup e h.equips) [
  | none ↦ none
  | some c ↦ recv_upstream convert c.state buf h
]

unfoldable pub set_data : ℕ → Text → Hub → Step
set_data e bytes h = elim (lookup e h.equips) [
  | none ↦ none
  | some c ↦ done (record h { equips = insert e (record c { equip_data = bytes }) h.equips })
]

-- `buf[100]` with the collected bytes; more of them are a write behind its end.
unfoldable pub frame_buffer : Text → Option Text
frame_buffer bytes =
    if ltb 100 (length bytes) then none else some (bytes ++ zeros (100 - length bytes))

-- One round of the loop in OnData.
unfoldable pub on_byte : (ℕ → Text) → ℕ → ℕ → Hub → Step
unfolding set_data frame_buffer upstream and_then
on_byte convert e b h = elim (lookup e h.equips) [
  | none ↦ none
  | some c ↦
      if b == 3
      then elim (frame_buffer c.equip_data) [
        | none ↦ none
        | some buf ↦ and_then (upstream convert e buf h) (set_data e [])
      ]
      else set_data e (c.equip_data ++ (b ∷ [])) h
]

unfoldable pub on_bytes : (ℕ → Text) → ℕ → Text → Hub → Step
unfolding on_byte and_then
on_bytes convert e [] h = done h
on_bytes convert e (b ∷ bytes) h = and_then (on_byte convert e b h) (on_bytes convert e bytes)

-- OnData on a buffer of which the first `len` bytes are new.
unfoldable pub on_data : (ℕ → Text) → ℕ → Text → ℕ → Hub → Step
unfolding on_bytes upstream
on_data convert e [] len h = none
on_data convert e (b ∷ data_) len h =
    if b == 6 then upstream convert e (b ∷ data_) h else on_bytes convert e (take len (b ∷ data_)) h

-- What reaches a machine: a command of the server, a read of its device, the task's timeout.
pub data Event : Type 0 where
  command : Text → Event
  device_data : Text → Event
  task_timeout : Event

unfoldable pub step : (ℕ → Text) → ℕ → Event → Hub → Step
unfolding recv_command on_data on_task_timeout
step convert e (command cmd) h = recv_command e cmd h
step convert e (device_data bytes) h = on_data convert e bytes (length bytes) h
step convert e task_timeout h = on_task_timeout e h

unfoldable pub run : (ℕ → Text) → ℕ → List Event → Hub → Step
unfolding step and_then
run convert e [] h = done h
run convert e (ev ∷ evs) h = and_then (step convert e ev h) (run convert e evs)
