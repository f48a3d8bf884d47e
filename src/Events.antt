-- ===== src/Events.antt =====
-- Event of transcation/ev_respond.cpp and its subclasses: an event reads a frame of its machine's
-- PLC, reports a new one to the upper computer and answers the PLC. What the events use of a proxy
-- is the record `ProxyOps`, on a state `S` of the proxy; `styled` is `Json::Value::toStyledString`.
-- A frame is read from the bytes that the proxy leaves in the buffer; where the PLC sends fewer
-- bytes than the frame has, the model reads 0 and the program what its stack holds.
pub mod Sniff
pub mod Proxies
pub mod Alarms
pub mod Polls
pub mod Reports
mod Tests
use dev_hub.Base.{
  ℕ, ◌+◌, ◌*◌, ◌/◌, ◌%◌, ◌^◌, Bool, true, false, not, Option, none, some, List, [], ◌∷◌, ◌++◌,
  if◌then◌else◌, ◌==◌, get_or, Text, codes, text_eq, ℤ, pos, negsuc, int_eq,
}
use dev_hub.Plc.{ConnectionStatus, connect_ok, connect_no, minus_one}
use dev_hub.Plc.Proxy.{PlcProtocol, pro_fins, pro_rtu}

-- PlcProxy as its clients see it: GetConnectionStatus, GetProtocol, PlcReadWorlds, PlcWriteWorlds.
pub record ProxyOps (S : Type 0) : Type 0 where
  pub status : S → ConnectionStatus
  pub protocol : S → PlcProtocol
  pub read_worlds : Text → ℕ → S → ℤ × List ℕ × S
  pub write_worlds : Text → List ℕ → ℕ → S → S

-- PlcAlarmInfo_t, as far as the events read it.
pub record PlcAlarmInfo : Type 0 where
  pub name : Text
  pub enable : Bool
  pub status : Bool
  pub level : Text
  pub word_offset : ℕ
  pub bit_offset : ℕ

-- MachineContex; PlcAlarmCodeList is a map from offsets to pointers, and `none` is NULL.
pub record MachineContex : Type 0 where
  pub section_name : Text
  pub machine_name : Text
  pub read_skip_zero : Bool
  pub word_swap : Bool
  pub int_swap : Bool
  pub long_swap : Bool
  pub plc_alarm_code_list : List (ℕ × Option PlcAlarmInfo)

-- The subclasses of Event.
pub data EventKind : Type 0 where
  ev_register ev_heare_beat ev_eap_command ev_event_changed_flag ev_notice_message : EventKind
  ev_alarm_code ev_machine_status ev_machine_yield ev_break_point ev_check_in : EventKind
  ev_post_result : EventKind

-- EvPara.
pub record EvPara : Type 0 where
  pub event_name : Text
  pub event_action : Text
  pub plc_event_addr : Text
  pub plc_data_size : ℕ
  pub eap_event_addr : Text
  pub eap_data_size : ℕ
  pub flag : Text

pub record Event : Type 0 where
  pub kind : EventKind
  pub para : EvPara
  pub sequence_id : ℕ

-- The constructors: m_sequenceID(-1), in 16 bits.
unfoldable pub new_event : EventKind → EvPara → Event
new_event kind para = record { kind = kind; para = para; sequence_id = 65535 }

-- GetNextSequenceId.
unfoldable pub get_next_sequence_id : Event → ℕ × Event
get_next_sequence_id e = let n = (e.sequence_id + 1) % 65536 in (n, record e { sequence_id = n })

-- What an event reaches: the proxy, the contex, and what ev_reciver was given to send. `client`
-- says whether ev_reciver has one.
pub record Reach (S : Type 0) : Type 0 where
  pub proxy : S
  pub contex : MachineContex
  pub client : Bool
  pub sent : List Text

-- Two bytes as an `unsigned short`, and as memory.
abbrev pub word : ℕ → List ℕ → ℕ
word i buf = get_or buf (2 * i) 0 + 256 * get_or buf (2 * i + 1) 0

abbrev pub short : ℕ → List ℕ
short n = n % 256 ∷ (n / 256) % 256 ∷ []

-- Fream_AlarmCode_eap, Fream_MachineStatus_eap and Fream_MachineYield_eap with RESULT_Pass.
abbrev pub pass_frame : ℕ → List ℕ
pass_frame sequence_id = short sequence_id ++ (short 16 ++ short 0)

module _ {S : Type 0} where
  -- ev_reciver::UpdateEvent.
  unfoldable pub update_event : Text → Reach S → Reach S
  update_event msg r = record r { sent = if r.client then r.sent ++ (msg ∷ []) else r.sent }

-- The address of a read or a write: the flag before it for FINS only.
abbrev pub read_addr : EvPara → PlcProtocol → Text
read_addr para pro_fins = para.flag ++ para.plc_event_addr
read_addr para pro_rtu = para.plc_event_addr

abbrev pub write_addr : EvPara → PlcProtocol → Text
write_addr para pro_fins = para.flag ++ para.eap_event_addr
write_addr para pro_rtu = para.plc_event_addr

module _ {S : Type 0} (ops : ProxyOps S) where
  -- Event::ReadData, as far as it concerns the proxy: the result, the buffer.
  unfoldable pub read_proxy : EvPara → S → ℤ × List ℕ × S
  read_proxy para s = elim (ops.status s) [
    | connect_no ↦ (negsuc 1, [], s)
    | connect_ok ↦ ops.read_worlds (read_addr para (ops.protocol s)) para.plc_data_size s
  ]

  unfoldable pub read_data : Event → Reach S → ℤ × List ℕ × Reach S
  unfolding read_proxy
  read_data e r =
      let (ret, buf, proxy) = read_proxy e.para r.proxy in (ret, buf, record r { proxy = proxy })

  -- Event::SendEapData, as far as it concerns the proxy.
  unfoldable pub write_proxy : EvPara → List ℕ → S → S
  write_proxy para bytes s = elim (ops.status s) [
    | connect_no ↦ s
    | connect_ok ↦ ops.write_worlds (write_addr para (ops.protocol s)) bytes para.eap_data_size s
  ]

  unfoldable pub send_eap_data : Event → List ℕ → Reach S → Reach S
  unfolding write_proxy
  send_eap_data e bytes r = record r { proxy = write_proxy e.para bytes r.proxy }
