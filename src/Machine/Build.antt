-- ===== src/Machine/Build.antt =====
-- BuildEvent and MachinePlcBuilder of transcation/machine.cpp: how a machine is made from its
-- profile. `none` as a machine says that the code goes on with a pointer to nothing that lives.
use dev_hub.Base.{
  ℕ, ◌+◌, ◌*◌, ◌%◌, Bool, true, false, Option, none, some, List, [], ◌∷◌, if◌then◌else◌, Text,
  codes, text_eq, lookup, insert,
}
use dev_hub.Plc.Proxy.{PlcProtocol, get_plc_proxy}
use dev_hub.Events.{
  PlcAlarmInfo, MachineContex, EventKind, ev_register, ev_heare_beat, ev_eap_command,
  ev_event_changed_flag, ev_notice_message, ev_alarm_code, ev_machine_status, ev_machine_yield,
  ev_break_point, ev_check_in, ev_post_result, EvPara, Event, new_event,
}
use dev_hub.Events.Sniff.{AlarmMap}
use dev_hub.Machine.{Machine, push_main_event, push_stations_event}
use dev_hub.Machine.Split.{split_string}

-- BuildEvent; `none` is NULL.
unfoldable pub event_kind : Text → Option EventKind
event_kind action =
    if text_eq action (codes "Register")
    then some ev_register
    else if text_eq action (codes "HeartBeat")
    then some ev_heare_beat
    else if text_eq action (codes "EapCommand")
    then some ev_eap_command
    else if text_eq action (codes "EventChangedFlag")
    then some ev_event_changed_flag
    else if text_eq action (codes "NoticeText")
    then some ev_notice_message
    else if text_eq action (codes "AlarmCode")
    then some ev_alarm_code
    else if text_eq action (codes "MachineStatus")
    then some ev_machine_status
    else if text_eq action (codes "MachineYield")
    then some ev_machine_yield
    else if text_eq action (codes "BreakPoint")
    then some ev_break_point
    else if text_eq action (codes "CheckIn")
    then some ev_check_in
    else if text_eq action (codes "PostResult")
    then some ev_post_result
    else none

abbrev pub made : EvPara → Option EventKind → Option Event
made para none = none
made para (some kind) = some (new_event kind para)

unfoldable pub build_event : EvPara → Option Event
unfolding event_kind new_event
build_event para = made para (event_kind para.event_action)

-- The loop over DataFormats, which ends at "Default".
unfoldable pub apply_format : Text → MachineContex → MachineContex
apply_format f c =
    if text_eq f (codes "ReadSkipZero")
    then record c { read_skip_zero = true }
    else if text_eq f (codes "WordSwap")
    then record c { word_swap = true }
    else if text_eq f (codes "IntSwap")
    then record c { int_swap = true }
    else if text_eq f (codes "LongSwap")
    then record c { long_swap = true }
    else c

unfoldable pub apply_formats : List Text → MachineContex → MachineContex
unfolding apply_format
apply_formats [] c = c
apply_formats (f ∷ fs) c =
    let rest = apply_formats fs (apply_format f c) in
    if text_eq f (codes "Default") then c else rest

-- `offset`, an `unsigned int`.
abbrev pub offset_of : PlcAlarmInfo → ℕ
offset_of a = (a.word_offset * 16 + a.bit_offset) % 4294967296

-- `insert` of a pair: an offset that is there keeps its alarm.
abbrev pub alarm_unless : Option (Option PlcAlarmInfo) → PlcAlarmInfo → AlarmMap → AlarmMap
alarm_unless none a m = insert (offset_of a) (some a) m
alarm_unless (some b) a m = m

abbrev pub add_alarm : PlcAlarmInfo → AlarmMap → AlarmMap
add_alarm a m = alarm_unless (lookup (offset_of a) m) a m

unfoldable pub add_alarms : List PlcAlarmInfo → AlarmMap → AlarmMap
add_alarms [] m = m
add_alarms (a ∷ as_) m = add_alarms as_ (add_alarm a m)

-- LineMachine_t with its MainDeviceProfile_t, as far as the builder reads them; StationEventProfile_t
-- has the fields of an EvPara. `stations` are the events of each station.
pub record LineMachine : Type 0 where
  pub name : Text
  pub enable : Bool
  pub device_type : Text
  pub protocol : Text
  pub data_format : Text
  pub alarm_code_list : List PlcAlarmInfo
  pub main_events : List EvPara
  pub stations : List (List EvPara)

-- The constructors of MachineContex and PlcContex.
abbrev pub new_contex : Text → Text → MachineContex
new_contex section machine = record {
  section_name = section;
  machine_name = machine;
  read_skip_zero = false;
  word_swap = false;
  int_swap = false;
  long_swap = false;
  plc_alarm_code_list = [];
}

-- The contex that BuildMachine fills.
unfoldable pub build_contex : Text → LineMachine → MachineContex
unfolding split_string apply_formats add_alarms
build_contex section lm =
    let c = apply_formats (split_string lm.data_format (codes " ")) (new_contex section lm.name) in
    record c { plc_alarm_code_list = add_alarms lm.alarm_code_list c.plc_alarm_code_list }

-- What a machine gets from the rest of the program: the proxy as PlcConnect leaves it, the ids of its
-- timers for polling and for the heart beat, and whether ev_reciver has a client.
pub record Wiring (S : Type 0) : Type 0 where
  pub link : PlcProtocol → LineMachine → S
  pub ids : Text → LineMachine → ℕ × ℕ
  pub client : Bool

module _ {S : Type 0} where
  -- BuildMachine, with the proxy of GetPlcProxy. The name is never set. For the protocol "ModBus"
  -- the contex is not initialised, and for an unknown one the machine is deleted but not forgotten.
  unfoldable pub new_machine : Wiring S → Text → LineMachine → PlcProtocol → Machine S
  unfolding build_contex
  new_machine w section lm protocol = record {
    name = [];
    main_events = [];
    stations_events = [];
    value_polling = (w.ids section lm).0;
    heartbeat = (w.ids section lm).1;
    reach = record {
      proxy = w.link protocol lm;
      contex = build_contex section lm;
      client = w.client;
      sent = [];
    };
  }

  abbrev pub machine_for : Wiring S → Text → LineMachine → Option PlcProtocol → Option (Machine S)
  machine_for w section lm none = none
  machine_for w section lm (some protocol) = some (new_machine w section lm protocol)

  unfoldable pub build_machine : Wiring S → Text → LineMachine → Option (Machine S)
  build_machine w section lm = machine_for w section lm (get_plc_proxy lm.protocol)

  -- Push what BuildEvent made, or go on to the next profile if it made nothing.
  abbrev pub push_made :
      (Text → Option Event → Machine S → Machine S) → Text → Option Event → Machine S → Machine S
  push_made push name none m = m
  push_made push name (some e) m = push name (some e) m

  -- BuildMainDeviceProfile.
  unfoldable pub build_main_device_profile : List EvPara → Machine S → Machine S
  unfolding build_event push_main_event
  build_main_device_profile [] m = m
  build_main_device_profile (p ∷ ps) m =
      build_main_device_profile ps (push_made push_main_event p.event_name (build_event p) m)

  -- The inner and the outer loop of BuildCustomEvents.
  unfoldable pub build_station : List EvPara → Machine S → Machine S
  unfolding build_event push_stations_event
  build_station [] m = m
  build_station (p ∷ ps) m =
      build_station ps (push_made push_stations_event p.event_name (build_event p) m)

  unfoldable pub build_custom_events : List (List EvPara) → Machine S → Machine S
  unfolding build_station
  build_custom_events [] m = m
  build_custom_events (s ∷ ss) m = build_custom_events ss (build_station s m)
