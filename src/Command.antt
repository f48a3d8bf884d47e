-- ===== src/Command.antt =====
-- Transcation::DownInfo and the ProcessCmd of the solder, glue and balance transcations in
-- transcation/Transcation.cpp: how a frame becomes a command of a device or a reply. `parse` and
-- `styled` are the JSON library's reader and writer, `stoi` is std::stoi; `none` is an exception.
-- The numbers that the functions return are used by no caller and left out, the printing too.
pub mod Process
pub mod Manager
pub mod Data
pub mod Down
mod Tests
use dev_hub.Base.{
  ℕ, zero, suc, ◌+◌, Bool, true, false, ◌&&◌, ◌||◌, not, Option, none, some, List, [], ◌∷◌, ◌++◌,
  if◌then◌else◌, ltb, leb, ◌==◌, get_elem?, length, Text, codes, text_eq, ℤ, pos, negsuc, int_eq,
  Json, null, bool, num, real, fits_int, str, arr, obj, Items, nil, cons, Fields, end, field,
}
use dev_hub.Reply.{split}
use dev_hub.Task.{
  TaskStatus, task_idle, task_accept, task_run, CommunicationFormat, format_json, format_common,
  Task, World, error_format, error_param, error_command, error_devopen, nothing_to_do,
  start_response_timer, response, update,
}

-- A device of a transcation. `id` names it in the list of what is done with devices.
pub record Peripheral : Type 0 where
  pub equipment_name : Text
  pub equipment_no : ℤ
  pub id : ℕ
  pub fd : ℤ

-- `p->GetFd() > 0`.
abbrev pub positive : ℤ → Bool
positive (pos n) = ltb 0 n
positive (negsuc n) = false

abbrev pub is_open : Peripheral → Bool
is_open p = positive p.fd

pub data Kind : Type 0 where
  solder balance glue : Kind

pub record Transcation : Type 0 where
  pub id : ℕ
  pub kind : Kind
  pub name : Text
  pub command_names : List Text
  pub ip_white_list : List Text
  pub peripherals : List Peripheral

-- What a command does with a device: RecvCommand, WriteData and MarkTime.
pub data Action : Type 0 where
  recv_command write_data : ℕ → Text → Action
  mark_time : ℕ → Action

-- CheckIp and CheckCommandName: is the text in the list.
unfoldable pub check : Text → List Text → Bool
check t [] = false
check t (x ∷ xs) = let rest = check t xs in if text_eq x t then true else rest

-- SelectPeripherals: the first with the name and number.
unfoldable pub select_peripherals : ℤ → Text → List Peripheral → Option Peripheral
select_peripherals equip_no name [] = none
select_peripherals equip_no name (p ∷ ps) =
    let rest = select_peripherals equip_no name ps in
    if text_eq p.equipment_name name && int_eq p.equipment_no equip_no then some p else rest

-- `value[key]`: null for a missing member, an exception for a value that has none.
unfoldable pub find_field : Text → Fields → Json
find_field key end = null
find_field key (field k v fs) = let rest = find_field key fs in if text_eq k key then v else rest

unfoldable pub member : Text → Json → Option Json
member key null = some null
member key (obj fs) = some (find_field key fs)
member key (bool b) = none
member key (num n) = none
member key (real i n text) = none
member key (str s) = none
member key (arr items) = none

-- `value[0]` of an array or null, and `asInt`.
abbrev pub first_item : Json → Json
first_item (arr (cons v items)) = v
first_item _ = null

abbrev pub as_int : Json → Option ℤ
as_int null = some (pos 0)
as_int (bool false) = some (pos 0)
as_int (bool true) = some (pos 1)
as_int (num n) = if fits_int n then some n else none
as_int (real i n text) = n
as_int (str s) = none
as_int (arr items) = none
as_int (obj fs) = none

-- `asInt` behind the test `isInt`.
abbrev pub int_value : Json → Option ℤ
int_value (num n) = if fits_int n then some n else none
int_value (real true n text) = n
int_value _ = none

abbrev pub is_null_or_array : Json → Bool
is_null_or_array null = true
is_null_or_array (arr items) = true
is_null_or_array _ = false

-- A command as ProcessCmd gets it: `cmd`, `ReqId` and `param`.
pub record Request : Type 0 where
  pub cmd : Text
  pub req_id : ℤ
  pub param : Json

abbrev pub Devices : Type 0
Devices = List Action

module _ (styled : Json → Text) where
  -- The reply with an error number under a command's name, through `m_task->Update`.
  unfoldable pub reply : ℤ → Text → ℤ → ℕ → Task × World Devices → Task × World Devices
  unfolding response update
  reply error_no cmd req_id id (t, w) = update styled (response styled error_no t cmd req_id) id t w

  abbrev pub act : Action → Task × World Devices → Task × World Devices
  act a (t, w) = (t, record w { devices = w.devices ++ (a ∷ []) })

  abbrev pub set_status : TaskStatus → Task × World Devices → Task × World Devices
  set_status s (t, w) = (record t { status = s }, w)

  -- SetReqId and SetCmdName.
  abbrev pub set_request : ℤ → Text → Task × World Devices → Task × World Devices
  set_request req_id cmd (t, w) = (record t { req_id = req_id; cmd_name = cmd }, w)

  -- ProcessCmd of TranscationSolderCtrl and of TranscationGlueDispenser, which are the same.
  unfoldable pub process_spit :
      Transcation → Request → Task × World Devices → Option (Task × World Devices)
  unfolding reply select_peripherals
  process_spit tc r s =
      let name = codes "GetSpitParam" in
      if not (text_eq r.cmd name)
      then some s
      else if not (is_null_or_array r.param)
      then some (reply error_format name r.req_id tc.id s)
      else elim (as_int (first_item r.param)) [
        | none ↦ none
        | some equip_no ↦
            let s' = set_request r.req_id name s in
            elim (select_peripherals equip_no tc.name tc.peripherals) [
              | none ↦ some (reply error_param name r.req_id tc.id s')
              | some p ↦ some (set_status task_run (act (recv_command p.id r.cmd) s'))
            ]
      ]

  -- The BalanceQp branch of TranscationBalance::ProcessCmd.
  unfoldable pub process_balance_qp :
      Transcation → Request → Task × World Devices → Option (Task × World Devices)
  unfolding reply select_peripherals
  process_balance_qp tc r s =
      let name = codes "BalanceQp" in
      if not (is_null_or_array r.param)
      then some (reply error_format name r.req_id tc.id s)
      else elim (as_int (first_item r.param)) [
        | none ↦ none
        | some equip_no ↦ elim (select_peripherals equip_no tc.name tc.peripherals) [
          | none ↦ some (reply error_param name r.req_id tc.id s)
          | some p ↦
              if is_open p
              then some (reply (pos 0) name r.req_id tc.id (act (write_data p.id (codes "%ET")) s))
              else some (reply error_devopen name r.req_id tc.id s)
        ]
      ]

  -- The BalanceCl branch, whose errors are reported under the name BalanceQp.
  unfoldable pub process_balance_cl :
      Transcation → Request → Task × World Devices → Option (Task × World Devices)
  unfolding reply select_peripherals
  process_balance_cl tc r s =
      let name = codes "BalanceQp" in
      if not (is_null_or_array r.param)
      then some (reply error_format name r.req_id tc.id s)
      else elim (as_int (first_item r.param)) [
        | none ↦ none
        | some equip_no ↦
            let s' = set_request r.req_id (codes "BalanceCl") s in
            elim (select_peripherals equip_no tc.name tc.peripherals) [
              | none ↦ some (reply error_param name r.req_id tc.id s')
              | some p ↦
                  if is_open p
                  then some (
                      set_status task_run
                        (act (write_data p.id (codes "%ER")) (act (mark_time p.id) s')))
                  else some (reply error_devopen name r.req_id tc.id s')
            ]
      ]

  unfoldable pub process_cmd :
      Transcation → Request → Task × World Devices → Option (Task × World Devices)
  unfolding process_spit process_balance_qp process_balance_cl
  process_cmd tc r s = elim tc.kind [
    | solder ↦ process_spit tc r s
    | glue ↦ process_spit tc r s
    | balance ↦
        if text_eq r.cmd (codes "BalanceQp")
        then process_balance_qp tc r s
        else if text_eq r.cmd (codes "BalanceCl")
        then process_balance_cl tc r s
        else some s
  ]
