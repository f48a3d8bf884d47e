-- ===== src/Plc/Fins.antt =====
-- PlcFins of transcation/PlcFins.cpp: a PLC asks through a command word for a value of the
-- balance, and gets it, or an error number, back. `m_cmd` is written before each read and is
-- left out. `parse` is the JSON library's reader; `read_float` gives the four bytes of the float
-- that `stringstream >>` reads. `none` is an exception of the JSON library.
use dev_hub.Base.{
  ℕ, zero, suc, ◌+◌, ◌-◌, ◌*◌, ◌/◌, ◌%◌, Bool, true, false, ◌&&◌, ◌||◌, Option, none, some, List,
  [], ◌∷◌, ◌++◌, if◌then◌else◌, ltb, ◌==◌, get_or, Text, codes, text_eq, ℤ, show_int, Json, null,
  bool, num, real, str, arr, obj,
}
use dev_hub.Command.{member}
use dev_hub.Plc.{FinsLib, Plc, connect, on_disconnect}

pub data PlcStatus : Type 0 where
  plc_status_busy plc_status_idel : PlcStatus

pub record PlcFins : Type 0 where
  pub cmd_addr : Text
  pub data_addr : Text
  pub status : PlcStatus
  pub start_time : ℕ
  pub detect : ℕ
  pub reconnect : ℕ
  pub value_polling : ℕ

-- The Plc, the world behind libfins and what the peripheral was given to write.
pub record Net (D H : Type 0) : Type 0 where
  pub plc : Plc H
  pub device : D
  pub written : List Text

-- The command words and the error numbers.
abbrev pub ebalance_qp : ℕ
ebalance_qp = 1

abbrev pub ebalance_cz : ℕ
ebalance_cz = 3

abbrev pub error_timeout : ℕ
error_timeout = 4

abbrev pub error_result : ℕ
error_result = 6

-- The two bytes of a `short` in memory.
abbrev pub short : ℕ → List ℕ
short n = n % 256 ∷ (n / 256) % 256 ∷ []

-- The `short` at `m_cmd` after its bytes were swapped.
abbrev pub swapped_cmd : List ℕ → ℕ
swapped_cmd m_cmd = get_or m_cmd 0 0 * 256 + get_or m_cmd 1 0

-- `timeUse > 15000`, where the difference is stored in an `int`.
abbrev pub timed_out : ℕ → ℕ → Bool
timed_out now start =
    let time_use = (now + (4294967296 - start % 4294967296)) % 4294967296 in
    ltb 15000 time_use && ltb time_use 2147483648

-- trim: `erase` up to find_first_not_of, and after find_last_not_of.
unfoldable pub drop_spaces : Text → Text
drop_spaces [] = []
drop_spaces (c ∷ s) = let rest = drop_spaces s in if c == 32 then rest else c ∷ s

abbrev pub keep : ℕ → Text → Text
keep c [] = if c == 32 then [] else c ∷ []
keep c (x ∷ xs) = c ∷ x ∷ xs

unfoldable pub drop_last_spaces : Text → Text
drop_last_spaces [] = []
drop_last_spaces (c ∷ s) = keep c (drop_last_spaces s)

unfoldable pub trim : Text → Text
trim s = drop_last_spaces (drop_spaces s)

-- `asString`.
abbrev pub as_string : Json → Option Text
as_string null = some []
as_string (bool true) = some (codes "true")
as_string (bool false) = some (codes "false")
as_string (num n) = some (show_int n)
as_string (real i n text) = some text
as_string (str s) = some s
as_string (arr items) = none
as_string (obj fields) = none

-- `root[key].asString()`.
unfoldable pub text_of : Text → Json → Option Text
text_of key root = elim (member key root) [ none ↦ none | some v ↦ as_string v ]

-- `valuestr`.
unfoldable pub value_text : Json → Option Text
value_text root = elim (text_of (codes "value") root) [
  | none ↦ none
  | some value ↦ elim (text_of (codes "symbol") root) [
    | none ↦ none
    | some symbol ↦ some (if text_eq symbol (codes "+") then value else 45 ∷ trim value)
  ]
]

abbrev pub idle : PlcFins → PlcFins
idle f = record f { status = plc_status_idel }

-- A return value of 0 makes the PlcFins idle.
abbrev pub after_connect : ℤ → PlcFins → PlcFins
after_connect (ℤ.pos zero) f = idle f
after_connect (ℤ.pos (suc n)) f = f
after_connect (ℤ.negsuc n) f = f

module _ {D H : Type 0} (lib : FinsLib D H) where
  -- finslib_memory_area_write_word of one word to the command's address.
  unfoldable pub write_cmd : PlcFins → ℕ → Net D H → Bool × Net D H
  write_cmd f n s =
      let (ok, d) = lib.write_word s.plc.sys f.cmd_addr (short n) 1 s.device in
      (ok, record s { device = d })

  unfoldable pub plc_on_disconnect : Net D H → Net D H
  unfolding on_disconnect
  plc_on_disconnect s =
      let (p, d) = on_disconnect lib s.plc s.device in record s { plc = p; device = d }

  -- m_Peripheral->WriteData.
  unfoldable pub write_data : Text → Net D H → Net D H
  write_data cmd s = record s { written = s.written ++ (cmd ∷ []) }

  -- PlcFins::Connect.
  unfoldable pub fins_connect : PlcFins × Net D H → PlcFins × Net D H
  unfolding connect
  fins_connect (f, s) =
      let (ret, p, d) = connect lib s.plc s.device in
      (after_connect ret f, record s { plc = p; device = d })

  -- The command that was read.
  unfoldable pub on_command : ℕ → ℕ → PlcFins × Net D H → PlcFins × Net D H
  unfolding write_cmd write_data
  on_command now cmd (f, s) =
      if cmd == ebalance_qp
      then (f, (write_cmd f 0 (write_data (codes "%ET") s)).1)
      else if cmd == ebalance_cz
      then (record f { status = plc_status_busy; start_time = now }, write_data (codes "%ER") s)
      else (f, s)

  -- OnTimer of m_detect when idle.
  unfoldable pub detect_idle : ℕ → PlcFins × Net D H → PlcFins × Net D H
  unfolding on_command plc_on_disconnect
  detect_idle now (f, s) = elim s.plc.sys [
    | none ↦ (f, s)
    | some h ↦
        let (bytes, d) = lib.read_word (some h) f.cmd_addr 1 s.device in
        let s' : Net D H = record s { device = d } in
        elim bytes [
          | none ↦ (f, plc_on_disconnect s')
          | some m_cmd ↦ on_command now (swapped_cmd m_cmd) (f, s')
        ]
  ]

  -- OnTimer of m_detect when busy.
  unfoldable pub detect_busy : ℕ → PlcFins × Net D H → PlcFins × Net D H
  unfolding write_cmd plc_on_disconnect
  detect_busy now (f, s) =
      if timed_out now f.start_time
      then (let (ok, s') = write_cmd f error_timeout s in
          if ok then (idle f, s') else (f, plc_on_disconnect s'))
      else (f, s)

  -- PlcFins::OnTimer.
  unfoldable pub on_timer : ℕ → ℕ → PlcFins × Net D H → PlcFins × Net D H
  unfolding detect_idle detect_busy fins_connect write_data
  on_timer tid now (f, s) =
      if tid == f.detect
      then elim f.status [
        | plc_status_idel ↦ detect_idle now (f, s)
        | plc_status_busy ↦ detect_busy now (f, s)
      ]
      else if tid == f.reconnect
      then elim s.plc.sys [ none ↦ fins_connect (f, s) | some h ↦ (f, s) ]
      else if tid == f.value_polling
      then elim f.status [
        | plc_status_busy ↦ (f, write_data (codes "%ER") s)
        | plc_status_idel ↦ (f, s)
      ]
      else (f, s)

  -- The end of UpdateInfo: the value goes to the PLC, then the command word is reset.
  unfoldable pub send_value : List ℕ → PlcFins × Net D H → PlcFins × Net D H
  unfolding write_cmd plc_on_disconnect
  send_value val (f, s) =
      let (ok, d) = lib.write_int32 s.plc.sys f.data_addr val s.device in
      let s' : Net D H = record s { device = d } in
      if ok then (idle f, (write_cmd f 0 s').1) else (f, plc_on_disconnect s')

module _ {D H : Type 0} (parse : Text → Option Json) (read_float : Text → List ℕ)
    (lib : FinsLib D H) where
  -- PlcFins::UpdateInfo.
  unfoldable pub update_info : Text → PlcFins × Net D H → Option (PlcFins × Net D H)
  unfolding write_cmd value_text send_value
  update_info buf (f, s) =
      if text_eq buf (codes "errorFrame") || text_eq buf (codes "errorData")
      then some (idle f, (write_cmd lib f error_result s).1)
      else elim (parse buf) [
        | none ↦ some (f, s)
        | some root ↦ elim (value_text root) [
          | none ↦ none
          | some valuestr ↦ some (send_value lib (read_float valuestr) (f, s))
        ]
      ]

-- The constructor of PlcFins, with the ids of its timers.
unfoldable pub new_plc_fins : Text → Text → ℕ → ℕ → ℕ → PlcFins
new_plc_fins cmd_addr data_addr reconnect value_polling detect = record {
  cmd_addr = cmd_addr;
  data_addr = data_addr;
  status = plc_status_idel;
  start_time = 0;
  detect = detect;
  reconnect = reconnect;
  value_polling = value_polling;
}
