-- ===== src/Plc/Proxy.antt =====
-- PlcProxy, FinsPlcProxy and ModbusRtuPlcProxy of transcation/PlcProxy.cpp: the link of a machine.
-- A proxy is a `Plc` with the contex that its last PlcConnect noted; of the contex the address is
-- kept. `stoi` is std::stoi, with `none` for an exception.
use dev_hub.Base.{
  ℕ, ◌/◌, Bool, true, false, Option, none, some, List, [], if◌then◌else◌, ◌==◌, Text, codes,
  text_eq, ℤ, pos, negsuc, int_eq,
}
use dev_hub.Plc.{ConnectionStatus, connect_ok, connect_no, FinsLib, minus_one}

-- What a MachineContex says of the link: m_ip and m_port, and m_serial with m_moduleNum.
pub record SerialParameter : Type 0 where
  pub baud : ℕ
  pub parity : ℕ
  pub data_bit : ℕ
  pub stop_bit : ℕ

pub record Contex : Type 0 where
  pub ip : Text
  pub port : ℕ
  pub module_num : ℕ
  pub serial : Option SerialParameter

pub record PlcProxy (H : Type 0) : Type 0 where
  pub reconnect : ℕ
  pub connection_status : ConnectionStatus
  pub handle : Option H
  pub contex : Option Contex

pub data PlcProtocol : Type 0 where
  pro_fins pro_rtu : PlcProtocol

-- GetPlcProxy, where it returns a value: for "ModBus" it returns none at all.
abbrev pub get_plc_proxy : Text → Option PlcProtocol
get_plc_proxy name =
    if text_eq name (codes "Fins")
    then some pro_fins
    else if text_eq name (codes "RTU")
    then some pro_rtu
    else none

-- The constructor of PlcProxy.
unfoldable pub new_proxy : {H : Type 0} → ℕ → PlcProxy H
new_proxy reconnect = record {
  reconnect = reconnect;
  connection_status = connect_no;
  handle = none;
  contex = none;
}

-- libmodbus: `new_rtu` makes a context without a connection, `setup` is modbus_set_debug,
-- modbus_set_error_recovery and modbus_set_slave. A result is the count or -1.
pub record ModbusLib (D H : Type 0) : Type 0 where
  pub new_rtu : SerialParameter → D → Option H × D
  pub setup : Option H → ℕ → D → D
  pub write_registers : Option H → ℤ → ℕ → List ℕ → D → ℤ × D
  pub read_registers : Option H → ℤ → ℕ → D → ℤ × List ℕ × D

-- ModbusRtuPlcProxy::on_disconnect, which no function calls.
unfoldable pub rtu_disconnect : {H : Type 0} → PlcProxy H → PlcProxy H
rtu_disconnect p = record p { handle = none; connection_status = connect_no }

module _ {D H : Type 0} where
  -- FinsPlcProxy::on_disconnect.
  unfoldable pub fins_disconnect : FinsLib D H → PlcProxy H → D → PlcProxy H × D
  fins_disconnect lib p d =
      (record p { handle = none; connection_status = connect_no }, lib.disconnect p.handle d)

  -- The end of FinsPlcProxy::PlcConnect.
  abbrev pub fins_connected : FinsLib D H → Option H × Bool × D → PlcProxy H → ℤ × PlcProxy H × D
  fins_connected lib (some h, true, d) p =
      (pos 0, record p { handle = some h; connection_status = connect_ok }, lib.set_cs_mode h d)
  fins_connected lib (some h, false, d) p = (minus_one, record p { handle = none }, d)
  fins_connected lib (none, b, d) p = (minus_one, record p { handle = none }, d)

  -- FinsPlcProxy::PlcConnect.
  unfoldable pub fins_plc_connect :
      FinsLib D H → Option Contex → PlcProxy H → D → ℤ × PlcProxy H × D
  fins_plc_connect lib none p d = (minus_one, p, d)
  fins_plc_connect lib (some mc) p d =
      let p' : PlcProxy H = record p { contex = some mc } in
      elim p.connection_status [
        | connect_ok ↦ (pos 0, p', d)
        | connect_no ↦ fins_connected lib (lib.tcp_connect mc.ip mc.port d) p'
      ]

  -- FinsPlcProxy::PlcWriteWorlds.
  unfoldable pub fins_write_worlds :
      FinsLib D H → Text → List ℕ → ℕ → PlcProxy H → D → ℤ × PlcProxy H × D
  unfolding fins_disconnect
  fins_write_worlds lib addr bytes len p d =
      let (ok, d') = lib.write_word p.handle addr bytes len d in
      let (p', d'') = fins_disconnect lib p d' in
      if ok then (pos 0, p, d') else (minus_one, p', d'')

  -- FinsPlcProxy::PlcReadWorlds, with the bytes that it leaves in the buffer.
  abbrev pub fins_read_done :
      FinsLib D H → Option (List ℕ) → PlcProxy H → D → ℤ × List ℕ × PlcProxy H × D
  fins_read_done lib (some buf) p d = (pos 0, buf, p, d)
  fins_read_done lib none p d = let (p', d') = fins_disconnect lib p d in (minus_one, [], p', d')

  unfoldable pub fins_read_worlds :
      FinsLib D H → Text → ℕ → PlcProxy H → D → ℤ × List ℕ × PlcProxy H × D
  fins_read_worlds lib addr recv_len p d =
      let (bytes, d') = lib.read_word p.handle addr (recv_len / 2) d in
      fins_read_done lib bytes p d'

  -- PlcProxy::OnTimer of a FinsPlcProxy.
  unfoldable pub fins_on_timer : FinsLib D H → ℕ → PlcProxy H → D → PlcProxy H × D
  unfolding fins_plc_connect
  fins_on_timer lib tid p d =
      if tid == p.reconnect
      then elim p.handle [
        | some h ↦ (p, d)
        | none ↦ elim p.contex [
          | none ↦ (p, d)
          | some mc ↦ let (ret, p', d') = fins_plc_connect lib (some mc) p d in (p', d')
        ]
      ]
      else (p, d)

  -- ModbusRtuPlcProxy::PlcConnect of a contex that is not NULL; a NULL contex is dereferenced.
  -- The last path returns no value, which no caller uses.
  unfoldable pub rtu_plc_connect : ModbusLib D H → Contex → PlcProxy H → D → PlcProxy H × D
  rtu_plc_connect lib mc p d = elim mc.serial [
    | none ↦ (p, d)
    | some serial ↦
        let p' : PlcProxy H = record p { contex = some mc } in
        elim p.connection_status [
          | connect_ok ↦ (p', d)
          | connect_no ↦
              let (h, d') = lib.new_rtu serial d in
              (
                record p' { handle = h; connection_status = connect_ok },
                lib.setup h mc.module_num d',
              )
        ]
  ]

  -- ModbusRtuPlcProxy::PlcWriteWorlds.
  unfoldable pub rtu_write_worlds :
      (Text → Option ℤ) → ModbusLib D H → Text → List ℕ → ℕ → PlcProxy H → D → ℤ × D
  rtu_write_worlds stoi lib addr bytes len p d = elim (stoi addr) [
    | none ↦ (minus_one, d)
    | some n ↦
        let (ret, d') = lib.write_registers p.handle n len bytes d in
        (elim ret [ pos k ↦ pos 0 | negsuc k ↦ minus_one ], d')
  ]

  -- ModbusRtuPlcProxy::PlcReadWorlds.
  unfoldable pub rtu_read_worlds :
      (Text → Option ℤ) → ModbusLib D H → Text → ℕ → PlcProxy H → D → ℤ × List ℕ × D
  rtu_read_worlds stoi lib addr recv_len p d = elim (stoi addr) [
    | none ↦ (minus_one, [], d)
    | some n ↦
        let (ret, buf, d') = lib.read_registers p.handle n recv_len d in
        (if int_eq ret (pos recv_len) then pos 0 else minus_one, buf, d')
  ]

  -- PlcProxy::OnTimer of a ModbusRtuPlcProxy.
  unfoldable pub rtu_on_timer : ModbusLib D H → ℕ → PlcProxy H → D → PlcProxy H × D
  unfolding rtu_plc_connect
  rtu_on_timer lib tid p d =
      if tid == p.reconnect
      then elim p.handle [
        | some h ↦ (p, d)
        | none ↦ elim p.contex [ none ↦ (p, d) | some mc ↦ rtu_plc_connect lib mc p d ]
      ]
      else (p, d)
