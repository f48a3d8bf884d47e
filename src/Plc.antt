-- ===== src/Plc.antt =====
-- The PLC of transcation/PlcFins.cpp (class Plc) and what libfins and libmodbus do for it. Both
-- libraries are records of functions on a state `D` of the world behind them; `H` is the type of
-- their handles, and `none` as a handle is NULL. The time is in milliseconds.
pub mod Fins
pub mod Proxy
pub mod Link
pub mod Timeout
pub mod Reconnect
pub mod Trim
mod Tests
use dev_hub.Base.{ℕ, Bool, true, false, Option, none, some, List, Text, ℤ, pos, negsuc, ◌&&◌}

pub data ConnectionStatus : Type 0 where
  connect_ok connect_no : ConnectionStatus

-- libfins. `finslib_tcp_connect` gives a handle and says whether `error_val` is 0, a read gives
-- the bytes and a write true for FINS_RETVAL_SUCCESS. `set_cs_mode` assigns `plc_mode`.
pub record FinsLib (D H : Type 0) : Type 0 where
  pub tcp_connect : Text → ℕ → D → Option H × Bool × D
  pub set_cs_mode : H → D → D
  pub disconnect : Option H → D → D
  pub read_word : Option H → Text → ℕ → D → Option (List ℕ) × D
  pub write_word : Option H → Text → List ℕ → ℕ → D → Bool × D
  pub write_int32 : Option H → Text → List ℕ → D → Bool × D

-- A link of either program class: m_connectionStatus and the handle.
pub record Plc (H : Type 0) : Type 0 where
  pub connection_status : ConnectionStatus
  pub ip : Text
  pub port : ℕ
  pub sys : Option H

abbrev pub minus_one : ℤ
minus_one = negsuc 0

module _ {D H : Type 0} where
  -- The end of Connect: a handle with no error is kept.
  abbrev pub connected : FinsLib D H → Option H × Bool × D → Plc H → ℤ × Plc H × D
  connected lib (some h, true, d) p =
      (pos 0, record p { sys = some h; connection_status = connect_ok }, lib.set_cs_mode h d)
  connected lib (some h, false, d) p = (minus_one, record p { sys = none }, d)
  connected lib (none, b, d) p = (minus_one, record p { sys = none }, d)

  -- Plc::Connect.
  unfoldable pub connect : FinsLib D H → Plc H → D → ℤ × Plc H × D
  connect lib p d = elim p.connection_status [
    | connect_ok ↦ (pos 0, p, d)
    | connect_no ↦ connected lib (lib.tcp_connect p.ip p.port d) p
  ]

  -- Plc::on_disconnect.
  unfoldable pub on_disconnect : FinsLib D H → Plc H → D → Plc H × D
  on_disconnect lib p d =
      (record p { sys = none; connection_status = connect_no }, lib.disconnect p.sys d)

-- The constructor of Plc.
unfoldable pub new_plc : {H : Type 0} → Text → ℕ → Plc H
new_plc ip port = record { connection_status = connect_no; ip = ip; port = port; sys = none }
