-- ===== src/Events/Proxies.antt =====
-- The proxies of transcation/PlcProxy.cpp as the events of transcation/ev_respond.cpp use them.
use dev_hub.Base.{Option, Text, ℤ}
use dev_hub.Plc.{FinsLib}
use dev_hub.Plc.Proxy.{
  PlcProxy, pro_fins, pro_rtu, ModbusLib, fins_read_worlds, fins_write_worlds, rtu_read_worlds,
  rtu_write_worlds,
}
use dev_hub.Events.{ProxyOps}

-- A FinsPlcProxy and the world behind libfins.
unfoldable pub fins_ops : {D H : Type 0} → FinsLib D H → ProxyOps (PlcProxy H × D)
unfolding fins_read_worlds fins_write_worlds
fins_ops lib = record {
  status = λ s. s.0.connection_status;
  protocol = λ s. pro_fins;
  read_worlds = λ addr len s.
      let (ret, buf, p, d) = fins_read_worlds lib addr len s.0 s.1 in (ret, buf, (p, d));
  write_worlds =
      λ addr bytes len s. let (ret, p, d) = fins_write_worlds lib addr bytes len s.0 s.1 in (p, d);
}

-- A ModbusRtuPlcProxy and the world behind libmodbus.
unfoldable pub rtu_ops :
    {D H : Type 0} → (Text → Option ℤ) → ModbusLib D H → ProxyOps (PlcProxy H × D)
unfolding rtu_read_worlds rtu_write_worlds
rtu_ops stoi lib = record {
  status = λ s. s.0.connection_status;
  protocol = λ s. pro_rtu;
  read_worlds = λ addr len s.
      let (ret, buf, d) = rtu_read_worlds stoi lib addr len s.0 s.1 in (ret, buf, (s.0, d));
  write_worlds = λ addr bytes len s.
      let (ret, d) = rtu_write_worlds stoi lib addr bytes len s.0 s.1 in (s.0, d);
}
