-- ===== src/Config/Tests.antt =====
-- Settings at concrete values.
use trunker.Base.{◌≡◌, refl, some, []}
use trunker.Base.Bytes.{codes, eq_bytes}
use trunker.Config.Defaults.{Settings, AreDefaulted, inject_default_value, inject_default_value_lem}

abbrev settings : Settings
settings = record {
  host_ports = [];
  metrics_host_ports = [];
  mode = codes "memory";
  persist_file = [];
  remote_server = [];
  tracker_id = codes "mine";
}

abbrev filled : Settings
filled = record settings {
  host_ports = codes "0.0.0.0:8888";
  metrics_host_ports = codes "127.0.0.1:9091";
  persist_file = codes "persist.dat";
}

filled_first : inject_default_value settings ≡ some filled
unfolding inject_default_value eq_bytes
filled_first = refl

inject_default_value_lem_example :
    AreDefaulted settings filled × (inject_default_value filled ≡ some filled)
inject_default_value_lem_example = inject_default_value_lem settings filled filled_first
