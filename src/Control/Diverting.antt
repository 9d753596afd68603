-- ===== src/Control/Diverting.antt =====
-- src/te/httpengine/mitm/diversion/DiversionControl.cpp on Windows: every call goes to WinDiverter.
use http_filtering_engine.Base.{ℕ, Bool, false, List, if◌then◌else◌, Option, some, none}
use http_filtering_engine.Diversion.State.{
  Diverter, new_diverter, get_http_listener_port, get_https_listener_port, set_http_listener_port,
  set_https_listener_port,
}
use http_filtering_engine.Diversion.Lifecycle.{Service, Handle, null, run, stop}

-- The platform's diverter, with its ports and its handles and threads.
pub record DiversionControl : Type 0 where
  pub diverter : Diverter
  pub service : Service

-- The constructor: WinDiverter's throws without a firewall callback.
unfoldable pub new_diversion_control : ℕ → Bool → List ℕ → Option DiversionControl
unfolding new_diverter
new_diversion_control pid has_firewall_check opened =
    if has_firewall_check
    then some (record {
      diverter = new_diverter pid;
      service = record {
        running = false;
        threads = 0;
        diversion_handle = null;
        quic_block_handle = null;
        opened = opened;
      };
    })
    else none

abbrev pub control_http_port : DiversionControl → ℕ
control_http_port d = get_http_listener_port d.diverter

abbrev pub control_set_http_port : ℕ → DiversionControl → DiversionControl
control_set_http_port port d = record d { diverter = set_http_listener_port port d.diverter }

abbrev pub control_https_port : DiversionControl → ℕ
control_https_port d = get_https_listener_port d.diverter

abbrev pub control_set_https_port : ℕ → DiversionControl → DiversionControl
control_set_https_port port d = record d { diverter = set_https_listener_port port d.diverter }

-- `Run`, and whether it returns without an exception.
abbrev pub control_run : Handle → Handle → ℕ → DiversionControl → DiversionControl × Bool
control_run d q cores c = let r = run d q cores c.service in (record c { service = r.0 }, r.1)

abbrev pub control_stop : DiversionControl → DiversionControl
control_stop c = record c { service = stop c.service }

abbrev pub control_is_running : DiversionControl → Bool
control_is_running c = c.service.running
