-- ===== src/Tunnel/Local.antt =====
-- tunnel/manager.go: Manager.localStatus, Status and fillConnections.
use slimproxy.Base.{
  ℤ, pos, ℕ, suc, Bool, true, false, not, ◌&&◌, ◌||◌, Option, none, some, List, [], ltb,
  if◌then◌else◌,
}
use slimproxy.Text.{Text, text_eq}
use slimproxy.Text.Split.{is_filled}
use slimproxy.Tunnel.Process.{
  Record, Reading, no_record, broken, found, read_record, Identity, matches, gone, mismatch,
  unknown,
}
use slimproxy.Tunnel.World.{
  World, ConfigRead, not_found, ill_formed, config, Connectivity, Os, identity_of, ask,
  remove_record,
}

-- State.
pub data State : Type 0 where
  not_configured configured running state_unknown : State

-- The texts that Detail may hold.
pub data Detail : Type 0 where
  no_detail config_broken record_broken config_changed exited recycled : Detail
  unconfirmed instance_unconfirmed started_elsewhere extra_connector starting_anyway : Detail

-- What Err and ConnectionsErr may hold.
pub data Fault : Type 0 where
  no_fault config_fault record_fault identity_fault query_fault unparsed_fault : Fault

-- Status.
pub record Status : Type 0 where
  pub state : State
  pub pid : ℤ
  pub managed : Bool
  pub tunnel_id : Text
  pub configured_tunnel_id : Text
  pub hostnames : List Text
  pub config_path : Text
  pub log_path : Text
  pub connections : ℕ
  pub connections_known : Bool
  pub connections_err : Fault
  pub edge_fake_ip : Text
  pub detail : Detail
  pub err : Fault

-- The zero Status.
abbrev pub blank : Status
blank = record {
  state = not_configured;
  pid = pos 0;
  managed = false;
  tunnel_id = [];
  configured_tunnel_id = [];
  hostnames = [];
  config_path = [];
  log_path = [];
  connections = 0;
  connections_known = false;
  connections_err = no_fault;
  edge_fake_ip = [];
  detail = no_detail;
  err = no_fault;
}

-- What the configuration alone says.
unfoldable pub from_config : ConfigRead → Status
from_config not_found = blank
from_config ill_formed = record blank {
  state = state_unknown;
  err = config_fault;
  detail = config_broken;
}
from_config (config c) = record blank {
  state = configured;
  tunnel_id = c.tunnel;
  hostnames = c.hostnames;
  config_path = c.path;
}

-- The status of a managed tunnel that runs, whose configuration may have changed since.
unfoldable pub as_running : Record → Status → Status
as_running rec st =
    let st' = record st { state = running; pid = rec.pid; managed = true } in
    if is_filled rec.tunnel && is_filled st.tunnel_id && not (text_eq rec.tunnel st.tunnel_id)
    then record st' {
      configured_tunnel_id = st.tunnel_id;
      tunnel_id = rec.tunnel;
      detail = config_changed;
    }
    else st'

module _ (os : Os) where
  -- What the answer about the recorded process makes of the status, and of the record.
  unfoldable pub on_identity : Record → Identity → Status → World → Status × World
  unfolding as_running
  on_identity rec matches st w = (as_running rec st, w)
  on_identity rec gone st w = (record st { detail = exited }, remove_record os w)
  on_identity rec mismatch st w = (record st { detail = recycled }, remove_record os w)
  on_identity rec unknown st w =
      (record st { state = state_unknown; err = identity_fault; detail = unconfirmed }, w)

  unfoldable pub on_record : Reading → Status → World → Status × World
  unfolding on_identity
  on_record no_record st w = (st, w)
  on_record broken st w =
      (record st { state = state_unknown; err = record_fault; detail = record_broken }, w)
  on_record (found rec) st w =
      on_identity rec (identity_of os rec w) (record st { log_path = rec.log_path }) (ask os rec w)

  -- Manager.localStatus.
  unfoldable pub local_status : World → Status × World
  unfolding on_record
  local_status w = on_record (read_record w.file) (from_config (os.read_config w.moment)) w

  with_connections : Connectivity → Status → Status
  with_connections conn st = record st {
    connections = conn.count;
    connections_known = true;
    edge_fake_ip = conn.fake_ip;
  }

  -- fillConnections, on what the query returned.
  unfoldable pub fill_connections : Option Connectivity → Status → Status
  unfolding with_connections
  fill_connections none st = record st { connections_err = query_fault }
  fill_connections (some conn) st =
      if not conn.is_parsed
      then record st { connections_err = unparsed_fault }
      else with_connections conn st

  -- The status of a tunnel that is configured and has no process of ours, on what the query returned.
  unfoldable pub ask_remote : Option Connectivity → Status → Status
  unfolding with_connections
  ask_remote none st = record st {
    state = state_unknown;
    detail = instance_unconfirmed;
    err = query_fault;
  }
  ask_remote (some conn) st =
      if not conn.is_parsed
      then record st { state = state_unknown; detail = instance_unconfirmed }
      else if ltb 0 conn.count
      then record (with_connections conn st) {
        state = running;
        managed = false;
        detail = started_elsewhere;
      }
      else record st { connections = 0; connections_known = true }

  unfoldable pub is_configured : State → Bool
  is_configured configured = true
  is_configured _ = false

  unfoldable pub is_running : State → Bool
  is_running running = true
  is_running _ = false

  -- Manager.Status after localStatus.
  unfoldable pub complete : Status → World → Status
  unfolding is_configured is_running
  complete st w =
      if not (is_configured st.state) || not (is_filled st.tunnel_id)
      then if is_running st.state && is_filled st.tunnel_id
        then fill_connections (os.connectivity w.moment st.tunnel_id) st
        else st
      else ask_remote (os.connectivity w.moment st.tunnel_id) st

  -- Manager.Status.
  unfoldable pub status : World → Status × World
  unfolding complete
  status w =
      let after = local_status w in
      (complete after.0 after.1, record after.1 { moment = suc after.1.moment })
