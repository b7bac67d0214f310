-- ===== src/Ctcp/Samples.antt =====
-- A platform and a new connection.
use mini_internet_computer_n.Base.{◌/◌, false}
use mini_internet_computer_n.Bbr.{Bbr, bbr_probe_bw}
use mini_internet_computer_n.Ctcp.State.{CtcpConfig, CtcpState}
use mini_internet_computer_n.Ctcp.Receive.{old_successor, Platform}
use mini_internet_computer_n.Ctcp.Timer.{ctcp_init}

abbrev pub client : Platform
client = record {
  floats = record { cwnd = λ r b g. 14400; pace = λ len g b. len / b; bdp = λ r b. 0 };
  is_server = false;
  junk = 0;
  pad = 0;
  lingers = λ i. old_successor;
}

abbrev pub raw : Bbr
raw = record {
  next_packet_send_time = 0;
  rtt_updated_stamp = 0;
  rtt_cnt = 0;
  min_rtt_filter_window = 0;
  curr_pacing_gain = 0;
  probe_bw_data = 0;
  probe_bw_pacing_idx = 0;
  rtt_prop = 0;
  btlbw = 1;
  min_rtt = 0;
  max_bw = 0;
  bw0 = 0;
  bw1 = 0;
  bw2 = 0;
  drain_round = 0;
  probe_rtt_round = 0;
  curr_cwnd = 0;
  inflight_data = 0;
  app_limited_until = 0;
  curr_bbr_mode = bbr_probe_bw;
}

abbrev pub config : CtcpConfig
config = record { recv_window = 1440; send_window = 1440; timer = 40; rt_timeout = 200 }

abbrev pub start : CtcpState
start = ctcp_init raw config 1000
