-- ===== src/Bbr/Tests.antt =====
-- The congestion control on concrete states.
use mini_internet_computer_n.Base.{◌*◌, arith}
use mini_internet_computer_n.Bbr.{bbr_probe_bw, Bbr, bbr_update_model}
use mini_internet_computer_n.Bbr.Pacing.{PacesOk, bbr_update_model-PacesOk}

-- At the last gain of the table, with all data of the phase sent.
abbrev probing : Bbr
probing = record {
  next_packet_send_time = 0;
  rtt_updated_stamp = 0;
  rtt_cnt = 12;
  min_rtt_filter_window = 10000;
  curr_pacing_gain = 8;
  probe_bw_data = 3000;
  probe_bw_pacing_idx = 8;
  rtt_prop = 200;
  btlbw = 11520;
  min_rtt = 200;
  max_bw = 11520;
  bw0 = 100;
  bw1 = 100;
  bw2 = 100;
  drain_round = 3;
  probe_rtt_round = 0;
  curr_cwnd = 0;
  inflight_data = 0;
  app_limited_until = 0;
  curr_bbr_mode = bbr_probe_bw;
}

bbr_update_model-PacesOk_example : PacesOk (bbr_update_model (λ r b g. r * b) probing)
bbr_update_model-PacesOk_example = bbr_update_model-PacesOk (λ r b g. r * b) probing (omega arith)
