-- ===== src/Port/Tests.antt =====
-- An output port with two sources, and packets for it.
use libartnet.Base.{ℕ, ◌≡◌, refl, arith, true, false, none, replicate, get_or, max}
use libartnet.Port.{OutputPort, Env, htp, has_bit, port_status_merge}
use libartnet.Port.Dmx.{DmxPacket, dmx_port}
use libartnet.Port.Bounds.{IsValid, IsPacket}
use libartnet.Port.Merge.{combine}
use libartnet.Port.Sources.{IsLive, dmx_port_merges_a}
use libartnet.Port.Sources.{dmx_port_discards_third}
use libartnet.Time.{is_older, merge_timeout_ms}
use libartnet.Port.Stale.{dmx_port_takeover_stale}

abbrev idle_port : OutputPort
idle_port = record {
  port_addr = 1;
  port_default_addr = 1;
  port_net_ctl = false;
  port_status = 0;
  port_enabled = true;
  port_tod = record { block = none; length = 0; max_length = 0 };
  length = 0;
  buffer = replicate 512 0;
  merge_mode = htp;
  proto_sel = 0;
  output_style = 0;
  rdm_enabled = 0;
  data_a = replicate 512 40;
  data_b = replicate 512 60;
  physical_a = 0;
  physical_b = 0;
  time_a = 0;
  time_b = 0;
  last_dmx_time = 0;
  failsafe_triggered = false;
  failsafe_data = replicate 512 0;
  failsafe_length = 0;
  nzs_start_code = 0;
  sync_data = replicate 512 9;
  sync_length = 8;
  sync_pending = true;
  cancel_merge_pending = false;
  last_dmx_source = 0;
  ip_a = 0;
  ip_b = 0;
}

abbrev merging_port : OutputPort
merging_port = record idle_port {
  ip_a = 10;
  ip_b = 20;
  time_a = 5000;
  time_b = 5000;
  port_status = 0x88;
}

abbrev silent_port : OutputPort
silent_port = record idle_port { ip_a = 10; time_a = 5000 }

abbrev env_at : ℕ → Env
env_at now = record { now = now; sync_mode = false; send_apr_on_change = false; dmx_c = true }

abbrev packet_from : ℕ → DmxPacket
packet_from source = record {
  source = source;
  physical = 0;
  slots = replicate 512 50;
  data_length = 8;
}

packet_from-IsPacket : (source : ℕ) → IsPacket (packet_from source)
packet_from-IsPacket source = record { slots_size = refl; length_fits = omega arith }

idle_port-IsValid : IsValid idle_port
idle_port-IsValid = record {
  size = refl;
  size_a = refl;
  size_b = refl;
  sync_size = refl;
  failsafe_size = refl;
  fits = omega arith;
  sync_fits = omega arith;
  failsafe_fits = omega arith;
}

merging_port-IsValid : IsValid merging_port
merging_port-IsValid = record {
  size = refl;
  size_a = refl;
  size_b = refl;
  sync_size = refl;
  failsafe_size = refl;
  fits = omega arith;
  sync_fits = omega arith;
  failsafe_fits = omega arith;
}

silent_port-IsValid : IsValid silent_port
silent_port-IsValid = record {
  size = refl;
  size_a = refl;
  size_b = refl;
  sync_size = refl;
  failsafe_size = refl;
  fits = omega arith;
  sync_fits = omega arith;
  failsafe_fits = omega arith;
}

merging_port-IsLive : IsLive (env_at 6000) merging_port
unfolding is_older
merging_port-IsLive = record { live_a = refl; live_b = refl }

merges_a_example :
    let after = (dmx_port (env_at 6000) (packet_from 10) 0 merging_port).0 in
    (get_or after.buffer 3 0
      ≡ combine htp (get_or (packet_from 10).slots 3 0) (get_or merging_port.data_b 3 0))
    × (after.length ≡ 8)
merges_a_example =
    dmx_port_merges_a (env_at 6000) (packet_from 10) 0 3 merging_port (packet_from-IsPacket 10)
      merging_port-IsValid refl refl merging_port-IsLive
      (record {
        address_a = refl;
        physical_a = refl;
        known = omega arith;
        b_there = omega arith;
        b_other = omega arith;
      })
      (omega arith)

third_example :
    let after = (dmx_port (env_at 6000) (packet_from 30) 0 merging_port).0 in
    (after.buffer ≡ merging_port.buffer)
    × (after.length ≡ merging_port.length)
    × (after.sync_data ≡ merging_port.sync_data)
    × (after.sync_pending ≡ merging_port.sync_pending)
    × (after.data_a ≡ merging_port.data_a)
    × (after.data_b ≡ merging_port.data_b)
third_example = dmx_port_discards_third (env_at 6000) (packet_from 30) 0 merging_port refl (record {
  a_there = omega arith;
  b_there = omega arith;
  not_a = omega arith;
  not_b = omega arith;
})

is_silent : is_older 90000 5000 merge_timeout_ms ≡ true
unfolding is_older
is_silent = refl

takeover_example :
    let after = (dmx_port (env_at 90000) (packet_from 30) 0 silent_port).0 in
    (after.ip_a ≡ 0)
    × (after.ip_b ≡ 30)
    × (get_or after.buffer 3 0
        ≡ max (get_or (packet_from 30).slots 3 0) (get_or silent_port.data_a 3 0))
    × (has_bit after.port_status port_status_merge ≡ true)
takeover_example =
    dmx_port_takeover_stale (env_at 90000) (packet_from 30) 0 3 silent_port
      (packet_from-IsPacket 30) silent_port-IsValid refl refl refl (omega arith)
      (record { old = is_silent; a_stored = omega arith; a_other = omega arith; b_empty = refl })
      (omega arith)
