-- ===== src/Port.antt =====
-- The ports of artnet/private.h, and what artnet/receive.c does to one output port: writing its
-- output, buffering it for ArtSync, and merging two sources.
-- An address is the number in `s_addr`, 0 for none. A buffer of 512 bytes is a list of numbers.
pub mod Dmx
pub mod Bounds
pub mod Merge
pub mod Sources
pub mod Sync
pub mod Stale
mod Tests
use libartnet.Base.{ℕ, zero, suc, ◌-◌, min, max, Bool, true, false, ◌&&◌, not, List, [], ◌∷◌, ◌++◌}
use libartnet.Base.{bit_and, bit_or, memcpy, replicate, if◌then◌else◌, ◌==◌, leb}
use libartnet.Tod.{Tod}
use libartnet.Time.{is_older, merge_timeout_ms}

abbrev pub artnet_dmx_length : ℕ
artnet_dmx_length = 512

-- `merge_t`
pub data MergeMode : Type 0 where
  htp ltp : MergeMode

-- `PORT_STATUS_…` of artnet/artnet.c. A bit of the uint8_t is set by `|` and cleared by `&` with
-- the other seven.
abbrev pub port_status_lpt_mode : ℕ
port_status_lpt_mode = 0x02

abbrev pub port_status_merge : ℕ
port_status_merge = 0x08

abbrev pub port_status_input_disabled : ℕ
port_status_input_disabled = 0x08

abbrev pub port_status_dmx_text : ℕ
port_status_dmx_text = 0x10

abbrev pub port_status_dmx_sip : ℕ
port_status_dmx_sip = 0x20

abbrev pub port_status_dmx_test : ℕ
port_status_dmx_test = 0x40

abbrev pub port_status_act_mask : ℕ
port_status_act_mask = 0x80

-- `status & mask` as a C condition
unfoldable pub has_bit : ℕ → ℕ → Bool
has_bit status mask = not (bit_and status mask == 0)

-- `status & ~mask`, for a uint8_t
unfoldable pub clear_bit : ℕ → ℕ → ℕ
clear_bit status mask = bit_and status (255 - mask)

-- `input_port_t`, with the fields of its `g_port_t` under the names of the `port_…` macros
pub record InputPort : Type 0 where
  pub port_addr : ℕ
  pub port_default_addr : ℕ
  pub port_net_ctl : Bool
  pub port_status : ℕ
  pub port_enabled : Bool
  pub port_tod : Tod
  pub seq : ℕ
  pub last_dmx_data : List ℕ
  pub last_dmx_length : ℕ
  pub last_dmx_send_time : ℕ

-- `output_port_t`; its own field `enabled` is used nowhere
pub record OutputPort : Type 0 where
  pub port_addr : ℕ
  pub port_default_addr : ℕ
  pub port_net_ctl : Bool
  pub port_status : ℕ
  pub port_enabled : Bool
  pub port_tod : Tod
  pub length : ℕ
  pub buffer : List ℕ
  pub merge_mode : MergeMode
  pub proto_sel : ℕ
  pub output_style : ℕ
  pub rdm_enabled : ℕ
  pub data_a : List ℕ
  pub data_b : List ℕ
  pub physical_a : ℕ
  pub physical_b : ℕ
  pub time_a : ℕ
  pub time_b : ℕ
  pub last_dmx_time : ℕ
  pub failsafe_triggered : Bool
  pub failsafe_data : List ℕ
  pub failsafe_length : ℕ
  pub nzs_start_code : ℕ
  pub sync_data : List ℕ
  pub sync_length : ℕ
  pub sync_pending : Bool
  pub cancel_merge_pending : Bool
  pub last_dmx_source : ℕ
  pub ip_a : ℕ
  pub ip_b : ℕ

-- What leaves a node: a call of the dmx callback for an output port, and `artnet_tx_poll_reply`.
pub data Event : Type 0 where
  dmx_called : ℕ → Event
  poll_reply : Event

-- What an operation on a port reads of its node: the clock, `state.sync_mode`,
-- `state.send_apr_on_change`, and whether a dmx callback is set.
pub record Env : Type 0 where
  pub now : ℕ
  pub sync_mode : Bool
  pub send_apr_on_change : Bool
  pub dmx_c : Bool

abbrev pub when : Bool → Event → List Event
when b e = if b then e ∷ [] else []

-- `commit_output_data`. A length is never negative here, so its guard against that has no case.
unfoldable pub commit_output_data : OutputPort → List ℕ → ℕ → OutputPort
commit_output_data port src len =
    let copy_length = min len artnet_dmx_length in
    record port { buffer = memcpy port.buffer src copy_length; length = copy_length }

-- `stage_output_data`
unfoldable pub stage_output_data : Bool → OutputPort → List ℕ → ℕ → OutputPort
stage_output_data sync_mode port src len =
    let copy_length = min len artnet_dmx_length in
    if sync_mode
    then record port {
      sync_data = memcpy port.sync_data src copy_length;
      sync_length = copy_length;
      sync_pending = true;
    }
    else commit_output_data port src copy_length

-- `flush_sync_output`
unfoldable pub flush_sync_output : Bool → ℕ → OutputPort → OutputPort × List Event
flush_sync_output dmx_c port_id port =
    if port.sync_pending
    then (
      record (commit_output_data port port.sync_data port.sync_length) { sync_pending = false },
      when dmx_c (dmx_called port_id),
    )
    else (port, [])

-- The loop of `merge` in HTP mode: the higher value of the first `n` slots.
unfoldable pub htp_merge : ℕ → List ℕ → List ℕ → List ℕ → List ℕ
htp_merge zero out a b = out
htp_merge (suc n) [] a b = []
htp_merge (suc n) (o ∷ out) [] b = o ∷ out
htp_merge (suc n) (o ∷ out) (x ∷ a) [] = o ∷ out
htp_merge (suc n) (o ∷ out) (x ∷ a) (y ∷ b) = max x y ∷ htp_merge n out a b

pub merged_data : MergeMode → OutputPort → ℕ → List ℕ → List ℕ
merged_data htp port len latest = htp_merge len port.sync_data port.data_a port.data_b
merged_data ltp port len latest = memcpy port.sync_data latest len

-- The merged values go to the buffer that ArtSync flushes.
unfoldable pub stage_merged : OutputPort → ℕ → List ℕ → OutputPort
unfolding merged_data
stage_merged port len latest = record port {
  sync_data = merged_data port.merge_mode port len latest;
  sync_length = len;
  sync_pending = true;
}

-- `merge`
unfoldable pub merge : Env → ℕ → OutputPort → ℕ → List ℕ → OutputPort × List Event
merge env port_id port len latest =
    let staged = stage_merged port len latest in
    if env.sync_mode then (staged, []) else flush_sync_output env.dmx_c port_id staged

-- `(port_status & PORT_STATUS_MERGE) && ipA && ipB`
unfoldable pub is_merging : OutputPort → Bool
is_merging port =
    has_bit port.port_status port_status_merge && not (port.ip_a == 0) && not (port.ip_b == 0)

-- The two timeouts of `check_merge_timeouts`, with what it clears.
unfoldable pub expire_sources : ℕ → OutputPort → OutputPort
expire_sources now port = record port {
  ip_a = if is_older now port.time_a merge_timeout_ms then 0 else port.ip_a;
  ip_b = if is_older now port.time_b merge_timeout_ms then 0 else port.ip_b;
}

-- `check_merge_timeouts`
unfoldable pub check_merge_timeouts : Env → OutputPort → OutputPort × List Event
check_merge_timeouts env port =
    let left = expire_sources env.now port in
    if is_merging port && not (not (left.ip_a == 0) && not (left.ip_b == 0))
    then (
      record left { port_status = clear_bit port.port_status port_status_merge },
      when env.send_apr_on_change poll_reply,
    )
    else (left, [])
