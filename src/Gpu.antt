-- ===== src/Gpu.antt =====
-- `GpuMonitor` of src/gpu.cpp and include/gpu.hpp. /sys, /proc/<pid>/fdinfo and the steady clock, in
-- nanoseconds, are arguments of the operations.
pub mod Clients
pub mod Usage
pub mod Order
pub mod Shuffled
mod Tests
unfoldable pub use Clients.*
use smooth_demon.Prelude.{
  ℕ, zero, suc, ◌+◌, ◌-◌, ◌/◌, ◌^◌, Bool, true, false, not, ◌&&◌, ◌||◌, List, [], ◌∷◌, ◌++◌, Option,
  none, some, ltb, leb, ◌==◌, if◌then◌else◌, length, drop,
}
use smooth_demon.Prelude.Int.{ℤ, eq_ℤ}
use smooth_demon.Prelude.Words.{sub64}
use smooth_demon.Double.{Double, clamp}
use smooth_demon.Text.{Text, File, codes, starts_with, is_digit, is_empty}
use smooth_demon.Text.Number.{extract_u64}

pub record GpuMetrics (F : Type 0) : Type 0 where
  pub cur_freq_mhz : ℕ
  pub act_freq_mhz : ℕ
  pub min_freq_mhz : ℕ
  pub max_freq_mhz : ℕ
  pub activity_percent : F
  pub process_render_percent : F
  pub process_copy_percent : F
  pub shared_mem_kib : ℕ
  pub is_available : Bool

pub record ProcessGpuState : Type 0 where
  pub prev_render_ns : ℕ
  pub prev_copy_ns : ℕ
  pub prev_time : ℕ
  pub first_sample : Bool

pub record GpuMonitor (F : Type 0) : Type 0 where
  pub drm_card_path : Text
  pub prev_rc6_ms : ℕ
  pub prev_rc6_time : ℕ
  pub first_sample : Bool
  pub metrics : GpuMetrics F
  pub process_states : List (ℤ × ProcessGpuState)

-- `read_sysfs_u64`
pub read_sysfs_u64 : File → ℕ
read_sysfs_u64 none = 0
read_sysfs_u64 (some text) = elim (extract_u64 text) [ none ↦ 0 | some v ↦ v.0 ]

-- `read_sysfs_u32`
pub read_sysfs_u32 : File → ℕ
unfolding read_sysfs_u64
read_sysfs_u32 file = let v = read_sysfs_u64 file in if ltb (2 ^ 32 - 1) v then 2 ^ 32 - 1 else v

-- "card" and at least one more byte, all of them digits.
all_digits : Text → Bool
all_digits [] = true
all_digits (c ∷ s) = is_digit c && all_digits s

pub is_card : Text → Bool
unfolding all_digits
is_card name =
    not (ltb (length name) 5) && (starts_with (codes "card") name && all_digits (drop 4 name))

-- The path of the first card with a current frequency.
pub find_card : (Text → Bool) → List Text → Text
unfolding is_card
find_card exists [] = []
find_card exists (name ∷ names) =
    let rest = find_card exists names in
    let path = codes "/sys/class/drm/" ++ name in
    if is_card name && exists (path ++ codes "/gt_cur_freq_mhz") then path else rest

card_of : (Text → Bool) → Option (List Text) → Text
unfolding find_card
card_of exists none = []
card_of exists (some names) = find_card exists names

-- A process without a state has a new one.
pub state_of : ℤ → List (ℤ × ProcessGpuState) → ProcessGpuState
state_of pid [] = record {
  prev_render_ns = 0;
  prev_copy_ns = 0;
  prev_time = 0;
  first_sample = true;
}
state_of pid (e ∷ es) = let rest = state_of pid es in if eq_ℤ pid e.0 then e.1 else rest

pub set_state : ℤ → ProcessGpuState → List (ℤ × ProcessGpuState) → List (ℤ × ProcessGpuState)
set_state pid s [] = (pid, s) ∷ []
set_state pid s (e ∷ es) =
    let rest = set_state pid s es in if eq_ℤ pid e.0 then (pid, s) ∷ es else e ∷ rest

-- The result and the two output arguments, and the monitor.
pub record ProcessSample (F : Type 0) : Type 0 where
  pub done : Bool
  pub out_render_pct : F
  pub out_copy_pct : F
  pub monitor : GpuMonitor F

module _ {F : Type 0} ⦃d : Double F⦄ where
  open d use {of_ℕ, literal, neg, sub, mul, div, lt}

  pub no_metrics : GpuMetrics F
  no_metrics = record {
    cur_freq_mhz = 0;
    act_freq_mhz = 0;
    min_freq_mhz = 0;
    max_freq_mhz = 0;
    activity_percent = of_ℕ 0;
    process_render_percent = of_ℕ 0;
    process_copy_percent = of_ℕ 0;
    shared_mem_kib = 0;
    is_available = false;
  }

  -- A difference of clock values over a unit of so many nanoseconds, as a double.
  pub elapsed : ℕ → ℕ → ℕ → F
  elapsed unit prev now =
      div (if ltb now prev then neg (of_ℕ (prev - now)) else of_ℕ (now - prev)) (of_ℕ unit)

  -- `cards` holds the names in /sys/class/drm, none where it does not exist.
  pub initialize :
      (Text → File) → (Text → Bool) → Option (List Text) → GpuMonitor F → Bool × GpuMonitor F
  unfolding card_of no_metrics
  initialize files exists cards m =
      let path = card_of exists cards in
      let cleared = record m { drm_card_path = path; metrics = no_metrics; first_sample = true } in
      if is_empty path then (false, cleared) else (
        true,
        record cleared {
          metrics = record no_metrics {
            min_freq_mhz = read_sysfs_u32 (files (path ++ codes "/gt_min_freq_mhz"));
            max_freq_mhz = read_sysfs_u32 (files (path ++ codes "/gt_max_freq_mhz"));
            is_available = true;
          };
        },
      )

  -- The activity from the residency counter.
  pub account_rc6 : ℕ → ℕ → GpuMonitor F → GpuMonitor F
  unfolding elapsed
  account_rc6 rc6_ms now m =
      let dt_ms = elapsed (10 ^ 6) m.prev_rc6_time now in
      let active_ms = sub dt_ms (of_ℕ (sub64 rc6_ms m.prev_rc6_ms)) in
      if m.first_sample
      then record m {
        prev_rc6_ms = rc6_ms;
        prev_rc6_time = now;
        first_sample = false;
        metrics = record (m.metrics) { activity_percent = of_ℕ 0 };
      }
      else if lt (of_ℕ 1) dt_ms
      then record m {
        prev_rc6_ms = rc6_ms;
        prev_rc6_time = now;
        metrics = record (m.metrics) {
          activity_percent = clamp (mul (div active_ms dt_ms) (of_ℕ 100)) (of_ℕ 0) (of_ℕ 100);
        };
      }
      else m

  -- The frequencies and the memory.
  pub read_frequencies : (Text → File) → GpuMonitor F → GpuMonitor F
  read_frequencies files m =
      let cur = read_sysfs_u32 (files (m.drm_card_path ++ codes "/gt_cur_freq_mhz")) in
      let act = read_sysfs_u32 (files (m.drm_card_path ++ codes "/gt_act_freq_mhz")) in
      let used = read_sysfs_u64 (files (m.drm_card_path ++ codes "/device/mem_info_gtt_used")) in
      record m {
        metrics = record (m.metrics) {
          cur_freq_mhz = cur;
          act_freq_mhz = if act == 0 then cur else act;
          shared_mem_kib = used / 1024;
        };
      }

  -- The sample of a monitor that is available.
  pub sample_available : (Text → File) → ℕ → GpuMonitor F → Bool × GpuMonitor F
  unfolding account_rc6 read_frequencies
  sample_available files now m =
      let rc6_ms = read_sysfs_u64 (files (m.drm_card_path ++ codes "/power/rc6_residency_ms")) in
      (true, account_rc6 rc6_ms now (read_frequencies files m))

  pub sample :
      (Text → File) → (Text → Bool) → Option (List Text) → ℕ → GpuMonitor F → Bool × GpuMonitor F
  unfolding initialize sample_available
  sample files exists cards now m =
      if m.metrics.is_available
      then sample_available files now m
      else (let (found, m') = initialize files exists cards m in
          if found then sample_available files now m' else (false, m'))

  -- A share of the time since the last sample, in percent.
  abbrev share : ℕ → F → F
  share delta dt =
      clamp (mul (div (div (of_ℕ delta) (of_ℕ (10 ^ 9))) dt) (of_ℕ 100)) (of_ℕ 0) (of_ℕ 100)

  -- A call that gives no shares.
  abbrev pub without_shares : Bool → GpuMonitor F → ProcessSample F
  without_shares done m = record {
    done = done;
    out_render_pct = of_ℕ 0;
    out_copy_pct = of_ℕ 0;
    monitor = m;
  }

  -- The state of the process with the new totals.
  abbrev pub store_totals : ℤ → ℕ → ℕ → ℕ → GpuMonitor F → GpuMonitor F
  store_totals pid render copy now m = record m {
    process_states =
        set_state pid
          (record {
            prev_render_ns = render;
            prev_copy_ns = copy;
            prev_time = now;
            first_sample = false;
          })
          m.process_states;
  }

  -- The code behind the sums over the clients.
  pub account_process : ℤ → ℕ → ℕ → ℕ → GpuMonitor F → ProcessSample F
  unfolding elapsed state_of set_state
  account_process pid render copy now m =
      let s = state_of pid m.process_states in
      let dt = elapsed (10 ^ 9) s.prev_time now in
      if s.first_sample
      then without_shares true (store_totals pid render copy now m)
      else if lt (literal 1 3) dt
      then record {
        done = true;
        out_render_pct = share (sub64 render s.prev_render_ns) dt;
        out_copy_pct = share (sub64 copy s.prev_copy_ns) dt;
        monitor = store_totals pid render copy now m;
      }
      else without_shares true (record m { process_states = set_state pid s m.process_states })

  -- `fdinfo` holds the descriptors of the process, none where they cannot be listed.
  pub sample_process_gpu : ℤ → Option (List (Text × File)) → ℕ → GpuMonitor F → ProcessSample F
  unfolding account_process
  sample_process_gpu pid none now m = without_shares false m
  sample_process_gpu pid (some fds) now m = elim (collect_clients fds []) [
    | [] ↦ without_shares false m
    | c ∷ cs ↦ account_process pid (total_render (c ∷ cs)) (total_copy (c ∷ cs)) now m
  ]
