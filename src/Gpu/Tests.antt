-- ===== src/Gpu/Tests.antt =====
-- The usage of the graphics device at concrete inputs.
use mathlib.Core.List.{Permᴰ}
use smooth_demon.Prelude.{◌≡◌, refl, true, false, List, [], ◌∷◌, some, max}
use smooth_demon.Prelude.Int.{pos}
use smooth_demon.Double.Partial.{Partial, partial_double, Partial-IsOrdered, Partial-IsArithmetic}
use smooth_demon.Double.Fixed.{Fixed, fixed_double}
use smooth_demon.Text.{
  Text, File, codes, lines, starts_with, contains, after_first, is_empty, is_digit, is_space,
  skip_while,
}
use smooth_demon.Text.Decimal.{value_from}
use smooth_demon.Text.Number.{scan_u64, scan_number, take_while, take_sign}
use smooth_demon.Gpu.{
  FdInfo, ClientMap, merge, merge_fd, collect_clients, fd_lines, raise, larger, total_render,
  GpuMonitor, no_metrics, sample_process_gpu, is_card, all_digits,
}
use smooth_demon.Gpu.Shuffled.{sample_process_gpu-order}
use smooth_demon.Gpu.Usage.{
  render_of, copy_of, count_of, merge-max, SharesInRange, sample_process_gpu-InRange,
}

abbrev usage_text : Text
usage_text = codes "drm-driver:\ti915\ndrm-client-id:\t4\ndrm-engine-render:\t500 ns\n"

-- Two descriptors of one client.
abbrev descriptors : List (Text × File)
descriptors = (codes "3", some usage_text) ∷ (codes "4", some usage_text) ∷ []

counts_once : total_render (collect_clients descriptors []) ≡ 500
unfolding total_render collect_clients merge_fd merge fd_lines raise larger lines starts_with
    contains after_first is_empty is_digit is_space skip_while value_from scan_u64 scan_number
    take_while take_sign
counts_once = refl

knows_cards : is_card (codes "card1-DP-1") ≡ false
unfolding is_card all_digits starts_with is_digit
knows_cards = refl

abbrev info : FdInfo
info = record { client_id = 4; render_ns = 500; copy_ns = 2; has_client = true; is_i915 = true }

abbrev known : ClientMap
known = (4, record { render_ns = 300; copy_ns = 7 }) ∷ []

merge-max_example :
    (render_of 4 (merge info known) ≡ max (render_of 4 known) 500)
    × (copy_of 4 (merge info known) ≡ max (copy_of 4 known) 2)
    × (count_of 4 (merge info known) ≡ max (count_of 4 known) 1)
merge-max_example = merge-max info known 4

abbrev monitor : GpuMonitor Fixed
monitor = record {
  drm_card_path = [];
  prev_rc6_ms = 0;
  prev_rc6_time = 0;
  first_sample = true;
  metrics = no_metrics;
  process_states = [];
}

-- Process 7 has been sampled before, with values among which NaN is.
abbrev sampled_monitor : GpuMonitor Partial
sampled_monitor = record {
  drm_card_path = [];
  prev_rc6_ms = 0;
  prev_rc6_time = 0;
  first_sample = true;
  metrics = no_metrics;
  process_states =
      (
        pos 7,
        record { prev_render_ns = 100; prev_copy_ns = 0; prev_time = 5; first_sample = false },
      )
      ∷ [];
}

sample_process_gpu-InRange_example :
    SharesInRange Partial-IsOrdered
      (sample_process_gpu (pos 7) (some descriptors) 2_000_000_005 sampled_monitor)
sample_process_gpu-InRange_example =
    sample_process_gpu-InRange Partial-IsOrdered Partial-IsArithmetic (pos 7) (some descriptors)
      2_000_000_005 sampled_monitor

abbrev other_text : Text
other_text = codes "drm-driver:\txe\ndrm-client-id:\t9\ndrm-engine-copy:\t20 ns\n"

abbrev listed : List (Text × File)
listed = (codes "3", some usage_text) ∷ (codes "5", some other_text) ∷ []

abbrev listed_otherwise : List (Text × File)
listed_otherwise = (codes "5", some other_text) ∷ (codes "3", some usage_text) ∷ []

sample_process_gpu-order_example :
    sample_process_gpu (pos 7) (some listed) 10 monitor
    ≡ sample_process_gpu (pos 7) (some listed_otherwise) 10 monitor
sample_process_gpu-order_example =
    sample_process_gpu-order (pos 7) listed listed_otherwise 10 monitor ∣ Permᴰ.swap refl refl ∣₁
