-- ===== src/Cpu/Delta.antt =====
-- Differences of tick counters, and the percentages.
use smooth_demon.Prelude.{ℕ, true, ◌^◌, ◌<◌, ◌≡◌, arith, ◌==◌, Bool-cases, inl, inr}
use smooth_demon.Prelude.Words.{sub64}
use smooth_demon.Double.{Double, IsOrdered, clamp}
use smooth_demon.Double.Percent.{
  IsArithmetic, IsPercent, zero-IsPercent, clamp-IsPercent, hundredfold-number,
}
use smooth_demon.Cpu.{
  CpuSample, CpuMetrics, get_total_ticks, calculate_delta, calculate_metrics, no_metrics, clamp_pct,
}

-- Every counter is a 64-bit word.
pub record IsWord (s : CpuSample) : Type 0 where
  pub user_lt : s.user < 2 ^ 64
  pub nice_lt : s.nice < 2 ^ 64
  pub system_lt : s.system < 2 ^ 64
  pub idle_lt : s.idle < 2 ^ 64
  pub iowait_lt : s.iowait < 2 ^ 64
  pub irq_lt : s.irq < 2 ^ 64
  pub softirq_lt : s.softirq < 2 ^ 64
  pub steal_lt : s.steal < 2 ^ 64

-- The total of the differences is the difference of the totals, modulo 2^64: it stays right when
-- counters or their sum wrap round between two samples.
pub total_of_delta :
    (prev curr : CpuSample)
    → IsWord prev
    → IsWord curr
    → get_total_ticks (calculate_delta prev curr)
      ≡ sub64 (get_total_ticks curr) (get_total_ticks prev)
unfolding get_total_ticks calculate_delta
total_of_delta prev curr p c = omega arith

-- A difference of samples is a sample of words.
pub calculate_delta-IsWord : (prev curr : CpuSample) → IsWord (calculate_delta prev curr)
unfolding calculate_delta
calculate_delta-IsWord prev curr = record {
  user_lt = omega arith;
  nice_lt = omega arith;
  system_lt = omega arith;
  idle_lt = omega arith;
  iowait_lt = omega arith;
  irq_lt = omega arith;
  softirq_lt = omega arith;
  steal_lt = omega arith;
}

get_total_ticks_lt : (s : CpuSample) → get_total_ticks s < 2 ^ 64
unfolding get_total_ticks
get_total_ticks_lt s = omega arith

module _ {F : Type 0} ⦃d : Double F⦄ (laws : IsOrdered F) where
  -- Every percentage is a number from 0 to 100, not NaN.
  pub record InRange (m : CpuMetrics F) : Type 0 where
    pub total_in : IsPercent laws m.total_percent
    pub user_in : IsPercent laws m.user_percent
    pub system_in : IsPercent laws m.system_percent
    pub iowait_in : IsPercent laws m.iowait_percent

  module _ (rules : IsArithmetic F laws) where
    clamp_pct-IsPercent : (v : F) → laws.is_number v ≡ true → IsPercent laws (clamp_pct v)
    unfolding clamp_pct clamp
    clamp_pct-IsPercent v num = clamp-IsPercent laws rules v num

    pub no_metrics-InRange : InRange no_metrics
    no_metrics-InRange =
        let zero = zero-IsPercent laws rules in
        record { total_in = zero; user_in = zero; system_in = zero; iowait_in = zero }

    -- The busy part of a total that is not 0.
    busy_number :
        (idle total : ℕ)
        → idle < 2 ^ 64
        → 0 < total
        → total < 2 ^ 64
        → laws.is_number
            (d.mul (d.sub (d.of_ℕ 1) (d.div (d.of_ℕ idle) (d.of_ℕ total))) (d.of_ℕ 100))
          ≡ true
    busy_number idle total h pos_total k = hundredfold-number laws rules _ (
        rules.sub-number (d.of_ℕ 1) (d.div (d.of_ℕ idle) (d.of_ℕ total))
          (rules.of_ℕ-finite 1 (omega arith)) (rules.quotient-finite idle total h pos_total k))

    part_number :
        (part total : ℕ)
        → part < 2 ^ 64
        → 0 < total
        → total < 2 ^ 64
        → laws.is_number (d.mul (d.of_ℕ part) (d.div (d.of_ℕ 100) (d.of_ℕ total))) ≡ true
    part_number part total h pos_total k =
        rules.mul-number (d.of_ℕ part) (d.div (d.of_ℕ 100) (d.of_ℕ total))
          (rules.of_ℕ-finite part h) (rules.quotient-finite 100 total (omega arith) pos_total k)

    -- For differences that are 64-bit words, every percentage is a number, not NaN, from 0 to 100,
    -- whatever the counters did.
    pub calculate_metrics-InRange :
        (delta : CpuSample) → IsWord delta → InRange (calculate_metrics delta)
    unfolding calculate_metrics
    calculate_metrics-InRange delta w =
        let total = get_total_ticks delta in
        let small = get_total_ticks_lt delta in
        elim (Bool-cases (total == 0)) [
          | inl idle ↦ rw idle no_metrics-InRange
          | inr busy ↦
              let above : 0 < total = ground (arith, busy) in
              rw busy (record {
                total_in = clamp_pct-IsPercent _ (busy_number _ total (omega arith) above small);
                user_in = clamp_pct-IsPercent _ (part_number _ total w.user_lt above small);
                system_in = clamp_pct-IsPercent _ (part_number _ total w.system_lt above small);
                iowait_in = clamp_pct-IsPercent _ (part_number _ total w.iowait_lt above small);
              })
        ]
