-- ===== src/Gpu/Usage.antt =====
-- The usage of the graphics device by a process: each client counts once, and shares are in range.
use smooth_demon.Prelude.{
  ℕ, ◌+◌, ◌^◌, ◌<◌, ◌≡◌, Bool-cases, inl, inr, sym, Bool, true, false, List, [], ◌∷◌, Option, none,
  some, arith, max, ◌==◌, if◌then◌else◌,
}
use smooth_demon.Prelude.Int.{ℤ}
use smooth_demon.Double.{Double, IsOrdered}
use smooth_demon.Double.Percent.{
  IsArithmetic, IsPercent, zero-IsPercent, clamp-IsPercent, hundredfold-number,
}
use smooth_demon.Text.{Text, File}
use smooth_demon.Gpu.{
  FdInfo, larger, set_state, store_totals, ClientMap, raise, merge, state_of, GpuMonitor,
  ProcessSample, collect_clients, total_render, total_copy, without_shares, sample_process_gpu,
  account_process, elapsed,
}

-- What the list holds for a client, 0 where it does not stand in the list.
unfoldable pub render_of : ℕ → ClientMap → ℕ
render_of id [] = 0
render_of id (c ∷ cs) = let rest = render_of id cs in if c.0 == id then c.1.render_ns else rest

unfoldable pub copy_of : ℕ → ClientMap → ℕ
copy_of id [] = 0
copy_of id (c ∷ cs) = let rest = copy_of id cs in if c.0 == id then c.1.copy_ns else rest

-- How often a client stands in the list.
unfoldable pub count_of : ℕ → ClientMap → ℕ
count_of id [] = 0
count_of id (c ∷ cs) = if c.0 == id then count_of id cs + 1 else count_of id cs

larger-max : (a b : ℕ) → larger a b ≡ max a b
unfolding larger
larger-max a b = ground arith

pub render_of-merge :
    (i : FdInfo) (cs : ClientMap) (id : ℕ)
    → render_of id (merge i cs)
      ≡ (if i.client_id == id then larger (render_of id cs) i.render_ns else render_of id cs)
unfolding merge raise render_of
render_of-merge i [] id = ground arith
render_of-merge i (c ∷ cs) id = ground (arith, render_of-merge i cs id)

pub copy_of-merge :
    (i : FdInfo) (cs : ClientMap) (id : ℕ)
    → copy_of id (merge i cs)
      ≡ (if i.client_id == id then larger (copy_of id cs) i.copy_ns else copy_of id cs)
unfolding merge raise copy_of
copy_of-merge i [] id = ground arith
copy_of-merge i (c ∷ cs) id = ground (arith, copy_of-merge i cs id)

count_of-merge :
    (i : FdInfo) (cs : ClientMap) (id : ℕ)
    → count_of id (merge i cs)
      ≡ (if i.client_id == id then max (count_of id cs) 1 else count_of id cs)
unfolding merge raise count_of
count_of-merge i [] id = ground arith
count_of-merge i (c ∷ cs) id = ground (arith, count_of-merge i cs id)

-- A descriptor raises the entry of its client to the larger values, enters the client once if it is
-- new and adds no entry otherwise, and leaves every other client as it is.
pub merge-max :
    (i : FdInfo) (cs : ClientMap) (id : ℕ)
    → (render_of id (merge i cs)
        ≡ (if i.client_id == id then max (render_of id cs) i.render_ns else render_of id cs))
      × (copy_of id (merge i cs)
          ≡ (if i.client_id == id then max (copy_of id cs) i.copy_ns else copy_of id cs))
      × (count_of id (merge i cs)
          ≡ (if i.client_id == id then max (count_of id cs) 1 else count_of id cs))
merge-max i cs id =
    rw (sym (larger-max (render_of id cs) i.render_ns), sym (larger-max (copy_of id cs) i.copy_ns))
      (render_of-merge i cs id, copy_of-merge i cs id, count_of-merge i cs id)

module _ {F : Type 0} ⦃d : Double F⦄ (laws : IsOrdered F) where
  -- Both shares are numbers, not NaN, from 0 to 100.
  unfoldable pub SharesInRange : ProcessSample F → Type 0
  SharesInRange s = IsPercent laws s.out_render_pct × IsPercent laws s.out_copy_pct

  module _ (rules : IsArithmetic F laws) where
    without_shares-InRange :
        (done : Bool) (m : GpuMonitor F) → SharesInRange (without_shares done m)
    unfolding SharesInRange
    without_shares-InRange done m = (zero-IsPercent laws rules, zero-IsPercent laws rules)

    -- A time of nanoseconds by a period above 0, in percent.
    share_number :
        (delta : ℕ) (dt : F)
        → delta < 2 ^ 64
        → d.lt (d.of_ℕ 0) dt ≡ true
        → laws.is_number (d.mul (d.div (d.div (d.of_ℕ delta) (d.of_ℕ (10 ^ 9))) dt) (d.of_ℕ 100))
          ≡ true
    share_number delta dt small above = hundredfold-number laws rules _ (
        rules.div-number (d.div (d.of_ℕ delta) (d.of_ℕ (10 ^ 9))) dt
          (rules.quotient-finite delta (10 ^ 9) small (omega arith) (omega arith)) above)

    account_process-InRange :
        (pid : ℤ) (render copy now : ℕ) (m : GpuMonitor F)
        → SharesInRange (account_process pid render copy now m)
    unfolding account_process SharesInRange
    account_process-InRange pid render copy now m =
        let s = state_of pid m.process_states in
        let dt : F = elapsed (10 ^ 9) s.prev_time now in
        elim (Bool-cases s.first_sample) [
          | inl first ↦ rw first (without_shares-InRange true (store_totals pid render copy now m))
          | inr known ↦ elim (Bool-cases (d.lt (d.literal 1 3) dt)) [
            | inl passed ↦
                let above : d.lt (d.of_ℕ 0) dt ≡ true =
                  laws.lt_trans (d.of_ℕ 0) (d.literal 1 3) dt rules.literal_positive passed in
                let share = λ (delta : ℕ) (small : delta < 2 ^ 64).
                  clamp-IsPercent laws rules _ (share_number delta dt small above) in
                rw (known, passed) (share _ (omega arith), share _ (omega arith))
            | inr short ↦
                rw (known, short)
                  (without_shares-InRange true
                    (record m { process_states = set_state pid s m.process_states }))
          ]
        ]

    -- Whatever the descriptors hold, both shares are numbers, not NaN, from 0 to 100.
    pub sample_process_gpu-InRange :
        (pid : ℤ) (fdinfo : Option (List (Text × File))) (now : ℕ) (m : GpuMonitor F)
        → SharesInRange (sample_process_gpu pid fdinfo now m)
    unfolding sample_process_gpu SharesInRange
    sample_process_gpu-InRange pid none now m = without_shares-InRange false m
    sample_process_gpu-InRange pid (some fds) now m =
        elim (collect_clients fds [])
          as (λ cs. SharesInRange (elim cs as (λ x. ProcessSample F) [
            | [] ↦ without_shares false m
            | c ∷ cs ↦ account_process pid (total_render (c ∷ cs)) (total_copy (c ∷ cs)) now m
          ])) [
            | [] ↦ without_shares-InRange false m
            | c ∷ cs ↦
                account_process-InRange pid (total_render (c ∷ cs)) (total_copy (c ∷ cs)) now m
          ]
