-- ===== src/SystemInfo/Cores/Count.antt =====
-- The count of physical cores is that of the distinct pairs of ids.
use smooth_demon.Prelude.{
  ℕ, ◌+◌, ◌^◌, ◌≤◌, ◌<◌, ◌≡◌, refl, ap, ◌∙◌, Bool, true, false, not, ◌&&◌, ◌||◌, List, [], ◌∷◌, map,
  some, ◌==◌, if◌then◌else◌, length, length-map, arith, All, All-append, Bool-cases, inl, inr,
}
use smooth_demon.Prelude.Int.{pos, negsuc}
use smooth_demon.Text.Lines.{unlines, OneLine, lines-unlines}
use smooth_demon.SystemInfo.Cores.{
  CoreSet, has_core, insert_core, Scan, flush, read_lines, start, parse_cpu_physical_cores,
}
use smooth_demon.SystemInfo.Cores.Written.{
  Processor, IsListed, block, cpuinfo_lines, read_lines-block, OneLine-block,
}

-- A processor with the same ids stands in the list.
unfoldable pub shares_core : Processor → List Processor → Bool
shares_core p [] = false
shares_core p (q ∷ qs) = (p.physical == q.physical && p.core == q.core) || shares_core p qs

-- The number of distinct pairs of ids.
unfoldable pub distinct_cores : List Processor → ℕ
unfolding shares_core
distinct_cores [] = 0
distinct_cores (p ∷ ps) = if shares_core p ps then distinct_cores ps else distinct_cores ps + 1

-- The pairs of ids of some processors.
abbrev ids : List Processor → CoreSet
ids = map (λ p. (pos p.physical, pos p.core))

has_core-ids :
    (p : Processor) (ps : List Processor)
    → has_core (pos p.physical) (pos p.core) (ids ps) ≡ shares_core p ps
unfolding has_core shares_core
has_core-ids p [] = refl
has_core-ids p (q ∷ qs) = ground (arith, has_core-ids p qs)

insert_core-ids :
    (p : Processor) (kept : List Processor)
    → insert_core (pos p.physical) (pos p.core) (ids kept)
      ≡ ids (if shares_core p kept then kept else p ∷ kept)
unfolding insert_core
insert_core-ids p kept = ground (arith, has_core-ids p kept)

read_lines_nil : (s : Scan) → read_lines [] s ≡ s
unfolding read_lines
read_lines_nil s = refl

-- The processors that a scan keeps, beside those kept before.
collect_new : List Processor → List Processor → List Processor
collect_new [] kept = kept
collect_new (p ∷ ps) kept = collect_new ps (if shares_core p kept then kept else p ∷ kept)

-- How many processors have ids that neither stand in `kept` nor come again.
fresh : List Processor → List Processor → ℕ
fresh [] kept = 0
fresh (p ∷ ps) kept =
    if shares_core p ps || shares_core p kept then fresh ps kept else fresh ps kept + 1

shares_core-same :
    (p q : Processor) (ps : List Processor)
    → (p.physical == q.physical && p.core == q.core) ≡ true
    → shares_core p ps ≡ shares_core q ps
unfolding shares_core
shares_core-same p q [] h = refl
shares_core-same p q (r ∷ rs) h = ground (arith, shares_core-same p q rs h)

fresh-cons :
    (x : Processor) (ps kept : List Processor)
    → fresh ps kept
      ≡ fresh ps (x ∷ kept) + (if shares_core x ps && not (shares_core x kept) then 1 else 0)
unfolding fresh shares_core
fresh-cons x [] kept = omega arith
fresh-cons x (p ∷ ps) kept =
    ground (arith, fresh-cons x ps kept, shares_core-same p x ps, shares_core-same p x kept)

length-collect_new :
    (ps kept : List Processor) → length (collect_new ps kept) ≡ length kept + fresh ps kept
unfolding collect_new fresh
length-collect_new [] kept = omega arith
length-collect_new (p ∷ ps) kept = elim (Bool-cases (shares_core p kept)) [
  | inl known ↦ rw known (ground (arith, length-collect_new ps kept))
  | inr new ↦ rw new (ground (arith, length-collect_new ps (p ∷ kept), fresh-cons p ps kept))
]

fresh-distinct_cores : (ps : List Processor) → fresh ps [] ≡ distinct_cores ps
unfolding fresh distinct_cores shares_core
fresh-distinct_cores [] = refl
fresh-distinct_cores (p ∷ ps) = ground (arith, fresh-distinct_cores ps)

-- The variables between two processors.
abbrev between : List Processor → Scan
between kept = record { cores = ids kept; physical_id = negsuc 0; core_id = negsuc 0 }

read_lines-cpuinfo_lines :
    (ps kept : List Processor)
    → All IsListed ps
    → read_lines (cpuinfo_lines ps) (between kept) ≡ between (collect_new ps kept)
unfolding cpuinfo_lines collect_new
read_lines-cpuinfo_lines [] kept h = read_lines_nil (between kept)
read_lines-cpuinfo_lines (p ∷ ps) kept h =
    read_lines-block p (cpuinfo_lines ps) (ids kept) h.0
    ∙ ap (λ cores. read_lines (cpuinfo_lines ps) (record start { cores = cores }))
        (insert_core-ids p kept)
    ∙ read_lines-cpuinfo_lines ps (if shares_core p kept then kept else p ∷ kept) h.1

length-flush-between : (kept : List Processor) → length (flush (between kept)).cores ≡ length kept
unfolding flush
length-flush-between kept = length-map kept _

distinct_cores-le : (ps : List Processor) → distinct_cores ps ≤ length ps
unfolding distinct_cores
distinct_cores-le [] = omega arith
distinct_cores-le (p ∷ ps) = ground (arith, distinct_cores-le ps)

OneLine-cpuinfo_lines : (ps : List Processor) → All IsListed ps → All OneLine (cpuinfo_lines ps)
unfolding cpuinfo_lines
OneLine-cpuinfo_lines [] h = tt
OneLine-cpuinfo_lines (p ∷ ps) h =
    All-append OneLine (block p) (cpuinfo_lines ps) (OneLine-block p h.0)
      (OneLine-cpuinfo_lines ps h.1)

-- For a /proc/cpuinfo of fewer than 2^32 processors, each with its physical id, then its core id,
-- both in the range of `int`, and a blank line at the end, and with any other lines that are not
-- blank before, between and behind the two, the number of physical cores is that of the distinct
-- pairs of ids.
pub parse_cpu_physical_cores-distinct :
    (ps : List Processor)
    → length ps < 2 ^ 32
    → All IsListed ps
    → parse_cpu_physical_cores (some (unlines (cpuinfo_lines ps))) ≡ distinct_cores ps
unfolding parse_cpu_physical_cores
parse_cpu_physical_cores-distinct ps few listed =
    rw
      (
        lines-unlines (cpuinfo_lines ps) (OneLine-cpuinfo_lines ps listed),
        read_lines-cpuinfo_lines ps [] listed,
        length-flush-between (collect_new ps []),
      )
      (omega (arith, length-collect_new ps [], fresh-distinct_cores ps, distinct_cores-le ps))
