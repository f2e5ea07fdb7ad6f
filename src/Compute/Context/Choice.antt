-- ===== src/Compute/Context/Choice.antt =====
-- Which device is chosen.
use smooth_demon.Text.{codes, contains}
use smooth_demon.Prelude.{
  Option-cases, ◌∙◌, arith, ◌||◌, ◌≡◌, refl, sym, ap, ◌⊎◌, Bool, true, false, ◌&&◌, List, [], ◌∷◌,
  Option, none, some, if◌then◌else◌, Bool-cases, inl, inr,
}
use smooth_demon.Compute.Context.{
  ClPlatform, ClDevice, OpenClContext, is_intel, first_gpu, or_else, search_platforms,
  record_choice, find_intel_gpu_device, to_lower, query_string,
}

-- The name or the vendor has "intel" in it, in letters of any case.
unfoldable pub names_intel : ClPlatform → Bool
names_intel p =
    contains (codes "intel") (to_lower (query_string p.name_info))
    || contains (codes "intel") (to_lower (query_string p.vendor_info))

unfoldable pub has_gpu : ClPlatform → Bool
has_gpu p = elim p.gpus [ [] ↦ false | device ∷ devices ↦ true ]

-- The first platform that passes a test.
unfoldable pub first_with : (ClPlatform → Bool) → List ClPlatform → Option ClPlatform
first_with test [] = none
first_with test (p ∷ ps) = let rest = first_with test ps in if test p then some p else rest

-- The first Intel platform with a GPU, or else the first platform with one.
unfoldable pub preferred : List ClPlatform → Option ClPlatform
preferred ps = or_else (first_with (λ p. has_gpu p && names_intel p) ps) (first_with has_gpu ps)

-- The first GPU of the platform, and the context with the ids of both and the platform's name.
abbrev pub chosen : Option ClPlatform → OpenClContext → Option ClDevice × OpenClContext
chosen none ocl = (none, ocl)
chosen (some p) ocl = elim p.gpus [
  | [] ↦ (none, ocl)
  | device ∷ devices ↦ (
    some device,
    record ocl {
      platform = some p.platform_id;
      device = some device.device_id;
      platform_name = query_string p.name_info;
    },
  )
]

names_intel-eq : (p : ClPlatform) → is_intel p ≡ names_intel p
unfolding is_intel names_intel
names_intel-eq p = refl

-- The first GPU of a platform.
abbrev with_gpu : Option ClPlatform → Option (ClPlatform × ClDevice)
with_gpu none = none
with_gpu (some p) = first_gpu p

-- A platform has a GPU, or its first one is none.
first_gpu-cases :
    (p : ClPlatform)
    → ((has_gpu p ≡ false) × (first_gpu p ≡ none))
      ⊎ ((has_gpu p ≡ true) × ((device : ClDevice) × (first_gpu p ≡ some (p, device))))
unfolding has_gpu first_gpu
first_gpu-cases p = from_gpus p.gpus
  where
    from_gpus :
        (gpus : List ClDevice)
        → let found : Bool = elim gpus as (λ _. Bool) [ [] ↦ false | device ∷ devices ↦ true ] in
          let first : Option (ClPlatform × ClDevice) =
            elim gpus as (λ _. Option (ClPlatform × ClDevice)) [
              | [] ↦ none
              | device ∷ devices ↦ some (p, device)
            ] in
          ((found ≡ false) × (first ≡ none))
          ⊎ ((found ≡ true) × ((device : ClDevice) × (first ≡ some (p, device))))
    from_gpus [] = inl (refl, refl)
    from_gpus (device ∷ devices) = inr (refl, (device, refl))

or_else_assoc : {A : Type 0} (a b c : Option A) → or_else (or_else a b) c ≡ or_else a (or_else b c)
or_else_assoc none b c = refl
or_else_assoc (some a) b c = refl

or_else-none : {A : Type 0} (a : Option A) → or_else a none ≡ a
or_else-none none = refl
or_else-none (some a) = refl

search_platforms_lem :
    (ps : List ClPlatform) (fallback : Option (ClPlatform × ClDevice))
    → search_platforms ps fallback
      ≡ or_else
          (with_gpu (first_with (λ p. has_gpu p && names_intel p) ps))
          (or_else fallback (with_gpu (first_with has_gpu ps)))
unfolding search_platforms first_with
search_platforms_lem [] fallback = sym (or_else-none fallback)
search_platforms_lem (p ∷ ps) fallback =
    let ih = search_platforms_lem ps (or_else fallback (first_gpu p)) in
    elim (first_gpu-cases p) [
      | inl (without, first) ↦ elim (Bool-cases (names_intel p)) [
        | inl intel ↦ rw (ih, names_intel-eq p, without, first, intel, or_else-none fallback) refl
        | inr other ↦ rw (ih, names_intel-eq p, without, first, other, or_else-none fallback) refl
      ]
      | inr (gpu, (device, first)) ↦ elim (Bool-cases (names_intel p)) [
        | inl intel ↦ rw (ih, names_intel-eq p, gpu, first, intel, first) refl
        | inr other ↦ rw (ih, names_intel-eq p, gpu, first, other, or_else_assoc) refl
      ]
    ]

first_with-holds :
    (test : ClPlatform → Bool) (ps : List ClPlatform) (p : ClPlatform)
    → first_with test ps ≡ some p
    → test p ≡ true
unfolding first_with
first_with-holds test [] p e = ground arith
first_with-holds test (q ∷ ps) p e = elim (Bool-cases (test q)) [
  | inl passes ↦ let same : some q ≡ some p = rw passes at e in ground (arith, passes, same)
  | inr fails ↦ first_with-holds test ps p (rw fails at e)
]

or_else-first_gpu :
    (p : ClPlatform) (o : Option (ClPlatform × ClDevice))
    → has_gpu p ≡ true
    → or_else (first_gpu p) o ≡ first_gpu p
or_else-first_gpu p o h = elim (first_gpu-cases p) [
  | inl (without, first) ↦ ground (arith, h, without)
  | inr (gpu, (device, first)) ↦ rw first refl
]

with_gpu-or_else :
    (test : ClPlatform → Bool) (ps : List ClPlatform) (any : Option ClPlatform)
    → let found = first_with (λ p. has_gpu p && test p) ps in
      or_else (with_gpu found) (with_gpu any) ≡ with_gpu (or_else found any)
with_gpu-or_else test ps any =
    let found = first_with (λ p. has_gpu p && test p) ps in
    elim (Option-cases found) [
      | inl absent ↦ rw absent refl
      | inr (p, e) ↦
          let holds : (has_gpu p && test p) ≡ true =
            first_with-holds (λ p. has_gpu p && test p) ps p e in
          rw e (or_else-first_gpu p (with_gpu any) (ground (arith, holds)))
    ]

record_choice-chosen :
    (o : Option ClPlatform) (ocl : OpenClContext) → record_choice (with_gpu o) ocl ≡ chosen o ocl
unfolding record_choice first_gpu
record_choice-chosen none ocl = refl
record_choice-chosen (some p) ocl =
    elim p.gpus
      as (λ gpus.
        record_choice
          (elim gpus as (λ _. Option (ClPlatform × ClDevice)) [
            | [] ↦ none
            | device ∷ devices ↦ some (p, device)
          ])
          ocl
        ≡ (elim gpus as (λ _. Option ClDevice × OpenClContext) [
          | [] ↦ (none, ocl)
          | device ∷ devices ↦ (
            some device,
            record ocl {
              platform = some p.platform_id;
              device = some device.device_id;
              platform_name = query_string p.name_info;
            },
          )
        ])) [ [] ↦ refl | device ∷ devices ↦ refl ]

-- The search, which goes over the platforms once and keeps a fallback, gives the first GPU of the
-- first platform that has one and whose name or vendor has "intel" in it, in letters of any case;
-- where there is no such platform, the first GPU of the first platform that has one; and where there
-- is no GPU at all, none. The context then has the ids of the platform and of the device and the
-- platform's name, and all else as it was, and is the same as before where no device is found.
pub find_intel_gpu_device-preferred :
    (ps : List ClPlatform) (ocl : OpenClContext)
    → find_intel_gpu_device ps ocl ≡ chosen (preferred ps) ocl
unfolding find_intel_gpu_device preferred
find_intel_gpu_device-preferred ps ocl =
    let intel = first_with (λ p. has_gpu p && names_intel p) ps in
    let any = first_with has_gpu ps in
    ap (λ choice. record_choice choice ocl) (search_platforms_lem ps none)
    ∙ ap (λ choice. record_choice choice ocl) (with_gpu-or_else names_intel ps any)
    ∙ record_choice-chosen (or_else intel any) ocl
