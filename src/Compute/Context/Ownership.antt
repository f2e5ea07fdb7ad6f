-- ===== src/Compute/Context/Ownership.antt =====
-- The context and the queue are released once, and in order.
use smooth_demon.Prelude.{
  ℕ, ◌+◌, ◌≡◌, refl, sym, ap, ◌∙◌, Bool, true, false, List, [], ◌∷◌, ◌++◌, Option, none, some,
  arith, Bool-cases, inl, inr, All, ◌⊎◌,
}
use mathlib.Core.Path.{fun_ext}
use smooth_demon.Compute.Objects.{
  Object, Call, Runtime, no_objects, one_if, same_object, allowed, perform, performs, perform_all,
  Turns, Turns-append,
}
use smooth_demon.Compute.Objects.Accounts.{Frees}
use smooth_demon.Compute.Objects.Sharing.{Holds}
use smooth_demon.Compute.Context.{
  OpenClContext, Cl, ClPlatform, ClDevice, opencl_context, record_choice, search_platforms,
  find_intel_gpu_device, query_device_info, create_objects, initialize_from, initialize, shutdown,
  queue_calls, context_calls,
}

-- What a client may call.
pub data Op : Type 0 where
  initializes : Cl → Op
  shuts_down : Op

-- The context after an operation, and the calls that it makes.
unfoldable pub step : Op → OpenClContext → OpenClContext × List Call
step (initializes cl) ocl = let (done, ocl', calls) = initialize cl ocl in (ocl', calls)
step shuts_down ocl = shutdown ocl

unfoldable pub run : List Op → OpenClContext → OpenClContext × List Call
unfolding step
run [] ocl = (ocl, [])
run (op ∷ ops) ocl =
    let (ocl', calls) = step op ocl in let (end, rest) = run ops ocl' in (end, calls ++ rest)

unfoldable pub held_by : Option ℕ → Option ℕ → Runtime
held_by none none x = 0
held_by (some c) none x = one_if (same_object x (Object.context c))
held_by none (some q) x = one_if (same_object x (Object.queue q))
held_by (some c) (some q) x =
    one_if (same_object x (Object.context c)) + one_if (same_object x (Object.queue q))

-- The references that a context holds.
abbrev pub held : OpenClContext → Runtime
held ocl = held_by ocl.context ocl.queue

-- An object that is not initialized holds nothing.
abbrev pub IsValid : OpenClContext → Type 0
IsValid ocl = ocl.initialized ≡ false → (ocl.context ≡ none) × (ocl.queue ≡ none)

shutdown-Turns :
    (c q : Option ℕ) → Turns (queue_calls q ++ context_calls c) (held_by c q) (held_by none none)
unfolding queue_calls context_calls held_by performs perform_all perform allowed
shutdown-Turns none none = (refl, refl)
shutdown-Turns (some c) none = (ground arith, fun_ext (λ x. omega arith))
shutdown-Turns none (some q) = (ground arith, fun_ext (λ x. omega arith))
shutdown-Turns (some c) (some q) = (ground arith, fun_ext (λ x. omega arith))

create_objects-Turns :
    (c q : Option ℕ) (ocl : OpenClContext)
    → ocl.context ≡ none
    → ocl.queue ≡ none
    → Turns (create_objects c q ocl).2 (held_by none none) (held (create_objects c q ocl).1)
      × IsValid (create_objects c q ocl).1
unfolding create_objects held_by performs perform_all perform allowed
create_objects-Turns none q ocl no_context no_queue =
    ((refl, ap (held_by none) (sym no_queue)), λ off. (refl, no_queue))
create_objects-Turns (some c) none ocl no_context no_queue =
    ((ground arith, fun_ext (λ x. omega arith)), λ off. (refl, refl))
create_objects-Turns (some c) (some q) ocl no_context no_queue =
    ((ground arith, fun_ext (λ x. omega arith)), λ on. cc)

-- The choice of a device leaves what the context holds.
record_choice_keeps :
    (choice : Option (ClPlatform × ClDevice)) (ocl : OpenClContext)
    → let ocl' = (record_choice choice ocl).1 in
      (ocl'.context ≡ ocl.context) × (ocl'.queue ≡ ocl.queue) × (ocl'.initialized ≡ ocl.initialized)
unfolding record_choice
record_choice_keeps none ocl = (refl, refl, refl)
record_choice_keeps (some choice) ocl = (refl, refl, refl)

query_device_info_keeps :
    (device : ClDevice) (ocl : OpenClContext)
    → ((query_device_info device ocl).context ≡ ocl.context)
      × ((query_device_info device ocl).queue ≡ ocl.queue)
unfolding query_device_info
query_device_info_keeps device ocl = (refl, refl)

initialize_from-Turns :
    (on : Bool) (found : Option ClDevice) (cl : Cl) (ocl chosen : OpenClContext)
    → IsValid ocl
    → ocl.initialized ≡ on
    → chosen.context ≡ ocl.context
    → chosen.queue ≡ ocl.queue
    → let (done, ocl', calls) = initialize_from on found cl ocl chosen in
      Turns calls (held ocl) (held ocl') × IsValid ocl'
unfolding initialize_from performs perform_all
initialize_from-Turns true found cl ocl chosen v on c q = ((refl, refl), v)
initialize_from-Turns false none cl ocl chosen v off c q =
    ((refl, rw (c, q)), λ _. (c ∙ (v off).0, q ∙ (v off).1))
initialize_from-Turns false (some device) cl ocl chosen v off c q =
    let (no_context, no_queue) = v off in
    let new = query_device_info device chosen in
    let (same_context, same_queue) = query_device_info_keeps device chosen in
    let (turns, valid) =
      create_objects-Turns cl.context_result cl.queue_result new (same_context ∙ c ∙ no_context)
        (same_queue ∙ q ∙ no_queue) in
    (rw (no_context, no_queue) turns, valid)

initialize-Turns :
    (cl : Cl) (ocl : OpenClContext)
    → IsValid ocl
    → let (done, ocl', calls) = initialize cl ocl in
      Turns calls (held ocl) (held ocl') × IsValid ocl'
unfolding initialize find_intel_gpu_device
initialize-Turns cl ocl v =
    let (c, q, on) = record_choice_keeps (search_platforms cl.platforms none) ocl in
    let (found, chosen) = find_intel_gpu_device cl.platforms ocl in
    initialize_from-Turns ocl.initialized found cl ocl chosen v refl c q

pub step-Turns :
    (op : Op) (ocl : OpenClContext)
    → IsValid ocl
    → Turns (step op ocl).1 (held ocl) (held (step op ocl).0) × IsValid (step op ocl).0
unfolding step shutdown
step-Turns (initializes cl) ocl v = initialize-Turns cl ocl v
step-Turns shuts_down ocl v = (shutdown-Turns ocl.context ocl.queue, λ _. (refl, refl))

pub shutdown-Frees : (ocl : OpenClContext) → All Frees (shutdown ocl).1
unfolding shutdown
shutdown-Frees ocl = by_handles ocl.queue ocl.context
  where
    by_handles : (q c : Option ℕ) → All Frees (queue_calls q ++ context_calls c)
    by_handles none none = tt
    by_handles (some q) none = (tt, (tt, tt))
    by_handles none (some c) = (tt, tt)
    by_handles (some q) (some c) = (tt, (tt, (tt, tt)))

-- What a context has may be used.
held-context : (c q : Option ℕ) → Holds Object.context c (held_by c q)
unfolding held_by performs allowed
held-context none q = refl
held-context (some c) none = ground arith
held-context (some c) (some q) = ground arith

held-queue : (c q : Option ℕ) → Holds Object.queue q (held_by c q)
unfolding held_by performs allowed
held-queue c none = refl
held-queue none (some q) = ground arith
held-queue (some c) (some q) = ground arith

pub held-Holds :
    (ocl : OpenClContext)
    → Holds Object.context ocl.context (held ocl) × Holds Object.queue ocl.queue (held ocl)
held-Holds ocl = (held-context ocl.context ocl.queue, held-queue ocl.context ocl.queue)

-- `Initialize` changes no context that is there.
pub initialize-context :
    (cl : Cl) (ocl : OpenClContext)
    → IsValid ocl
    → (ocl.context ≡ none) ⊎ ((initialize cl ocl).1.context ≡ ocl.context)
unfolding initialize initialize_from
initialize-context cl ocl v = elim (Bool-cases ocl.initialized) [
  | inl on ↦ inr (simp (on))
  | inr off ↦ inl (v off).0
]

pub opencl_context-IsValid : IsValid opencl_context
unfolding opencl_context
opencl_context-IsValid off = (refl, refl)

pub held-opencl_context : held opencl_context ≡ no_objects
unfolding opencl_context held_by
held-opencl_context = refl

pub destroy-Turns : (ocl : OpenClContext) → Turns (shutdown ocl).1 (held ocl) no_objects
unfolding shutdown held_by
destroy-Turns ocl = shutdown-Turns ocl.context ocl.queue

run-Turns :
    (ops : List Op) (ocl : OpenClContext)
    → IsValid ocl
    → Turns (run ops ocl).1 (held ocl) (held (run ops ocl).0)
unfolding run performs perform_all
run-Turns [] ocl v = (refl, refl)
run-Turns (op ∷ ops) ocl v =
    let (turns, valid) = step-Turns op ocl v in
    Turns-append (step op ocl).1 _ (held ocl) _ _ turns (run-Turns ops (step op ocl).0 valid)

-- From a new `OpenCLContext`, any sequence of `Initialize`, whatever OpenCL answers, and `Shutdown`
-- makes no call on an object that is not held, and holds at the end exactly the context and the
-- queue of its fields; the destructor then releases all that is held, each object once.
pub run-balanced :
    (ops : List Op)
    → let (ocl, calls) = run ops opencl_context in
      let all_calls = calls ++ (shutdown ocl).1 in
      (performs all_calls no_objects ≡ true)
      × (perform_all calls no_objects ≡ held ocl)
      × (perform_all all_calls no_objects ≡ no_objects)
unfolding opencl_context held_by shutdown
run-balanced ops =
    let (ocl, calls) = run ops opencl_context in
    let ran = run-Turns ops opencl_context (λ _. (refl, refl)) in
    let all =
      Turns-append calls (shutdown ocl).1 no_objects (held ocl) no_objects ran
        (shutdown-Turns ocl.context ocl.queue) in
    (all.0, ran.1, all.1)
