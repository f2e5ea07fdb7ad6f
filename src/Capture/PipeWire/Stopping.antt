-- ===== src/Capture/PipeWire/Stopping.antt =====
-- The two steps of `Stop`.
use smooth_demon.Prelude.{
  ℕ, ◌≡◌, refl, sym, ◌∙◌, true, false, List, [], Option, none, some, ◌==◌, ==_iff, arith,
  Bool-cases, Option-cases, inl, inr,
}
use smooth_demon.Capture.PipeWire.{
  Object, PipeWireCapture, Recyclers, invalidate, destroy_if, stop_recycler, stop_rest,
}
use smooth_demon.Capture.PipeWire.Server.{Server, perform, perform_all, pop, Leads, Leads-append}
use smooth_demon.Capture.PipeWire.Steps.{System}
use smooth_demon.Capture.PipeWire.Mirrors.{
  object_if, objects_of, held-none, Mirrors, true≢false, none≢some,
}

invalidate_keeps_count : (o : Option ℕ) (h : Recyclers) → (invalidate o h).count ≡ h.count
unfolding invalidate
invalidate_keeps_count none h = refl
invalidate_keeps_count (some r) h = refl

-- Only one recycler had a stream, and it has lost it.
invalidate_dead :
    (o : Option ℕ) (h : Recyclers)
    → ((r x : ℕ) → h.stream_of r ≡ some x → o ≡ some r)
    → (r : ℕ) → (invalidate o h).stream_of r ≡ none
unfolding invalidate
invalidate_dead none h only r = elim (Option-cases (h.stream_of r)) [
  | inl dead ↦ dead
  | inr (x, live) ↦ none≢some refl (only r x live)
]
invalidate_dead (some n) h only r = elim (Bool-cases (r == n)) [
  | inl same ↦ rw same refl
  | inr other ↦ elim (Option-cases (h.stream_of r)) [
    | inl dead ↦ rw (other, dead) refl
    | inr (x, live) ↦ true≢false other ((==_iff r n).1 (let e = only r x live in cc))
  ]
]

pub stop_recycler-Mirrors :
    (s : System) (v : Server)
    → Mirrors s v
    → s.stopping ≡ false
    → Mirrors (record s { recyclers = stop_recycler s.capture s.recyclers; stopping = true }) v
unfolding stop_recycler
stop_recycler-Mirrors s v m going =
    let c = s.capture in
    let dead = invalidate_dead c.recycler s.recyclers (λ r x live. (m.current r x live).0) in
    let same = invalidate_keeps_count c.recycler s.recyclers in
    record {
      objects = m.objects;
      has_dma_cb = m.has_dma_cb;
      has_mem_cb = m.has_mem_cb;
      running = λ on.
          let r = m.running on in
          record {
            index = r.index;
            stream = r.stream;
            has_recycler = r.has_recycler;
            has_stream = r.has_stream;
            made = rw same r.made;
            live = λ off. true≢false off refl;
          };
      current = λ r x live. none≢some (dead r) live;
      halted = λ stopping. dead;
      unused = m.unused;
      returned = λ off. true≢false off refl;
      below = rw same m.below;
    }

-- A kind of object other than the stream.
data Kind : (ℕ → Object) → Type 0 where
  is_core : Kind Object.core
  is_context : Kind Object.context
  is_main_loop : Kind Object.main_loop

destroy_if-Leads :
    (kind : ℕ → Object) (o : Option ℕ) (rest : List Object) (taken : ℕ → ℕ)
    → Kind kind
    → Leads
        (destroy_if kind o)
        (record { objects = object_if kind o rest; taken = taken })
        (record { objects = rest; taken = taken })
unfolding destroy_if perform_all perform pop
destroy_if-Leads kind none rest taken k = refl
destroy_if-Leads _ (some o) rest taken is_core = ground arith
destroy_if-Leads _ (some o) rest taken is_context = ground arith
destroy_if-Leads _ (some o) rest taken is_main_loop = ground arith

unfoldable taken_after : Option ℕ → (ℕ → ℕ) → ℕ → ℕ
taken_after none taken = taken
taken_after (some s) taken = λ b. 0

destroy_stream-Leads :
    (o : Option ℕ) (rest : List Object) (taken : ℕ → ℕ)
    → Leads
        (destroy_if Object.stream o)
        (record { objects = object_if Object.stream o rest; taken = taken })
        (record { objects = rest; taken = taken_after o taken })
unfolding destroy_if perform_all perform pop taken_after
destroy_stream-Leads none rest taken = refl
destroy_stream-Leads (some s) rest taken = ground arith

taken_after-none :
    (o : Option ℕ) (taken : ℕ → ℕ)
    → (o ≡ none → (b : ℕ) → taken b ≡ 0)
    → (b : ℕ) → taken_after o taken b ≡ 0
unfolding taken_after
taken_after-none none taken unused b = unused refl b
taken_after-none (some s) taken unused b = refl

-- All four, in the reverse order of their creation.
stop_rest-Leads :
    (c : PipeWireCapture) (v : Server)
    → v.objects ≡ objects_of c
    → Leads (stop_rest c).1 v (record { objects = []; taken = taken_after c.stream v.taken })
unfolding stop_rest objects_of
stop_rest-Leads c v e =
    let loop = object_if Object.main_loop c.loop [] in
    let context = object_if Object.context c.ctx loop in
    let core = object_if Object.core c.core context in
    let t = taken_after c.stream v.taken in
    let first = destroy_stream-Leads c.stream core v.taken in
    Leads-append _ _ v (record { objects = core; taken = t }) _ (rw (← e) at first)
      (Leads-append _ _ _ (record { objects = context; taken = t }) _
        (destroy_if-Leads Object.core c.core context t is_core)
        (Leads-append _ _ _ (record { objects = loop; taken = t }) _
          (destroy_if-Leads Object.context c.ctx loop t is_context)
          (destroy_if-Leads Object.main_loop c.loop [] t is_main_loop)))

pub stop_rest-Mirrors :
    (s : System) (v : Server)
    → Mirrors s v
    → s.stopping ≡ true
    → (w : Server) × (Leads (stop_rest s.capture).1 v w
        × Mirrors (record s { capture = (stop_rest s.capture).0; stopping = false }) w)
unfolding stop_rest objects_of
stop_rest-Mirrors s v m stopping =
    let c = s.capture in
    let dead = m.halted stopping in
    let zero_taken = taken_after-none c.stream v.taken m.unused in
    (
      record { objects = []; taken = taken_after c.stream v.taken },
      (
        stop_rest-Leads c v m.objects,
        record {
          objects = refl;
          has_dma_cb = m.has_dma_cb;
          has_mem_cb = m.has_mem_cb;
          running = λ on. true≢false refl on;
          current = λ r x live. none≢some (dead r) live;
          halted = λ on. true≢false refl on;
          unused = λ without. zero_taken;
          returned = λ going b.
              zero_taken b
              ∙ sym (held-none s.recyclers s.recyclers.count s.frames b (λ r made. dead r) m.below);
          below = m.below;
        },
      ),
    )
