-- ===== src/Capture/PipeWire/Idle.antt =====
-- A capture that does not run, and the recycler that `Start` makes.
use smooth_demon.Prelude.{
  ℕ, ◌<◌, ◌≡◌, refl, sym, ap, ◌∙◌, true, false, List, Option, none, some, ◌==◌, arith, Bool-cases,
  ==_iff, inl, inr,
}
use smooth_demon.Capture.Frames.{Frame}
use smooth_demon.Capture.PipeWire.{PipeWireCapture, Recyclers, set_at, allocate}
use smooth_demon.Capture.PipeWire.Server.{Server}
use smooth_demon.Capture.PipeWire.Steps.{System}
use smooth_demon.Capture.PipeWire.Mirrors.{
  objects_of, all_below, Mirrors, held-none, all_below-suc, true≢false, none≢some,
}

-- No thread runs, no recycler has a stream, and no buffer is taken.
pub record Idle (c : PipeWireCapture) (h : Recyclers) (fs : List Frame) (v : Server) : Type 0 where
  pub objects : v.objects ≡ objects_of c
  pub has_dma_cb : c.dma_cb ≡ true
  pub has_mem_cb : c.mem_cb ≡ true
  pub not_joinable : c.joinable ≡ false
  pub dead : (r : ℕ) → h.stream_of r ≡ none
  pub unused : (b : ℕ) → v.taken b ≡ 0
  pub below : all_below h.count fs ≡ true

abbrev pub system : PipeWireCapture → Recyclers → List Frame → System
system c h fs = record { capture = c; recyclers = h; frames = fs; stopping = false }

pub Idle→Mirrors :
    (c : PipeWireCapture) (h : Recyclers) (fs : List Frame) (v : Server)
    → Idle c h fs v
    → Mirrors (system c h fs) v
Idle→Mirrors c h fs v i = record {
  objects = i.objects;
  has_dma_cb = i.has_dma_cb;
  has_mem_cb = i.has_mem_cb;
  running = λ on. true≢false i.not_joinable on;
  current = λ r x live. none≢some (i.dead r) live;
  halted = λ stopping r. i.dead r;
  unused = λ without. i.unused;
  returned = λ going b. i.unused b ∙ sym (held-none h h.count fs b (λ r made. i.dead r) i.below);
  below = i.below;
}

set_at_here : (n : ℕ) (v : Option ℕ) (f : ℕ → Option ℕ) → set_at n v f n ≡ v
set_at_here n v f = ground arith

set_at_below : (n : ℕ) (v : Option ℕ) (f : ℕ → Option ℕ) (r : ℕ) → r < n → set_at n v f r ≡ f r
set_at_below n v f r l = ground arith

set_at_found :
    (n s : ℕ) (f : ℕ → Option ℕ) (r x : ℕ)
    → ((y : ℕ) → f y ≡ none)
    → set_at n (some s) f r ≡ some x
    → (some n ≡ some r) × (some s ≡ some x)
set_at_found n s f r x dead live = elim (Bool-cases (r == n)) [
  | inl same ↦ (ap some (sym ((==_iff r n).0 same)), rw (same) at live)
  | inr other ↦ none≢some (dead r) (rw (other) at live)
]

-- A field of an object may change, with the objects of the server.
pub changes :
    (c c' : PipeWireCapture) (h : Recyclers) (fs : List Frame) (v v' : Server)
    → Idle c h fs v
    → v'.objects ≡ objects_of c'
    → v'.taken ≡ v.taken
    → c'.dma_cb ≡ c.dma_cb
    → c'.mem_cb ≡ c.mem_cb
    → c'.joinable ≡ c.joinable
    → Idle c' h fs v'
changes c c' h fs v v' i objects taken dma mem thread = record {
  objects = objects;
  has_dma_cb = dma ∙ i.has_dma_cb;
  has_mem_cb = mem ∙ i.has_mem_cb;
  not_joinable = thread ∙ i.not_joinable;
  dead = i.dead;
  unused = λ b. rw taken (i.unused b);
  below = i.below;
}

-- The stream and the recycler of a capture that runs.
pub runs-Mirrors :
    (s : ℕ) (c : PipeWireCapture) (h : Recyclers) (fs : List Frame) (v : Server)
    → Idle (record c { stream = some s }) h fs v
    → Mirrors
        (system
          (record c { stream = some s; recycler = some h.count; joinable = true })
          (allocate s h)
          fs)
        v
unfolding allocate objects_of
runs-Mirrors s c h fs v i = record {
  objects = i.objects;
  has_dma_cb = i.has_dma_cb;
  has_mem_cb = i.has_mem_cb;
  running = λ on. record {
    index = h.count;
    stream = s;
    has_recycler = refl;
    has_stream = refl;
    made = omega arith;
    live = λ going. set_at_here h.count (some s) h.stream_of;
  };
  current = λ r x live. set_at_found h.count s h.stream_of r x i.dead live;
  halted = λ stopping r. true≢false refl stopping;
  unused = λ without. i.unused;
  returned = λ going b.
      i.unused b
      ∙ sym (
          held-none (allocate s h) h.count fs b
            (λ r made. set_at_below h.count (some s) h.stream_of r made ∙ i.dead r) i.below);
  below = all_below-suc h.count fs i.below;
}
