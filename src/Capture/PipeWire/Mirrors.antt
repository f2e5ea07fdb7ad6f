-- ===== src/Capture/PipeWire/Mirrors.antt =====
-- What the objects of a capture, its recyclers and its frames say of the server.
use smooth_demon.Prelude.{
  ℕ, suc, ◌+◌, ◌<◌, ◌≡◌, refl, Bool, true, false, ◌&&◌, List, [], ◌∷◌, ◌++◌, Option, none, some,
  ltb, ltb→lt, ◌==◌, arith,
}
use smooth_demon.Capture.Frames.{Frame}
use smooth_demon.Capture.PipeWire.{Object, PipeWireCapture, Recyclers}
use smooth_demon.Capture.PipeWire.Server.{Server, one_if}
use smooth_demon.Capture.PipeWire.Steps.{System}

abbrev pub object_if : (ℕ → Object) → Option ℕ → List Object → List Object
object_if kind none objects = objects
object_if kind (some o) objects = kind o ∷ objects

-- The objects of the fields, the newest first.
unfoldable pub objects_of : PipeWireCapture → List Object
objects_of c = object_if Object.stream c.stream (
    object_if Object.core c.core
      (object_if Object.context c.ctx (object_if Object.main_loop c.loop [])))

abbrev pub is_some : Option ℕ → Bool
is_some none = false
is_some (some x) = true

-- The recycler still has its stream.
unfoldable pub is_live : Recyclers → Option ℕ → Bool
is_live h none = false
is_live h (some r) = is_some (h.stream_of r)

-- How many frames hold the buffer and would give it back.
unfoldable pub held : Recyclers → List Frame → ℕ → ℕ
held h [] b = 0
held h (f ∷ fs) b =
    one_if (is_live h f.on_frame_done.recycler && b == f.on_frame_done.buffer) + held h fs b

unfoldable pub is_below : ℕ → Option ℕ → Bool
is_below n none = false
is_below n (some r) = ltb r n

-- Every frame has a recycler that has been made.
unfoldable pub all_below : ℕ → List Frame → Bool
all_below n [] = true
all_below n (f ∷ fs) = is_below n f.on_frame_done.recycler && all_below n fs

pub record Running (s : System) : Type 0 where
  pub index : ℕ
  pub stream : ℕ
  pub has_recycler : s.capture.recycler ≡ some index
  pub has_stream : s.capture.stream ≡ some stream
  pub made : index < s.recyclers.count
  pub live : s.stopping ≡ false → s.recyclers.stream_of index ≡ some stream

pub record Mirrors (s : System) (v : Server) : Type 0 where
  pub objects : v.objects ≡ objects_of s.capture
  pub has_dma_cb : s.capture.dma_cb ≡ true
  pub has_mem_cb : s.capture.mem_cb ≡ true
  pub running : s.capture.joinable ≡ true → Running s
  pub current :
      (r x : ℕ)
      → s.recyclers.stream_of r ≡ some x
      → (s.capture.recycler ≡ some r) × (s.capture.stream ≡ some x)
  pub halted : s.stopping ≡ true → (r : ℕ) → s.recyclers.stream_of r ≡ none
  pub unused : s.capture.stream ≡ none → (b : ℕ) → v.taken b ≡ 0
  pub returned : s.stopping ≡ false → (b : ℕ) → v.taken b ≡ held s.recyclers s.frames b
  pub below : all_below s.recyclers.count s.frames ≡ true

pub both : (a b : Bool) → (a && b) ≡ true → (a ≡ true) × (b ≡ true)
both a b h = ground arith

pub held-append :
    (h : Recyclers) (fs gs : List Frame) (b : ℕ) → held h (fs ++ gs) b ≡ held h fs b + held h gs b
unfolding held
held-append h [] gs b = omega arith
held-append h (f ∷ fs) gs b = omega (arith, held-append h fs gs b)

dead_recycler :
    (h : Recyclers) (n : ℕ) (o : Option ℕ)
    → ((r : ℕ) → r < n → h.stream_of r ≡ none)
    → is_below n o ≡ true
    → is_live h o ≡ false
unfolding is_live is_below
dead_recycler h n none dead below = refl
dead_recycler h n (some r) dead below = rw (dead r (ltb→lt r n below)) refl

-- Where all the recyclers of the frames have lost their stream, no frame would give its buffer back.
pub held-none :
    (h : Recyclers) (n : ℕ) (fs : List Frame) (b : ℕ)
    → ((r : ℕ) → r < n → h.stream_of r ≡ none)
    → all_below n fs ≡ true
    → held h fs b ≡ 0
unfolding held all_below
held-none h n [] b dead below = refl
held-none h n (f ∷ fs) b dead below =
    let (first, others) = both (is_below n f.on_frame_done.recycler) (all_below n fs) below in
    rw (dead_recycler h n f.on_frame_done.recycler dead first)
      (omega (arith, held-none h n fs b dead others))

pub all_below-append :
    (n : ℕ) (fs gs : List Frame) → all_below n (fs ++ gs) ≡ (all_below n fs && all_below n gs)
unfolding all_below
all_below-append n [] gs = refl
all_below-append n (f ∷ fs) gs = ground (arith, all_below-append n fs gs)

below_suc : (n : ℕ) (o : Option ℕ) → is_below n o ≡ true → is_below (suc n) o ≡ true
unfolding is_below
below_suc n none below = below
below_suc n (some r) below = ground arith

pub all_below-suc : (n : ℕ) (fs : List Frame) → all_below n fs ≡ true → all_below (suc n) fs ≡ true
unfolding all_below
all_below-suc n [] below = refl
all_below-suc n (f ∷ fs) below =
    ground (arith, below_suc n f.on_frame_done.recycler, all_below-suc n fs)

pub true≢false : {A : Type 0} {b : Bool} → b ≡ false → b ≡ true → A
true≢false off on = cc

pub none≢some : {A : Type 0} {o : Option ℕ} {x : ℕ} → o ≡ none → o ≡ some x → A
none≢some without with = cc
