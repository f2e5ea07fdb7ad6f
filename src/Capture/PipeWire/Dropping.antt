-- ===== src/Capture/PipeWire/Dropping.antt =====
-- The end of a frame, which gives its buffer back through the recycler.
use smooth_demon.Prelude.{
  ℕ, ◌+◌, ◌-◌, ◌≡◌, refl, ◌∙◌, true, false, ◌&&◌, List, [], ◌∷◌, ◌++◌, Option, none, some, ◌==◌,
  arith, Bool-cases, inl, inr,
}
use smooth_demon.Capture.Frames.{Frame}
use smooth_demon.Capture.PipeWire.{Call, queue, Recyclers, recycle, queue_to}
use smooth_demon.Capture.PipeWire.Server.{Server, one_if, perform, perform_all, Leads, Leads-cons}
use smooth_demon.Capture.PipeWire.Steps.{System}
use smooth_demon.Capture.PipeWire.Mirrors.{
  held, held-append, is_live, is_below, all_below, all_below-append, Mirrors, true≢false, none≢some,
}
use smooth_demon.Capture.PipeWire.Giving.{stream_is_there, changes_taken}

-- One frame less.
drops_returned :
    (h : Recyclers) (before after : List Frame) (f : Frame) (b taken : ℕ)
    → taken ≡ held h (before ++ f ∷ after) b
    → taken
      ≡ held h (before ++ after) b
        + one_if (is_live h f.on_frame_done.recycler && b == f.on_frame_done.buffer)
unfolding held
drops_returned h before after f b taken e =
    omega (arith, held-append h before (f ∷ after) b, held-append h before after b)

pub drops_below :
    (n : ℕ) (before after : List Frame) (f : Frame)
    → all_below n (before ++ f ∷ after) ≡ true
    → (all_below n (before ++ after) ≡ true) × (is_below n f.on_frame_done.recycler ≡ true)
unfolding all_below
drops_below n before after f below =
    ground (arith, all_below-append n before (f ∷ after), all_below-append n before after)

-- What the end of a frame does, with the frames that are left.
abbrev Drops : List Call → System → List Frame → Server → Type 0
Drops calls s rest v = (w : Server) × (Leads calls v w × Mirrors (record s { frames = rest }) w)

drop_dead :
    (s : System) (v : Server) (before after : List Frame) (f : Frame)
    → Mirrors s v
    → s.frames ≡ before ++ f ∷ after
    → is_live s.recyclers f.on_frame_done.recycler ≡ false
    → Drops [] s (before ++ after) v
unfolding perform_all
drop_dead s v before after f m e dead = (
  v,
  (
    refl,
    changes_taken s v (before ++ after) v.taken m m.unused
        (λ going b.
          let now =
            drops_returned s.recyclers before after f b (v.taken b)
              (rw (← e) (m.returned going b)) in
          rw dead at now ∙ omega arith)
        (drops_below s.recyclers.count before after f (rw (← e) m.below)).0,
  ),
)

drop_live_returned :
    (s : System) (v : Server) (before after : List Frame) (f : Frame)
    → Mirrors s v
    → s.frames ≡ before ++ f ∷ after
    → s.stopping ≡ false
    → is_live s.recyclers f.on_frame_done.recycler ≡ true
    → (b : ℕ)
    → v.taken b ≡ held s.recyclers (before ++ after) b + one_if (b == f.on_frame_done.buffer)
drop_live_returned s v before after f m e going live b =
    let now =
      drops_returned s.recyclers before after f b (v.taken b) (rw (← e) (m.returned going b)) in
    rw live at now

drop_live :
    (s : System) (v : Server) (before after : List Frame) (f : Frame) (x : ℕ)
    → Mirrors s v
    → s.frames ≡ before ++ f ∷ after
    → s.stopping ≡ false
    → s.capture.stream ≡ some x
    → is_live s.recyclers f.on_frame_done.recycler ≡ true
    → Drops (queue x f.on_frame_done.buffer ∷ []) s (before ++ after) v
unfolding perform_all perform
drop_live s v before after f x m e going stream live =
    let b = f.on_frame_done.buffer in
    let w = record v { taken = λ y. v.taken y - one_if (y == b) } in
    let count = drop_live_returned s v before after f m e going live b in
    (
      w,
      (
        Leads-cons (queue x b) [] v w w
            (rw (stream_is_there s v x m stream) (ground (arith, count))) refl,
        changes_taken s v (before ++ after) w.taken m (λ without. none≢some without stream)
            (λ _ y. omega (arith, drop_live_returned s v before after f m e going live y))
            (drops_below s.recyclers.count before after f (rw (← e) m.below)).0,
      ),
    )

drop_from :
    (y : Option ℕ) (r : ℕ) (s : System) (v : Server) (before after : List Frame) (f : Frame)
    → Mirrors s v
    → s.frames ≡ before ++ f ∷ after
    → f.on_frame_done.recycler ≡ some r
    → s.recyclers.stream_of r ≡ y
    → Drops (queue_to y f.on_frame_done.buffer) s (before ++ after) v
unfolding queue_to is_live
drop_from none r s v before after f m e rec dead =
    drop_dead s v before after f m e (rw (rec, is_live, dead) refl)
drop_from (some x) r s v before after f m e rec live = elim (Bool-cases s.stopping) [
  | inl stopping ↦ none≢some (m.halted stopping r) live
  | inr going ↦
      drop_live s v before after f x m e going (m.current r x live).1 (rw (rec, is_live, live) refl)
]

drop_of :
    (o : Option ℕ) (s : System) (v : Server) (before after : List Frame) (f : Frame)
    → Mirrors s v
    → s.frames ≡ before ++ f ∷ after
    → f.on_frame_done.recycler ≡ o
    → Drops (recycle s.recyclers o f.on_frame_done.buffer) s (before ++ after) v
unfolding recycle is_below
drop_of none s v before after f m e rec =
    let (rest, here) = drops_below s.recyclers.count before after f (rw (← e) m.below) in
    true≢false refl (rw (rec, is_below) at here)
drop_of (some r) s v before after f m e rec =
    drop_from (s.recyclers.stream_of r) r s v before after f m e rec refl

pub drop-Mirrors :
    (s : System) (v : Server) (before after : List Frame) (f : Frame)
    → Mirrors s v
    → s.frames ≡ before ++ f ∷ after
    → (w : Server) × (Leads
          (recycle s.recyclers f.on_frame_done.recycler f.on_frame_done.buffer)
          v
          w
        × Mirrors (record s { frames = before ++ after }) w)
drop-Mirrors s v before after f m e = drop_of f.on_frame_done.recycler s v before after f m e refl
