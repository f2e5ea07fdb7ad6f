-- ===== src/Pacer/FrameLoop/Steady.antt =====
-- The frame loop under a steady load.
use mathlib.Core.Path.{subst}
use smooth_demon.Prelude.{
  ℕ, zero, suc, ◌+◌, ◌-◌, ◌/◌, ◌%◌, ◌^◌, ◌≤◌, ◌<◌, ◌≡◌, refl, sym, ap, ◌∙◌, Bool, true, List, [],
  ◌∷◌, ◌++◌, Option, none, some, length, arith, All,
}
use smooth_demon.Pacer.Presentation.{
  PresentationPacer, calculate_next_wakeup, update_last_draw_duration, mark_vblank,
}
use smooth_demon.Pacer.Presentation.Filter.{draw_limit, steady_frame}
use smooth_demon.Pacer.Presentation.Wakeup.{wakeup_in_time}
use smooth_demon.Pacer.TimerFd.{TimerFd, Poll, woken, expired, arm_absolute, wait}
use smooth_demon.Pacer.TimerFd.Waiting.{IsSpurious, Fired, wait-Fired, arm_absolute_sets}
use smooth_demon.Pacer.FrameLoop.{Frame, Woken, State, after_wait, arm_and_wait, frame, frames}

abbrev split : ℕ → ℕ × ℕ
split nanos = (nanos / 10 ^ 9, nanos % 10 ^ 9)

-- The timer fires, after any number of interruptions and spurious wakeups.
abbrev pub Fires : List Poll → Type 0
Fires polls =
    (before after : List Poll) × (polls ≡ before ++ (woken 0 true expired ∷ after))
    × All IsSpurious before

-- Each frame starts before its wakeup, the timer can be set to that and fires, and the work takes
-- `draw`. The wakeups begin at `wake` and are `period` apart, and 64 bits have room for the VBlank
-- that is `offset` behind each.
unfoldable pub OnTime : (draw offset period : ℕ) → List Frame → ℕ → Type 0
OnTime draw offset period [] wake = Unit
OnTime draw offset period (f ∷ fs) wake =
    (f.now ≤ wake)
    × (wake + offset < 2 ^ 64)
    × (f.accepts (wake / 10 ^ 9, wake % 10 ^ 9) ≡ true)
    × Fires f.polls
    × (f.work ≡ draw)
    × OnTime draw offset period fs (wake + period)

-- So many wakeups at equal distances, each with the timer set to it and fired.
unfoldable pub every : (period n wake : ℕ) → List Woken
every period zero wake = []
every period (suc n) wake =
    record { wakeup = wake; set_to = (wake / 10 ^ 9, wake % 10 ^ 9); fired = true }
    ∷ every period n (wake + period)

after_wait_fired :
    (wakeup marked work : ℕ) (set_to : ℕ × ℕ) (p : PresentationPacer) (r : Option Bool × TimerFd)
    → r.0 ≡ some true
    → after_wait wakeup marked set_to work p r
      ≡ some (
        record { wakeup = wakeup; set_to = set_to; fired = true },
        (mark_vblank (update_last_draw_duration p work) marked, r.1),
      )
unfolding after_wait
after_wait_fired wakeup marked work set_to p (none, t) e = cc
after_wait_fired wakeup marked work set_to p (some fired, t) e =
    ap (λ o. after_wait wakeup marked set_to work p (o, t)) e

-- A timer that can be armed and waited for.
abbrev IsReady : TimerFd → Type 0
IsReady t = (t.has_fd ≡ true) × (t.pending ≡ 0)

arm-wait :
    (f : Frame) (t : TimerFd) (wake : ℕ)
    → IsReady t
    → f.accepts (wake / 10 ^ 9, wake % 10 ^ 9) ≡ true
    → Fires f.polls
    → let armed = (arm_absolute f.accepts wake t).1 in
      (armed.value ≡ (wake / 10 ^ 9, wake % 10 ^ 9))
      × ((wait f.polls armed).0 ≡ some true)
      × IsReady (wait f.polls armed).1
arm-wait f t wake (fd, clear) ok (before, after, e, spurious) =
    let armed = (arm_absolute f.accepts wake t).1 in
    let (value, fd', pending) = arm_absolute_sets f.accepts wake t fd ok in
    let (fired, fd'', clear') =
      subst (λ polls. Fired armed (wait polls armed)) (sym e)
        (wait-Fired before after armed fd' (pending ∙ clear) spurious) in
    (value, fired, (fd'' ∙ fd', clear'))

frame-Fires :
    (mark : ℕ → ℕ) (f : Frame) (p : PresentationPacer) (t : TimerFd) (wake : ℕ)
    → calculate_next_wakeup p f.now ≡ some wake
    → IsReady t
    → f.accepts (wake / 10 ^ 9, wake % 10 ^ 9) ≡ true
    → Fires f.polls
    → (t' : TimerFd) × IsReady t'
      × (frame mark f (p, t)
          ≡ some (
            record { wakeup = wake; set_to = (wake / 10 ^ 9, wake % 10 ^ 9); fired = true },
            (mark_vblank (update_last_draw_duration p f.work) (mark wake), t'),
          ))
unfolding frame arm_and_wait
frame-Fires mark f p t wake e ready ok fires =
    let armed = (arm_absolute f.accepts wake t).1 in
    let (value, fired, ready') = arm-wait f t wake ready ok fires in
    (
      (wait f.polls armed).1,
      ready',
      rw
          (
            e,
            after_wait_fired wake (mark wake) f.work armed.value p (wait f.polls armed) fired,
            value,
          )
          refl,
    )

-- A pacer whose estimate is `draw`, whose next VBlank lies `draw + red` behind `wake`.
abbrev IsSteady : (interval red draw : ℕ) → PresentationPacer → ℕ → Type 0
IsSteady interval red draw p wake =
    (p.rolling_max_draw_time_ns ≡ draw)
    × (p.refresh_interval_ns ≡ interval)
    × (p.red_zone_ns ≡ red)
    × (p.last_vblank_ns + interval ≡ wake + (draw + red))

next-IsSteady :
    (interval red draw lead wake : ℕ) (p : PresentationPacer)
    → interval < draw_limit
    → draw + red < interval
    → IsSteady interval red draw p wake
    → IsSteady interval red draw
        (mark_vblank (update_last_draw_duration p draw) (wake + lead))
        (wake + (interval - (draw + red) + lead))
next-IsSteady interval red draw lead wake p small fits (rolling, i, r, next) =
    let (rolling', i', r', last) =
      steady_frame p draw (wake + lead) (omega (arith, i)) (omega (arith, r, i)) rolling in
    (rolling', i' ∙ i, r' ∙ r, omega (arith, last))

steady_wakeup :
    (interval red draw wake now : ℕ) (p : PresentationPacer)
    → IsSteady interval red draw p wake
    → now ≤ wake
    → wake + (draw + red) < 2 ^ 64
    → calculate_next_wakeup p now ≡ some wake
steady_wakeup interval red draw wake now p (rolling, i, r, next) le small =
    wakeup_in_time p now wake (omega (arith, rolling, i, r, next)) le
      (omega (arith, rolling, r, small))

frames-every :
    (interval red draw lead : ℕ)
    → interval < draw_limit
    → draw + red < interval
    → (fs : List Frame) (p : PresentationPacer) (t : TimerFd) (wake : ℕ)
    → IsSteady interval red draw p wake
    → IsReady t
    → let period = interval - (draw + red) + lead in
      OnTime draw (draw + red) period fs wake
      → (end : State) × (frames (λ w. w + lead) fs (p, t)
          ≡ some (every period (length fs) wake, end))
unfolding OnTime every frames
frames-every interval red draw lead small fits [] p t wake steady ready tt = ((p, t), refl)
frames-every interval red draw lead small fits (f ∷ fs) p t wake steady ready
      (starts, room, sets, fires, work, rest) =
    let e = steady_wakeup interval red draw wake f.now p steady starts room in
    let (t', ready', first) = frame-Fires (λ w. w + lead) f p t wake e ready sets fires in
    let next = mark_vblank (update_last_draw_duration p f.work) (wake + lead) in
    let steady' =
      subst
        (λ d.
          IsSteady interval red draw (mark_vblank (update_last_draw_duration p d) (wake + lead))
            (wake + (interval - (draw + red) + lead)))
        (sym work) (next-IsSteady interval red draw lead wake p small fits steady) in
    let (end, others) =
      frames-every interval red draw lead small fits fs next t'
        (wake + (interval - (draw + red) + lead)) steady' ready' rest in
    (end, rw (first, others) refl)

-- In the frame loop, let every frame's work take the same time, which the estimate is and which
-- leaves room for the red zone in the refresh interval, let each frame start before its wakeup, and
-- let the timer be set and fire, after any number of interruptions. Then every frame ends, its
-- wakeup is the time that the timer is set to, and the wakeups have equal distances. If the loop
-- marks the VBlank that lies the work and the red zone behind the wakeup, this is one refresh
-- interval; the nearer to the wakeup the marked time is, the shorter, and if it is the wakeup itself
-- the distance is the refresh interval without the work and the red zone.
pub frames_steady :
    (fs : List Frame) (p : PresentationPacer) (t : TimerFd) (lead : ℕ)
    → let offset = p.rolling_max_draw_time_ns + p.red_zone_ns in
      let interval = p.refresh_interval_ns in
      let period = interval - offset + lead in
      let wake = p.last_vblank_ns + interval - offset in
      interval < draw_limit
      → offset < interval
      → t.has_fd ≡ true
      → t.pending ≡ 0
      → OnTime p.rolling_max_draw_time_ns offset period fs wake
      → (end : State) × (frames (λ wakeup. wakeup + lead) fs (p, t)
          ≡ some (every period (length fs) wake, end))
frames_steady fs p t lead small fits fd clear on_time =
    frames-every p.refresh_interval_ns p.red_zone_ns p.rolling_max_draw_time_ns lead small fits fs p
      t _ (refl, refl, refl, omega (arith, fits)) (fd, clear) on_time
