-- ===== src/Collector/Holders.antt =====
-- The mutex of the collector and the order of its owner's and its thread's statements: who holds the
-- one, and how far each has come.
use funtrace.Prelude.{
  ℕ, ◌+◌, ◌≡◌, refl, ap, ◌∙◌, ◌⊎◌, inl, inr, Bool, true, false, arith, Bool-cases, is_zero,
}
use funtrace.Config.{Env, env_int, funtrace_gc_period_ms}
use funtrace.Registry.{Thread}
use funtrace.Registry.Pointers.{one_if}
use funtrace.Collector.Life.{Owner, Place, FuntraceGc, awake, is_finished, owner_at, thread_at}

-- How often the mutex is held at a place.
abbrev pub owner_holds : Owner → ℕ
owner_holds Owner.notify = 1
owner_holds Owner.unlock_mutex = 1
owner_holds Owner.read_period = 0
owner_holds Owner.clear_quit = 0
owner_holds Owner.clear_done = 0
owner_holds Owner.start_thread = 0
owner_holds Owner.test_period = 0
owner_holds Owner.set_quit = 0
owner_holds Owner.lock_mutex = 0
owner_holds Owner.join_thread = 0
owner_holds Owner.joined = 0

abbrev pub thread_holds : Place → ℕ
thread_holds Place.begin_wait = 1
thread_holds Place.check_quit = 1
thread_holds Place.collect = 1
thread_holds Place.unlock_mutex = 1
thread_holds Place.not_started = 0
thread_holds Place.ignore_thread = 0
thread_holds Place.lock_mutex = 0
thread_holds Place.waiting = 0
thread_holds Place.lock_again = 0
thread_holds Place.set_done = 0
thread_holds Place.finished = 0

-- The mutex is locked where one of the two holds it, and not both do.
abbrev pub IsHeld : FuntraceGc → Type 0
IsHeld g = owner_holds g.owner + thread_holds g.thread ≡ one_if g.locked

abbrev pub at : Owner → Place → FuntraceGc → FuntraceGc
at o p g = record g { owner = o; thread = p }

abbrev pub is_started : Place → Bool
is_started Place.not_started = false
is_started Place.ignore_thread = true
is_started Place.lock_mutex = true
is_started Place.begin_wait = true
is_started Place.waiting = true
is_started Place.lock_again = true
is_started Place.check_quit = true
is_started Place.collect = true
is_started Place.unlock_mutex = true
is_started Place.set_done = true
is_started Place.finished = true

-- There is no thread, as the period is 0.
abbrev IsIdle : FuntraceGc → Type 0
IsIdle g = (is_zero g.gc_period_ms ≡ true) × (is_started g.thread ≡ false)

-- How far the thread and the flag are, at each place of the owner.
abbrev pub Launched : Owner → FuntraceGc → Type 0
Launched Owner.read_period g = is_started g.thread ≡ false
Launched Owner.clear_quit g = (is_started g.thread ≡ false) × (is_zero g.gc_period_ms ≡ false)
Launched Owner.clear_done g = (is_started g.thread ≡ false) × (is_zero g.gc_period_ms ≡ false)
Launched Owner.start_thread g = (is_started g.thread ≡ false) × (is_zero g.gc_period_ms ≡ false)
Launched Owner.test_period g =
    IsIdle g ⊎ ((is_zero g.gc_period_ms ≡ false) × (is_started g.thread ≡ true))
Launched Owner.set_quit g = is_started g.thread ≡ true
Launched Owner.lock_mutex g = (is_started g.thread ≡ true) × (g.quit ≡ true)
Launched Owner.notify g = (is_started g.thread ≡ true) × (g.quit ≡ true)
Launched Owner.unlock_mutex g = (is_started g.thread ≡ true) × (g.quit ≡ true)
Launched Owner.join_thread g = (is_started g.thread ≡ true) × (g.quit ≡ true)
Launched Owner.joined g = IsIdle g ⊎ (is_finished g.thread ≡ true)

abbrev pub IsValid : FuntraceGc → Type 0
IsValid g = IsHeld g × Launched g.owner g

unstarted-holds : (p : Place) → is_started p ≡ false → thread_holds p ≡ 0
unstarted-holds Place.not_started e = refl
unstarted-holds Place.ignore_thread e = refl
unstarted-holds Place.lock_mutex e = refl
unstarted-holds Place.begin_wait e = absurd cc
unstarted-holds Place.waiting e = refl
unstarted-holds Place.lock_again e = refl
unstarted-holds Place.check_quit e = absurd cc
unstarted-holds Place.collect e = absurd cc
unstarted-holds Place.unlock_mutex e = absurd cc
unstarted-holds Place.set_done e = refl
unstarted-holds Place.finished e = refl

-- What a wake-up keeps.
abbrev Woken : Place → FuntraceGc → FuntraceGc → Type 0
Woken p g g' =
    (thread_holds g'.thread ≡ thread_holds p)
    × (is_started g'.thread ≡ is_started p)
    × (is_finished g'.thread ≡ is_finished p)
    × (g'.locked ≡ g.locked)
    × (g'.quit ≡ g.quit)
    × (g'.gc_period_ms ≡ g.gc_period_ms)
    × (g'.owner ≡ g.owner)

pub awake-Woken : (p : Place) (g : FuntraceGc) → Woken p g (awake p (record g { thread = p }))
awake-Woken Place.waiting g = (refl, refl, refl, refl, refl, refl, refl)
awake-Woken Place.not_started g = (refl, refl, refl, refl, refl, refl, refl)
awake-Woken Place.ignore_thread g = (refl, refl, refl, refl, refl, refl, refl)
awake-Woken Place.lock_mutex g = (refl, refl, refl, refl, refl, refl, refl)
awake-Woken Place.begin_wait g = (refl, refl, refl, refl, refl, refl, refl)
awake-Woken Place.lock_again g = (refl, refl, refl, refl, refl, refl, refl)
awake-Woken Place.check_quit g = (refl, refl, refl, refl, refl, refl, refl)
awake-Woken Place.collect g = (refl, refl, refl, refl, refl, refl, refl)
awake-Woken Place.unlock_mutex g = (refl, refl, refl, refl, refl, refl, refl)
awake-Woken Place.set_done g = (refl, refl, refl, refl, refl, refl, refl)
awake-Woken Place.finished g = (refl, refl, refl, refl, refl, refl, refl)

pub owner_at-IsValid :
    (getenv : Env) (o : Owner) (p : Place) (g : FuntraceGc)
    → IsValid (at o p g)
    → IsValid (owner_at getenv o (at o p g))
unfolding owner_at
owner_at-IsValid getenv Owner.read_period p g (h, l) =
    elim (Bool-cases (is_zero (env_int getenv "FUNTRACE_GC_PERIOD_MS" funtrace_gc_period_ms))) [
      | inl e ↦ rw e (h, inl (e, l))
      | inr e ↦ rw e (h, (l, e))
    ]
owner_at-IsValid getenv Owner.clear_quit p g v = v
owner_at-IsValid getenv Owner.clear_done p g v = v
owner_at-IsValid getenv Owner.start_thread p g (h, l) =
    (omega (arith, h, unstarted-holds p l.0), inr (l.1, refl))
owner_at-IsValid getenv Owner.test_period p g (h, inl l) = rw l.0 (h, inl (l.0, l.1))
owner_at-IsValid getenv Owner.test_period p g (h, inr l) = rw l.0 (h, l.1)
owner_at-IsValid getenv Owner.set_quit p g (h, l) = (h, (l, refl))
owner_at-IsValid getenv Owner.lock_mutex p g (h, l) = elim (Bool-cases g.locked) [
  | inl e ↦ rw e (omega (arith, h, ap one_if e), l)
  | inr e ↦ rw e (omega (arith, h, ap one_if e), l)
]
owner_at-IsValid getenv Owner.notify p g (h, l) =
    let w = awake-Woken p (at Owner.notify p g) in
    (omega (arith, h, w.0, ap one_if w.3), (w.1 ∙ l.0, w.4 ∙ l.1))
owner_at-IsValid getenv Owner.unlock_mutex p g (h, l) = (ground (arith, h), l)
owner_at-IsValid getenv Owner.join_thread p g (h, l) = elim (Bool-cases (is_finished p)) [
  | inl e ↦ rw e (h, inr e)
  | inr e ↦ rw e (h, l)
]
owner_at-IsValid getenv Owner.joined p g v = v

pub thread_at-IsHeld :
    (me : Thread) (now : ℕ) (o : Owner) (p : Place) (g : FuntraceGc)
    → IsHeld (at o p g)
    → IsHeld (thread_at me now p (at o p g))
unfolding thread_at
thread_at-IsHeld me now o Place.not_started g h = h
thread_at-IsHeld me now o Place.ignore_thread g h = h
thread_at-IsHeld me now o Place.lock_mutex g h = ground (arith, h)
thread_at-IsHeld me now o Place.begin_wait g h = ground (arith, h)
thread_at-IsHeld me now o Place.waiting g h = h
thread_at-IsHeld me now o Place.lock_again g h = ground (arith, h)
thread_at-IsHeld me now o Place.check_quit g h = h
thread_at-IsHeld me now o Place.collect g h = h
thread_at-IsHeld me now o Place.unlock_mutex g h = ground (arith, h)
thread_at-IsHeld me now o Place.set_done g h = h
thread_at-IsHeld me now o Place.finished g h = h
