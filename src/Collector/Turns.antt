-- ===== src/Collector/Turns.antt =====
-- The turns of the collector against its mutex and the order of the statements.
use funtrace.Prelude.{
  ℕ, ◌≡◌, refl, ap, sym, ◌∙◌, subst, inl, inr, true, List, [], ◌∷◌, arith, is_zero,
}
use funtrace.Config.{Env}
use funtrace.Registry.{State, Thread}
use funtrace.Registry.Pointers.{one_if}
use funtrace.Collector.Life.{
  Owner, Place, FuntraceGc, before_constructor, awake, is_finished, thread_at, Turn, turn, turns,
}
use funtrace.Collector.Holders.{
  owner_holds, is_started, IsHeld, Launched, IsValid, awake-Woken, owner_at-IsValid,
  thread_at-IsHeld,
}

-- What a turn of the thread keeps.
pub thread_at-Kept :
    (me : Thread) (now : ℕ) (p : Place) (g : FuntraceGc)
    → let g' = thread_at me now p (record g { thread = p }) in
      (is_started g'.thread ≡ is_started p)
      × (is_finished p ≡ true → is_finished g'.thread ≡ true)
      × (g'.quit ≡ g.quit)
      × (g'.gc_period_ms ≡ g.gc_period_ms)
      × (g'.owner ≡ g.owner)
unfolding thread_at
thread_at-Kept me now Place.not_started g = ground arith
thread_at-Kept me now Place.ignore_thread g = ground arith
thread_at-Kept me now Place.lock_mutex g = ground arith
thread_at-Kept me now Place.begin_wait g = ground arith
thread_at-Kept me now Place.waiting g = ground arith
thread_at-Kept me now Place.lock_again g = ground arith
thread_at-Kept me now Place.check_quit g = ground arith
thread_at-Kept me now Place.collect g = ground arith
thread_at-Kept me now Place.unlock_mutex g = ground arith
thread_at-Kept me now Place.set_done g = ground arith
thread_at-Kept me now Place.finished g = ground arith

Launched-cong :
    (o : Owner) (g g' : FuntraceGc)
    → is_started g'.thread ≡ is_started g.thread
    → (is_finished g.thread ≡ true → is_finished g'.thread ≡ true)
    → g'.quit ≡ g.quit
    → g'.gc_period_ms ≡ g.gc_period_ms
    → Launched o g
    → Launched o g'
Launched-cong Owner.read_period g g' e f q z l = e ∙ l
Launched-cong Owner.clear_quit g g' e f q z l = (e ∙ l.0, ap is_zero z ∙ l.1)
Launched-cong Owner.clear_done g g' e f q z l = (e ∙ l.0, ap is_zero z ∙ l.1)
Launched-cong Owner.start_thread g g' e f q z l = (e ∙ l.0, ap is_zero z ∙ l.1)
Launched-cong Owner.test_period g g' e f q z (inl l) = inl (ap is_zero z ∙ l.0, e ∙ l.1)
Launched-cong Owner.test_period g g' e f q z (inr l) = inr (ap is_zero z ∙ l.0, e ∙ l.1)
Launched-cong Owner.set_quit g g' e f q z l = e ∙ l
Launched-cong Owner.lock_mutex g g' e f q z l = (e ∙ l.0, q ∙ l.1)
Launched-cong Owner.notify g g' e f q z l = (e ∙ l.0, q ∙ l.1)
Launched-cong Owner.unlock_mutex g g' e f q z l = (e ∙ l.0, q ∙ l.1)
Launched-cong Owner.join_thread g g' e f q z l = (e ∙ l.0, q ∙ l.1)
Launched-cong Owner.joined g g' e f q z (inl l) = inl (ap is_zero z ∙ l.0, e ∙ l.1)
Launched-cong Owner.joined g g' e f q z (inr l) = inr (f l)

-- A turn that is not the owner's.
kept-IsValid :
    (g g' : FuntraceGc)
    → IsHeld g'
    → is_started g'.thread ≡ is_started g.thread
    → (is_finished g.thread ≡ true → is_finished g'.thread ≡ true)
    → g'.quit ≡ g.quit
    → g'.gc_period_ms ≡ g.gc_period_ms
    → g'.owner ≡ g.owner
    → IsValid g
    → IsValid g'
kept-IsValid g g' h e f q z o v =
    (h, subst (λ x. Launched x g') (sym o) (Launched-cong g.owner g g' e f q z v.1))

pub turn-IsValid :
    (getenv : Env) (me : Thread) (t : Turn) (g : FuntraceGc)
    → IsValid g
    → IsValid (turn getenv me t g)
unfolding turn
turn-IsValid getenv me Turn.of_owner g v = owner_at-IsValid getenv g.owner g.thread g v
turn-IsValid getenv me (Turn.of_thread now) g v =
    let (e, f, q, z, o) = thread_at-Kept me now g.thread g in
    kept-IsValid g (thread_at me now g.thread g) (thread_at-IsHeld me now g.owner g.thread g v.0) e
      f q z o v
turn-IsValid getenv me Turn.of_system g v =
    let w = awake-Woken g.thread g in
    kept-IsValid g (awake g.thread g) (omega (arith, v.0, w.0, ap one_if w.3, ap owner_holds w.6))
      w.1 (λ e. w.2 ∙ e) w.4 w.5 w.6 v

pub turns-IsValid :
    (getenv : Env) (me : Thread) (ts : List Turn) (g : FuntraceGc)
    → IsValid g
    → IsValid (turns getenv me ts g)
unfolding turns
turns-IsValid getenv me [] g v = v
turns-IsValid getenv me (t ∷ ts) g v =
    turns-IsValid getenv me ts (turn getenv me t g) (turn-IsValid getenv me t g v)

pub start-IsValid :
    (getenv : Env) (me : Thread) (s : State) (ts : List Turn)
    → IsValid (turns getenv me ts (before_constructor s))
start-IsValid getenv me s ts = turns-IsValid getenv me ts (before_constructor s) (refl, refl)
