-- ===== src/Collector/Told.antt =====
-- The turns of the collector against the rounds that its thread has made.
use funtrace.Prelude.{◌≡◌, refl, ap, inl, inr, false, List, [], ◌∷◌, Bool-cases}
use funtrace.Config.{Env}
use funtrace.Registry.{State, Thread}
use funtrace.Collector.Life.{
  Owner, Place, FuntraceGc, before_constructor, awake, owner_at, Turn, turn, turns,
}
use funtrace.Collector.Holders.{is_started, IsValid, at}
use funtrace.Collector.Turns.{turn-IsValid}
use funtrace.Collector.Rounds.{Told, IsTold, thread_at-IsTold, awake-IsTold}

module _ (me : Thread) (s : State) where
  start-IsTold :
      (p : Place) (g : FuntraceGc)
      → is_started p ≡ false
      → Told me s p g
      → Told me s Place.ignore_thread g
  start-IsTold Place.not_started g e h = h
  start-IsTold Place.ignore_thread g e h = absurd cc
  start-IsTold Place.lock_mutex g e h = absurd cc
  start-IsTold Place.begin_wait g e h = absurd cc
  start-IsTold Place.waiting g e h = absurd cc
  start-IsTold Place.lock_again g e h = absurd cc
  start-IsTold Place.check_quit g e h = absurd cc
  start-IsTold Place.collect g e h = absurd cc
  start-IsTold Place.unlock_mutex g e h = absurd cc
  start-IsTold Place.set_done g e h = absurd cc
  start-IsTold Place.finished g e h = absurd cc

  -- Other fields than those that tell of the thread.
  Told-cong :
      (p : Place) (g g' : FuntraceGc)
      → g'.rounds ≡ g.rounds
      → g'.registry ≡ g.registry
      → g'.exiting ≡ g.exiting
      → (p ≡ Place.finished → g'.done ≡ g.done)
      → Told me s p g
      → Told me s p g'
  Told-cong Place.not_started g g' e f x d h = rw (e, f) h
  Told-cong Place.ignore_thread g g' e f x d h = rw (e, f) h
  Told-cong Place.lock_mutex g g' e f x d h = rw (e, f) h
  Told-cong Place.begin_wait g g' e f x d h = rw (e, f) h
  Told-cong Place.waiting g g' e f x d h = rw (e, f) h
  Told-cong Place.lock_again g g' e f x d h = rw (e, f) h
  Told-cong Place.check_quit g g' e f x d h = rw (e, f) h
  Told-cong Place.collect g g' e f x d h = rw (e, f) h
  Told-cong Place.unlock_mutex g g' e f x d h = rw (e, f, x) h
  Told-cong Place.set_done g g' e f x d h = rw (e, f) h
  Told-cong Place.finished g g' e f x d h = rw (e, f, d refl) h

  owner_at-IsTold :
      (getenv : Env) (o : Owner) (p : Place) (g : FuntraceGc)
      → IsValid (at o p g)
      → Told me s p (at o p g)
      → IsTold me s (owner_at getenv o (at o p g))
  unfolding owner_at
  owner_at-IsTold getenv Owner.read_period p g v h =
      Told-cong p (at Owner.read_period p g) _ refl refl refl (λ e. refl) h
  owner_at-IsTold getenv Owner.clear_quit p g v h =
      Told-cong p (at Owner.clear_quit p g) _ refl refl refl (λ e. refl) h
  owner_at-IsTold getenv Owner.clear_done p g v h =
      Told-cong p (at Owner.clear_done p g) _ refl refl refl
        (λ e. absurd (cc (v.1.0, ap is_started e))) h
  owner_at-IsTold getenv Owner.start_thread p g v h =
      start-IsTold p (at Owner.start_thread p g) v.1.0 h
  owner_at-IsTold getenv Owner.test_period p g v h =
      Told-cong p (at Owner.test_period p g) _ refl refl refl (λ e. refl) h
  owner_at-IsTold getenv Owner.set_quit p g v h =
      Told-cong p (at Owner.set_quit p g) _ refl refl refl (λ e. refl) h
  owner_at-IsTold getenv Owner.lock_mutex p g v h = elim (Bool-cases g.locked) [
    | inl e ↦ rw e (Told-cong p (at Owner.lock_mutex p g) _ refl refl refl (λ e. refl) h)
    | inr e ↦ rw e (Told-cong p (at Owner.lock_mutex p g) _ refl refl refl (λ e. refl) h)
  ]
  owner_at-IsTold getenv Owner.notify p g v h =
      let g' = awake p (at Owner.notify p g) in
      Told-cong g'.thread g' _ refl refl refl (λ e. refl)
        (awake-IsTold me s p (at Owner.notify p g) h)
  owner_at-IsTold getenv Owner.unlock_mutex p g v h =
      Told-cong p (at Owner.unlock_mutex p g) _ refl refl refl (λ e. refl) h
  owner_at-IsTold getenv Owner.join_thread p g v h =
      Told-cong p (at Owner.join_thread p g) _ refl refl refl (λ e. refl) h
  owner_at-IsTold getenv Owner.joined p g v h = h

  turn-IsTold :
      (getenv : Env) (t : Turn) (g : FuntraceGc)
      → IsValid g
      → IsTold me s g
      → IsTold me s (turn getenv me t g)
  unfolding turn
  turn-IsTold getenv Turn.of_owner g v h = owner_at-IsTold getenv g.owner g.thread g v h
  turn-IsTold getenv (Turn.of_thread now) g v h = thread_at-IsTold me s now g.thread g h
  turn-IsTold getenv Turn.of_system g v h = awake-IsTold me s g.thread g h

  turns-IsTold :
      (getenv : Env) (ts : List Turn) (g : FuntraceGc)
      → IsValid g
      → IsTold me s g
      → IsTold me s (turns getenv me ts g)
  unfolding turns
  turns-IsTold getenv [] g v h = h
  turns-IsTold getenv (t ∷ ts) g v h =
      turns-IsTold getenv ts (turn getenv me t g) (turn-IsValid getenv me t g v)
        (turn-IsTold getenv t g v h)

  pub start-Told :
      (getenv : Env) (ts : List Turn)
      → let g = turns getenv me ts (before_constructor s) in Told me s g.thread g
  start-Told getenv ts = turns-IsTold getenv ts (before_constructor s) (refl, refl) (refl, refl)
