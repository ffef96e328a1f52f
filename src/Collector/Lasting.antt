-- ===== src/Collector/Lasting.antt =====
-- The rounds of the collector's thread before its destructor sets the flag.
use funtrace.Prelude.{
  ℕ, ◌≡◌, refl, sym, ◌∙◌, inl, inr, Bool, true, false, List, [], ◌∷◌, Bool-cases,
}
use funtrace.Config.{Env}
use funtrace.Registry.{State, Thread}
use funtrace.Collector.Exit.{timeouts}
use funtrace.Collector.Life.{
  Owner, Place, FuntraceGc, before_constructor, is_finished, owner_at, thread_at, Turn, turn, turns,
}
use funtrace.Collector.Holders.{is_started, IsValid, at, awake-Woken}
use funtrace.Collector.Turns.{turn-IsValid, thread_at-Kept}
use funtrace.Collector.Rounds.{Told}
use funtrace.Collector.Told.{start-Told}

-- No wake-up comes without a notification.
abbrev pub all_notified : List Turn → Bool
all_notified [] = true
all_notified (Turn.of_owner ∷ ts) = all_notified ts
all_notified (Turn.of_thread now ∷ ts) = all_notified ts
all_notified (Turn.of_system ∷ ts) = false

-- A wait has ended by its time, and a round does not end the loop.
abbrev Lasts : Place → FuntraceGc → Type 0
Lasts Place.not_started g = Unit
Lasts Place.ignore_thread g = Unit
Lasts Place.lock_mutex g = Unit
Lasts Place.begin_wait g = Unit
Lasts Place.waiting g = Unit
Lasts Place.lock_again g = g.timed_out ≡ true
Lasts Place.check_quit g = g.timed_out ≡ true
Lasts Place.collect g = g.exiting ≡ false
Lasts Place.unlock_mutex g = g.exiting ≡ false
Lasts Place.set_done g = true ≡ false
Lasts Place.finished g = true ≡ false

-- While the flag is not set.
abbrev IsLasting : FuntraceGc → Type 0
IsLasting g = g.quit ≡ false → Lasts g.thread g

thread_at-Lasts :
    (me : Thread) (now : ℕ) (p : Place) (g : FuntraceGc)
    → g.quit ≡ false
    → Lasts p (record g { thread = p })
    → let g' = thread_at me now p (record g { thread = p }) in Lasts g'.thread g'
unfolding thread_at
thread_at-Lasts me now Place.not_started g q h = h
thread_at-Lasts me now Place.ignore_thread g q h = h
thread_at-Lasts me now Place.lock_mutex g q h = elim (Bool-cases g.locked) [
  | inl e ↦ rw e tt
  | inr e ↦ rw e tt
]
thread_at-Lasts me now Place.begin_wait g q h = tt
thread_at-Lasts me now Place.waiting g q h = refl
thread_at-Lasts me now Place.lock_again g q h = elim (Bool-cases g.locked) [
  | inl e ↦ rw e h
  | inr e ↦ rw e h
]
thread_at-Lasts me now Place.check_quit g q h = rw (h, q) refl
thread_at-Lasts me now Place.collect g q h = h
thread_at-Lasts me now Place.unlock_mutex g q h = rw h tt
thread_at-Lasts me now Place.set_done g q h = absurd (cc h)
thread_at-Lasts me now Place.finished g q h = h

Lasts-cong :
    (p : Place) (g g' : FuntraceGc)
    → g'.timed_out ≡ g.timed_out
    → g'.exiting ≡ g.exiting
    → Lasts p g
    → Lasts p g'
Lasts-cong Place.not_started g g' e f h = tt
Lasts-cong Place.ignore_thread g g' e f h = tt
Lasts-cong Place.lock_mutex g g' e f h = tt
Lasts-cong Place.begin_wait g g' e f h = tt
Lasts-cong Place.waiting g g' e f h = tt
Lasts-cong Place.lock_again g g' e f h = e ∙ h
Lasts-cong Place.check_quit g g' e f h = e ∙ h
Lasts-cong Place.collect g g' e f h = f ∙ h
Lasts-cong Place.unlock_mutex g g' e f h = f ∙ h
Lasts-cong Place.set_done g g' e f h = h
Lasts-cong Place.finished g g' e f h = h

unstarted-Lasts : (p : Place) (g : FuntraceGc) → is_started p ≡ false → Lasts p g
unstarted-Lasts Place.not_started g e = tt
unstarted-Lasts Place.ignore_thread g e = tt
unstarted-Lasts Place.lock_mutex g e = tt
unstarted-Lasts Place.begin_wait g e = tt
unstarted-Lasts Place.waiting g e = tt
unstarted-Lasts Place.lock_again g e = absurd cc
unstarted-Lasts Place.check_quit g e = absurd cc
unstarted-Lasts Place.collect g e = absurd cc
unstarted-Lasts Place.unlock_mutex g e = absurd cc
unstarted-Lasts Place.set_done g e = absurd cc
unstarted-Lasts Place.finished g e = absurd cc

lock_mutex-quit :
    (getenv : Env) (g : FuntraceGc) → (owner_at getenv Owner.lock_mutex g).quit ≡ g.quit
unfolding owner_at
lock_mutex-quit getenv g = elim (Bool-cases g.locked) [ inl e ↦ rw e | inr e ↦ rw e ]

owner_at-IsLasting :
    (getenv : Env) (o : Owner) (p : Place) (g : FuntraceGc)
    → IsValid (at o p g)
    → IsLasting (at o p g)
    → IsLasting (owner_at getenv o (at o p g))
unfolding owner_at
owner_at-IsLasting getenv Owner.read_period p g v h q =
    Lasts-cong p (at Owner.read_period p g) _ refl refl (h q)
owner_at-IsLasting getenv Owner.clear_quit p g v h q = unstarted-Lasts p _ v.1.0
owner_at-IsLasting getenv Owner.clear_done p g v h q = unstarted-Lasts p _ v.1.0
owner_at-IsLasting getenv Owner.start_thread p g v h q = tt
owner_at-IsLasting getenv Owner.test_period p g v h q =
    Lasts-cong p (at Owner.test_period p g) _ refl refl (h q)
owner_at-IsLasting getenv Owner.set_quit p g v h q = absurd (cc q)
owner_at-IsLasting getenv Owner.lock_mutex p g (v, l) h q =
    absurd (cc (q, lock_mutex-quit getenv (at Owner.lock_mutex p g), l.1))
owner_at-IsLasting getenv Owner.notify p g (v, l) h q =
    absurd (cc (q, (awake-Woken p (at Owner.notify p g)).4, l.1))
owner_at-IsLasting getenv Owner.unlock_mutex p g (v, l) h q = absurd (cc (q, l.1))
owner_at-IsLasting getenv Owner.join_thread p g (v, l) h q = absurd (cc (q, l.1))
owner_at-IsLasting getenv Owner.joined p g v h q = h q

turns-IsLasting :
    (getenv : Env) (me : Thread) (ts : List Turn) (g : FuntraceGc)
    → all_notified ts ≡ true
    → IsValid g
    → IsLasting g
    → IsLasting (turns getenv me ts g)
unfolding turns turn
turns-IsLasting getenv me [] g e v h = h
turns-IsLasting getenv me (Turn.of_owner ∷ ts) g e v h =
    turns-IsLasting getenv me ts (owner_at getenv g.owner g) e
      (turn-IsValid getenv me Turn.of_owner g v) (owner_at-IsLasting getenv g.owner g.thread g v h)
turns-IsLasting getenv me (Turn.of_thread now ∷ ts) g e v h =
    let (started, finished, quit, period, owner) = thread_at-Kept me now g.thread g in
    turns-IsLasting getenv me ts (thread_at me now g.thread g) e
      (turn-IsValid getenv me (Turn.of_thread now) g v)
      (λ q. thread_at-Lasts me now g.thread g (sym quit ∙ q) (h (sym quit ∙ q)))
turns-IsLasting getenv me (Turn.of_system ∷ ts) g e v h = absurd (cc e)

lasting-timeouts :
    (me : Thread) (s : State) (p : Place) (g : FuntraceGc)
    → Lasts p g
    → Told me s p g
    → (nows : List ℕ) × (g.rounds ≡ timeouts nows)
lasting-timeouts me s Place.not_started g h t = ([], t.0)
lasting-timeouts me s Place.ignore_thread g h t = ([], t.0)
lasting-timeouts me s Place.lock_mutex g h (nows, r, f) = (nows, r)
lasting-timeouts me s Place.begin_wait g h (nows, r, f) = (nows, r)
lasting-timeouts me s Place.waiting g h (nows, r, f) = (nows, r)
lasting-timeouts me s Place.lock_again g h (nows, r, f) = (nows, r)
lasting-timeouts me s Place.check_quit g h (nows, r, f) = (nows, r)
lasting-timeouts me s Place.collect g h (nows, r, f) = (nows, r)
lasting-timeouts me s Place.unlock_mutex g h (inl (x, (nows, r, f))) = (nows, r)
lasting-timeouts me s Place.unlock_mutex g h (inr (x, t)) = absurd (cc (x, h))
lasting-timeouts me s Place.set_done g h t = absurd (cc h)
lasting-timeouts me s Place.finished g h t = absurd (cc h)

-- In any order of turns of the owner and the thread, in which no wait is woken up without a
-- notification: as long as the destructor has not set the flag, the waits of all rounds of the thread
-- so far ended by their time, and the thread has not finished.
pub turns-lasting :
    (getenv : Env) (me : Thread) (s : State) (ts : List Turn)
    → all_notified ts ≡ true
    → let g = turns getenv me ts (before_constructor s) in
      g.quit ≡ false
      → ((nows : List ℕ) × (g.rounds ≡ timeouts nows)) × (is_finished g.thread ≡ false)
turns-lasting getenv me s ts e q =
    let g = turns getenv me ts (before_constructor s) in
    let lasts = turns-IsLasting getenv me ts (before_constructor s) e (refl, refl) (λ q. tt) q in
    (
      lasting-timeouts me s g.thread g lasts (start-Told me s getenv ts),
      unfinished g.thread g lasts,
    )
  where
    unfinished : (p : Place) (g : FuntraceGc) → Lasts p g → is_finished p ≡ false
    unfinished Place.not_started g h = refl
    unfinished Place.ignore_thread g h = refl
    unfinished Place.lock_mutex g h = refl
    unfinished Place.begin_wait g h = refl
    unfinished Place.waiting g h = refl
    unfinished Place.lock_again g h = refl
    unfinished Place.check_quit g h = refl
    unfinished Place.collect g h = refl
    unfinished Place.unlock_mutex g h = refl
    unfinished Place.set_done g h = refl
    unfinished Place.finished g h = absurd (cc h)
