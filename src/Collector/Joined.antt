-- ===== src/Collector/Joined.antt =====
-- What the end of the collector's thread leaves behind.
use funtrace.Prelude.{
  ℕ, ◌≡◌, ap, subst, ◌⊎◌, inl, inr, true, false, List, [], ◌∷◌, ◌++◌, ◌==◌, if◌then◌else◌, ◌∙◌,
  is_zero, refl,
}
use funtrace.Config.{Env}
use funtrace.Registry.Pointers.{count}
use funtrace.Registry.{State, Thread}
use funtrace.Api.{funtrace_ignore_this_thread}
use funtrace.Collector.{thread_func}
use funtrace.Collector.Exit.{timeouts, gc_loop-count}
use funtrace.Collector.Life.{Owner, Place, FuntraceGc, before_constructor, is_finished, Turn, turns}
use funtrace.Collector.Holders.{is_started, Launched}
use funtrace.Collector.Turns.{start-IsValid}
use funtrace.Collector.Rounds.{last, Told}
use funtrace.Collector.Told.{start-Told}

-- There never was a thread.
abbrev pub NeverStarted : State → FuntraceGc → Type 0
NeverStarted s g =
    (is_zero g.gc_period_ms ≡ true) × (g.thread ≡ Place.not_started) × (g.registry ≡ s)

-- The thread has finished, after rounds that ended by their time and one that did not, and these are
-- what it did to the registry.
abbrev pub HasFinished : Thread → State → FuntraceGc → Type 0
HasFinished me s g =
    (g.thread ≡ Place.finished)
    × (g.done ≡ true)
    × ((nows : List ℕ) × (now : ℕ) × (g.registry
          ≡ thread_func me (timeouts nows ++ last now ∷ []) s))

unstarted-NeverStarted :
    (me : Thread) (s : State) (p : Place) (g : FuntraceGc)
    → is_started p ≡ false
    → is_zero g.gc_period_ms ≡ true
    → Told me s p (record g { thread = p })
    → NeverStarted s (record g { thread = p })
unstarted-NeverStarted me s Place.not_started g e z h = (z, refl, h.1)
unstarted-NeverStarted me s Place.ignore_thread g e z h = absurd cc
unstarted-NeverStarted me s Place.lock_mutex g e z h = absurd cc
unstarted-NeverStarted me s Place.begin_wait g e z h = absurd cc
unstarted-NeverStarted me s Place.waiting g e z h = absurd cc
unstarted-NeverStarted me s Place.lock_again g e z h = absurd cc
unstarted-NeverStarted me s Place.check_quit g e z h = absurd cc
unstarted-NeverStarted me s Place.collect g e z h = absurd cc
unstarted-NeverStarted me s Place.unlock_mutex g e z h = absurd cc
unstarted-NeverStarted me s Place.set_done g e z h = absurd cc
unstarted-NeverStarted me s Place.finished g e z h = absurd cc

finished-HasFinished :
    (me : Thread) (s : State) (p : Place) (g : FuntraceGc)
    → is_finished p ≡ true
    → Told me s p (record g { thread = p })
    → HasFinished me s (record g { thread = p })
finished-HasFinished me s Place.finished g e (d, (nows, now, r, f)) = (refl, d, (nows, now, f))
finished-HasFinished me s Place.not_started g e h = absurd cc
finished-HasFinished me s Place.ignore_thread g e h = absurd cc
finished-HasFinished me s Place.lock_mutex g e h = absurd cc
finished-HasFinished me s Place.begin_wait g e h = absurd cc
finished-HasFinished me s Place.waiting g e h = absurd cc
finished-HasFinished me s Place.lock_again g e h = absurd cc
finished-HasFinished me s Place.check_quit g e h = absurd cc
finished-HasFinished me s Place.collect g e h = absurd cc
finished-HasFinished me s Place.unlock_mutex g e h = absurd cc
finished-HasFinished me s Place.set_done g e h = absurd cc

-- Whatever the order of the turns of the owner, of the thread and of wake-ups without a
-- notification: when the destructor has returned, either the period is 0, there never was a thread
-- and the registry is as it was, or the thread has finished and said so. It has then done to the
-- registry what `thread_func` does in rounds of which all but the last ended by their time.
pub turns-joined :
    (getenv : Env) (me : Thread) (s : State) (ts : List Turn)
    → let g = turns getenv me ts (before_constructor s) in
      g.owner ≡ Owner.joined → NeverStarted s g ⊎ HasFinished me s g
turns-joined getenv me s ts e =
    by_way (subst (λ o. Launched o g) e (start-IsValid getenv me s ts).1)
  where
    g : FuntraceGc
    g = turns getenv me ts (before_constructor s)

    by_way : Launched Owner.joined g → NeverStarted s g ⊎ HasFinished me s g
    by_way (inl l) =
        inl (unstarted-NeverStarted me s g.thread g l.1 l.0 (start-Told me s getenv ts))
    by_way (inr f) = inr (finished-HasFinished me s g.thread g f (start-Told me s getenv ts))

-- Whatever the order of the turns, with a period other than 0 and a maximal age other than 0: when
-- the destructor has returned, no trace of a finished thread is registered, and each trace of a live
-- thread as often as it was once the collector's thread was left out.
pub joined-count :
    (getenv : Env) (me : Thread) (s : State) (ts : List Turn) (p : ℕ)
    → let g = turns getenv me ts (before_constructor s) in
      let begun = funtrace_ignore_this_thread me s in
      g.owner ≡ Owner.joined
      → is_zero g.gc_period_ms ≡ false
      → is_zero begun.gc_max_age_ms ≡ false
      → count p g.registry.thread_traces
        ≡ (if (begun.traces p).thread == 0 then 0 else count p begun.thread_traces)
unfolding thread_func
joined-count getenv me s ts p e z age = by_way (turns-joined getenv me s ts e)
  where
    g : FuntraceGc
    g = turns getenv me ts (before_constructor s)

    begun : State
    begun = funtrace_ignore_this_thread me s

    by_way :
        NeverStarted s g ⊎ HasFinished me s g
        → count p g.registry.thread_traces
          ≡ (if (begun.traces p).thread == 0 then 0 else count p begun.thread_traces)
    by_way (inl h) = absurd (cc (h.0, z))
    by_way (inr (f, d, (nows, now, r))) =
        ap (λ s. count p s.thread_traces) r ∙ gc_loop-count nows now p [] begun age
