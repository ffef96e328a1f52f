-- ===== src/Registry/Lives.antt =====
-- Threads that leave and register, and any order of steps, against the registry's switch.
use funtrace.Prelude.{
  refl, sym, subst, inl, inr, Bool, true, false, [], ◌∷◌, ◌++◌, arith, if◌then◌else◌,
}
use funtrace.TraceBuffer.Layout.{Memory}
use funtrace.TraceBuffer.Outcome.{Outcome, allocate-Outcome}
use funtrace.TraceBuffer.{TraceData, MemAlign, trace, free, no_buffer, update_name}
use funtrace.TraceBuffer
use funtrace.Registry.Pointers.{count-append}
use funtrace.Registry.Ready.{IsReady, IsReady-pause, IsReady-cong}
use funtrace.Registry.Ledger.{IsBalanced}
use funtrace.Registry.Registering.{Registered, register-Registered, Step-IsBalanced}
use funtrace.Registry.System.{
  names_updated, World, Step, Reach, register, unregister, collect, pause, resume, name, call,
  idle_call, here, next,
}
use funtrace.Registry.{State, Thread, update, registered, collect_garbage, unregister_this_thread}
use funtrace.Registry.Carried.{unregister-Carried, collect_garbage-Carried, name-Carried}
use funtrace.Registry.Switch.{
  AllReady, pause-AllReady, resume-AllReady, Carried-AllReady, updated-IsReady, call-AllReady,
  idle-AllReady,
}

registered-IsReady :
    (s : State) (thread : Thread) (t : Memory × TraceData) (r : Memory × TraceData)
    → Outcome t r
    → IsReady s.tracing_paused (registered s thread r.1)
registered-IsReady s thread t r o =
    IsReady-cong s.tracing_paused (if s.tracing_paused then TraceBuffer.pause_tracing r.1 else r.1)
      (registered s thread r.1) refl refl refl refl (by_switch s.tracing_paused o)
  where
    by_switch :
        (paused : Bool)
        → Outcome t r
        → IsReady paused (if paused then TraceBuffer.pause_tracing r.1 else r.1)
    by_switch true (inl o) = IsReady-pause false r.1 (inl (o.0, (λ e. cc), (λ e. o.1)))
    by_switch false (inl o) = inl (o.0, (λ e. cc), (λ e. o.1))
    by_switch true (inr e) = IsReady-pause false r.1 (inr (rw e (refl, refl, refl)))
    by_switch false (inr e) = inr (rw e (refl, refl, refl))

register-AllReady :
    (s s' : State) (thread : Thread) (r : Memory × TraceData)
    → AllReady s
    → Registered thread s s' r
    → Outcome (s.memory, s.traces thread.self) r
    → AllReady s'
register-AllReady s s' thread r h shape o = subst AllReady (sym shape) ready
  where
    ready : AllReady (record s {
      memory = r.0;
      traces = update thread.self (registered s thread r.1) s.traces;
      thread_traces = s.thread_traces ++ thread.self ∷ [];
    })
    ready p k =
        updated-IsReady s.tracing_paused thread.self p (registered s thread r.1) s.traces
          (registered-IsReady s thread (s.memory, s.traces thread.self) r o)
          (λ e. h p (ground (arith, k, count-append p s.thread_traces (thread.self ∷ []))))

pub Step-AllReady : {w u : World} → Step w u → IsBalanced w → AllReady w.state → AllReady u.state
Step-AllReady {w} (register getenv memalign thread n s' laws new e fresh) b h =
    let (r, f, shape) = register-Registered getenv memalign thread n w.state s' e in
    register-AllReady w.state s' thread r h shape
      (allocate-Outcome getenv memalign n (w.state.memory, w.state.traces thread.self) r laws f)
Step-AllReady {w} (unregister getname now copy thread defer_free new) b h =
    Carried-AllReady w.state (unregister_this_thread getname now copy thread defer_free w.state)
      (unregister-Carried w b getname now copy thread defer_free) h
Step-AllReady {w} (collect now exiting_program) b h =
    Carried-AllReady w.state (collect_garbage now exiting_program w.state)
      (collect_garbage-Carried w now exiting_program b) h
Step-AllReady {w} pause b h = pause-AllReady w.state h
Step-AllReady {w} resume b h = resume-AllReady w.state h
Step-AllReady {w} (name getname) b h =
    Carried-AllReady w.state (names_updated getname w.state) (name-Carried getname w.state) h
Step-AllReady {w} (call self ptr flags cycle known) b h =
    call-AllReady self ptr flags cycle w.state known h
Step-AllReady {w} (idle_call self ptr flags cycle other off) b h =
    idle-AllReady self ptr flags cycle w.state other h

pub Reach-AllReady :
    {w u : World} → Reach w u → IsBalanced w → AllReady w.state → IsBalanced u × AllReady u.state
Reach-AllReady here b h = (b, h)
Reach-AllReady (next r st) b h =
    let (b', h') = Reach-AllReady r b h in (Step-IsBalanced st b', Step-AllReady st b' h')
