-- ===== src/History/Followed.antt =====
-- The steps of a run against what the logs say of the buffers.
use funtrace.Prelude.{ℕ, ◌≤◌, ◌≡◌, refl, ap, sym, subst, inl, [], ◌∷◌, ◌++◌, arith}
use funtrace.TraceBuffer.Layout.{Memory}
use funtrace.TraceBuffer.Outcome.{Outcome, allocate-Outcome}
use funtrace.TraceBuffer.{TraceData}
use funtrace.TraceBuffer.Run.{trace-disabled}
use funtrace.Registry.Pointers.{count}
use funtrace.Registry.Ledger.{IsBalanced}
use funtrace.Registry.Registering.{Registered, register-Registered, Step-IsBalanced}
use funtrace.Registry.Carried.{unregister-Carried, collect_garbage-Carried, name-Carried}
use funtrace.Registry.Switch.{AllReady}
use funtrace.Registry.Lives.{Step-AllReady}
use funtrace.Registry.System.{
  World, Step, register, unregister, collect, pause, resume, name, call, idle_call, block_of,
  names_updated, traced,
}
use funtrace.Registry.{
  State, Thread, update, registered, unregister_this_thread, collect_garbage, pause_tracing,
  resume_tracing,
}
use funtrace.Registry.Reachable.{update_self}
use funtrace.History.Kept.{
  IsFollowed, Keeps, Keeps-IsFollowed, Carried-Keeps, pause-Keeps, resume-Keeps,
}
use funtrace.History.Called.{call-IsFollowed, disabled-Keeps}
use funtrace.History.Joined.{register-IsFollowed}
use funtrace.History.{Logs, Run, begun, further, Apart, Obeys, logged, put_log}

-- The logs of before.
kept-IsFollowed : (s s' : State) (logs : Logs) → Keeps s s' → IsFollowed s logs → IsFollowed s' logs
kept-IsFollowed s s' logs keeps h = Keeps-IsFollowed s s' logs logs keeps (λ p k pos. refl) h

joined-IsFollowed :
    (s s' : State) (logs : Logs) (thread : Thread) (r : Memory × TraceData)
    → AllReady s
    → IsFollowed s logs
    → count thread.self s.thread_traces ≡ 0
    → Outcome (s.memory, s.traces thread.self) r
    → Registered thread s s' r
    → ((q : ℕ) → 1 ≤ count q s.thread_traces → Apart (s'.traces thread.self) (s.traces q))
    → IsFollowed s' (put_log (block_of s' thread.self) [] logs)
joined-IsFollowed s s' logs thread r ready h new o shape =
    subst
      (λ s'.
        ((q : ℕ) → 1 ≤ count q s.thread_traces → Apart (s'.traces thread.self) (s.traces q))
        → IsFollowed s' (put_log (block_of s' thread.self) [] logs))
      (sym shape)
      (subst
        (λ t.
          ((q : ℕ) → 1 ≤ count q s.thread_traces → Apart t (s.traces q))
          → IsFollowed joined (put_log t.buf [] logs))
        (sym (update_self thread.self (registered s thread r.1) s.traces))
        (register-IsFollowed s logs thread r ready h new o))
  where
    joined : State
    joined = record s {
      memory = r.0;
      traces = update thread.self (registered s thread r.1) s.traces;
      thread_traces = s.thread_traces ++ thread.self ∷ [];
    }

Step-IsFollowed :
    {w u : World} (step : Step w u) (logs : Logs)
    → IsBalanced w
    → AllReady w.state
    → Obeys step logs
    → IsFollowed w.state logs
    → IsFollowed u.state (logged step logs)
Step-IsFollowed {w} (register getenv memalign thread n s' laws new e fresh) logs b ready away h =
    let (r, f, shape) = register-Registered getenv memalign thread n w.state s' e in
    joined-IsFollowed w.state s' logs thread r ready h new
      (allocate-Outcome getenv memalign n (w.state.memory, w.state.traces thread.self) r laws f)
      shape away
Step-IsFollowed {w} (unregister getname now copy thread defer_free new) logs b ready obeys h =
    kept-IsFollowed w.state (unregister_this_thread getname now copy thread defer_free w.state) logs
      (Carried-Keeps w.state (unregister_this_thread getname now copy thread defer_free w.state)
        (unregister-Carried w b getname now copy thread defer_free))
      h
Step-IsFollowed {w} (collect now exiting_program) logs b ready obeys h =
    kept-IsFollowed w.state (collect_garbage now exiting_program w.state) logs
      (Carried-Keeps w.state (collect_garbage now exiting_program w.state)
        (collect_garbage-Carried w now exiting_program b))
      h
Step-IsFollowed {w} pause logs b ready obeys h =
    kept-IsFollowed w.state (pause_tracing w.state) logs (pause-Keeps w.state) h
Step-IsFollowed {w} resume logs b ready obeys h =
    kept-IsFollowed w.state (resume_tracing w.state) logs (resume-Keeps w.state) h
Step-IsFollowed {w} (name getname) logs b ready obeys h =
    kept-IsFollowed w.state (names_updated getname w.state) logs
      (Carried-Keeps w.state (names_updated getname w.state) (name-Carried getname w.state)) h
Step-IsFollowed {w} (call self ptr flags cycle known) logs b ready obeys h =
    call-IsFollowed w logs self ptr flags cycle known b ready h obeys
Step-IsFollowed {w} (idle_call self ptr flags cycle other off) logs b ready obeys h =
    kept-IsFollowed w.state (traced self ptr flags cycle w.state) logs
      (disabled-Keeps self ptr flags cycle w.state
        (trace-disabled ptr flags cycle (w.state.traces self) w.state.memory (inl off)))
      h

pub Run-IsFollowed :
    {w u : World} {logs : Logs}
    → Run w u logs
    → IsBalanced w
    → AllReady w.state
    → IsFollowed w.state (λ b. [])
    → IsBalanced u × AllReady u.state × IsFollowed u.state logs
Run-IsFollowed begun b ready h = (b, ready, h)
Run-IsFollowed (further {logs = logs} run step obeys) b ready h =
    let (b', ready', h') = Run-IsFollowed run b ready h in
    (
      Step-IsBalanced step b',
      Step-AllReady step b' ready',
      Step-IsFollowed step logs b' ready' obeys h',
    )

pub unregistered-IsFollowed : (s : State) (logs : Logs) → s.thread_traces ≡ [] → IsFollowed s logs
unregistered-IsFollowed s logs e = record {
  follows = λ p k pos. absurd (omega (arith, k, ap (count p) e));
  apart = λ p q k j. absurd (omega (arith, k, ap (count p) e));
}
