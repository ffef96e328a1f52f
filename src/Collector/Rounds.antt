-- ===== src/Collector/Rounds.antt =====
-- The rounds of the collector's thread, against `thread_func`.
use funtrace.Prelude.{
  ℕ, ◌≡◌, refl, ap, ap₂, sym, ◌∙◌, ◌⊎◌, inl, inr, Bool, true, false, List, [], ◌∷◌, ◌++◌,
  Bool-cases,
}
use funtrace.Registry.{State, Thread, collect_garbage}
use funtrace.Api.{funtrace_ignore_this_thread}
use funtrace.Collector.{Wake, gc_loop, thread_func}
use funtrace.Collector.Exit.{timeouts}
use funtrace.Collector.Life.{Place, FuntraceGc, awake, thread_at}

timeouts-snoc :
    (nows : List ℕ) (now : ℕ)
    → timeouts nows ++ record { now = now; exiting = false } ∷ [] ≡ timeouts (nows ++ now ∷ [])
timeouts-snoc [] now = refl
timeouts-snoc (n ∷ nows) now =
    ap (λ ws. record { now = n; exiting = false } ∷ ws) (timeouts-snoc nows now)

gc_loop_one :
    (now : ℕ) (exiting : Bool) (s : State)
    → gc_loop (record { now = now; exiting = exiting } ∷ []) s ≡ collect_garbage now exiting s
unfolding gc_loop
gc_loop_one now true s = refl
gc_loop_one now false s = refl

-- One round more.
gc_loop-snoc :
    (nows : List ℕ) (w : Wake) (s : State)
    → gc_loop (timeouts nows ++ w ∷ []) s
      ≡ collect_garbage w.now w.exiting (gc_loop (timeouts nows) s)
unfolding gc_loop
gc_loop-snoc [] w s = gc_loop_one w.now w.exiting s
gc_loop-snoc (n ∷ nows) w s = gc_loop-snoc nows w (collect_garbage n false s)

-- The last round.
abbrev pub last : ℕ → Wake
last now = record { now = now; exiting = true }

module _ (me : Thread) (s : State) where
  -- All rounds so far ended by their time, or the last one did not.
  abbrev pub Quiet : FuntraceGc → Type 0
  Quiet g =
      (nows : List ℕ) × (g.rounds ≡ timeouts nows) × (g.registry ≡ thread_func me (timeouts nows) s)

  abbrev pub Over : FuntraceGc → Type 0
  Over g =
      (nows : List ℕ) × (now : ℕ) × (g.rounds ≡ timeouts nows ++ last now ∷ [])
      × (g.registry ≡ thread_func me (timeouts nows ++ last now ∷ []) s)

  abbrev pub Unbegun : FuntraceGc → Type 0
  Unbegun g = (g.rounds ≡ []) × (g.registry ≡ s)

  -- What the thread has done at each of its places.
  abbrev pub Told : Place → FuntraceGc → Type 0
  Told Place.not_started g = Unbegun g
  Told Place.ignore_thread g = Unbegun g
  Told Place.lock_mutex g = Quiet g
  Told Place.begin_wait g = Quiet g
  Told Place.waiting g = Quiet g
  Told Place.lock_again g = Quiet g
  Told Place.check_quit g = Quiet g
  Told Place.collect g = Quiet g
  Told Place.unlock_mutex g = ((g.exiting ≡ false) × Quiet g) ⊎ ((g.exiting ≡ true) × Over g)
  Told Place.set_done g = Over g
  Told Place.finished g = (g.done ≡ true) × Over g

  collect-Told :
      (now : ℕ) (g : FuntraceGc)
      → Quiet g
      → Told Place.unlock_mutex (record g {
        registry = collect_garbage now g.exiting g.registry;
        rounds = g.rounds ++ record { now = now; exiting = g.exiting } ∷ [];
      })
  unfolding thread_func
  collect-Told now g (nows, e, f) = by_flag g.exiting refl
    where
      registry :
          collect_garbage now g.exiting g.registry
          ≡ gc_loop
              (timeouts nows ++ record { now = now; exiting = g.exiting } ∷ [])
              (funtrace_ignore_this_thread me s)
      registry =
          ap (collect_garbage now g.exiting) f
          ∙ sym (
              gc_loop-snoc nows (record { now = now; exiting = g.exiting })
                (funtrace_ignore_this_thread me s))

      by_flag :
          (b : Bool)
          → g.exiting ≡ b
          → Told Place.unlock_mutex (record g {
            registry = collect_garbage now g.exiting g.registry;
            rounds = g.rounds ++ record { now = now; exiting = g.exiting } ∷ [];
          })
      by_flag true x = inr (
        x,
        (
          nows,
          now,
          ap₂ (λ ws b. ws ++ record { now = now; exiting = b } ∷ []) e x,
          registry
              ∙ ap
                  (λ b.
                    gc_loop (timeouts nows ++ record { now = now; exiting = b } ∷ [])
                      (funtrace_ignore_this_thread me s))
                  x,
        ),
      )
      by_flag false x = inl (
        x,
        (
          nows ++ now ∷ [],
          ap₂ (λ ws b. ws ++ record { now = now; exiting = b } ∷ []) e x ∙ timeouts-snoc nows now,
          registry
              ∙ ap
                  (λ b.
                    gc_loop (timeouts nows ++ record { now = now; exiting = b } ∷ [])
                      (funtrace_ignore_this_thread me s))
                  x
              ∙ ap (λ ws. gc_loop ws (funtrace_ignore_this_thread me s)) (timeouts-snoc nows now),
        ),
      )

  abbrev pub IsTold : FuntraceGc → Type 0
  IsTold g = Told g.thread g

  pub thread_at-IsTold :
      (now : ℕ) (p : Place) (g : FuntraceGc)
      → Told p (record g { thread = p })
      → IsTold (thread_at me now p (record g { thread = p }))
  unfolding thread_at thread_func gc_loop
  thread_at-IsTold now Place.not_started g h = h
  thread_at-IsTold now Place.ignore_thread g h = ([], h.0, ap (funtrace_ignore_this_thread me) h.1)
  thread_at-IsTold now Place.lock_mutex g h = elim (Bool-cases g.locked) [
    | inl e ↦ rw e h
    | inr e ↦ rw e h
  ]
  thread_at-IsTold now Place.begin_wait g h = h
  thread_at-IsTold now Place.waiting g h = h
  thread_at-IsTold now Place.lock_again g h = elim (Bool-cases g.locked) [
    | inl e ↦ rw e h
    | inr e ↦ rw e h
  ]
  thread_at-IsTold now Place.check_quit g h = h
  thread_at-IsTold now Place.collect g h = collect-Told now g h
  thread_at-IsTold now Place.unlock_mutex g (inl h) = rw h.0 h.1
  thread_at-IsTold now Place.unlock_mutex g (inr h) = rw h.0 h.1
  thread_at-IsTold now Place.set_done g h = (refl, h)
  thread_at-IsTold now Place.finished g h = h

  pub awake-IsTold :
      (p : Place) (g : FuntraceGc)
      → Told p (record g { thread = p })
      → IsTold (awake p (record g { thread = p }))
  awake-IsTold Place.waiting g h = h
  awake-IsTold Place.not_started g h = h
  awake-IsTold Place.ignore_thread g h = h
  awake-IsTold Place.lock_mutex g h = h
  awake-IsTold Place.begin_wait g h = h
  awake-IsTold Place.lock_again g h = h
  awake-IsTold Place.check_quit g h = h
  awake-IsTold Place.collect g h = h
  awake-IsTold Place.unlock_mutex g h = h
  awake-IsTold Place.set_done g h = h
  awake-IsTold Place.finished g h = h
