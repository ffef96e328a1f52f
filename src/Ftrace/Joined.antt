-- ===== src/Ftrace/Joined.antt =====
-- The thread that collects ftrace events has ended when its handler is destroyed.
use funtrace.Prelude.{
  ℕ, ◌≡◌, ◌⊎◌, inl, inr, refl, sym, subst, Bool, true, false, List, [], ◌∷◌, ◌++◌,
}
use funtrace.Ftrace.Files.{Setting}
use funtrace.Ftrace.Thread.{
  Owner, Place, Collecting, before_constructor, is_finished, thread_at, Turn, turn, turns,
}
use funtrace.Ftrace.Awaited.{
  IsAlone, ValidAt, IsValid, set, owner_at-IsValid, thread_at-owner, thread_at-IsRunning,
  thread_at-IsAwaited,
}

alone_waits : (e : Setting) (c : Collecting) → IsAlone c → c ≡ thread_at e c.thread c
unfolding thread_at
alone_waits e c v = subst (λ p. c ≡ thread_at e p c) (sym v.0) refl

finished-kept :
    (e : Setting) (p : Place) (c : Collecting)
    → is_finished p ≡ true
    → is_finished (thread_at e p (set p c)).thread ≡ true
unfolding thread_at
finished-kept e Place.finished c f = refl
finished-kept e Place.not_started c f = absurd cc
finished-kept e Place.set_started c f = absurd cc
finished-kept e Place.set_up c f = absurd cc
finished-kept e Place.unlock_start c f = absurd cc
finished-kept e Place.check_quit c f = absurd cc
finished-kept e Place.read_line c f = absurd cc
finished-kept e Place.lock_line c f = absurd cc
finished-kept e Place.log_line c f = absurd cc
finished-kept e Place.unlock_line c f = absurd cc
finished-kept e Place.set_done c f = absurd cc

thread_at-ValidAt :
    (e : Setting) (o : Owner) (c : Collecting) → ValidAt o c → ValidAt o (thread_at e c.thread c)
thread_at-ValidAt e Owner.clear_flags c v = subst (ValidAt Owner.clear_flags) (alone_waits e c v) v
thread_at-ValidAt e Owner.init_ftrace c v = subst (ValidAt Owner.init_ftrace) (alone_waits e c v) v
thread_at-ValidAt e Owner.lock_mutex c v = subst (ValidAt Owner.lock_mutex) (alone_waits e c v) v
thread_at-ValidAt e Owner.start_thread c v =
    subst (ValidAt Owner.start_thread) (alone_waits e c v.0) v
thread_at-ValidAt e Owner.lock_again c v = thread_at-IsAwaited e c.thread c v
thread_at-ValidAt e Owner.unlock_mutex c v = thread_at-IsRunning e c.thread c v
thread_at-ValidAt e Owner.check_started c (inl a) =
    subst (ValidAt Owner.check_started) (alone_waits e c a) (inl a)
thread_at-ValidAt e Owner.check_started c (inr r) = inr (thread_at-IsRunning e c.thread c r)
thread_at-ValidAt e Owner.set_quit c v = thread_at-IsRunning e c.thread c v
thread_at-ValidAt e Owner.wait_done c v = thread_at-IsRunning e c.thread c v
thread_at-ValidAt e Owner.join_thread c v = thread_at-IsRunning e c.thread c v
thread_at-ValidAt e Owner.ended c (inl a) = subst (ValidAt Owner.ended) (alone_waits e c a) (inl a)
thread_at-ValidAt e Owner.ended c (inr f) = inr (finished-kept e c.thread c f)

-- The kernel's turn touches neither the owner nor the thread.
kernel-ValidAt :
    (o : Owner) (c : Collecting) (pipe : List (List ℕ))
    → ValidAt o c
    → ValidAt o (record c { pipe = pipe })
kernel-ValidAt Owner.clear_flags c pipe v = v
kernel-ValidAt Owner.init_ftrace c pipe v = v
kernel-ValidAt Owner.lock_mutex c pipe v = v
kernel-ValidAt Owner.start_thread c pipe v = v
kernel-ValidAt Owner.lock_again c pipe v = v
kernel-ValidAt Owner.unlock_mutex c pipe v = v
kernel-ValidAt Owner.check_started c pipe v = v
kernel-ValidAt Owner.set_quit c pipe v = v
kernel-ValidAt Owner.wait_done c pipe v = v
kernel-ValidAt Owner.join_thread c pipe v = v
kernel-ValidAt Owner.ended c pipe v = v

turn-IsValid : (e : Setting) (t : Turn) (c : Collecting) → IsValid c → IsValid (turn e t c)
unfolding turn
turn-IsValid e Turn.of_owner c v = owner_at-IsValid e c.owner c v
turn-IsValid e Turn.of_thread c v =
    subst (λ o. ValidAt o (thread_at e c.thread c)) (sym (thread_at-owner e c.thread c))
      (thread_at-ValidAt e c.owner c v)
turn-IsValid e (Turn.of_kernel line) c v = kernel-ValidAt c.owner c (c.pipe ++ line ∷ []) v

turns-IsValid : (e : Setting) (ts : List Turn) (c : Collecting) → IsValid c → IsValid (turns e ts c)
unfolding turns
turns-IsValid e [] c v = v
turns-IsValid e (t ∷ ts) c v = turns-IsValid e ts (turn e t c) (turn-IsValid e t c v)

ended-left :
    (o : Owner) (c : Collecting)
    → ValidAt o c
    → o ≡ Owner.ended
    → IsAlone c ⊎ (is_finished c.thread ≡ true)
ended-left Owner.ended c v f = v
ended-left Owner.clear_flags c v f = absurd cc
ended-left Owner.init_ftrace c v f = absurd cc
ended-left Owner.lock_mutex c v f = absurd cc
ended-left Owner.start_thread c v f = absurd cc
ended-left Owner.lock_again c v f = absurd cc
ended-left Owner.unlock_mutex c v f = absurd cc
ended-left Owner.check_started c v f = absurd cc
ended-left Owner.set_quit c v f = absurd cc
ended-left Owner.wait_done c v f = absurd cc
ended-left Owner.join_thread c v f = absurd cc

-- Whatever the order of the turns of the owner, of the thread and of the kernel, and whichever files
-- can be opened: when the destructor has returned, either no thread was ever started and the flag
-- that tells so is false, or the thread has finished. The constructor's second lock makes the flag
-- that the destructor reads true for each thread that was started.
pub turns-ended :
    (e : Setting) (quit done : Bool) (ts : List Turn)
    → let c = turns e ts (before_constructor quit done) in
      c.owner ≡ Owner.ended
      → ((c.thread ≡ Place.not_started) × (c.has_started ≡ false)) ⊎ (is_finished c.thread ≡ true)
turns-ended e quit done ts f =
    let c = turns e ts (before_constructor quit done) in
    ended-left c.owner c (turns-IsValid e ts (before_constructor quit done) (refl, refl)) f
