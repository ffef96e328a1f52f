-- ===== src/Ftrace/Awaited.antt =====
-- The states of the ftrace handler that can be, and the turns of its owner and of its thread.
use funtrace.Prelude.{
  ℕ, ◌≡◌, ◌⊎◌, inl, inr, refl, ◌∙◌, Bool, true, false, List, [], ◌∷◌, arith, Bool-cases, ◌==◌,
}
use funtrace.Ftrace.Files.{Setting, ftrace_init}
use funtrace.Ftrace.Thread.{Owner, Place, Collecting, is_finished, owner_at, read_from, thread_at}

abbrev is_spawned : Place → Bool
is_spawned Place.not_started = false
is_spawned Place.set_started = true
is_spawned Place.set_up = true
is_spawned Place.unlock_start = true
is_spawned Place.check_quit = true
is_spawned Place.read_line = true
is_spawned Place.lock_line = true
is_spawned Place.log_line = true
is_spawned Place.unlock_line = true
is_spawned Place.set_done = true
is_spawned Place.finished = true

-- The thread has not unlocked the mutex that the constructor locked.
abbrev is_starting : Place → Bool
is_starting Place.not_started = true
is_starting Place.set_started = true
is_starting Place.set_up = true
is_starting Place.unlock_start = true
is_starting Place.check_quit = false
is_starting Place.read_line = false
is_starting Place.lock_line = false
is_starting Place.log_line = false
is_starting Place.unlock_line = false
is_starting Place.set_done = false
is_starting Place.finished = false

-- The thread has not set its flag.
abbrev is_unmarked : Place → Bool
is_unmarked Place.not_started = true
is_unmarked Place.set_started = true
is_unmarked Place.set_up = false
is_unmarked Place.unlock_start = false
is_unmarked Place.check_quit = false
is_unmarked Place.read_line = false
is_unmarked Place.lock_line = false
is_unmarked Place.log_line = false
is_unmarked Place.unlock_line = false
is_unmarked Place.set_done = false
is_unmarked Place.finished = false

unmarked-starting : (p : Place) → is_starting p ≡ false → is_unmarked p ≡ false
unmarked-starting Place.not_started e = absurd cc
unmarked-starting Place.set_started e = absurd cc
unmarked-starting Place.set_up e = refl
unmarked-starting Place.unlock_start e = refl
unmarked-starting Place.check_quit e = refl
unmarked-starting Place.read_line e = refl
unmarked-starting Place.lock_line e = refl
unmarked-starting Place.log_line e = refl
unmarked-starting Place.unlock_line e = refl
unmarked-starting Place.set_done e = refl
unmarked-starting Place.finished e = refl

-- The thread is there and has said so.
abbrev pub IsRunning : Collecting → Type 0
IsRunning c = (is_spawned c.thread ≡ true) × (c.has_started ≡ true)

abbrev pub IsAlone : Collecting → Type 0
IsAlone c = (c.thread ≡ Place.not_started) × (c.has_started ≡ false)

-- The constructor holds the mutex until the thread has started.
abbrev pub IsAwaited : Collecting → Type 0
IsAwaited c =
    (is_spawned c.thread ≡ true)
    × (is_starting c.thread ≡ true → c.locked ≡ true)
    × (is_unmarked c.thread ≡ false → c.has_started ≡ true)

abbrev pub ValidAt : Owner → Collecting → Type 0
ValidAt Owner.clear_flags c = IsAlone c
ValidAt Owner.init_ftrace c = IsAlone c
ValidAt Owner.lock_mutex c = IsAlone c
ValidAt Owner.start_thread c = IsAlone c × (c.locked ≡ true)
ValidAt Owner.lock_again c = IsAwaited c
ValidAt Owner.unlock_mutex c = IsRunning c
ValidAt Owner.check_started c = IsAlone c ⊎ IsRunning c
ValidAt Owner.set_quit c = IsRunning c
ValidAt Owner.wait_done c = IsRunning c
ValidAt Owner.join_thread c = IsRunning c
ValidAt Owner.ended c = IsAlone c ⊎ (is_finished c.thread ≡ true)

abbrev pub IsValid : Collecting → Type 0
IsValid c = ValidAt c.owner c

abbrev at : Owner → Collecting → Collecting
at o c = record c { owner = o }

pub owner_at-IsValid :
    (e : Setting) (o : Owner) (c : Collecting) → IsValid (at o c) → IsValid (owner_at e o (at o c))
unfolding owner_at
owner_at-IsValid e Owner.clear_flags c v = elim (Bool-cases (e.events_in_buf == 0)) [
  | inl f ↦ rw f (inl v)
  | inr f ↦ rw f v
]
owner_at-IsValid e Owner.init_ftrace c v = elim (Bool-cases (ftrace_init e c.tracer).init_errors) [
  | inl f ↦ rw f (inl v)
  | inr f ↦ rw f v
]
owner_at-IsValid e Owner.lock_mutex c v = elim (Bool-cases c.locked) [
  | inl f ↦ rw f v
  | inr f ↦ rw f (v, refl)
]
owner_at-IsValid e Owner.start_thread c v = (refl, λ k. v.1, λ k. absurd cc)
owner_at-IsValid e Owner.lock_again c v = elim (Bool-cases c.locked) [
  | inl f ↦ rw f (v.0, λ k. refl, v.2)
  | inr f ↦ rw f (v.0, awaited_started f)
]
  where
    awaited_started : c.locked ≡ false → c.has_started ≡ true
    awaited_started f = elim (Bool-cases (is_starting c.thread)) [
      | inl s ↦ absurd (cc (v.1 s, f))
      | inr s ↦ v.2 (unmarked-starting c.thread s)
    ]
owner_at-IsValid e Owner.unlock_mutex c v = inr v
owner_at-IsValid e Owner.check_started c (inl a) = rw a.1 (inl (a.0, refl))
owner_at-IsValid e Owner.check_started c (inr r) = rw r.1 (r.0, refl)
owner_at-IsValid e Owner.set_quit c v = v
owner_at-IsValid e Owner.wait_done c v = elim (Bool-cases c.done) [
  | inl f ↦ rw f v
  | inr f ↦ rw f v
]
owner_at-IsValid e Owner.join_thread c v = elim (Bool-cases (is_finished c.thread)) [
  | inl f ↦ rw f (inr f)
  | inr f ↦ rw f v
]
owner_at-IsValid e Owner.ended c v = v

abbrev pub set : Place → Collecting → Collecting
set p c = record c { thread = p }

read_from-kept :
    (pipe : List (List ℕ)) (c : Collecting)
    → let c' = read_from pipe (set Place.read_line c) in
      (c'.owner ≡ c.owner)
      × (c'.has_started ≡ c.has_started)
      × (is_spawned c'.thread ≡ true)
      × (is_starting c'.thread ≡ false)
unfolding read_from
read_from-kept [] c = (refl, refl, refl, refl)
read_from-kept (line ∷ lines) c = (refl, refl, refl, refl)

pub thread_at-owner :
    (e : Setting) (p : Place) (c : Collecting) → (thread_at e p (set p c)).owner ≡ c.owner
unfolding thread_at
thread_at-owner e Place.not_started c = refl
thread_at-owner e Place.set_started c = refl
thread_at-owner e Place.set_up c = refl
thread_at-owner e Place.unlock_start c = refl
thread_at-owner e Place.check_quit c = refl
thread_at-owner e Place.read_line c = (read_from-kept c.pipe c).0
thread_at-owner e Place.lock_line c = ground arith
thread_at-owner e Place.log_line c = refl
thread_at-owner e Place.unlock_line c = refl
thread_at-owner e Place.set_done c = refl
thread_at-owner e Place.finished c = refl

pub thread_at-IsRunning :
    (e : Setting) (p : Place) (c : Collecting)
    → IsRunning (set p c)
    → IsRunning (thread_at e p (set p c))
unfolding thread_at
thread_at-IsRunning e Place.not_started c v = v
thread_at-IsRunning e Place.set_started c v = (refl, refl)
thread_at-IsRunning e Place.set_up c v = v
thread_at-IsRunning e Place.unlock_start c v = v
thread_at-IsRunning e Place.check_quit c v = (ground arith, v.1)
thread_at-IsRunning e Place.read_line c v =
    let kept = read_from-kept c.pipe c in (kept.2, kept.1 ∙ v.1)
thread_at-IsRunning e Place.lock_line c v = elim (Bool-cases c.locked) [
  | inl f ↦ rw f (refl, v.1)
  | inr f ↦ rw f (refl, v.1)
]
thread_at-IsRunning e Place.log_line c v = v
thread_at-IsRunning e Place.unlock_line c v = v
thread_at-IsRunning e Place.set_done c v = v
thread_at-IsRunning e Place.finished c v = v

pub thread_at-IsAwaited :
    (e : Setting) (p : Place) (c : Collecting)
    → IsAwaited (set p c)
    → IsAwaited (thread_at e p (set p c))
unfolding thread_at
thread_at-IsAwaited e Place.not_started c v = v
thread_at-IsAwaited e Place.set_started c v = (refl, v.1, λ k. refl)
thread_at-IsAwaited e Place.set_up c v = v
thread_at-IsAwaited e Place.unlock_start c v = (refl, λ k. absurd cc, λ k. v.2 refl)
thread_at-IsAwaited e Place.check_quit c v =
    (ground arith, λ k. absurd (ground arith), λ k. v.2 refl)
thread_at-IsAwaited e Place.read_line c v =
    let kept = read_from-kept c.pipe c in
    (kept.2, λ k. absurd (cc (k, kept.3)), λ k. kept.1 ∙ v.2 refl)
thread_at-IsAwaited e Place.lock_line c v = elim (Bool-cases c.locked) [
  | inl f ↦ rw f (refl, λ k. absurd cc, λ k. v.2 refl)
  | inr f ↦ rw f (refl, λ k. absurd cc, λ k. v.2 refl)
]
thread_at-IsAwaited e Place.log_line c v = (refl, λ k. absurd cc, λ k. v.2 refl)
thread_at-IsAwaited e Place.unlock_line c v = (refl, λ k. absurd cc, λ k. v.2 refl)
thread_at-IsAwaited e Place.set_done c v = (refl, λ k. absurd cc, λ k. v.2 refl)
thread_at-IsAwaited e Place.finished c v = v
