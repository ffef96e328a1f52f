-- ===== src/Sigtrap/Served.antt =====
-- The snapshot that follows a signal.
use funtrace.Prelude.{
  ap, refl, ◌∙◌, Bool-cases, inl, inr, ℕ, ◌+◌, ◌≤◌, ◌≡◌, Bool, true, false, List, [], ◌∷◌, arith,
  dec_lt, if◌then◌else◌,
}
use funtrace.Sigtrap.{
  Owner, Place, SigtrapHandler, before_constructor, thread_at, signal_handler, Turn, turn, turns,
}
use funtrace.Sigtrap.Valid.{is_started, is_finished, IsValid, at}
use funtrace.Sigtrap.Tokens.{start-IsValid}
use funtrace.Sigtrap.Ends.{thread_turns}

abbrev is_of_owner : Turn → Bool
is_of_owner Turn.of_owner = true
is_of_owner Turn.of_thread = false
is_of_owner Turn.of_signal = false

-- No turn is of the owner.
abbrev pub leaves_alone : List Turn → Bool
leaves_alone [] = true
leaves_alone (t ∷ ts) = if is_of_owner t then false else leaves_alone ts

abbrev pub is_writing : Place → Bool
is_writing Place.not_started = false
is_writing Place.ignore_thread = false
is_writing Place.lock_mutex = false
is_writing Place.check_quit = false
is_writing Place.write_snapshot = true
is_writing Place.finished = false

abbrev is_live : Place → Bool
is_live Place.not_started = false
is_live Place.ignore_thread = true
is_live Place.lock_mutex = true
is_live Place.check_quit = true
is_live Place.write_snapshot = true
is_live Place.finished = false

-- The thread runs and is not to quit; where the mutex is said to be free, it is.
abbrev IsRunning : Bool → SigtrapHandler → Type 0
IsRunning free h = (is_live h.thread ≡ true) × (h.quit ≡ false) × (free ≡ true → h.locked ≡ false)

-- The snapshots to come, for the thread's place and the mutex, and the turns that they take.
abbrev due : Place → Bool → ℕ
due Place.not_started free = 0
due Place.ignore_thread free = if free then 1 else 0
due Place.lock_mutex free = if free then 1 else 0
due Place.check_quit free = if free then 2 else 1
due Place.write_snapshot free = if free then 2 else 1
due Place.finished free = 0

abbrev needed : Place → Bool → ℕ
needed Place.not_started free = 0
needed Place.ignore_thread free = if free then 4 else 0
needed Place.lock_mutex free = if free then 3 else 0
needed Place.check_quit free = if free then 5 else 2
needed Place.write_snapshot free = if free then 4 else 1
needed Place.finished free = 0

due_none : (p : Place) (free : Bool) → needed p free ≡ 0 → due p free ≡ 0
due_none Place.not_started free e = refl
due_none Place.ignore_thread true e = absurd (omega arith)
due_none Place.ignore_thread false e = refl
due_none Place.lock_mutex true e = absurd (omega arith)
due_none Place.lock_mutex false e = refl
due_none Place.check_quit free e = absurd (ground arith)
due_none Place.write_snapshot free e = absurd (ground arith)
due_none Place.finished free e = refl

-- A turn of the thread makes one of the needed turns.
abbrev Advances : Bool → SigtrapHandler → SigtrapHandler → Type 0
Advances free h h' =
    (free' : Bool) × IsRunning free' h'
    × (needed h'.thread free' + 1 ≤ needed h.thread free)
    × (h.snapshots + due h.thread free ≤ h'.snapshots + due h'.thread free')

thread_at-Advances :
    (o : Owner) (p : Place) (free : Bool) (h : SigtrapHandler)
    → IsRunning free (at o p h)
    → 1 ≤ needed p free
    → Advances free (at o p h) (thread_at p (at o p h))
unfolding thread_at
thread_at-Advances o Place.not_started free h v n = absurd cc
thread_at-Advances o Place.ignore_thread true h v n = (true, v, omega arith, omega arith)
thread_at-Advances o Place.ignore_thread false h v n = absurd (omega arith)
thread_at-Advances o Place.lock_mutex true h v n =
    rw (v.2 refl) (false, (refl, v.1, λ e. absurd cc), omega arith, omega arith)
thread_at-Advances o Place.lock_mutex false h v n = absurd (omega arith)
thread_at-Advances o Place.check_quit true h v n =
    rw v.1 (true, (refl, refl, v.2), omega arith, omega arith)
thread_at-Advances o Place.check_quit false h v n =
    rw v.1 (false, (refl, refl, v.2), omega arith, omega arith)
thread_at-Advances o Place.write_snapshot true h v n = (true, v, omega arith, omega arith)
thread_at-Advances o Place.write_snapshot false h v n = (false, v, omega arith, omega arith)
thread_at-Advances o Place.finished free h v n = absurd cc

thread_at-snapshots : (p : Place) (h : SigtrapHandler) → h.snapshots ≤ (thread_at p h).snapshots
unfolding thread_at
thread_at-snapshots Place.not_started h = omega arith
thread_at-snapshots Place.ignore_thread h = omega arith
thread_at-snapshots Place.lock_mutex h = ground arith
thread_at-snapshots Place.check_quit h = omega arith
thread_at-snapshots Place.write_snapshot h = omega arith
thread_at-snapshots Place.finished h = omega arith

-- A signal leaves the thread at its place, and the mutex free.
signal_handler-IsRunning :
    (free : Bool) (h : SigtrapHandler)
    → IsRunning free h
    → IsRunning free (signal_handler h)
      × ((signal_handler h).thread ≡ h.thread)
      × ((signal_handler h).snapshots ≡ h.snapshots)
unfolding signal_handler
signal_handler-IsRunning free h v = elim (Bool-cases h.installed) [
  | inl e ↦ rw e ((v.0, v.1, λ k. refl), refl, refl)
  | inr e ↦ rw e (v, refl, refl)
]

signal_handler-snapshots : (h : SigtrapHandler) → (signal_handler h).snapshots ≡ h.snapshots
unfolding signal_handler
signal_handler-snapshots h = ground arith

turns-more :
    (ts : List Turn) (h : SigtrapHandler)
    → leaves_alone ts ≡ true
    → h.snapshots ≤ (turns ts h).snapshots
unfolding turns turn
turns-more [] h a = omega arith
turns-more (Turn.of_owner ∷ ts) h a = absurd cc
turns-more (Turn.of_thread ∷ ts) h a =
    omega (arith, thread_at-snapshots h.thread h, turns-more ts (thread_at h.thread h) a)
turns-more (Turn.of_signal ∷ ts) h a =
    omega (arith, signal_handler-snapshots h, turns-more ts (signal_handler h) a)

turns-due :
    (ts : List Turn) (free : Bool) (h : SigtrapHandler)
    → leaves_alone ts ≡ true
    → IsRunning free h
    → needed h.thread free ≤ thread_turns ts
    → h.snapshots + due h.thread free ≤ (turns ts h).snapshots
unfolding turns turn
turns-due [] free h a v n = omega (arith, due_none h.thread free (omega arith))
turns-due (Turn.of_owner ∷ ts) free h a v n = absurd cc
turns-due (Turn.of_signal ∷ ts) free h a v n =
    let (v', e, f) = signal_handler-IsRunning free h v in
    let rest = turns-due ts free (signal_handler h) a v' (rw e (omega (arith, n))) in
    omega (arith, f, rest, ap (λ p. due p free) e)
turns-due (Turn.of_thread ∷ ts) free h a v n = elim (dec_lt 0 (needed h.thread free)) [
  | yes lt ↦
      let (free', v', less, more) = thread_at-Advances h.owner h.thread free h v lt in
      let rest = turns-due ts free' (thread_at h.thread h) a v' (omega (arith, less)) in
      omega (arith, more, rest)
  | no ge ↦
      omega (arith, due_none h.thread free (omega arith), turns-more (Turn.of_thread ∷ ts) h a)
]

started-is_live :
    (p : Place) → is_started p ≡ true → (is_finished p ≡ true → true ≡ false) → is_live p ≡ true
started-is_live Place.not_started e f = absurd cc
started-is_live Place.ignore_thread e f = refl
started-is_live Place.lock_mutex e f = refl
started-is_live Place.check_quit e f = refl
started-is_live Place.write_snapshot e f = refl
started-is_live Place.finished e f = absurd (cc (f refl))

-- What holds once the constructor is done, until the destructor.
constructed :
    (o : Owner) (p : Place) (h : SigtrapHandler)
    → IsValid (at o p h)
    → o ≡ Owner.set_quit
    → (is_live p ≡ true) × (h.quit ≡ false) × (h.installed ≡ true)
constructed Owner.set_quit p h v e = (started-is_live p v.0.0 (λ k. cc (v.0.2 k, v.1)), v.1, v.2)
constructed Owner.clear_quit p h v e = absurd cc
constructed Owner.lock_mutex p h v e = absurd cc
constructed Owner.start_thread p h v e = absurd cc
constructed Owner.install_handler p h v e = absurd cc
constructed Owner.unlock_mutex p h v e = absurd cc
constructed Owner.join_thread p h v e = absurd cc
constructed Owner.joined p h v e = absurd cc

signal_handler-installed :
    (h : SigtrapHandler)
    → h.installed ≡ true
    → ((signal_handler h).locked ≡ false)
      × ((signal_handler h).thread ≡ h.thread)
      × ((signal_handler h).quit ≡ h.quit)
unfolding signal_handler
signal_handler-installed h e = rw e (refl, refl, refl)

due_writing : (p : Place) → is_live p ≡ true → (if is_writing p then 2 else 1) ≤ due p true
due_writing Place.not_started e = absurd cc
due_writing Place.ignore_thread e = omega arith
due_writing Place.lock_mutex e = omega arith
due_writing Place.check_quit e = omega arith
due_writing Place.write_snapshot e = omega arith
due_writing Place.finished e = absurd cc

needed_le : (p : Place) → needed p true ≤ 5
needed_le Place.not_started = omega arith
needed_le Place.ignore_thread = omega arith
needed_le Place.lock_mutex = omega arith
needed_le Place.check_quit = omega arith
needed_le Place.write_snapshot = omega arith
needed_le Place.finished = omega arith

-- In any order of turns after which the constructor is done and the destructor has not begun, a
-- signal is followed by a snapshot: after five more turns of the thread, with any signals and no
-- turn of the owner between, one more was written than before the signal, and two more where the
-- thread was writing one when the signal came.
pub signal-snapshot :
    (quit : Bool) (before after : List Turn)
    → let h = turns before (before_constructor quit) in
      h.owner ≡ Owner.set_quit
      → leaves_alone after ≡ true
      → 5 ≤ thread_turns after
      → h.snapshots + (if is_writing h.thread then 2 else 1)
        ≤ (turns (Turn.of_signal ∷ after) h).snapshots
unfolding turns turn
signal-snapshot quit before after e alone five =
    let h = turns before (before_constructor quit) in
    let (live, q, i) = constructed h.owner h.thread h (start-IsValid quit before) e in
    let (unlocked, same, kept) = signal_handler-installed h i in
    let h' = signal_handler h in
    omega (
      arith,
      due_writing h.thread live,
      ap (λ p. due p true) same,
      signal_handler-snapshots h,
      turns-due after true h' alone (ap is_live same ∙ live, kept ∙ q, λ k. unlocked)
          (omega (arith, needed_le h'.thread)),
    )
