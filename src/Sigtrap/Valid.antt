-- ===== src/Sigtrap/Valid.antt =====
-- The states of the SIGTRAP handler that can be: the mutex is free only for a signal that is not
-- served yet, or for the end of the thread.
use funtrace.Prelude.{
  subst, ap, sym, Bool-cases, inl, inr, ℕ, suc, ◌+◌, ◌≤◌, ◌≡◌, refl, Bool, true, false, ◌||◌, arith,
  if◌then◌else◌,
}
use funtrace.Sigtrap.{Owner, Place, SigtrapHandler, signal_handler}

abbrev pub is_started : Place → Bool
is_started Place.not_started = false
is_started Place.ignore_thread = true
is_started Place.lock_mutex = true
is_started Place.check_quit = true
is_started Place.write_snapshot = true
is_started Place.finished = true

abbrev pub is_finished : Place → Bool
is_finished Place.not_started = false
is_finished Place.ignore_thread = false
is_finished Place.lock_mutex = false
is_finished Place.check_quit = false
is_finished Place.write_snapshot = false
is_finished Place.finished = true

-- The thread is to lock the mutex again.
abbrev pub is_to_lock : Place → Bool
is_to_lock Place.not_started = false
is_to_lock Place.ignore_thread = true
is_to_lock Place.lock_mutex = true
is_to_lock Place.check_quit = false
is_to_lock Place.write_snapshot = true
is_to_lock Place.finished = false

-- The snapshots that are to be written still.
abbrev free : Bool → Bool → ℕ
free locked quit = if locked || quit then 0 else 1

abbrev pub owed : Place → Bool → Bool → ℕ
owed Place.not_started locked quit = 0
owed Place.ignore_thread locked quit = free locked quit
owed Place.lock_mutex locked quit = free locked quit
owed Place.check_quit locked quit = (if quit then 0 else 1) + free locked quit
owed Place.write_snapshot locked quit = 1 + free locked quit
owed Place.finished locked quit = 0

abbrev pub IsServed : SigtrapHandler → Type 0
IsServed h =
    (is_started h.thread ≡ true)
    × (h.snapshots + owed h.thread h.locked h.quit ≤ h.signals)
    × (is_finished h.thread ≡ true → h.quit ≡ true)

abbrev IsUnborn : SigtrapHandler → Type 0
IsUnborn h = (is_started h.thread ≡ false) × (h.installed ≡ false) × (h.snapshots ≡ 0)

abbrev pub IsEnding : SigtrapHandler → Type 0
IsEnding h =
    (is_started h.thread ≡ true) × (h.quit ≡ true) × (is_to_lock h.thread ≡ true → h.locked ≡ false)

-- What holds while the owner is at a place.
abbrev pub ValidAt : Owner → SigtrapHandler → Type 0
ValidAt Owner.clear_quit h = IsUnborn h × (h.locked ≡ false)
ValidAt Owner.lock_mutex h = IsUnborn h × (h.locked ≡ false) × (h.quit ≡ false)
ValidAt Owner.start_thread h = IsUnborn h × (h.locked ≡ true) × (h.quit ≡ false)
ValidAt Owner.install_handler h = IsServed h × (h.quit ≡ false)
ValidAt Owner.set_quit h = IsServed h × (h.quit ≡ false) × (h.installed ≡ true)
ValidAt Owner.unlock_mutex h = IsServed h × (h.quit ≡ true)
ValidAt Owner.join_thread h = IsServed h × IsEnding h
ValidAt Owner.joined h = IsServed h × IsEnding h

abbrev pub IsValid : SigtrapHandler → Type 0
IsValid h = ValidAt h.owner h

abbrev pub at : Owner → Place → SigtrapHandler → SigtrapHandler
at o p h = record h { owner = o; thread = p }

owed-signal : (p : Place) (locked quit : Bool) → owed p false quit ≤ suc (owed p locked quit)
owed-signal Place.not_started locked quit = omega arith
owed-signal Place.ignore_thread locked quit = ground arith
owed-signal Place.lock_mutex locked quit = ground arith
owed-signal Place.check_quit locked quit = ground arith
owed-signal Place.write_snapshot locked quit = ground arith
owed-signal Place.finished locked quit = omega arith

pub owed-quit : (p : Place) (locked quit : Bool) → owed p locked true ≤ owed p locked quit
owed-quit Place.not_started locked quit = omega arith
owed-quit Place.ignore_thread locked quit = ground arith
owed-quit Place.lock_mutex locked quit = ground arith
owed-quit Place.check_quit locked quit = ground arith
owed-quit Place.write_snapshot locked quit = ground arith
owed-quit Place.finished locked quit = omega arith

pub owed-unlock :
    (p : Place) (locked quit : Bool) → quit ≡ true → owed p false quit ≤ owed p locked quit
owed-unlock Place.not_started locked quit e = omega arith
owed-unlock Place.ignore_thread locked quit e = ground arith
owed-unlock Place.lock_mutex locked quit e = ground arith
owed-unlock Place.check_quit locked quit e = ground arith
owed-unlock Place.write_snapshot locked quit e = ground arith
owed-unlock Place.finished locked quit e = omega arith

-- The mutex is unlocked for one signal more.
abbrev signalled : SigtrapHandler → SigtrapHandler
signalled h = record h { locked = false; signals = suc h.signals }

signalled-IsServed :
    (o : Owner) (p : Place) (h : SigtrapHandler)
    → IsServed (at o p h)
    → IsServed (signalled (at o p h))
signalled-IsServed o p h v = (v.0, omega (arith, owed-signal p h.locked h.quit, v.1), v.2)

signalled-IsValid :
    (o : Owner) (p : Place) (h : SigtrapHandler)
    → h.installed ≡ true
    → IsValid (at o p h)
    → IsValid (signalled (at o p h))
signalled-IsValid Owner.clear_quit p h e v = absurd (cc (e, v.0.1))
signalled-IsValid Owner.lock_mutex p h e v = absurd (cc (e, v.0.1))
signalled-IsValid Owner.start_thread p h e v = absurd (cc (e, v.0.1))
signalled-IsValid Owner.install_handler p h e v =
    (signalled-IsServed Owner.install_handler p h v.0, v.1)
signalled-IsValid Owner.set_quit p h e v = (signalled-IsServed Owner.set_quit p h v.0, v.1, v.2)
signalled-IsValid Owner.unlock_mutex p h e v = (signalled-IsServed Owner.unlock_mutex p h v.0, v.1)
signalled-IsValid Owner.join_thread p h e v =
    (signalled-IsServed Owner.join_thread p h v.0, (v.1.0, v.1.1, λ k. refl))
signalled-IsValid Owner.joined p h e v =
    (signalled-IsServed Owner.joined p h v.0, (v.1.0, v.1.1, λ k. refl))

pub signal_handler-IsValid : (h : SigtrapHandler) → IsValid h → IsValid (signal_handler h)
unfolding signal_handler
signal_handler-IsValid h v = elim (Bool-cases h.installed) [
  | inl e ↦
      subst IsValid (ap (λ b. if b then signalled h else h) (sym e))
        (signalled-IsValid h.owner h.thread h e v)
  | inr e ↦ subst IsValid (ap (λ b. if b then signalled h else h) (sym e)) v
]
