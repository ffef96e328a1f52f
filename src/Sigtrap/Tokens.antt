-- ===== src/Sigtrap/Tokens.antt =====
-- What the interleavings of the SIGTRAP handler keep, and the number of snapshots that are written.
use funtrace.Prelude.{
  subst, sym, ◌∙◌, Bool-cases, inl, inr, ◌≤◌, ◌≡◌, refl, Bool, false, List, [], ◌∷◌, arith,
}
use funtrace.Sigtrap.{
  Owner, Place, SigtrapHandler, before_constructor, owner_at, thread_at, Turn, turn, turns,
}
use funtrace.Sigtrap.Valid.{
  is_started, IsServed, IsEnding, ValidAt, IsValid, at, owed-quit, owed-unlock,
  signal_handler-IsValid,
}

-- What a turn of the thread keeps.
abbrev Kept : SigtrapHandler → SigtrapHandler → Type 0
Kept h h' =
    (h'.owner ≡ h.owner)
    × (h'.quit ≡ h.quit)
    × (h'.installed ≡ h.installed)
    × (h'.signals ≡ h.signals)

pub thread_at-Kept :
    (o : Owner) (p : Place) (h : SigtrapHandler) → Kept (at o p h) (thread_at p (at o p h))
unfolding thread_at
thread_at-Kept o Place.not_started h = (refl, refl, refl, refl)
thread_at-Kept o Place.ignore_thread h = (refl, refl, refl, refl)
thread_at-Kept o Place.lock_mutex h = ground arith
thread_at-Kept o Place.check_quit h = (refl, refl, refl, refl)
thread_at-Kept o Place.write_snapshot h = (refl, refl, refl, refl)
thread_at-Kept o Place.finished h = (refl, refl, refl, refl)

thread_at-IsServed :
    (o : Owner) (p : Place) (h : SigtrapHandler)
    → IsServed (at o p h)
    → IsServed (thread_at p (at o p h))
unfolding thread_at
thread_at-IsServed o Place.not_started h v = v
thread_at-IsServed o Place.ignore_thread h v = v
thread_at-IsServed o Place.lock_mutex h v = elim (Bool-cases h.locked) [
  | inl e ↦ rw e (refl, ground (arith, v.1), λ k. absurd cc)
  | inr e ↦ rw e (refl, ground (arith, v.1), λ k. absurd cc)
]
thread_at-IsServed o Place.check_quit h v = elim (Bool-cases h.quit) [
  | inl e ↦ rw e (refl, ground (arith, v.1), λ k. refl)
  | inr e ↦ rw e (refl, ground (arith, v.1), λ k. absurd cc)
]
thread_at-IsServed o Place.write_snapshot h v = (refl, omega (arith, v.1), v.2)
thread_at-IsServed o Place.finished h v = v

pub thread_at-IsEnding :
    (o : Owner) (p : Place) (h : SigtrapHandler)
    → IsEnding (at o p h)
    → IsEnding (thread_at p (at o p h))
unfolding thread_at
thread_at-IsEnding o Place.not_started h v = v
thread_at-IsEnding o Place.ignore_thread h v = v
thread_at-IsEnding o Place.lock_mutex h v = rw (v.2 refl) (refl, v.1, λ e. absurd cc)
thread_at-IsEnding o Place.check_quit h v = (ground arith, v.1, λ e. absurd cc)
thread_at-IsEnding o Place.write_snapshot h v = v
thread_at-IsEnding o Place.finished h v = v

not_started_waits :
    (o : Owner) (p : Place) (h : SigtrapHandler)
    → is_started p ≡ false
    → at o p h ≡ thread_at p (at o p h)
unfolding thread_at
not_started_waits o Place.not_started h e = refl
not_started_waits o Place.ignore_thread h e = absurd cc
not_started_waits o Place.lock_mutex h e = absurd cc
not_started_waits o Place.check_quit h e = absurd cc
not_started_waits o Place.write_snapshot h e = absurd cc
not_started_waits o Place.finished h e = absurd cc

thread_at-ValidAt :
    (o : Owner) (p : Place) (h : SigtrapHandler)
    → IsValid (at o p h)
    → ValidAt o (thread_at p (at o p h))
thread_at-ValidAt Owner.clear_quit p h v =
    subst (ValidAt Owner.clear_quit) (not_started_waits Owner.clear_quit p h v.0.0) v
thread_at-ValidAt Owner.lock_mutex p h v =
    subst (ValidAt Owner.lock_mutex) (not_started_waits Owner.lock_mutex p h v.0.0) v
thread_at-ValidAt Owner.start_thread p h v =
    subst (ValidAt Owner.start_thread) (not_started_waits Owner.start_thread p h v.0.0) v
thread_at-ValidAt Owner.install_handler p h v =
    let kept = thread_at-Kept Owner.install_handler p h in
    (thread_at-IsServed Owner.install_handler p h v.0, kept.1 ∙ v.1)
thread_at-ValidAt Owner.set_quit p h v =
    let kept = thread_at-Kept Owner.set_quit p h in
    (thread_at-IsServed Owner.set_quit p h v.0, kept.1 ∙ v.1, kept.2 ∙ v.2)
thread_at-ValidAt Owner.unlock_mutex p h v =
    let kept = thread_at-Kept Owner.unlock_mutex p h in
    (thread_at-IsServed Owner.unlock_mutex p h v.0, kept.1 ∙ v.1)
thread_at-ValidAt Owner.join_thread p h v =
    (thread_at-IsServed Owner.join_thread p h v.0, thread_at-IsEnding Owner.join_thread p h v.1)
thread_at-ValidAt Owner.joined p h v =
    (thread_at-IsServed Owner.joined p h v.0, thread_at-IsEnding Owner.joined p h v.1)

owner_at-IsValid :
    (o : Owner) (p : Place) (h : SigtrapHandler)
    → IsValid (at o p h)
    → IsValid (owner_at o (at o p h))
unfolding owner_at
owner_at-IsValid Owner.clear_quit p h v = (v.0, v.1, refl)
owner_at-IsValid Owner.lock_mutex p h v = rw v.1 (v.0, refl, v.2)
owner_at-IsValid Owner.start_thread p h v =
    ((refl, ground (arith, v.0.2, v.1), λ k. absurd cc), v.2)
owner_at-IsValid Owner.install_handler p h v = (v.0, v.1, refl)
owner_at-IsValid Owner.set_quit p h v =
    ((v.0.0, omega (arith, owed-quit p h.locked h.quit, v.0.1), λ k. refl), refl)
owner_at-IsValid Owner.unlock_mutex p h v = (
  (v.0.0, omega (arith, owed-unlock p h.locked h.quit v.1, v.0.1), v.0.2),
  (v.0.0, v.1, λ k. refl),
)
owner_at-IsValid Owner.join_thread Place.finished h v = v
owner_at-IsValid Owner.join_thread Place.not_started h v = v
owner_at-IsValid Owner.join_thread Place.ignore_thread h v = v
owner_at-IsValid Owner.join_thread Place.lock_mutex h v = v
owner_at-IsValid Owner.join_thread Place.check_quit h v = v
owner_at-IsValid Owner.join_thread Place.write_snapshot h v = v
owner_at-IsValid Owner.joined p h v = v

pub turn-IsValid : (t : Turn) (h : SigtrapHandler) → IsValid h → IsValid (turn t h)
unfolding turn
turn-IsValid Turn.of_owner h v = owner_at-IsValid h.owner h.thread h v
turn-IsValid Turn.of_thread h v =
    subst (λ o. ValidAt o (thread_at h.thread h)) (sym (thread_at-Kept h.owner h.thread h).0)
      (thread_at-ValidAt h.owner h.thread h v)
turn-IsValid Turn.of_signal h v = signal_handler-IsValid h v

pub turns-IsValid : (ts : List Turn) (h : SigtrapHandler) → IsValid h → IsValid (turns ts h)
unfolding turns
turns-IsValid [] h v = v
turns-IsValid (t ∷ ts) h v = turns-IsValid ts (turn t h) (turn-IsValid t h v)

pub start-IsValid : (quit : Bool) (ts : List Turn) → IsValid (turns ts (before_constructor quit))
start-IsValid quit ts = turns-IsValid ts (before_constructor quit) ((refl, refl, refl), refl)

snapshots-le :
    (o : Owner) (p : Place) (h : SigtrapHandler) → IsValid (at o p h) → h.snapshots ≤ h.signals
snapshots-le Owner.clear_quit p h v = omega (arith, v.0.2)
snapshots-le Owner.lock_mutex p h v = omega (arith, v.0.2)
snapshots-le Owner.start_thread p h v = omega (arith, v.0.2)
snapshots-le Owner.install_handler p h v = omega (arith, v.0.1)
snapshots-le Owner.set_quit p h v = omega (arith, v.0.1)
snapshots-le Owner.unlock_mutex p h v = omega (arith, v.0.1)
snapshots-le Owner.join_thread p h v = omega (arith, v.0.1)
snapshots-le Owner.joined p h v = omega (arith, v.0.1)

-- Whatever the order of the turns of the owner, of the thread and of signals from before the
-- constructor on, no more snapshots are written than signals were handled: neither the mutex's
-- state before the handler is installed nor the destructor's unlock makes the thread write one.
pub turns-snapshots :
    (quit : Bool) (ts : List Turn)
    → (turns ts (before_constructor quit)).snapshots ≤ (turns ts (before_constructor quit)).signals
turns-snapshots quit ts =
    let h = turns ts (before_constructor quit) in
    snapshots-le h.owner h.thread h (start-IsValid quit ts)
