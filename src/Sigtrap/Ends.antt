-- ===== src/Sigtrap/Ends.antt =====
-- The end of the SIGTRAP thread, once the destructor has unlocked the mutex.
use funtrace.Prelude.{
  subst, ap, sym, refl, ◌∙◌, Bool-cases, inl, inr, ℕ, ◌+◌, ◌-◌, ◌≤◌, ◌≡◌, Bool, true, false, List,
  [], ◌∷◌, arith, if◌then◌else◌,
}
use funtrace.Sigtrap.{
  Owner, Place, SigtrapHandler, before_constructor, owner_at, thread_at, signal_handler, Turn, turn,
  turns,
}
use funtrace.Sigtrap.Valid.{is_started, IsEnding, IsValid, at}
use funtrace.Sigtrap.Tokens.{thread_at-Kept, thread_at-IsEnding, start-IsValid}

abbrev pub is_of_thread : Turn → Bool
is_of_thread Turn.of_owner = false
is_of_thread Turn.of_thread = true
is_of_thread Turn.of_signal = false

-- The number of turns of the thread.
abbrev pub thread_turns : List Turn → ℕ
thread_turns [] = 0
thread_turns (t ∷ ts) = (if is_of_thread t then 1 else 0) + thread_turns ts

-- The destructor waits for the thread, or has done so.
abbrev pub is_leaving : Owner → Bool
is_leaving Owner.clear_quit = false
is_leaving Owner.lock_mutex = false
is_leaving Owner.start_thread = false
is_leaving Owner.install_handler = false
is_leaving Owner.set_quit = false
is_leaving Owner.unlock_mutex = false
is_leaving Owner.join_thread = true
is_leaving Owner.joined = true

-- The turns of the thread to its end, once it is to quit.
abbrev left : Place → ℕ
left Place.not_started = 0
left Place.ignore_thread = 3
left Place.lock_mutex = 2
left Place.check_quit = 1
left Place.write_snapshot = 3
left Place.finished = 0

abbrev IsLeaving : SigtrapHandler → Type 0
IsLeaving h = IsEnding h × (is_leaving h.owner ≡ true)

valid-IsLeaving :
    (o : Owner) (p : Place) (h : SigtrapHandler)
    → IsValid (at o p h)
    → is_leaving o ≡ true
    → IsLeaving (at o p h)
valid-IsLeaving Owner.clear_quit p h v e = absurd cc
valid-IsLeaving Owner.lock_mutex p h v e = absurd cc
valid-IsLeaving Owner.start_thread p h v e = absurd cc
valid-IsLeaving Owner.install_handler p h v e = absurd cc
valid-IsLeaving Owner.set_quit p h v e = absurd cc
valid-IsLeaving Owner.unlock_mutex p h v e = absurd cc
valid-IsLeaving Owner.join_thread p h v e = (v.1, refl)
valid-IsLeaving Owner.joined p h v e = (v.1, refl)

abbrev Nears : ℕ → SigtrapHandler → SigtrapHandler → Type 0
Nears n h h' = IsLeaving h' × (left h'.thread ≤ left h.thread - n)

owner_at-Nears :
    (o : Owner) (p : Place) (h : SigtrapHandler)
    → IsLeaving (at o p h)
    → Nears 0 (at o p h) (owner_at o (at o p h))
unfolding owner_at
owner_at-Nears Owner.clear_quit p h v = absurd (cc v.1)
owner_at-Nears Owner.lock_mutex p h v = absurd (cc v.1)
owner_at-Nears Owner.start_thread p h v = absurd (cc v.1)
owner_at-Nears Owner.install_handler p h v = absurd (cc v.1)
owner_at-Nears Owner.set_quit p h v = absurd (cc v.1)
owner_at-Nears Owner.unlock_mutex p h v = absurd (cc v.1)
owner_at-Nears Owner.join_thread Place.finished h v = (v, omega arith)
owner_at-Nears Owner.join_thread Place.not_started h v = (v, omega arith)
owner_at-Nears Owner.join_thread Place.ignore_thread h v = (v, omega arith)
owner_at-Nears Owner.join_thread Place.lock_mutex h v = (v, omega arith)
owner_at-Nears Owner.join_thread Place.check_quit h v = (v, omega arith)
owner_at-Nears Owner.join_thread Place.write_snapshot h v = (v, omega arith)
owner_at-Nears Owner.joined p h v = (v, omega arith)

thread_at-left :
    (o : Owner) (p : Place) (h : SigtrapHandler)
    → IsLeaving (at o p h)
    → left (thread_at p (at o p h)).thread ≤ left p - 1
unfolding thread_at
thread_at-left o Place.not_started h v = omega arith
thread_at-left o Place.ignore_thread h v = omega arith
thread_at-left o Place.lock_mutex h v = rw (v.0.2 refl) (omega arith)
thread_at-left o Place.check_quit h v = rw v.0.1 (omega arith)
thread_at-left o Place.write_snapshot h v = omega arith
thread_at-left o Place.finished h v = omega arith

signal_handler-Nears : (h : SigtrapHandler) → IsLeaving h → Nears 0 h (signal_handler h)
unfolding signal_handler
signal_handler-Nears h v = elim (Bool-cases h.installed) [
  | inl e ↦ rw e (((v.0.0, v.0.1, λ k. refl), v.1), omega arith)
  | inr e ↦ rw e (v, omega arith)
]

turn-Nears :
    (t : Turn) (h : SigtrapHandler)
    → IsLeaving h
    → Nears (if is_of_thread t then 1 else 0) h (turn t h)
unfolding turn
turn-Nears Turn.of_owner h v = owner_at-Nears h.owner h.thread h v
turn-Nears Turn.of_thread h v = (
  (
    thread_at-IsEnding h.owner h.thread h v.0,
    ap is_leaving (thread_at-Kept h.owner h.thread h).0 ∙ v.1,
  ),
  thread_at-left h.owner h.thread h v,
)
turn-Nears Turn.of_signal h v = signal_handler-Nears h v

turns-left :
    (ts : List Turn) (h : SigtrapHandler)
    → IsLeaving h
    → IsLeaving (turns ts h) × (left (turns ts h).thread ≤ left h.thread - thread_turns ts)
unfolding turns
turns-left [] h v = (v, omega arith)
turns-left (t ∷ ts) h v =
    let near = turn-Nears t h v in
    let rest = turns-left ts (turn t h) near.0 in (rest.0, omega (arith, rest.1, near.1))

left_le : (p : Place) → left p ≤ 3
left_le Place.not_started = omega arith
left_le Place.ignore_thread = omega arith
left_le Place.lock_mutex = omega arith
left_le Place.check_quit = omega arith
left_le Place.write_snapshot = omega arith
left_le Place.finished = omega arith

left_none : (p : Place) → left p ≡ 0 → is_started p ≡ true → p ≡ Place.finished
left_none Place.not_started e f = absurd cc
left_none Place.ignore_thread e f = absurd (omega arith)
left_none Place.lock_mutex e f = absurd (omega arith)
left_none Place.check_quit e f = absurd (omega arith)
left_none Place.write_snapshot e f = absurd (omega arith)
left_none Place.finished e f = refl

finished-joined :
    (o : Owner) (h : SigtrapHandler)
    → is_leaving o ≡ true
    → (owner_at o (at o Place.finished h)).owner ≡ Owner.joined
unfolding owner_at
finished-joined Owner.clear_quit h e = absurd cc
finished-joined Owner.lock_mutex h e = absurd cc
finished-joined Owner.start_thread h e = absurd cc
finished-joined Owner.install_handler h e = absurd cc
finished-joined Owner.set_quit h e = absurd cc
finished-joined Owner.unlock_mutex h e = absurd cc
finished-joined Owner.join_thread h e = refl
finished-joined Owner.joined h e = refl

-- In any order of turns in which the destructor has come to its join, the thread has finished after
-- three more turns of its own, whatever signals and turns of the owner come between, and the join
-- then returns.
pub thread-finished :
    (quit : Bool) (before after : List Turn)
    → let h = turns before (before_constructor quit) in
      is_leaving h.owner ≡ true
      → 3 ≤ thread_turns after
      → ((turns after h).thread ≡ Place.finished)
        × ((turn Turn.of_owner (turns after h)).owner ≡ Owner.joined)
unfolding turn
thread-finished quit before after e three =
    let h = turns before (before_constructor quit) in
    let leaving = valid-IsLeaving h.owner h.thread h (start-IsValid quit before) e in
    let (v, near) = turns-left after h leaving in
    let h' = turns after h in
    let finished = left_none h'.thread (omega (arith, near, left_le h.thread)) v.0.0 in
    (
      finished,
      subst (λ p. (owner_at h'.owner (at h'.owner p h')).owner ≡ Owner.joined) (sym finished)
          (finished-joined h'.owner h' v.1),
    )
