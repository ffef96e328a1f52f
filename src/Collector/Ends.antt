-- ===== src/Collector/Ends.antt =====
-- The end of the collector's thread, once its destructor waits for it.
use funtrace.Prelude.{
  ℕ, ◌+◌, ◌-◌, ◌≤◌, ◌≡◌, refl, ap, sym, ◌∙◌, subst, ◌⊎◌, inl, inr, Bool, true, List, [], ◌∷◌, arith,
  if◌then◌else◌, Bool-cases,
}
use funtrace.Config.{Env}
use funtrace.Registry.{State, Thread}
use funtrace.Registry.Pointers.{one_if}
use funtrace.Collector.Life.{
  Owner, Place, FuntraceGc, before_constructor, awake, is_finished, owner_at, thread_at, Turn, turn,
  turns,
}
use funtrace.Collector.Holders.{is_started, owner_holds, thread_holds, IsValid, Launched, at}
use funtrace.Collector.Turns.{start-IsValid, turn-IsValid}

-- The number of turns of the thread.
abbrev pub thread_turns : List Turn → ℕ
thread_turns [] = 0
thread_turns (Turn.of_owner ∷ ts) = thread_turns ts
thread_turns (Turn.of_thread now ∷ ts) = 1 + thread_turns ts
thread_turns (Turn.of_system ∷ ts) = thread_turns ts

-- The turns of the thread to its end, once the flag is set.
abbrev left : Place → Bool → ℕ
left Place.not_started exiting = 0
left Place.ignore_thread exiting = 9
left Place.lock_mutex exiting = 8
left Place.begin_wait exiting = 7
left Place.waiting exiting = 6
left Place.lock_again exiting = 5
left Place.check_quit exiting = 4
left Place.collect exiting = if exiting then 3 else 10
left Place.unlock_mutex exiting = if exiting then 2 else 9
left Place.set_done exiting = 1
left Place.finished exiting = 0

-- The destructor waits for the thread, or has done so.
abbrev Leaves : Owner → Place → Type 0
Leaves o p = (o ≡ Owner.join_thread) ⊎ ((o ≡ Owner.joined) × (p ≡ Place.finished))

abbrev IsLeaving : FuntraceGc → Type 0
IsLeaving g = IsValid g × Leaves g.owner g.thread

abbrev Nears : ℕ → FuntraceGc → FuntraceGc → Type 0
Nears n g g' = Leaves g'.owner g'.thread × (left g'.thread g'.exiting ≤ left g.thread g.exiting - n)

left_le : (p : Place) (exiting : Bool) → left p exiting ≤ 10
left_le Place.not_started exiting = omega arith
left_le Place.ignore_thread exiting = omega arith
left_le Place.lock_mutex exiting = omega arith
left_le Place.begin_wait exiting = omega arith
left_le Place.waiting exiting = omega arith
left_le Place.lock_again exiting = omega arith
left_le Place.check_quit exiting = omega arith
left_le Place.collect exiting = ground arith
left_le Place.unlock_mutex exiting = ground arith
left_le Place.set_done exiting = omega arith
left_le Place.finished exiting = omega arith

left_none :
    (p : Place) (exiting : Bool) → left p exiting ≡ 0 → is_started p ≡ true → p ≡ Place.finished
left_none Place.not_started exiting e f = absurd cc
left_none Place.ignore_thread exiting e f = absurd (omega arith)
left_none Place.lock_mutex exiting e f = absurd (omega arith)
left_none Place.begin_wait exiting e f = absurd (omega arith)
left_none Place.waiting exiting e f = absurd (omega arith)
left_none Place.lock_again exiting e f = absurd (omega arith)
left_none Place.check_quit exiting e f = absurd (omega arith)
left_none Place.collect exiting e f = absurd (ground arith)
left_none Place.unlock_mutex exiting e f = absurd (ground arith)
left_none Place.set_done exiting e f = absurd (omega arith)
left_none Place.finished exiting e f = refl

joining-Nears :
    (getenv : Env) (p : Place) (g : FuntraceGc)
    → Nears 0
        (at Owner.join_thread p g)
        (owner_at getenv Owner.join_thread (at Owner.join_thread p g))
unfolding owner_at
joining-Nears getenv Place.finished g = (inr (refl, refl), omega arith)
joining-Nears getenv Place.not_started g = (inl refl, omega arith)
joining-Nears getenv Place.ignore_thread g = (inl refl, omega arith)
joining-Nears getenv Place.lock_mutex g = (inl refl, omega arith)
joining-Nears getenv Place.begin_wait g = (inl refl, omega arith)
joining-Nears getenv Place.waiting g = (inl refl, omega arith)
joining-Nears getenv Place.lock_again g = (inl refl, omega arith)
joining-Nears getenv Place.check_quit g = (inl refl, omega arith)
joining-Nears getenv Place.collect g = (inl refl, omega arith)
joining-Nears getenv Place.unlock_mutex g = (inl refl, omega arith)
joining-Nears getenv Place.set_done g = (inl refl, omega arith)

owner_at-Nears :
    (getenv : Env) (o : Owner) (p : Place) (g : FuntraceGc)
    → Leaves o p
    → Nears 0 (at o p g) (owner_at getenv o (at o p g))
unfolding owner_at
owner_at-Nears getenv o p g (inl e) =
    subst (λ o. Nears 0 (at o p g) (owner_at getenv o (at o p g))) (sym e)
      (joining-Nears getenv p g)
owner_at-Nears getenv o p g (inr (e, f)) =
    subst (λ o. Nears 0 (at o p g) (owner_at getenv o (at o p g))) (sym e)
      (inr (refl, f), omega arith)

awake-left :
    (p : Place) (g : FuntraceGc)
    → let g' = awake p (record g { thread = p }) in
      (left g'.thread g'.exiting ≤ left p g.exiting)
      × (g'.owner ≡ g.owner)
      × (p ≡ Place.finished → g'.thread ≡ Place.finished)
awake-left Place.waiting g = (omega arith, refl, λ e. absurd (cc e))
awake-left Place.not_started g = (omega arith, refl, λ e. e)
awake-left Place.ignore_thread g = (omega arith, refl, λ e. e)
awake-left Place.lock_mutex g = (omega arith, refl, λ e. e)
awake-left Place.begin_wait g = (omega arith, refl, λ e. e)
awake-left Place.lock_again g = (omega arith, refl, λ e. e)
awake-left Place.check_quit g = (omega arith, refl, λ e. e)
awake-left Place.collect g = (omega arith, refl, λ e. e)
awake-left Place.unlock_mutex g = (omega arith, refl, λ e. e)
awake-left Place.set_done g = (omega arith, refl, λ e. e)
awake-left Place.finished g = (omega arith, refl, λ e. e)

-- A turn of the thread while the destructor waits.
thread_at-left :
    (me : Thread) (now : ℕ) (p : Place) (g : FuntraceGc)
    → g.quit ≡ true
    → thread_holds p ≡ one_if g.locked
    → let g' = thread_at me now p (record g { thread = p }) in
      (left g'.thread g'.exiting ≤ left p g.exiting - 1) × (g'.owner ≡ g.owner)
unfolding thread_at
thread_at-left me now Place.not_started g q h = (omega arith, refl)
thread_at-left me now Place.ignore_thread g q h = (omega arith, refl)
thread_at-left me now Place.lock_mutex g q h = elim (Bool-cases g.locked) [
  | inl e ↦ absurd (omega (arith, h, ap one_if e))
  | inr e ↦ rw e (omega arith, refl)
]
thread_at-left me now Place.begin_wait g q h = (omega arith, refl)
thread_at-left me now Place.waiting g q h = (omega arith, refl)
thread_at-left me now Place.lock_again g q h = elim (Bool-cases g.locked) [
  | inl e ↦ absurd (omega (arith, h, ap one_if e))
  | inr e ↦ rw e (omega arith, refl)
]
thread_at-left me now Place.check_quit g q h = elim (Bool-cases g.timed_out) [
  | inl e ↦ rw (q, e) (omega arith, refl)
  | inr e ↦ rw (q, e) (omega arith, refl)
]
thread_at-left me now Place.collect g q h = (ground arith, refl)
thread_at-left me now Place.unlock_mutex g q h = (ground arith, refl)
thread_at-left me now Place.set_done g q h = (omega arith, refl)
thread_at-left me now Place.finished g q h = (omega arith, refl)

thread_at-Nears :
    (me : Thread) (now : ℕ) (g : FuntraceGc) → IsLeaving g → Nears 1 g (thread_at me now g.thread g)
unfolding thread_at
thread_at-Nears me now g ((h, l), inl e) =
    let (started, quit) = subst (λ o. Launched o g) e l in
    let (near, same) = thread_at-left me now g.thread g quit (omega (arith, h, ap owner_holds e)) in
    (inl (same ∙ e), near)
thread_at-Nears me now g (v, inr (e, f)) =
    subst (λ p. Nears 1 (record g { thread = p }) (thread_at me now p (record g { thread = p })))
      (sym f) (inr (e, refl), omega arith)

abbrev weight : Turn → ℕ
weight Turn.of_owner = 0
weight (Turn.of_thread now) = 1
weight Turn.of_system = 0

turn-Nears :
    (getenv : Env) (me : Thread) (t : Turn) (g : FuntraceGc)
    → IsLeaving g
    → Nears (weight t) g (turn getenv me t g)
unfolding turn
turn-Nears getenv me Turn.of_owner g (v, l) = owner_at-Nears getenv g.owner g.thread g l
turn-Nears getenv me (Turn.of_thread now) g l = thread_at-Nears me now g l
turn-Nears getenv me Turn.of_system g (v, inl e) =
    let (near, same, f) = awake-left g.thread g in (inl (same ∙ e), omega (arith, near))
turn-Nears getenv me Turn.of_system g (v, inr (e, k)) =
    let (near, same, f) = awake-left g.thread g in (inr (same ∙ e, f k), omega (arith, near))

turns-left :
    (getenv : Env) (me : Thread) (ts : List Turn) (g : FuntraceGc)
    → IsLeaving g
    → let g' = turns getenv me ts g in
      IsLeaving g' × (left g'.thread g'.exiting ≤ left g.thread g.exiting - thread_turns ts)
unfolding turns
turns-left getenv me [] g l = (l, omega arith)
turns-left getenv me (t ∷ ts) g l =
    let (leaves, near) = turn-Nears getenv me t g l in
    let (l', rest) =
      turns-left getenv me ts (turn getenv me t g) (turn-IsValid getenv me t g l.0, leaves) in
    (l', omega (arith, rest, near, weighed t))
  where
    weighed : (t : Turn) → thread_turns (t ∷ ts) ≡ weight t + thread_turns ts
    weighed Turn.of_owner = omega arith
    weighed (Turn.of_thread now) = omega arith
    weighed Turn.of_system = omega arith

leaving-finished :
    (g : FuntraceGc) → IsLeaving g → left g.thread g.exiting ≡ 0 → g.thread ≡ Place.finished
leaving-finished g (v, inl e) none =
    left_none g.thread g.exiting none (subst (λ o. Launched o g) e v.1).0
leaving-finished g (v, inr (e, f)) none = f

-- In any order of turns after which the destructor waits for the thread, the thread has finished
-- after ten more turns of its own, whatever turns of the owner and wake-ups come between, and the
-- wait then ends: also where the notification came before the thread's wait and woke nothing.
pub turns-finished :
    (getenv : Env) (me : Thread) (s : State) (before after : List Turn)
    → let g = turns getenv me before (before_constructor s) in
      g.owner ≡ Owner.join_thread
      → 10 ≤ thread_turns after
      → ((turns getenv me after g).thread ≡ Place.finished)
        × ((turn getenv me Turn.of_owner (turns getenv me after g)).owner ≡ Owner.joined)
unfolding turn owner_at
turns-finished getenv me s before after e ten =
    let g = turns getenv me before (before_constructor s) in
    let (l, near) = turns-left getenv me after g (start-IsValid getenv me s before, inl e) in
    let g' = turns getenv me after g in
    let finished = leaving-finished g' l (omega (arith, near, ten, left_le g.thread g.exiting)) in
    (finished, by_owner g' l.1 finished)
  where
    by_owner :
        (g : FuntraceGc)
        → Leaves g.owner g.thread
        → g.thread ≡ Place.finished
        → (owner_at getenv g.owner g).owner ≡ Owner.joined
    by_owner g (inl o) f =
        subst (λ o. (owner_at getenv o g).owner ≡ Owner.joined) (sym o)
          (ap (λ p. if is_finished p then Owner.joined else Owner.join_thread) f)
    by_owner g (inr (o, f)) k = subst (λ x. (owner_at getenv x g).owner ≡ Owner.joined) (sym o) o
