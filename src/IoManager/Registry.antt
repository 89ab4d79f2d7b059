-- ===== src/IoManager/Registry.antt =====
-- What the events of code/ioscheduler.h promise, without contexts, masks, counts and epoll: a registry,
-- which holds for each descriptor and event at most one entry, and the queues that entries go to.
use tiny_coroutine.Base.{
  ℕ, ◌+◌, ◌≡◌, refl, Bool, true, false, ◌&&◌, Option, none, some, List, [], ◌∷◌, ◌++◌, ◌==◌,
  if◌then◌else◌, is_some, arith, ◌⊎◌, Bool-cases, count, Option-cases, inl, inr,
}
use tiny_coroutine.Callback.{Event, no_event, read, write}
use tiny_coroutine.Scheduler.{Scheduler}
use tiny_coroutine.IoManager.Context.{EventContext}
use tiny_coroutine.IoManager.Slots.{posted}

pub record Registry : Type 0 where
  pub entries : ℕ → Event → Option EventContext
  pub schedulers : ℕ → Scheduler

abbrev pub same_event : Event → Event → Bool
same_event no_event no_event = true
same_event read read = true
same_event write write = true
same_event _ _ = false

abbrev pub set_entry :
    (ℕ → Event → Option EventContext)
    → ℕ
    → Event
    → Option EventContext
    → ℕ
    → Event
    → Option EventContext
set_entry f fd event o i e = if fd == i && same_event event e then o else f i e

-- What can happen to a registry: an entry comes, is dropped, or goes to its queue; or the threads of
-- the schedulers work on the queues.
pub data Change : Type 0 where
  registers : ℕ → Event → EventContext → Change
  drops : ℕ → Event → Change
  delivers : ℕ → Event → Change
  works : (ℕ → Scheduler) → Change

-- An entry comes only where there is none, and is dropped or delivered only where there is one.
unfoldable pub apply : Registry → Change → Option Registry
apply r (registers fd event ctx) =
    if is_some (r.entries fd event)
    then none
    else some (record r { entries = set_entry r.entries fd event (some ctx) })
apply r (drops fd event) =
    if is_some (r.entries fd event)
    then some (record r { entries = set_entry r.entries fd event none })
    else none
apply r (delivers fd event) = elim (r.entries fd event) [
  | none ↦ none
  | some ctx ↦
      some (record {
        entries = set_entry r.entries fd event none;
        schedulers = posted r.schedulers ctx;
      })
]
apply r (works schedulers) = some (record r { schedulers = schedulers })

abbrev pub and_then : Option Registry → (Registry → Option Registry) → Option Registry
and_then none f = none
and_then (some r) f = f r

unfoldable pub apply_all : Registry → List Change → Option Registry
unfolding apply
apply_all r [] = some r
apply_all r (c ∷ cs) = and_then (apply r c) (λ r'. apply_all r' cs)

pub apply_all-append :
    (r : Registry) (cs ds : List Change)
    → apply_all r (cs ++ ds) ≡ and_then (apply_all r cs) (λ r'. apply_all r' ds)
unfolding apply_all
apply_all-append r [] ds = refl
apply_all-append r (c ∷ cs) ds = elim (Option-cases (apply r c)) [
  | inl e ↦ rw e refl
  | inr (r', e) ↦ rw e (apply_all-append r' cs ds)
]

-- The changes that bring an entry of an event of a descriptor, and that take it.
abbrev pub brings : ℕ → Event → Change → Bool
brings fd event (registers i e ctx) = i == fd && same_event e event
brings fd event _ = false

abbrev pub takes : ℕ → Event → Change → Bool
takes fd event (registers i e ctx) = false
takes fd event (works schedulers) = false
takes fd event (drops i e) = i == fd && same_event e event
takes fd event (delivers i e) = i == fd && same_event e event

abbrev pub holds : Registry → ℕ → Event → ℕ
holds r fd event = if is_some (r.entries fd event) then 1 else 0

same_event-≡ : (a b : Event) → same_event a b ≡ true → a ≡ b
same_event-≡ no_event no_event h = refl
same_event-≡ read read h = refl
same_event-≡ write write h = refl
same_event-≡ no_event read h = cc
same_event-≡ no_event write h = cc
same_event-≡ read no_event h = cc
same_event-≡ read write h = cc
same_event-≡ write no_event h = cc
same_event-≡ write read h = cc

-- Is a change at `i` and `e` about the entry of `fd` and `event`?
about :
    (f : ℕ → Event → Option EventContext) (i fd : ℕ) (e event : Event)
    → ((i == fd && same_event e event) ≡ false)
      ⊎ (((i == fd && same_event e event) ≡ true) × (f i e ≡ f fd event))
about f i fd e event = elim (Bool-cases (i == fd && same_event e event)) [
  | inl on ↦ inr (on, same (ground (arith, on)) (same_event-≡ e event (ground (arith, on))))
  | inr off ↦ inl off
]
  where
    same : i ≡ fd → e ≡ event → f i e ≡ f fd event
    same p q = rw (p, q) refl

apply-balance :
    (r r' : Registry) (c : Change) (fd : ℕ) (event : Event)
    → apply r c ≡ some r'
    → holds r fd event + (if brings fd event c then 1 else 0)
      ≡ (if takes fd event c then 1 else 0) + holds r' fd event
unfolding apply
apply-balance r r' (registers i e ctx) fd event h = elim (about r.entries i fd e event) [
  | inl off ↦ ground (arith, off, h)
  | inr (on, same) ↦ ground (arith, on, same, h)
]
apply-balance r r' (drops i e) fd event h = elim (about r.entries i fd e event) [
  | inl off ↦ ground (arith, off, h)
  | inr (on, same) ↦ ground (arith, on, same, h)
]
apply-balance r r' (delivers i e) fd event h = elim (about r.entries i fd e event) [
  | inl off ↦ ground (arith, off, h)
  | inr (on, same) ↦ ground (arith, on, same, h)
]
apply-balance r r' (works schedulers) fd event h = ground (arith, h)

-- Each entry that came is still there, or was dropped or delivered, once.
pub apply_all-balance :
    (r r' : Registry) (cs : List Change) (fd : ℕ) (event : Event)
    → apply_all r cs ≡ some r'
    → holds r fd event + count (brings fd event) cs ≡ count (takes fd event) cs + holds r' fd event
unfolding apply_all
apply_all-balance r r' [] fd event h = ground (arith, h)
apply_all-balance r r' (c ∷ cs) fd event h = elim (Option-cases (apply r c)) [
  | inl e ↦ absurd (ground (arith, e, h))
  | inr (r1, e) ↦ omega (
    arith,
    apply-balance r r1 c fd event e,
    apply_all-balance r1 r' cs fd event (rw (e, apply_all) at h),
  )
]
