-- ===== src/Thread.antt =====
-- code/thread.h and code/thread.cpp: the semaphore, and how a Thread object and its thread start.
--
-- A thread is named by its id, 0 or none being none; a name is a number. The constructor and the new
-- thread run side by side: `Step` has their steps, in any order.
pub mod Handover
pub mod Tests
use tiny_coroutine.Base.{
  ℕ, ◌+◌, ◌-◌, ◌≡◌, Bool, true, false, Option, none, some, ◌==◌, if◌then◌else◌, is_some,
}
use tiny_coroutine.Callback.{Callback}

-- Semaphore::wait, `none` while it waits, and Semaphore::signal, on the count.
unfoldable pub wait : ℕ → Option ℕ
wait cnt = if cnt == 0 then none else some (cnt - 1)

abbrev pub signal : ℕ → ℕ
signal cnt = cnt + 1

-- A Thread object: m_id, m_thread, m_cb, m_name, and the count of m_semaphore.
pub record Thread : Type 0 where
  pub id : Option ℕ
  pub handle : Option ℕ
  pub cb : Option Callback
  pub name : ℕ
  pub semaphore : ℕ

-- The members before pthread_create.
abbrev pub new_thread : Option Callback → ℕ → Thread
new_thread cb name = record { id = none; handle = none; cb = cb; name = name; semaphore = 0 }

-- The constructor: before pthread_create, in the wait, at its end, or left by an exception.
pub data Parent : Type 0 where
  creating waiting constructed thrown : Parent

-- run(): not started, started, with its function taken, behind signal(), in the function, or over.
pub data Child : Type 0 where
  absent started prepared signalled calling over : Child

pub record Start : Type 0 where
  pub object : Thread
  pub parent : Parent
  pub child : Child
  pub own_cb : Option Callback
  pub own_name : Option ℕ

abbrev pub before_start : Option Callback → ℕ → Start
before_start cb name = record {
  object = new_thread cb name;
  parent = creating;
  child = absent;
  own_cb = none;
  own_name = none;
}

-- pthread_create succeeds, with `handle`, or fails.
abbrev pub create : Start → ℕ → Start
create s handle = record s {
  object = record (s.object) { handle = some handle };
  parent = waiting;
  child = started;
}

-- run() up to the swap of the function, on the thread `tid`.
abbrev pub prepare : Start → ℕ → Start
prepare s tid = record s {
  object = record (s.object) { id = some tid; cb = none };
  child = prepared;
  own_cb = s.object.cb;
  own_name = some s.object.name;
}

abbrev pub post : Start → Start
post s = record s {
  object = record (s.object) { semaphore = signal s.object.semaphore };
  child = signalled;
}

abbrev pub pass : Start → ℕ → Start
pass s cnt = record s { object = record (s.object) { semaphore = cnt }; parent = constructed }

-- A step of the constructor or of the thread `tid`.
pub data Step (tid : ℕ) (s : Start) : Start → Type 0 where
  creates : (handle : ℕ) → s.parent ≡ creating → Step tid s (create s handle)
  throws : s.parent ≡ creating → Step tid s (record s { parent = thrown })
  prepares : s.child ≡ started → Step tid s (prepare s tid)
  posts : s.child ≡ prepared → Step tid s (post s)
  passes :
      (cnt : ℕ) → s.parent ≡ waiting → wait s.object.semaphore ≡ some cnt → Step tid s (pass s cnt)
  runs : s.child ≡ signalled → Step tid s (record s { child = calling })
  returns : s.child ≡ calling → Step tid s (record s { child = over })

pub data Reach (tid : ℕ) (cb : Option Callback) (name : ℕ) : Start → Type 0 where
  starts : Reach tid cb name (before_start cb name)
  steps : (s s' : Start) → Reach tid cb name s → Step tid s s' → Reach tid cb name s'

-- The destructor, and what join() does where pthread_join succeeds: the handle is given up.
abbrev pub release : Thread → Thread
release t = record t { handle = none }

-- Thread::join, for whether pthread_join succeeds; `none` is the exception.
abbrev pub join : Thread → Bool → Option Thread
join t joined = if is_some t.handle then (if joined then some (release t) else none) else some t

-- t_thread and t_thread_name of a thread.
pub record Locals : Type 0 where
  pub this : Option Thread
  pub name : ℕ

-- Thread::SetName, where the thread has the object `this`, or none; and Thread::GetName.
abbrev pub set_name : Locals → ℕ → Locals
set_name l name = record {
  this = elim l.this [ none ↦ none | some t ↦ some (record t { name = name }) ];
  name = name;
}

abbrev pub get_name : Locals → ℕ
get_name l = l.name
