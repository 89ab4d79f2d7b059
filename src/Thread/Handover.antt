-- ===== src/Thread/Handover.antt =====
-- code/thread.cpp: what the wait in the constructor is for.
use tiny_coroutine.Base.{
  ℕ, ◌+◌, ◌≡◌, refl, Bool, true, false, Option, none, some, arith, if◌then◌else◌,
}
use tiny_coroutine.Callback.{Callback}
use tiny_coroutine.Thread.{
  wait, Parent, waiting, constructed, Child, absent, started, prepared, signalled, calling, over,
  Start, Step, creates, throws, prepares, posts, passes, runs, returns, Reach, starts, steps,
}

-- run() has taken its function, and has signalled.
abbrev pub has_prepared : Child → Bool
has_prepared absent = false
has_prepared started = false
has_prepared prepared = true
has_prepared signalled = true
has_prepared calling = true
has_prepared over = true

abbrev pub has_signalled : Child → Bool
has_signalled absent = false
has_signalled started = false
has_signalled prepared = false
has_signalled signalled = true
has_signalled calling = true
has_signalled over = true

abbrev pub has_passed : Parent → Bool
has_passed constructed = true
has_passed _ = false

abbrev pub has_created : Parent → Bool
has_created waiting = true
has_created constructed = true
has_created _ = false

pub record IsStarting (tid : ℕ) (cb : Option Callback) (name : ℕ) (s : Start) : Type 0 where
  pub count :
      s.object.semaphore + (if has_passed s.parent then 1 else 0)
      ≡ (if has_signalled s.child then 1 else 0)
  pub before : has_created s.parent ≡ false → s.child ≡ absent
  pub untaken : has_prepared s.child ≡ false → (s.object.cb ≡ cb) × (s.own_cb ≡ none)
  pub taken :
      has_prepared s.child ≡ true
      → (s.object.id ≡ some tid) × (s.object.cb ≡ none) × (s.own_cb ≡ cb) × (s.own_name ≡ some name)
  pub named : s.object.name ≡ name

Step-IsStarting :
    (tid : ℕ) (cb : Option Callback) (name : ℕ) (s s' : Start)
    → IsStarting tid cb name s
    → Step tid s s'
    → IsStarting tid cb name s'
unfolding wait
Step-IsStarting tid cb name s _ v (creates handle e) = record {
  count = ground (arith, v.count, v.before, e);
  before = λ h. cc;
  untaken = λ h. v.untaken (ground (arith, v.before, e));
  taken = λ h. cc;
  named = v.named;
}
Step-IsStarting tid cb name s _ v (throws e) = record {
  count = ground (arith, v.count, e);
  before = λ h. v.before (ground (arith, e));
  untaken = v.untaken;
  taken = v.taken;
  named = v.named;
}
Step-IsStarting tid cb name s _ v (prepares e) = record {
  count = ground (arith, v.count, e);
  before = λ h. let a = v.before h in cc;
  untaken = λ h. cc;
  taken = λ h. ground (arith, v.untaken, v.named, e);
  named = v.named;
}
Step-IsStarting tid cb name s _ v (posts e) = record {
  count = ground (arith, v.count, e);
  before = λ h. let a = v.before h in cc;
  untaken = λ h. cc;
  taken = λ h. v.taken (ground (arith, e));
  named = v.named;
}
Step-IsStarting tid cb name s _ v (passes cnt e w) = record {
  count = ground (arith, v.count, e, w);
  before = λ h. cc;
  untaken = v.untaken;
  taken = v.taken;
  named = v.named;
}
Step-IsStarting tid cb name s _ v (runs e) = record {
  count = ground (arith, v.count, e);
  before = λ h. let a = v.before h in cc;
  untaken = λ h. cc;
  taken = λ h. v.taken (ground (arith, e));
  named = v.named;
}
Step-IsStarting tid cb name s _ v (returns e) = record {
  count = ground (arith, v.count, e);
  before = λ h. let a = v.before h in cc;
  untaken = λ h. cc;
  taken = λ h. v.taken (ground (arith, e));
  named = v.named;
}

Reach-IsStarting :
    (tid : ℕ) (cb : Option Callback) (name : ℕ) (s : Start)
    → Reach tid cb name s
    → IsStarting tid cb name s
Reach-IsStarting tid cb name _ starts = record {
  count = refl;
  before = λ h. refl;
  untaken = λ h. (refl, refl);
  taken = λ h. cc;
  named = refl;
}
Reach-IsStarting tid cb name _ (steps s s' r step) =
    Step-IsStarting tid cb name s s' (Reach-IsStarting tid cb name s r) step

signalled-prepared : (c : Child) → has_signalled c ≡ true → has_prepared c ≡ true
signalled-prepared absent h = cc
signalled-prepared started h = cc
signalled-prepared prepared h = refl
signalled-prepared signalled h = refl
signalled-prepared calling h = refl
signalled-prepared over h = refl

-- Once the constructor has returned, the object has the id of the new thread, and the new thread has
-- taken over the function and the name and has signalled. The semaphore is back at 0.
pub constructed_ready :
    (tid : ℕ) (cb : Option Callback) (name : ℕ) (s : Start)
    → Reach tid cb name s
    → s.parent ≡ constructed
    → (s.object.id ≡ some tid)
      × (s.object.cb ≡ none)
      × (s.own_cb ≡ cb)
      × (s.own_name ≡ some name)
      × (has_signalled s.child ≡ true)
      × (s.object.semaphore ≡ 0)
constructed_ready tid cb name s r e =
    let v = Reach-IsStarting tid cb name s r in
    let signals : has_signalled s.child ≡ true = ground (arith, v.count, e) in
    let (id, object_cb, own_cb, own_name) = v.taken (signalled-prepared s.child signals) in
    (id, object_cb, own_cb, own_name, signals, ground (arith, v.count, e, signals))
