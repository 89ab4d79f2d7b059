-- ===== src/Thread/Tests.antt =====
-- code/thread.cpp: the start of thread 9, named 4, with a function.
use tiny_coroutine.Base.{◌≡◌, refl, true, none, some}
use tiny_coroutine.Callback.{user}
use tiny_coroutine.Thread.{
  wait, Start, before_start, create, prepare, post, pass, creates, prepares, posts, passes, Reach,
  starts, steps,
}
use tiny_coroutine.Thread.Handover.{has_signalled, constructed_ready}

abbrev ready : Start
ready = pass (post (prepare (create (before_start (some (user 1)) 4) 77) 9)) 0

ready-Reach : Reach 9 (some (user 1)) 4 ready
unfolding wait
ready-Reach =
    steps _ _
      (steps _ _ (steps _ _ (steps _ _ starts (creates 77 refl)) (prepares refl)) (posts refl))
      (passes 0 refl refl)

constructed_ready_example :
    (ready.object.id ≡ some 9)
    × (ready.object.cb ≡ none)
    × (ready.own_cb ≡ some (user 1))
    × (ready.own_name ≡ some 4)
    × (has_signalled ready.child ≡ true)
    × (ready.object.semaphore ≡ 0)
constructed_ready_example = constructed_ready 9 (some (user 1)) 4 ready ready-Reach refl
