-- ===== src/Lib.antt =====
-- TinyCoroutine: a coroutine library for Linux servers, verified.
--
-- The program (code/) runs fibers on a pool of threads. A Scheduler (code/scheduler.h, .cpp) keeps a
-- queue of tasks and the run loop of its threads; a TimerManager (code/timer.h, .cpp) keeps timers in a
-- set by deadline; an IOManager (code/ioscheduler.h, .cpp) is both, and adds the events of file
-- descriptors: addEvent registers a fiber or a function, and idle() waits in epoll_wait, takes the
-- timers that are due and the events that are ready, and schedules what was registered for them.
--
-- Files:
--   Base          shared names, Boolean tests, lists, sums, and the heap of shared objects
--   Result        the outcome of code that can fail an assertion
--   Callback      std::function<void()> values by name, and IOManager::Event
--   OrderedSet    std::set under Timer::Comparator (code/timer.h: m_timers)
--   Timer         code/timer.h, code/timer.cpp: cancel, refresh, reset, addTimer (add_timer_ptr and
--                 add_timer), addConditionTimer, detectClockRollover, getNextTimer, listExpireCb
--                 (list_expire_cb with its loop expire_loop), hasTimer. Valid, Lookup, Handles, Expire,
--                 Fate, Outcome and History hold the proofs. Calendar is what the timers promise, without
--                 the set; Refine relates the two.
--   Scheduler     code/scheduler.h, code/scheduler.cpp: scheduleLock, the search of run() (pick,
--                 take_task), stopping, start, stop, and tickle as IOManager overrides it. System has
--                 run() and idle() as a step relation of the threads of a pool; Fairness has the turns
--                 of a task that waits, End the assertion of ~Scheduler.
--   Pool          code/scheduler.cpp with code/fiber.cpp: run() on the threads of a pool with the fibers
--                 of tasks, each under its m_mtx, the idle fibers and m_schedulerFiber, and t_fiber of each
--                 thread (Core). Valid has the invariant; Views, Grow, Keep, Adopt, Moves, Switches, Rest and
--                 Enter that each step keeps it, which Invariant sums up. Stray has a fiber that must not be
--                 scheduled.
--   IoManager     code/ioscheduler.h, code/ioscheduler.cpp: addEvent, delEvent, cancelEvent, cancelAll,
--                 contextResize, triggerEvent, and the handling of an event in idle() (handle_event).
--                 Registry is what the events promise, without contexts, masks and counts; Refine and
--                 History relate the two, for a call and for all histories. Shrink has two threads that
--                 resize the table at once.
--   Idle          code/ioscheduler.cpp: idle() as a whole (idle_round: stopping, wait, and turn with
--                 schedule_cbs and handle_all), on a Manager that joins an IoManager, a TimerManager and
--                 a Scheduler. Wait, Queues, Reported, Turn and Loop hold the proofs. Lifecycle has the
--                 constructor of IOManager (new_manager), Stop its stop() and destructor.
--   Hook          code/hook.cpp: fcntl, ioctl, setsockopt, socket, close and the sleeping calls over the
--                 table; Io has do_io (retry is its loop), the calls that use it and connect_with_timeout,
--                 as the actions they take for given outcomes. Flags, Waiting and Marked hold the proofs. Wait has
--                 the wait of these loops over the timers and the events themselves, and what its timer
--                 does; Started and Timeout hold the proofs. Init has hook_init.
--   Thread        code/thread.h, code/thread.cpp: the semaphore, and the constructor and run() as steps
--                 that interleave. Handover has what the constructor's wait is for.
--   Fiber         code/fiber.h, code/fiber.cpp: both constructors (main_fiber, new_fiber), reset, resume,
--                 yield, GetThis and MainFunc (finish), over a machine that switches stacks. Linked has
--                 the invariant, Switch what a switch does, Reach the calls of a thread, Laws the rest.
--   Server        code/main.cpp: test_accept, the function of a connection, as its actions for what
--                 recv() answers, and test_iomanager.
--   Compare       epoll/main.cpp (Epoll) and libevent/main.cpp (Libevent), the servers to compare with,
--                 over a ledger of connections; each has its proofs in Connections, and Epoll also in
--                 Accounts.
--   FdManager     code/fd_manager.h, code/fd_manager.cpp: FdCtx::init, setTimeout, getTimeout,
--                 FdManager::get and del, and the singleton. Valid has the invariant, Laws the sequences
--                 of calls.
--
-- How the state is modelled: objects behind pointers are entries of a function from identifiers. The
-- clock, the kernel's answers to epoll_ctl and the events of epoll_wait are arguments. Times are
-- nanoseconds without the wrap of 64 bits: the deadlines of the program lie below 2^63 ns. A failed
-- assertion or a null pointer is `abort`.
--
-- Interleavings: the step relations take one step of one thread after the other. In Scheduler/System and
-- Pool a step is what run() does under one lock, or between two; in Thread what the new thread or its
-- constructor does up to its next call of the semaphore. In IoManager/History and Timer/History a step
-- is a call. There addEvent and Timer::reset, whose sections others can come between with an effect,
-- are also steps section by section; the look into the table under the read lock, with which the other
-- calls begin, is one step with the rest, and so is the schedule() in triggerEvent. In FdManager the
-- part of get() under the write lock is a definition of its own.
--
-- What callers keep to, where the code has no test of it, is a condition of the histories: IsAllowed in
-- IoManager/History, the premises of the calls in Timer/History, and IsProper in Pool and Fiber/Reach.
-- Each result on these histories names what it needs.
--
-- Fuel: only the loop of listExpireCb takes fuel. More rounds than there are timers suffice while the
-- clock does not run back.
--
-- Not modelled: what other threads do within a turn of idle(); when idle() ends in Pool, where it can
-- end at any time; and a wait of do_io as one run of all threads, whose parts have theorems of their
-- own. test/ is left out, since it holds older copies of code/.
pub mod Base
pub mod Result
pub mod OrderedSet
pub mod Callback
pub mod Timer
pub mod Scheduler
pub mod IoManager
pub mod FdManager
pub mod Fiber
pub mod Idle
pub mod Hook
pub mod Thread
pub mod Pool
pub mod Server
pub mod Compare
