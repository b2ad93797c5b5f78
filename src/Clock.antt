-- ===== src/Clock.antt =====
-- src/clock.cpp: the clock and its timers. Times are nanoseconds from the epoch and durations are
-- not negative. `real` is the time of the event loop. `scheduled` stands for the ticks that were
-- given to `EventLoop::delay` and have not run yet; a process is a number; a timer's thunk is its
-- identifier. Each function is one critical section of the source.
pub mod Groups
pub mod Firing
pub mod Schedule
pub mod Kept
pub mod Wakeup
pub mod Processes
mod Tests
use libprocess.Common.{
  ℕ, suc, ◌+◌, ◌-◌, Bool, true, false, not, ◌&&◌, ◌||◌, Option, none, some, List, [], ◌∷◌, ◌++◌,
  if◌then◌else◌, ltb, leb, ◌==◌,
}

pub record Timer : Type 0 where
  pub id : ℕ
  pub timeout : ℕ

-- `map<Time, list<Timer>>`, by ascending time.
abbrev pub Timers : Type 0
Timers = List (ℕ × List Timer)

pub record Clock : Type 0 where
  pub timers : Timers
  pub currents : List (ℕ × ℕ)
  pub initial : ℕ
  pub current : ℕ
  pub advanced : ℕ
  pub paused : Bool
  pub settling : Bool
  pub ticks : List ℕ
  pub scheduled : List ℕ
  pub next_id : ℕ

-- The static initial values.
unfoldable pub started : Clock
started = record {
  timers = [];
  currents = [];
  initial = 0;
  current = 0;
  advanced = 0;
  paused = false;
  settling = false;
  ticks = [];
  scheduled = [];
  next_id = 1;
}

-- `Clock::now(nullptr)`
unfoldable pub global_now : ℕ → Clock → ℕ
global_now real c = if c.paused then c.current else real + c.advanced

-- `clock::next`
unfoldable pub next : Clock → Timers → Option ℕ
next c [] = none
next c ((first, group) ∷ rest) = if c.paused && ltb c.current first then none else some first

-- `ticks->insert` and `ticks->erase` on a set of times.
unfoldable pub insert_tick : ℕ → List ℕ → List ℕ
insert_tick t [] = t ∷ []
insert_tick t (u ∷ us) =
    if ltb t u then t ∷ u ∷ us else if t == u then u ∷ us else u ∷ insert_tick t us

unfoldable pub erase_tick : ℕ → List ℕ → List ℕ
erase_tick t [] = []
erase_tick t (u ∷ us) = let rest = erase_tick t us in if u == t then rest else u ∷ rest

abbrev pub earlier_than_all : ℕ → List ℕ → Bool
earlier_than_all t [] = true
earlier_than_all t (u ∷ us) = ltb t u

abbrev pub schedule_at : Option ℕ → Clock → Clock
schedule_at none c = c
schedule_at (some t) c =
    if earlier_than_all t c.ticks
    then record c { ticks = insert_tick t c.ticks; scheduled = c.scheduled ++ t ∷ [] }
    else c

-- `clock::scheduleTick`
unfoldable pub schedule_tick : Clock → Clock
unfolding next insert_tick
schedule_tick c = schedule_at (next c c.timers) c

-- The timers that `tick` collects, and those that it leaves.
unfoldable pub timed_out : ℕ → Timers → List Timer
timed_out now [] = []
timed_out now ((t, group) ∷ rest) = if ltb now t then [] else group ++ timed_out now rest

unfoldable pub remaining : ℕ → Timers → Timers
remaining now [] = []
remaining now ((t, group) ∷ rest) =
    let later = remaining now rest in if ltb now t then (t, group) ∷ rest else later

abbrev pub is_due : ℕ → Timers → Bool
is_due now [] = false
is_due now ((t, group) ∷ rest) = not (ltb now t)

-- The event loop runs a tick once.
unfoldable pub run_once : ℕ → List ℕ → List ℕ
run_once t [] = []
run_once t (u ∷ us) = if u == t then us else u ∷ run_once t us

-- The first critical section of `clock::tick`, with the timers that the callback is given.
unfoldable pub tick : ℕ → ℕ → Clock → Clock × List Timer
tick real time c =
    let now = global_now real c in
    (
      schedule_tick (record c {
        settling = c.settling || (c.paused && is_due now c.timers);
        timers = remaining now c.timers;
        ticks = erase_tick time c.ticks;
        scheduled = run_once time c.scheduled;
      }),
      timed_out now c.timers,
    )

abbrev pub none_due : ℕ → Timers → Bool
none_due now timers = not (is_due now timers)

-- The second critical section of `clock::tick`, after the callback.
unfoldable pub tick_done : Clock → Clock
tick_done c = if c.paused && none_due c.current c.timers then record c { settling = false } else c

-- `(*timers)[time].push_back(timer)`
unfoldable pub push_timer : Timer → Timers → Timers
push_timer timer [] = (timer.timeout, timer ∷ []) ∷ []
push_timer timer ((t, group) ∷ rest) =
    if ltb timer.timeout t
    then (timer.timeout, timer ∷ []) ∷ (t, group) ∷ rest
    else if timer.timeout == t
    then (t, group ++ timer ∷ []) ∷ rest
    else (t, group) ∷ push_timer timer rest

abbrev pub is_first : ℕ → Timers → Bool
is_first time [] = true
is_first time ((t, group) ∷ rest) = ltb time t

-- `Clock::timer`, for a timeout at a given time.
unfoldable pub add_timer : ℕ → Clock → Clock × Timer
add_timer timeout c =
    let timer : Timer = record { id = c.next_id; timeout = timeout } in
    let added = record c { timers = push_timer timer c.timers; next_id = suc c.next_id } in
    (if is_first timeout c.timers then schedule_tick added else added, timer)

-- `list<Timer>::remove`; timers are equal if their identifiers are.
unfoldable pub remove_timer : ℕ → List Timer → List Timer
remove_timer id [] = []
remove_timer id (t ∷ ts) = let rest = remove_timer id ts in if t.id == id then rest else t ∷ rest

abbrev pub put_group : ℕ → List Timer → Timers → Timers
put_group t [] rest = rest
put_group t (x ∷ xs) rest = (t, x ∷ xs) ∷ rest

-- Removal from the group of the timer's time, and whether that group is there.
unfoldable pub cancel_in : Timer → Timers → Timers × Bool
unfolding remove_timer
cancel_in timer [] = ([], false)
cancel_in timer ((t, group) ∷ rest) =
    let (rest', found) = cancel_in timer rest in
    if t == timer.timeout
    then (put_group t (remove_timer timer.id group) rest, true)
    else ((t, group) ∷ rest', found)

-- `Clock::cancel`
unfoldable pub cancel : Timer → Clock → Clock × Bool
cancel timer c =
    let (timers, canceled) = cancel_in timer c.timers in (record c { timers = timers }, canceled)

-- `Clock::pause`, `Clock::resume`, and `Clock::advance` and `Clock::update` of the global clock.
unfoldable pub pause : ℕ → Clock → Clock
pause real c =
    if not c.paused
    then record c {
      initial = global_now real c;
      current = global_now real c;
      paused = true;
      ticks = [];
    }
    else c

unfoldable pub resume : Clock → Clock
resume c =
    if c.paused
    then schedule_tick (record c { paused = false; settling = false; currents = [] })
    else c

unfoldable pub advance : ℕ → Clock → Clock
advance duration c =
    if c.paused
    then schedule_tick
        (record c { advanced = c.advanced + duration; current = c.current + duration })
    else c

unfoldable pub update : ℕ → Clock → Clock
update time c =
    if c.paused && ltb c.current time
    then schedule_tick (record c { advanced = c.advanced + (time - c.current); current = time })
    else c

-- `Clock::settled`: none where the CHECK that the clock is paused fails.
unfoldable pub settled : Clock → Option Bool
settled c = if c.paused then some (not c.settling && none_due c.current c.timers) else none
