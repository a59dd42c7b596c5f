-- ===== src/Worker/Poll.antt =====
-- `Poll` of internal/jobworker/poll.go: for each turn, what its `select` takes: the context that is done,
-- or the timer, with what the tick meets.
use consulting_revenue_platf.Prelude.{List, [], ◌∷◌}
use consulting_revenue_platf.Store.{Error}

-- What a tick returns: nil, `ErrIdle` or another error.
pub data Tick : Type 0 where
  worked idle : Tick
  broke : Error → Tick

pub data Turn (A : Type 0) : Type 0 where
  quit : Turn A
  tick : A → Turn A

-- `running` where the turns are over before the loop is.
pub data PollEnd : Type 0 where
  running context_done : PollEnd
  stopped_by : Error → PollEnd

module _ {A S : Type 0} (run : A → S → Tick × S) where
  abbrev pub next_turn : (S → PollEnd × S) → Tick × S → PollEnd × S
  next_turn more (worked, s) = more s
  next_turn more (idle, s) = more s
  next_turn more (broke e, s) = (stopped_by e, s)

  unfoldable pub poll : List (Turn A) → S → PollEnd × S
  poll [] s = (running, s)
  poll (quit ∷ ts) s = (context_done, s)
  poll (tick a ∷ ts) s = next_turn (poll ts) (run a s)
