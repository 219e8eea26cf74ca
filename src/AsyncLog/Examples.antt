-- ===== src/AsyncLog/Examples.antt =====
-- The theorem on the asynchronous log at a concrete state.
use reyao.Common.{refl, arith, some, List, [], ◌∷◌}
use reyao.AsyncLog.{AsyncLog, new_buffer}
use reyao.AsyncLog.Lines.{
  IsReady, new_buffer-IsFresh, Event, appends, turns, happen_all, Logs, happen_all-Logs,
}

abbrev new_log : AsyncLog
new_log = record {
  curr = some new_buffer;
  backup = some new_buffer;
  buffers = [];
  first = some new_buffer;
  second = some new_buffer;
  held = [];
  file = [];
}

new_log-IsReady : IsReady new_log
new_log-IsReady = record {
  current = (new_buffer, refl, new_buffer-IsFresh.0);
  spare = new_buffer-IsFresh;
  waiting = tt;
  own = λ h. (new_buffer, refl, new_buffer-IsFresh);
  other = new_buffer-IsFresh;
  writing = tt;
}

abbrev events : List Event
events = appends (71 ∷ 10 ∷ []) ∷ turns ∷ appends (72 ∷ 10 ∷ []) ∷ turns ∷ turns ∷ []

happen_all-Logs_example : Logs new_log (71 ∷ 10 ∷ 72 ∷ 10 ∷ []) (happen_all events new_log)
happen_all-Logs_example =
    happen_all-Logs events new_log new_log-IsReady (omega arith, (omega arith, tt))
