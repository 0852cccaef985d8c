-- ===== src/Main/Shutdown.antt =====
-- src/main/graceful-shutdown.ts, without its log lines but the outcomes of the steps, as it reacts to
-- what happens one event after the other. `exit` is process.exit, after which nothing runs.
pub mod Once
use money_across_borders.Base.{
  ℕ, zero, suc, ◌-◌, ◌==◌, String, Bool, true, false, Option, none, some, List, [], ◌∷◌, ◌++◌,
  if◌then◌else◌,
}

-- A step by its name. What the promise of its `close` does is an event.
pub record ShutdownStep : Type 0 where
  pub name : String

-- A call of the handler that waits for the `close` of a step, with the steps after it and `exitCode`.
pub record Handler : Type 0 where
  pub current : ShutdownStep
  pub rest : List ShutdownStep
  pub code : ℕ

-- `shuttingDown`, the calls of the handler that wait, how many force-exit timers are set, the steps
-- whose `close` was called, the outcomes that were logged, and the codes given to `exit`.
pub record Process : Type 0 where
  pub shutting_down : Bool
  pub handlers : List Handler
  pub timers : ℕ
  pub closing : List String
  pub log : List (String × Bool)
  pub exits : List ℕ

-- A signal arrives; the promise that the waiting call of a number awaits is fulfilled or rejected; a
-- timer elapses.
pub data Event : Type 0 where
  signal : Event
  settles : ℕ → Bool → Event
  elapses : Event

-- The loop from a step on: it calls `close` and waits, or, past the last step, clears the timer and
-- exits.
unfoldable pub close_next : List ShutdownStep → ℕ → Process → Process
close_next [] code p = record p { timers = p.timers - 1; exits = p.exits ++ (code ∷ []) }
close_next (step ∷ steps) code p = record p {
  handlers = p.handlers ++ ((record { current = step; rest = steps; code = code }) ∷ []);
  closing = p.closing ++ (step.name ∷ []);
}

-- The handler that `createGracefulShutdown` returns, up to where it first waits.
unfoldable pub handle_signal : List ShutdownStep → Process → Process
unfolding close_next
handle_signal steps p =
    if p.shutting_down
    then p
    else close_next steps 0 (record p { shutting_down = true; timers = suc p.timers })

-- The waiting call of a number, and the others.
abbrev pub take_handler : ℕ → List Handler → Option (Handler × List Handler)
take_handler n [] = none
take_handler zero (h ∷ hs) = some (h, hs)
take_handler (suc n) (h ∷ hs) = elim (take_handler n hs) [
  | none ↦ none
  | some (found, others) ↦ some (found, h ∷ others)
]

-- What follows the `await` of a step: the log of its outcome, the code, and the next step.
unfoldable pub after_close : Handler → Bool → Process → Process
unfolding close_next
after_close h fulfilled p =
    close_next h.rest (if fulfilled then h.code else 1)
      (record p { log = p.log ++ ((h.current.name, fulfilled) ∷ []) })

-- The callback of `setTimeout`.
unfoldable pub force_exit : Process → Process
force_exit p =
    if p.timers == 0 then p else record p { timers = p.timers - 1; exits = p.exits ++ (1 ∷ []) }

abbrev pub react : List ShutdownStep → Event → Process → Process
react steps signal p = handle_signal steps p
react steps (settles n fulfilled) p = elim (take_handler n p.handlers) [
  | none ↦ p
  | some (h, others) ↦ after_close h fulfilled (record p { handlers = others })
]
react steps elapses p = force_exit p

-- One event at a process, which after `exit` is gone.
unfoldable pub happens : List ShutdownStep → Event → Process → Process
unfolding handle_signal after_close force_exit
happens steps e p = elim p.exits [ [] ↦ react steps e p | code ∷ codes ↦ p ]

unfoldable pub happen : List ShutdownStep → List Event → Process → Process
unfolding happens
happen steps [] p = p
happen steps (e ∷ es) p = happen steps es (happens steps e p)

abbrev pub running : Process
running = record {
  shutting_down = false;
  handlers = [];
  timers = 0;
  closing = [];
  log = [];
  exits = [];
}
