-- ===== src/Main/Shutdown/Once.antt =====
-- However signals, promises and the timer interleave, the process shuts down once.
use money_across_borders.Base.{
  ℕ, zero, suc, String, Bool, true, false, List, [], ◌∷◌, ◌++◌, map, ◌≡◌, refl, sym, ap, ◌∙◌, ◌⊎◌,
  inl, inr,
}
use mathlib.Core.Path.{subst}
use money_across_borders.Main.Shutdown.{
  ShutdownStep, Handler, Process, Event, signal, settles, elapses, close_next, handle_signal,
  after_close, force_exit, react, happens, happen, running,
}

abbrev pub names : List ShutdownStep → List String
names steps = map (λ s. s.name) steps

-- Every step, fulfilled.
abbrev pub fulfilled_all : List ShutdownStep → List (String × Bool)
fulfilled_all steps = map (λ s. (s.name, true)) steps

append_nil {ℓ} : {A : Type ℓ} (xs : List A) → xs ++ [] ≡ xs
append_nil [] = refl
append_nil (x ∷ xs) = ap (λ zs. x ∷ zs) (append_nil xs)

snoc {ℓ} :
    {A : Type ℓ} (xs : List A) (x : A) (ys : List A) → (xs ++ (x ∷ [])) ++ ys ≡ xs ++ (x ∷ ys)
snoc [] x ys = refl
snoc (y ∷ xs) x ys = ap (λ zs. y ∷ zs) (snoc xs x ys)

-- The steps whose `close` was called are, in order, the first ones of the list.
abbrev pub IsInTurn : List ShutdownStep → Process → Type 0
IsInTurn steps p = (rest : List String) × (p.closing ++ rest ≡ names steps)

-- Where a process is after a signal: at a step, or gone.
data Stage (steps : List ShutdownStep) : Process → Type 0 where
  waits :
      (h : Handler) (closing : List String) (log : List (String × Bool))
      → closing ++ names h.rest ≡ names steps
      → (h.code ≡ 0 → log ++ ((h.current.name, true) ∷ fulfilled_all h.rest) ≡ fulfilled_all steps)
      → Stage steps (record {
        shutting_down = true;
        handlers = h ∷ [];
        timers = 1;
        closing = closing;
        log = log;
        exits = [];
      })
  gone :
      (p : Process) (code : ℕ)
      → p.exits ≡ code ∷ []
      → IsInTurn steps p
      → (code ≡ 0 → p.log ≡ fulfilled_all steps)
      → Stage steps p

-- The loop from where the steps before have been closed.
close_next-Stage :
    (steps rest : List ShutdownStep) (code : ℕ) (closing : List String) (log : List (String × Bool))
    → closing ++ names rest ≡ names steps
    → (code ≡ 0 → log ++ fulfilled_all rest ≡ fulfilled_all steps)
    → Stage steps (
        close_next rest code (record {
          shutting_down = true;
          handlers = [];
          timers = 1;
          closing = closing;
          log = log;
          exits = [];
        }))
unfolding close_next
close_next-Stage steps [] code closing log turn clean =
    gone _ code refl ([], turn) (λ z. sym (append_nil log) ∙ clean z)
close_next-Stage steps (s ∷ rest) code closing log turn clean =
    waits (record { current = s; rest = rest; code = code }) (closing ++ (s.name ∷ [])) log
      (snoc closing s.name (names rest) ∙ turn) clean

-- One exit, with 0 only if every step was fulfilled.
abbrev pub HasExited : List ShutdownStep → Process → Type 0
HasExited steps p = (code : ℕ) × (p.exits ≡ code ∷ []) × (code ≡ 0 → p.log ≡ fulfilled_all steps)

over :
    (steps : List ShutdownStep) (e : Event) (p : Process) (code : ℕ)
    → p.exits ≡ code ∷ []
    → happens steps e p ≡ p
unfolding happens
over steps e p code h = ap (λ xs. elim xs [ [] ↦ react steps e p | c ∷ cs ↦ p ]) h

settles-Stage :
    (steps : List ShutdownStep) (h : Handler) (closing : List String) (log : List (String × Bool))
    (fulfilled : Bool)
    → closing ++ names h.rest ≡ names steps
    → (h.code ≡ 0 → log ++ ((h.current.name, true) ∷ fulfilled_all h.rest) ≡ fulfilled_all steps)
    → Stage steps (
        after_close h fulfilled (record {
          shutting_down = true;
          handlers = [];
          timers = 1;
          closing = closing;
          log = log;
          exits = [];
        }))
unfolding after_close
settles-Stage steps h closing log true turn clean =
    close_next-Stage steps h.rest h.code closing (log ++ ((h.current.name, true) ∷ [])) turn
      (λ z. snoc log (h.current.name, true) (fulfilled_all h.rest) ∙ clean z)
settles-Stage steps h closing log false turn clean =
    close_next-Stage steps h.rest 1 closing (log ++ ((h.current.name, false) ∷ [])) turn
      (λ z. absurd (cc z))

happens-Stage :
    (steps : List ShutdownStep) (e : Event) (p : Process)
    → Stage steps p
    → Stage steps (happens steps e p)
unfolding happens handle_signal force_exit
happens-Stage steps e _ (gone p code once turn clean) =
    subst (Stage steps) (sym (over steps e p code once)) (gone p code once turn clean)
happens-Stage steps signal _ (waits h closing log turn clean) = waits h closing log turn clean
happens-Stage steps (settles zero fulfilled) _ (waits h closing log turn clean) =
    settles-Stage steps h closing log fulfilled turn clean
happens-Stage steps (settles (suc n) fulfilled) _ (waits h closing log turn clean) =
    waits h closing log turn clean
happens-Stage steps elapses _ (waits h closing log turn clean) =
    gone _ 1 refl (names h.rest, turn) (λ z. absurd (cc z))

happen-Stage :
    (steps : List ShutdownStep) (es : List Event) (p : Process)
    → Stage steps p
    → Stage steps (happen steps es p)
unfolding happen
happen-Stage steps [] p stage = stage
happen-Stage steps (e ∷ es) p stage =
    happen-Stage steps es (happens steps e p) (happens-Stage steps e p stage)

happen-append :
    (steps : List ShutdownStep) (es fs : List Event) (p : Process)
    → happen steps (es ++ fs) p ≡ happen steps fs (happen steps es p)
unfolding happen
happen-append steps [] fs p = refl
happen-append steps (e ∷ es) fs p = happen-append steps es fs (happens steps e p)

stays_over :
    (steps : List ShutdownStep) (es : List Event) (p : Process) (code : ℕ)
    → p.exits ≡ code ∷ []
    → happen steps es p ≡ p
unfolding happen
stays_over steps [] p code h = refl
stays_over steps (e ∷ es) p code h =
    ap (happen steps es) (over steps e p code h) ∙ stays_over steps es p code h

in_turn : (steps : List ShutdownStep) (p : Process) → Stage steps p → IsInTurn steps p
in_turn steps _ (gone p code once turn clean) = turn
in_turn steps _ (waits h closing log turn clean) = (names h.rest, turn)

at_most_once :
    (steps : List ShutdownStep) (p : Process) → Stage steps p → (p.exits ≡ []) ⊎ HasExited steps p
at_most_once steps _ (gone p code once turn clean) = inr (code, once, clean)
at_most_once steps _ (waits h closing log turn clean) = inl refl

elapses-HasExited :
    (steps : List ShutdownStep) (es : List Event) (p : Process)
    → Stage steps p
    → HasExited steps (happen steps (elapses ∷ es) p)
unfolding happen happens force_exit
elapses-HasExited steps es _ (gone p code once turn clean) =
    subst (HasExited steps) (sym (stays_over steps (elapses ∷ es) p code once)) (code, once, clean)
elapses-HasExited steps es _ (waits h closing log turn clean) =
    subst (HasExited steps) (sym (stays_over steps es _ 1 refl)) (1, refl, λ z. absurd (cc z))

-- The promises of the steps are fulfilled, one after the other.
abbrev pub fulfilling : List ShutdownStep → List Event
fulfilling steps = map (λ s. settles 0 true) steps

closes_all :
    (steps rest : List ShutdownStep) (closing : List String) (log : List (String × Bool))
    → (happen steps (fulfilling rest) (
        close_next rest 0 (record {
          shutting_down = true;
          handlers = [];
          timers = 1;
          closing = closing;
          log = log;
          exits = [];
        }))).exits
      ≡ 0 ∷ []
unfolding happen happens close_next after_close
closes_all steps [] closing log = refl
closes_all steps (s ∷ rest) closing log =
    closes_all steps rest (closing ++ (s.name ∷ [])) (log ++ ((s.name, true) ∷ []))

-- However signals, promises of the steps and timers follow each other after a first signal: the
-- steps whose close was called are the first ones of the list, each once and in order; the
-- process has not exited or has exited once, with 0 only if every step was fulfilled; and once
-- the timer has elapsed it has exited once, whatever follows. Where the steps are fulfilled one
-- after the other, it exits with 0.
pub shutdown_exits_once :
    (steps : List ShutdownStep) (before after : List Event)
    → let p = happen steps (signal ∷ before) running in
      let q = happen steps (signal ∷ (before ++ (elapses ∷ after))) running in
      IsInTurn steps p
      × ((p.exits ≡ []) ⊎ HasExited steps p)
      × HasExited steps q
      × ((happen steps (signal ∷ fulfilling steps) running).exits ≡ 0 ∷ [])
unfolding happen happens handle_signal
shutdown_exits_once steps before after =
    let begun = happens steps signal running in
    let stage : Stage steps begun = close_next-Stage steps steps 0 [] [] refl (λ z. refl) in
    let reached = happen-Stage steps before begun stage in
    (
      in_turn steps _ reached,
      at_most_once steps _ reached,
      subst (HasExited steps) (sym (happen-append steps before (elapses ∷ after) begun))
          (elapses-HasExited steps after _ reached),
      closes_all steps steps [] [],
    )
