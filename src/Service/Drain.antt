-- ===== src/Service/Drain.antt =====
-- gnes/service/base.py: the event loop ends by `TERMINATE`, behind the messages that wait before it.
use mathlib.Core.List.{append-nil}
use gnes.Prelude.{
  ◌<◌, ◌≡◌, refl, sym, ap, ◌∙◌, true, false, List, ◌++◌, [], ◌∷◌, arith, length, if◌then◌else◌,
  str_eq, subst,
}
use gnes.Service.Handler.{msg_type_eq, After, carries_on, loop_ends, crashes}
use gnes.Service.Loop.{
  Msg, Service, Setup, Tick, dump, is_dump_due, handle_message, arrive, then_dump, on_input,
  on_control, dispatch, turn, after_turn, run_loop,
}
use gnes.Service.Effects.{
  SameEffect, SameEffect-then, handle_message-SameEffect, then_dump-SameEffect,
  close_loop-SameEffect,
}
use gnes.Service.Progress.{handle_message-Kept, handle_message-event, close_loop-closed}

module _ {P W : Type 0} (setup : Setup P W) where
  -- A message that any state of the service handles without leaving the loop.
  abbrev pub IsHarmless : Msg P → Type 0
  IsHarmless msg = (s : Service P W) → (handle_message setup msg s).0 ≡ carries_on

  abbrev pub AreHarmless : List (Msg P) → Type 0
  AreHarmless [] = Unit
  AreHarmless (m ∷ l) = IsHarmless m × AreHarmless l

  -- A message that ends the loop in any state.
  abbrev pub IsLast : Msg P → Type 0
  IsLast msg = (s : Service P W) → (handle_message setup msg s).0 ≡ loop_ends

  -- Ticks at which nothing arrives.
  abbrev pub AreQuiet : List (Tick P) → Type 0
  AreQuiet [] = Unit
  AreQuiet (t ∷ ticks) = (t.arrive_in ≡ []) × (t.arrive_ctrl ≡ []) × AreQuiet ticks

  -- How the loop is left.
  pub record IsClosed (s : Service P W) : Type 0 where
    pub stopped : s.is_event_loop ≡ false
    pub ready : s.is_ready ≡ true
    pub drained : s.in_queue ≡ []

  -- The service after it has handled some messages, one after the other, and nothing else.
  unfoldable pub handle_each : List (Msg P) → Service P W → Service P W
  handle_each [] s = s
  handle_each (m ∷ l) s = handle_each l (handle_message setup m s).1

  handle_each-SameEffect :
      (l : List (Msg P)) (s t : Service P W)
      → SameEffect s t
      → SameEffect (handle_each l s) (handle_each l t)
  unfolding handle_each
  handle_each-SameEffect [] s t e = e
  handle_each-SameEffect (m ∷ l) s t e =
      handle_each-SameEffect l _ _ (handle_message-SameEffect setup m s t e)

  pub record IsWaiting (s : Service P W) (l : List (Msg P)) (term : Msg P) (rest : List (Msg P))
      : Type 0 where
    pub inputs : s.in_queue ≡ l
    pub controls : s.ctrl_queue ≡ term ∷ rest
    pub mode : s.use_event_loop ≡ true
    pub running : s.is_event_loop ≡ true

  arrive-IsWaiting :
      (tick : Tick P) (s : Service P W) (l : List (Msg P)) (term : Msg P) (rest : List (Msg P))
      → tick.arrive_in ≡ []
      → tick.arrive_ctrl ≡ []
      → IsWaiting s l term rest
      → IsWaiting (arrive setup tick s) l term rest
  unfolding arrive
  arrive-IsWaiting tick s l term rest hi hc w = record {
    inputs = rw (hi, append-nil) w.inputs;
    controls = rw (hc, append-nil) w.controls;
    mode = w.mode;
    running = w.running;
  }

  then_dump-IsWaiting :
      (tick : Tick P) (r : After × Service P W) (l : List (Msg P)) (term : Msg P)
      (rest : List (Msg P))
      → IsWaiting r.1 l term rest
      → IsWaiting (then_dump setup tick r).1 l term rest
  unfolding then_dump dump is_dump_due
  then_dump-IsWaiting tick r l term rest w = record {
    inputs = ground (arith, w.inputs);
    controls = ground (arith, w.controls);
    mode = ground (arith, w.mode);
    running = ground (arith, w.running);
  }

  then_dump-carries :
      (tick : Tick P) (r : After × Service P W) {a : After}
      → r.0 ≡ a
      → (then_dump setup tick r).0 ≡ a
  unfolding then_dump
  then_dump-carries tick r h = h

  on_input-handles :
      (tick : Tick P) (s : Service P W) (m : Msg P) (l : List (Msg P))
      → s.use_event_loop ≡ true
      → on_input setup tick m l s
        ≡ then_dump setup tick (handle_message setup m (record s { in_queue = l }))
  unfolding on_input
  on_input-handles tick s m l h =
      ap
        (λ b.
          if b
          then then_dump setup tick (handle_message setup m (record s { in_queue = l }))
          else then_dump setup tick (carries_on, record s { is_handler_done = false }))
        h

  -- A turn on an input that is harmless takes it from the queue and goes on.
  input-IsWaiting :
      (tick : Tick P) (s : Service P W) (m : Msg P) (l : List (Msg P)) (term : Msg P)
      (rest : List (Msg P))
      → IsHarmless m
      → IsWaiting s (m ∷ l) term rest
      → ((on_input setup tick m l s).0 ≡ carries_on)
        × IsWaiting (on_input setup tick m l s).1 l term rest
  input-IsWaiting tick s m l term rest harmless w =
      let t : Service P W = record s { in_queue = l } in
      let k = handle_message-Kept setup m t in
      let e = handle_message-event setup m t (harmless t) in
      subst (λ (r : After × Service P W). (r.0 ≡ carries_on) × IsWaiting r.1 l term rest)
        (sym (on_input-handles tick s m l w.mode))
        (
          then_dump-carries tick (handle_message setup m t) (harmless t),
          then_dump-IsWaiting tick (handle_message setup m t) l term rest (record {
            inputs = k.inputs;
            controls = k.controls ∙ w.controls;
            mode = k.mode ∙ w.mode;
            running = e ∙ w.running;
          }),
        )

  control-ends :
      (tick : Tick P) (s : Service P W) (term : Msg P) (rest : List (Msg P))
      → IsLast term
      → s.in_queue ≡ []
      → ((on_control setup tick (term ∷ rest) s).0 ≡ loop_ends)
        × ((on_control setup tick (term ∷ rest) s).1.in_queue ≡ [])
        × ((on_control setup tick (term ∷ rest) s).1.has_model ≡ s.has_model)
  unfolding on_control then_dump
  control-ends tick s term rest last h =
      let t : Service P W = record s { ctrl_queue = rest } in
      let k = handle_message-Kept setup term t in rw (last t) (refl, k.inputs ∙ h, k.model)

  after_turn-IsClosed :
      (go : Service P W → Service P W) (tick : Tick P) (r : After × Service P W)
      → r.0 ≡ loop_ends
      → r.1.in_queue ≡ []
      → IsClosed (after_turn setup go tick r) × SameEffect r.1 (after_turn setup go tick r)
  unfolding after_turn
  after_turn-IsClosed go tick (carries_on, s) e h = cc
  after_turn-IsClosed go tick (crashes, s) e h = cc
  after_turn-IsClosed go tick (loop_ends, s) e h =
      let c = close_loop-closed setup tick.now tick.later s in
      (
        record { stopped = c.0; ready = c.1; drained = c.2 ∙ h },
        close_loop-SameEffect setup tick.now tick.later s,
      )

  after_turn-goes :
      (go : Service P W → Service P W) (tick : Tick P) (r : After × Service P W)
      → r.0 ≡ carries_on
      → r.1.is_event_loop ≡ true
      → after_turn setup go tick r ≡ go r.1
  unfolding after_turn
  after_turn-goes go tick (carries_on, s) e h = rw h refl
  after_turn-goes go tick (crashes, s) e h = cc
  after_turn-goes go tick (loop_ends, s) e h = cc

  input-SameEffect :
      (tick : Tick P) (s : Service P W) (m : Msg P) (l : List (Msg P))
      → s.use_event_loop ≡ true
      → SameEffect (handle_message setup m s).1 (on_input setup tick m l (arrive setup tick s)).1
  unfolding arrive
  input-SameEffect tick s m l mode =
      let t = arrive setup tick s in
      let u : Service P W = record t { in_queue = l } in
      subst (λ (r : After × Service P W). SameEffect (handle_message setup m s).1 r.1)
        (sym (on_input-handles tick t m l mode))
        (SameEffect-then _ _ _
          (handle_message-SameEffect setup m s u
            (record { own_eq = refl; out_eq = refl; ctrl_eq = refl }))
          (then_dump-SameEffect setup tick (handle_message setup m u)))

  control-SameEffect :
      (tick : Tick P) (s : Service P W) (m : Msg P) (l : List (Msg P))
      → SameEffect
          (handle_message setup m s).1
          (on_control setup tick (m ∷ l) (arrive setup tick s)).1
  unfolding arrive on_control
  control-SameEffect tick s m l =
      let u : Service P W = record (arrive setup tick s) { ctrl_queue = l } in
      SameEffect-then _ _ _
        (handle_message-SameEffect setup m s u
          (record { own_eq = refl; out_eq = refl; ctrl_eq = refl }))
        (then_dump-SameEffect setup tick (handle_message setup m u))

  -- Where a message that ends the loop waits at the control socket, messages that do not end it wait
  -- at the input, nothing more arrives, and there are more turns than input messages, the loop is
  -- left: stopped, ready, with no input left, and with the fields of the subclass and the messages
  -- sent of a service that handles the input messages, in their order, and then the last one.
  pub run_loop-IsClosed :
      (l : List (Msg P)) (term : Msg P) (rest : List (Msg P)) (ticks : List (Tick P))
      (s : Service P W)
      → AreHarmless l
      → IsLast term
      → AreQuiet ticks
      → length l < length ticks
      → IsWaiting s l term rest
      → IsClosed (run_loop setup ticks s)
        × SameEffect (handle_each (l ++ term ∷ []) s) (run_loop setup ticks s)
  unfolding run_loop turn dispatch handle_each
  run_loop-IsClosed l term rest [] s harmless last quiet enough w = absurd (omega arith)
  run_loop-IsClosed [] term rest (tick ∷ ticks) s harmless last (qi, qc, quiet) enough w =
      let t = arrive setup tick s in
      let v = arrive-IsWaiting tick s [] term rest qi qc w in
      let ends = control-ends tick t term rest last v.inputs in
      let (closed, effect) =
        after_turn-IsClosed (run_loop setup ticks) tick (on_control setup tick (term ∷ rest) t)
          ends.0 ends.1 in
      let e = (handle_message setup term s).1 in
      let Left : Service P W → Type 0 = λ r. IsClosed r × SameEffect e r in
      subst (λ q. Left (after_turn setup (run_loop setup ticks) tick (dispatch setup tick q t)))
        (sym v.inputs)
        (subst
          (λ q. Left (after_turn setup (run_loop setup ticks) tick (on_control setup tick q t)))
          (sym v.controls)
          (closed, SameEffect-then _ _ _ (control-SameEffect tick s term rest) effect))
  run_loop-IsClosed (m ∷ l) term rest (tick ∷ ticks) s (hm, hl) last (qi, qc, quiet) enough w =
      let t = arrive setup tick s in
      let v = arrive-IsWaiting tick s (m ∷ l) term rest qi qc w in
      let (goes, next) = input-IsWaiting tick t m l term rest hm v in
      let (closed, effect) =
        run_loop-IsClosed l term rest ticks (on_input setup tick m l t).1 hl last quiet
          (omega arith) next in
      let e = handle_each (l ++ term ∷ []) (handle_message setup m s).1 in
      let Left : Service P W → Type 0 = λ r. IsClosed r × SameEffect e r in
      subst (λ q. Left (after_turn setup (run_loop setup ticks) tick (dispatch setup tick q t)))
        (sym v.inputs)
        (subst Left
          (sym (
            after_turn-goes (run_loop setup ticks) tick (on_input setup tick m l t) goes
              next.running))
          (
            closed,
            SameEffect-then _ _ _
                (handle_each-SameEffect (l ++ term ∷ []) _ _ (input-SameEffect tick s m l w.mode))
                effect,
          ))
