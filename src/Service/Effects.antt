-- ===== src/Service/Effects.antt =====
-- gnes/service/base.py: what handling a message does to what the service holds and sends depends on
-- nothing else of the service.
use mathlib.Core.Path.{ap₂}
use gnes.Prelude.{
  ◌≡◌, refl, ℕ, subst, ap, sym, ◌∙◌, Bool, true, false, List, ◌++◌, Str, codes, str_eq, ◌==◌,
  Result, ok, err, Bool-cases, inl, inr, if◌then◌else◌, if_cases,
}
use gnes.Service.Handler.{HandlerError, find_route, Handled, After, run_hooks, send_back}
use gnes.Service.Loop.{
  Msg, Args, Service, Setup, Tick, dump, is_dump_due, call_own, call_control, call_handler,
  call_found, call_routes, send_to_sock, finish_handling, reply, after_pre_hooks, handle_message,
  then_dump, close_loop, does_carry_on, is_control,
}

-- The same fields of a subclass, and the same messages sent to both sockets.
pub record SameEffect {P W : Type 0} (s t : Service P W) : Type 0 where
  pub own_eq : t.own ≡ s.own
  pub out_eq : t.out_sent ≡ s.out_sent
  pub ctrl_eq : t.ctrl_sent ≡ s.ctrl_sent

module _ {P W : Type 0} where
  pub SameEffect-then : (s t u : Service P W) → SameEffect s t → SameEffect t u → SameEffect s u
  SameEffect-then s t u a b = record {
    own_eq = b.own_eq ∙ a.own_eq;
    out_eq = b.out_eq ∙ a.out_eq;
    ctrl_eq = b.ctrl_eq ∙ a.ctrl_eq;
  }

  dump-SameEffect :
      (args : Args) (respect : Bool) (now later : ℕ) (s : Service P W)
      → SameEffect s (dump args respect now later s)
  unfolding dump
  dump-SameEffect args respect now later s =
      if_cases (SameEffect s) (is_dump_due args respect now s) _ _
        (λ _. record { own_eq = refl; out_eq = refl; ctrl_eq = refl })
        (λ _. record { own_eq = refl; out_eq = refl; ctrl_eq = refl })

module _ {P W : Type 0} (setup : Setup P W) where
  -- The same outcome and message, and the same effect.
  record SameOutcome (a b : Handled (Msg P) × Msg P × Service P W) : Type 0 where
    done : b.0 ≡ a.0
    msg : b.1 ≡ a.1
    effect : SameEffect a.2 b.2

  call_handler-SameOutcome :
      (name : Str) (msg : Msg P) (s t : Service P W)
      → SameEffect s t
      → SameOutcome (call_handler setup name msg s) (call_handler setup name msg t)
  unfolding call_handler call_control call_own
  call_handler-SameOutcome name msg s t e = elim (Bool-cases (name == codes "_handler_control")) [
    | inl h ↦ rw h (record {
      done = refl;
      msg = refl;
      effect = record { own_eq = e.own_eq; out_eq = e.out_eq; ctrl_eq = e.ctrl_eq };
    })
    | inr h ↦ rw h (record {
      done = ap (λ w. (setup.own name msg w).done) e.own_eq;
      msg = ap (λ w. (setup.own name msg w).msg) e.own_eq;
      effect = record {
        own_eq = ap (λ w. (setup.own name msg w).own) e.own_eq;
        out_eq = e.out_eq;
        ctrl_eq = e.ctrl_eq;
      };
    })
  ]

  call_found-SameOutcome :
      (r : Result {0, 0} HandlerError Str) (msg : Msg P) (s t : Service P W)
      → SameEffect s t
      → SameOutcome (call_found setup r msg s) (call_found setup r msg t)
  unfolding call_found
  call_found-SameOutcome (err x) msg s t e = record { done = refl; msg = refl; effect = e }
  call_found-SameOutcome (ok name) msg s t e = call_handler-SameOutcome name msg s t e

  reply-SameEffect :
      (control : Bool) (a b : Handled (Msg P) × Msg P × Service P W)
      → SameOutcome a b
      → SameEffect (reply setup control a).1 (reply setup control b).1
  unfolding reply finish_handling send_to_sock
  reply-SameEffect control a b o =
      let f : Handled (Msg P) → Msg P → W → After × List (Msg P) × W =
        send_back setup.hook setup.args.verbose setup.handler.post_hooks in
      let sent =
        ap (λ d. f d b.1 b.2.own) o.done
        ∙ ap (λ m. f a.0 m b.2.own) o.msg
        ∙ ap (f a.0 a.1) o.effect.own_eq in
      record {
        own_eq = ap (λ x. x.2) sent;
        out_eq = ap₂ (λ l x. if control then l else l ++ x.1) o.effect.out_eq sent;
        ctrl_eq = ap₂ (λ l x. if control then l ++ x.1 else l) o.effect.ctrl_eq sent;
      }

  pub handle_message-SameEffect :
      (msg : Msg P) (s t : Service P W)
      → SameEffect s t
      → SameEffect (handle_message setup msg s).1 (handle_message setup msg t).1
  unfolding handle_message after_pre_hooks call_routes
  handle_message-SameEffect msg s t e =
      let h : W → Msg P × W = run_hooks setup.hook setup.args.verbose setup.handler.pre_hooks msg in
      let m : Msg P = (h s.own).0 in
      let w : W = (h s.own).1 in
      subst
        (λ (q : Msg P × W).
          SameEffect (after_pre_hooks setup (is_control msg.body) (h s.own) s).1
            (after_pre_hooks setup (is_control msg.body) q t).1)
        (sym (ap h e.own_eq))
        (reply-SameEffect (is_control msg.body) _ _ (
          call_found-SameOutcome (find_route setup.handler m.body) m
            (record s { is_handler_done = false; own = w })
            (record t { is_handler_done = false; own = w })
            (record { own_eq = refl; out_eq = e.out_eq; ctrl_eq = e.ctrl_eq })))

  pub then_dump-SameEffect :
      (tick : Tick P) (r : After × Service P W) → SameEffect r.1 (then_dump setup tick r).1
  unfolding then_dump
  then_dump-SameEffect tick r =
      if_cases (SameEffect r.1) (does_carry_on r.0) _ _
        (λ _. dump-SameEffect setup.args true tick.now tick.later r.1)
        (λ _. record { own_eq = refl; out_eq = refl; ctrl_eq = refl })

  pub close_loop-SameEffect :
      (now later : ℕ) (s : Service P W) → SameEffect s (close_loop setup now later s)
  unfolding close_loop
  close_loop-SameEffect now later s =
      let e =
        dump-SameEffect setup.args false now later
          (record s { is_ready = true; is_event_loop = false }) in
      record { own_eq = e.own_eq; out_eq = e.out_eq; ctrl_eq = e.ctrl_eq }
