-- ===== src/Service/Ending.antt =====
-- gnes/service/base.py: the control message `TERMINATE`.
use gnes.Prelude.{
  ◌≡◌, refl, sym, ap, subst, ◌∙◌, arith, Bool, true, false, some, [], ◌∷◌, ◌++◌, Str, codes, str_eq,
  ok, Result,
}
use gnes.Service.Handler.{
  control_request, in_request, in_response, control_response, HandlerError, find_route, returns,
  service_error, event_loop_end, loop_ends, After, run_hooks, send_back, Handled,
}
use gnes.Service.Loop.{
  Msg, Command, terminate, status, other, success, ready, Service, Setup, handler_control,
  respond_with, is_control, call_control, call_handler, call_found, call_routes, send_to_sock,
  finish_handling, reply, after_pre_hooks, handle_message,
}

module _ {P W : Type 0} (setup : Setup P W) where
  -- The message as a response with the status `SUCCESS`.
  abbrev pub succeed : Msg P → Msg P
  succeed msg = record {
    body = in_response (some control_response);
    command = terminate;
    control_status = some success;
    payload = setup.to_response msg.payload;
  }

  -- `handler_control` by the command alone.
  by_command :
      (msg : Msg P) (c : Command)
      → c ≡ terminate
      → elim c as (λ _. Handled (Msg P) × Msg P × Bool) [
        | terminate ↦ (event_loop_end, succeed msg, true)
        | status ↦ (returns, respond_with setup.to_response ready msg, false)
        | other ↦ (service_error, msg, false)
      ]
        ≡ (event_loop_end, succeed msg, true)
  by_command msg c h = rw h refl

  handler_control-terminate :
      (msg : Msg P)
      → msg.command ≡ terminate
      → handler_control setup.to_response msg ≡ (event_loop_end, succeed msg, true)
  unfolding handler_control respond_with
  handler_control-terminate msg h = by_command msg msg.command h

  call_found-terminate :
      (r : Result {0, 0} HandlerError Str) (msg : Msg P) (s : Service P W)
      → r ≡ ok (codes "_handler_control")
      → msg.command ≡ terminate
      → call_found setup r msg s ≡ call_control setup (event_loop_end, succeed msg, true) s
  unfolding call_found call_handler str_eq
  call_found-terminate r msg s hr hc =
      ap (λ r. call_found setup r msg s) hr
      ∙ ap (λ h. call_control setup h s) (handler_control-terminate msg hc)

  -- What is left of the service when `TERMINATE` has been handled.
  pub record IsEnded (s : Service P W) (m : Msg P) (out : After × Service P W) : Type 0 where
    pub after : out.0 ≡ loop_ends
    pub event : out.1.is_event_loop ≡ false
    pub answer : out.1.ctrl_sent ≡ s.ctrl_sent ++ succeed m ∷ []
    pub output : out.1.out_sent ≡ s.out_sent

  reply-terminate :
      (s : Service P W) (m : Msg P)
      → IsEnded s m (reply setup true (call_control setup (event_loop_end, succeed m, true) s))
  unfolding reply call_control send_back finish_handling send_to_sock
  reply-terminate s m = record { after = refl; event = ground arith; answer = refl; output = refl }

  -- `TERMINATE`, when the table routes control requests to `_handler_control` and the hooks leave
  -- the body and the command of the message, ends the event loop: `is_event_loop` is cleared, and
  -- the message goes back to the control socket, and nowhere else, its body now a control response
  -- with the status `SUCCESS`.
  pub handle_message-terminate :
      (msg : Msg P) (s : Service P W)
      → find_route setup.handler (in_request (some control_request)) ≡ ok (codes "_handler_control")
      → msg.body ≡ in_request (some control_request)
      → (run_hooks setup.hook setup.args.verbose setup.handler.pre_hooks msg s.own).0.body
        ≡ msg.body
      → (run_hooks setup.hook setup.args.verbose setup.handler.pre_hooks msg s.own).0.command
        ≡ terminate
      → IsEnded s
          (run_hooks setup.hook setup.args.verbose setup.handler.pre_hooks msg s.own).0
          (handle_message setup msg s)
  unfolding handle_message after_pre_hooks call_routes is_control
  handle_message-terminate msg s route body same command =
      let (m, w) = run_hooks setup.hook setup.args.verbose setup.handler.pre_hooks msg s.own in
      let t : Service P W = record s { is_handler_done = false; own = w } in
      let e =
        call_found-terminate (find_route setup.handler m.body) m t
          (ap (find_route setup.handler) (same ∙ body) ∙ route) command in
      let ended = reply-terminate t m in
      subst
        (λ b. IsEnded s m (reply setup b (call_found setup (find_route setup.handler m.body) m t)))
        (sym (ap is_control body))
        (subst (λ r. IsEnded s m (reply setup true r)) (sym e)
          (record {
            after = ended.after;
            event = ended.event;
            answer = ended.answer;
            output = ended.output;
          }))
