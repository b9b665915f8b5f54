-- ===== src/Service/Progress.antt =====
-- gnes/service/base.py: what the event loop keeps, and that it ends.
use gnes.Prelude.{
  ℕ, ◌<◌, ◌≡◌, refl, sym, ◌∙◌, Bool, true, false, List, [], ◌∷◌, ◌++◌, if◌then◌else◌, Str, codes,
  str_eq, ◌==◌, arith, ◌⊎◌, Result, ok, err, Bool-cases, inl, inr,
}
use gnes.Service.Handler.{
  msg_type_eq, HandlerError, find_route, Handled, event_loop_end, carries_on, loop_ends, run_hooks,
  send_back,
}
use gnes.Service.Loop.{
  Msg, Command, terminate, status, other, Service, Setup, is_dump_due, dump, handler_control,
  call_own, call_control, call_handler, call_found, call_routes, send_to_sock, finish_handling,
  reply, after_pre_hooks, handle_message, close_loop,
}

-- What no message changes.
pub record Kept {P W : Type 0} (s t : Service P W) : Type 0 where
  pub model : t.has_model ≡ s.has_model
  pub mode : t.use_event_loop ≡ s.use_event_loop
  pub inputs : t.in_queue ≡ s.in_queue
  pub controls : t.ctrl_queue ≡ s.ctrl_queue

module _ {P W : Type 0} (setup : Setup P W) where
  call_handler-Kept :
      (name : Str) (msg : Msg P) (s : Service P W) → Kept s (call_handler setup name msg s).2
  unfolding call_handler call_control call_own
  call_handler-Kept name msg s = elim (Bool-cases (name == codes "_handler_control")) [
    | inl h ↦ rw h (record { model = refl; mode = refl; inputs = refl; controls = refl })
    | inr h ↦ rw h (record { model = refl; mode = refl; inputs = refl; controls = refl })
  ]

  call_found-Kept :
      (r : Result {0, 0} HandlerError Str) (msg : Msg P) (s : Service P W)
      → Kept s (call_found setup r msg s).2
  unfolding call_found
  call_found-Kept (err e) msg s = record {
    model = refl;
    mode = refl;
    inputs = refl;
    controls = refl;
  }
  call_found-Kept (ok name) msg s = call_handler-Kept name msg s

  pub handle_message-Kept : (msg : Msg P) (s : Service P W) → Kept s (handle_message setup msg s).1
  unfolding handle_message after_pre_hooks reply finish_handling send_to_sock call_routes
  handle_message-Kept msg s =
      let (m, w) = run_hooks setup.hook setup.args.verbose setup.handler.pre_hooks msg s.own in
      let k =
        call_found-Kept (find_route setup.handler m.body) m
          (record s { is_handler_done = false; own = w }) in
      record { model = k.model; mode = k.mode; inputs = k.inputs; controls = k.controls }

  -- A message that is not `TERMINATE` leaves `is_event_loop` as it was.
  call_handler-event :
      (name : Str) (msg : Msg P) (s : Service P W)
      → (call_handler setup name msg s).2.is_event_loop ≡ s.is_event_loop
        ⊎ (call_handler setup name msg s).0 ≡ event_loop_end
  unfolding call_handler call_control call_own handler_control
  call_handler-event name msg s = elim (Bool-cases (name == codes "_handler_control")) [
    | inr h ↦ rw h (inl refl)
    | inl h ↦ rw h (by_command msg.command refl)
  ]
    where
      by_command :
          (c : Command)
          → msg.command ≡ c
          → ((call_control setup (handler_control setup.to_response msg) s).2.is_event_loop
              ≡ s.is_event_loop)
            ⊎ ((call_control setup (handler_control setup.to_response msg) s).0 ≡ event_loop_end)
      by_command terminate e = rw (e, handler_control) (inr refl)
      by_command status e = rw (e, handler_control) (inl (ground arith))
      by_command other e = rw (e, handler_control) (inl (ground arith))

  call_found-event :
      (r : Result {0, 0} HandlerError Str) (msg : Msg P) (s : Service P W)
      → ((call_found setup r msg s).2.is_event_loop ≡ s.is_event_loop)
        ⊎ ((call_found setup r msg s).0 ≡ event_loop_end)
  unfolding call_found
  call_found-event (err e) msg s = inl refl
  call_found-event (ok name) msg s = call_handler-event name msg s

  send_back-ends :
      (verbose : Bool) (hooks : List (Str × Bool)) (done : Handled (Msg P)) (msg : Msg P) (w : W)
      → done ≡ event_loop_end
      → (send_back setup.hook verbose hooks done msg w).0 ≡ loop_ends
  unfolding send_back
  send_back-ends verbose hooks done msg w h = rw h refl

  -- A message after which the loop carries on leaves `is_event_loop` as it was.
  pub handle_message-event :
      (msg : Msg P) (s : Service P W)
      → (handle_message setup msg s).0 ≡ carries_on
      → (handle_message setup msg s).1.is_event_loop ≡ s.is_event_loop
  unfolding handle_message after_pre_hooks reply finish_handling send_to_sock call_routes
  handle_message-event msg s h =
      let (m, w) = run_hooks setup.hook setup.args.verbose setup.handler.pre_hooks msg s.own in
      let t : Service P W = record s { is_handler_done = false; own = w } in
      let route = find_route setup.handler m.body in
      let (done, m', t') = call_found setup route m t in
      elim (call_found-event route m t) [
        | inl same ↦ same
        | inr ended ↦ absurd (
            cc (
              sym h
              ∙ send_back-ends setup.args.verbose setup.handler.post_hooks done m' t'.own ended))
      ]

  -- When the loop is left, where there is a model, the service is not read-only and its dump interval
  -- is positive, a change of the model that is not saved is dumped then, no other dump is made, and
  -- no change is left unsaved.
  pub close_loop-saves :
      (now later : ℕ) (s : Service P W)
      → setup.args.read_only ≡ false
      → 0 < setup.args.dump_interval
      → s.has_model ≡ true
      → ((close_loop setup now later s).dumps
          ≡ (if s.is_model_changed then s.dumps ++ now ∷ [] else s.dumps))
        × ((close_loop setup now later s).is_model_changed ≡ false)
  unfolding close_loop dump is_dump_due
  close_loop-saves now later s r i m = elim (Bool-cases s.is_model_changed) [
    | inl changed ↦ ground arith
    | inr clean ↦ ground arith
  ]

  pub close_loop-closed :
      (now later : ℕ) (s : Service P W)
      → ((close_loop setup now later s).is_event_loop ≡ false)
        × ((close_loop setup now later s).is_ready ≡ true)
        × ((close_loop setup now later s).in_queue ≡ s.in_queue)
        × ((close_loop setup now later s).has_model ≡ s.has_model)
  unfolding close_loop dump is_dump_due
  close_loop-closed now later s = ground arith
