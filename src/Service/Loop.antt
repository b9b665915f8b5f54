-- ===== src/Service/Loop.antt =====
-- gnes/service/base.py: the state of `BaseService`, `dump`, the control messages and the loop of
-- `_run`. The time is read as a number; sockets are the queues of the messages that wait at them.
use gnes.Prelude.{
  ℕ, ◌-◌, Bool, true, false, ◌&&◌, ◌||◌, not, Option, some, List, [], ◌∷◌, ◌++◌, Str, codes, str_eq,
  ◌==◌, ltb, if◌then◌else◌, Result, ok, err,
}
use gnes.Service.Handler.{
  control_request, not_implemented, Body, in_request, in_response, control_response, MessageHandler,
  new_handler, register, find_route, HandlerError, Handled, returns, event_loop_end, service_error,
  raises, After, carries_on, loop_ends, crashes, run_hooks, send_back,
}

pub data Command : Type 0 where
  terminate status other : Command

pub data Status : Type 0 where
  success ready : Status

-- A message: its body, the command and the status of a control message, and the rest of it.
pub record Msg (P : Type 0) : Type 0 where
  pub body : Body
  pub command : Command
  pub control_status : Option Status
  pub payload : P

-- The arguments that the loop reads. An interval that is not positive is zero.
pub record Args : Type 0 where
  pub verbose : Bool
  pub read_only : Bool
  pub dump_interval : ℕ

-- The events and fields of a service; `own` is what a subclass adds, and `dumps` are the times at
-- which the model was dumped.
pub record Service (P W : Type 0) : Type 0 where
  pub is_ready : Bool
  pub is_event_loop : Bool
  pub is_model_changed : Bool
  pub is_handler_done : Bool
  pub use_event_loop : Bool
  pub has_model : Bool
  pub last_dump_time : ℕ
  pub dumps : List ℕ
  pub in_queue : List (Msg P)
  pub ctrl_queue : List (Msg P)
  pub out_sent : List (Msg P)
  pub ctrl_sent : List (Msg P)
  pub own : W

module _ {P W : Type 0} where
  -- The condition of `dump`, at the time `now`.
  unfoldable pub is_dump_due : Args → Bool → ℕ → Service P W → Bool
  is_dump_due args respect now s =
      not args.read_only
      && ltb 0 args.dump_interval
      && s.has_model
      && s.is_model_changed
      && (respect && ltb args.dump_interval (now - s.last_dump_time) || not respect)

  -- `dump(respect_dump_interval)`, which reads the time before and after the model is dumped.
  unfoldable pub dump : Args → Bool → ℕ → ℕ → Service P W → Service P W
  unfolding is_dump_due
  dump args respect now later s =
      if is_dump_due args respect now s
      then record s {
        is_model_changed = false;
        dumps = s.dumps ++ now ∷ [];
        last_dump_time = later;
      }
      else s

-- `msg.response.control.status = s`: the body, a `oneof`, becomes a response, and the request is
-- cleared, so that its command reads as the default of its type; `to_response` is what this does to
-- the rest of the message.
unfoldable pub respond_with : {P : Type 0} → (P → P) → Status → Msg P → Msg P
respond_with to_response s msg = record {
  body = in_response (some control_response);
  command = terminate;
  control_status = some s;
  payload = to_response msg.payload;
}

-- `_handler_control`: what it does, the message after it, and whether it ends the event loop.
unfoldable pub handler_control : {P : Type 0} → (P → P) → Msg P → Handled (Msg P) × Msg P × Bool
unfolding respond_with
handler_control to_response msg = elim msg.command [
  | terminate ↦ (event_loop_end, respond_with to_response success msg, true)
  | status ↦ (returns, respond_with to_response ready msg, false)
  | other ↦ (service_error, msg, false)
]

-- What a subclass's handler leaves behind: the message, its fields, and whether it has set
-- `is_model_changed`.
pub record Left (P W : Type 0) : Type 0 where
  pub done : Handled (Msg P)
  pub msg : Msg P
  pub own : W
  pub changed : Bool

-- `_handler_default` of `BaseService`
unfoldable pub handler_default : {P W : Type 0} → Msg P → W → Left P W
handler_default msg w = record { done = raises; msg = msg; own = w; changed = false }

-- The handler table of `BaseService`.
unfoldable pub base_handler : MessageHandler
unfolding register
base_handler =
    let mh =
      register (control_request ∷ []) (codes "_handler_control")
        (register (not_implemented ∷ []) (codes "_handler_default") new_handler) in
    record mh {
      pre_hooks = (codes "_hook_add_route", false) ∷ [];
      post_hooks =
          (codes "_hook_warn_body_type_change", false)
          ∷ (codes "_hook_sort_response", false)
          ∷ (codes "_hook_update_route_timestamp", false)
          ∷ [];
    }

-- Whether `o_sock` is the control socket.
unfoldable pub is_control : Body → Bool
is_control (in_request (some control_request)) = true
is_control _ = false

-- What a service is run with: its arguments, handler table, methods and hooks, and what protobuf
-- does to the rest of a message when its body becomes a response.
pub record Setup (P W : Type 0) : Type 0 where
  pub args : Args
  pub handler : MessageHandler
  pub own : Str → Msg P → W → Left P W
  pub hook : Str → Msg P → W → Msg P × W
  pub to_response : P → P

-- What arrives between two polls, and the times that `dump` reads.
pub record Tick (P : Type 0) : Type 0 where
  pub arrive_in : List (Msg P)
  pub arrive_ctrl : List (Msg P)
  pub now : ℕ
  pub later : ℕ

unfoldable pub does_carry_on : After → Bool
does_carry_on carries_on = true
does_carry_on loop_ends = false
does_carry_on crashes = false

module _ {P W : Type 0} (setup : Setup P W) where
  unfoldable pub call_own : Left P W → Service P W → Handled (Msg P) × Msg P × Service P W
  call_own l s =
      (l.done, l.msg, record s { own = l.own; is_model_changed = s.is_model_changed || l.changed })

  unfoldable pub call_control :
      Handled (Msg P) × Msg P × Bool → Service P W → Handled (Msg P) × Msg P × Service P W
  call_control (done, msg, ends) s =
      (done, msg, record s { is_event_loop = s.is_event_loop && not ends })

  -- The methods by name: the control handler is that of `BaseService`.
  unfoldable pub call_handler : Str → Msg P → Service P W → Handled (Msg P) × Msg P × Service P W
  unfolding call_own call_control handler_control str_eq
  call_handler name msg s =
      if name == codes "_handler_control"
      then call_control (handler_control setup.to_response msg) s
      else call_own (setup.own name msg s.own) s

  unfoldable pub call_found :
      Result {0, 0} HandlerError Str → Msg P → Service P W → Handled (Msg P) × Msg P × Service P W
  unfolding call_handler
  call_found (err e) msg s = (raises, msg, s)
  call_found (ok name) msg s = call_handler name msg s

  unfoldable pub call_routes : Msg P → Service P W → Handled (Msg P) × Msg P × Service P W
  unfolding find_route call_found
  call_routes msg s = call_found (find_route setup.handler msg.body) msg s

  -- The messages are sent to the socket chosen before the handler ran.
  unfoldable pub send_to_sock : Bool → List (Msg P) → Service P W → Service P W
  send_to_sock control out s = record s {
    ctrl_sent = if control then s.ctrl_sent ++ out else s.ctrl_sent;
    out_sent = if control then s.out_sent else s.out_sent ++ out;
  }

  -- `is_handler_done` is set unless an exception leaves the loop.
  unfoldable pub finish_handling :
      Bool → After × List (Msg P) × W → Service P W → After × Service P W
  unfolding send_to_sock does_carry_on
  finish_handling control (a, out, w) s = (
    a,
    record (send_to_sock control out s) {
      is_handler_done = does_carry_on a || s.is_handler_done;
      own = w;
    },
  )

  -- From what the handler did to the messages sent.
  unfoldable pub reply : Bool → Handled (Msg P) × Msg P × Service P W → After × Service P W
  unfolding send_back finish_handling
  reply control (done, msg, s) =
      finish_handling control
        (send_back setup.hook setup.args.verbose setup.handler.post_hooks done msg s.own) s

  unfoldable pub after_pre_hooks : Bool → Msg P × W → Service P W → After × Service P W
  unfolding call_routes reply
  after_pre_hooks control (msg, w) s =
      reply control (call_routes msg (record s { is_handler_done = false; own = w }))

  -- The body of `handling message`, of a message that was received.
  unfoldable pub handle_message : Msg P → Service P W → After × Service P W
  unfolding run_hooks is_control after_pre_hooks
  handle_message msg s =
      after_pre_hooks (is_control msg.body)
        (run_hooks setup.hook setup.args.verbose setup.handler.pre_hooks msg s.own) s

  unfoldable pub arrive : Tick P → Service P W → Service P W
  arrive tick s = record s {
    in_queue = s.in_queue ++ tick.arrive_in;
    ctrl_queue = s.ctrl_queue ++ tick.arrive_ctrl;
  }

  unfoldable pub then_dump : Tick P → After × Service P W → After × Service P W
  unfolding dump does_carry_on
  then_dump tick (a, s) =
      (a, if does_carry_on a then dump setup.args true tick.now tick.later s else s)

  -- A message at the input socket, which another thread takes where `use_event_loop` is off: the
  -- loop waits until that thread has set `is_handler_done`, and clears it.
  unfoldable pub on_input : Tick P → Msg P → List (Msg P) → Service P W → After × Service P W
  unfolding handle_message then_dump
  on_input tick msg rest s =
      if s.use_event_loop
      then then_dump tick (handle_message msg (record s { in_queue = rest }))
      else then_dump tick (carries_on, record s { is_handler_done = false })

  unfoldable pub on_control : Tick P → List (Msg P) → Service P W → After × Service P W
  unfolding handle_message then_dump
  on_control tick [] s = (carries_on, s)
  on_control tick (msg ∷ rest) s =
      then_dump tick (handle_message msg (record s { ctrl_queue = rest }))

  -- A poll that finds something at both sockets takes the input; one that finds nothing does not
  -- get to `dump`.
  unfoldable pub dispatch : Tick P → List (Msg P) → Service P W → After × Service P W
  unfolding on_input on_control
  dispatch tick [] s = on_control tick s.ctrl_queue s
  dispatch tick (msg ∷ rest) s = on_input tick msg rest s

  -- One turn of the loop.
  unfoldable pub turn : Tick P → Service P W → After × Service P W
  unfolding arrive dispatch
  turn tick s = let t = arrive tick s in dispatch tick t.in_queue t

  -- The `finally` of `_run`.
  unfoldable pub close_loop : ℕ → ℕ → Service P W → Service P W
  unfolding dump
  close_loop now later s =
      dump setup.args false now later (record s { is_ready = true; is_event_loop = false })

  unfoldable pub after_turn :
      (Service P W → Service P W) → Tick P → After × Service P W → Service P W
  unfolding close_loop
  after_turn go tick (carries_on, s) =
      let next = go s in if s.is_event_loop then next else close_loop tick.now tick.later s
  after_turn go tick (loop_ends, s) = close_loop tick.now tick.later s
  after_turn go tick (crashes, s) = close_loop tick.now tick.later s

  -- The loop, as long as `is_event_loop` is set; it is cut off where the ticks end.
  unfoldable pub run_loop : List (Tick P) → Service P W → Service P W
  unfolding turn after_turn
  run_loop [] s = s
  run_loop (tick ∷ ticks) s = after_turn (run_loop ticks) tick (turn tick s)
