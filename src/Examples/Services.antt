-- ===== src/Examples/Services.antt =====
-- A service with two index requests and a `TERMINATE` waiting for it.
use gnes.Prelude.{
  codes, ◌+◌, ℕ, ◌≡◌, refl, true, false, some, none, [], ◌∷◌, str_eq, lookup, insert, arith,
}
use gnes.Service.Handler.{
  index_request, control_request, in_request, returns, msg_type_eq, find_route, get_default_fn,
  route_of_type, register, run_hooks, send_back,
}
use gnes.Service.Loop.{
  Msg, terminate, other, Service, Setup, Tick, base_handler, call_own, call_control, call_handler,
  handler_control, call_found, call_routes, finish_handling, reply, after_pre_hooks, handle_message,
  close_loop, run_loop,
}
use gnes.Service.Socket.{pull_bind, push_bind}
use gnes.Service.Manager.{ServiceArgs, pub_block, services_of}
use gnes.Service.Parallel.{IsParallel, services_of-IsParallel}
use gnes.Service.Progress.{close_loop-saves}
use gnes.Service.Effects.{SameEffect}
use gnes.Service.Drain.{handle_each, IsClosed, run_loop-IsClosed, IsHarmless, IsLast}
use gnes.Service.Ending.{IsEnded, handle_message-terminate}

abbrev setup : Setup ℕ ℕ
setup = record {
  args = record { verbose = false; read_only = false; dump_interval = 5 };
  handler = base_handler;
  own = λ name msg w. record { done = returns; msg = msg; own = w; changed = true };
  hook = λ name msg w. (msg, w);
  to_response = λ p. p;
}

abbrev index_msg : Msg ℕ
index_msg = record {
  body = in_request (some index_request);
  command = other;
  control_status = none;
  payload = 1;
}

abbrev terminate_msg : Msg ℕ
terminate_msg = record {
  body = in_request (some control_request);
  command = terminate;
  control_status = none;
  payload = 0;
}

abbrev busy : Service ℕ ℕ
busy = record {
  is_ready = true;
  is_event_loop = true;
  is_model_changed = false;
  is_handler_done = true;
  use_event_loop = true;
  has_model = true;
  last_dump_time = 0;
  dumps = [];
  in_queue = index_msg ∷ index_msg ∷ [];
  ctrl_queue = terminate_msg ∷ [];
  out_sent = [];
  ctrl_sent = [];
  own = 0;
}

abbrev quiet : Tick ℕ
quiet = record { arrive_in = []; arrive_ctrl = []; now = 1; later = 2 }

index_msg-IsHarmless : IsHarmless setup index_msg
unfolding handle_message after_pre_hooks reply finish_handling send_back call_routes call_found
    call_handler call_own find_route route_of_type get_default_fn register base_handler run_hooks
    msg_type_eq str_eq lookup insert
index_msg-IsHarmless s = refl

terminate_msg-IsLast : IsLast setup terminate_msg
unfolding handle_message after_pre_hooks reply finish_handling send_back call_routes call_found
    call_handler call_control handler_control find_route route_of_type get_default_fn register
    base_handler run_hooks msg_type_eq str_eq lookup insert
terminate_msg-IsLast s = refl

run_loop-IsClosed_example :
    IsClosed setup (run_loop setup (quiet ∷ quiet ∷ quiet ∷ []) busy)
    × SameEffect
        (handle_each setup (index_msg ∷ index_msg ∷ terminate_msg ∷ []) busy)
        (run_loop setup (quiet ∷ quiet ∷ quiet ∷ []) busy)
run_loop-IsClosed_example =
    run_loop-IsClosed setup (index_msg ∷ index_msg ∷ []) terminate_msg []
      (quiet ∷ quiet ∷ quiet ∷ []) busy (index_msg-IsHarmless, (index_msg-IsHarmless, tt))
      terminate_msg-IsLast (refl, refl, (refl, refl, (refl, refl, tt))) (omega arith)
      (record { inputs = refl; controls = refl; mode = refl; running = refl })

abbrev unsaved : Service ℕ ℕ
unsaved = record busy { is_model_changed = true }

close_loop-saves_example :
    ((close_loop setup 9 10 unsaved).dumps ≡ 9 ∷ [])
    × ((close_loop setup 9 10 unsaved).is_model_changed ≡ false)
close_loop-saves_example = close_loop-saves setup 9 10 unsaved refl (omega arith) refl

handle_message-terminate_example :
    IsEnded setup busy terminate_msg (handle_message setup terminate_msg busy)
unfolding run_hooks find_route route_of_type get_default_fn register base_handler msg_type_eq lookup
    insert
handle_message-terminate_example =
    handle_message-terminate setup terminate_msg busy refl refl refl refl

abbrev parallel_args : ServiceArgs
parallel_args = record {
  yaml_path = codes "BaseEncoder";
  port_in = 5555;
  port_out = 5556;
  port_ctrl = 5557;
  socket_in = pull_bind;
  socket_out = push_bind;
  num_part = none;
  num_parallel = 3;
  parallel_type = pub_block;
}

services_of-IsParallel_example :
    IsParallel parallel_args 3 (services_of (λ s. s) (λ k. 50000 + k) parallel_args)
services_of-IsParallel_example =
    services_of-IsParallel (λ s. s) (λ k. 50000 + k) parallel_args (omega arith)
