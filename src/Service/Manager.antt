-- ===== src/Service/Manager.antt =====
-- gnes/service/base.py: `ServiceManager`, which runs several copies of a service between two routers.
use gnes.Prelude.{
  ℕ, zero, suc, ◌+◌, Bool, true, false, Option, some, List, [], ◌∷◌, ◌++◌, Str, codes, show_nat,
  ltb, if◌then◌else◌,
}
use gnes.Service.Socket.{
  SocketType, pull_bind, pull_connect, push_bind, push_connect, sub_connect, pub_bind,
}

-- `ParallelType`
pub data ParallelType : Type 0 where
  push_block push_nonblock pub_block pub_nonblock : ParallelType

unfoldable pub is_push : ParallelType → Bool
is_push push_block = true
is_push push_nonblock = true
is_push pub_block = false
is_push pub_nonblock = false

unfoldable pub is_block : ParallelType → Bool
is_block push_block = true
is_block push_nonblock = false
is_block pub_block = true
is_block pub_nonblock = false

-- The arguments that the manager reads or changes; the others are copied.
pub record ServiceArgs : Type 0 where
  pub yaml_path : Str
  pub port_in : ℕ
  pub port_out : ℕ
  pub port_ctrl : ℕ
  pub socket_in : SocketType
  pub socket_out : SocketType
  pub num_part : Option ℕ
  pub num_parallel : ℕ
  pub parallel_type : ParallelType

-- An element of `services`: a `RouterService` or one of the manager's own class.
pub data Running : Type 0 where
  router_service own_service : ServiceArgs → Running

-- The YAML of a router that publishes to `n` parts.
unfoldable pub parallel_yaml : ℕ → Str
unfolding show_nat
parallel_yaml n = codes "!PublishRouter {parameters: {num_part: " ++ show_nat n ++ codes "}}"

unfoldable pub own_services : List ServiceArgs → List Running
own_services [] = []
own_services (w ∷ ws) = own_service w ∷ own_services ws

module _ (resolve_yaml_path : Str → Str) (random : ℕ → ℕ) where
  -- `_head_router`, which takes the first two random ports.
  unfoldable pub head_router : ServiceArgs → ServiceArgs
  unfolding is_push parallel_yaml
  head_router args = record args {
    yaml_path = resolve_yaml_path (
        if is_push args.parallel_type then codes "BaseRouter" else parallel_yaml args.num_parallel);
    port_ctrl = random 0;
    port_out = random 1;
    socket_out = if is_push args.parallel_type then push_bind else pub_bind;
  }

  -- `_tail_router`, which takes the next two.
  unfoldable pub tail_router : ServiceArgs → ServiceArgs
  unfolding is_block
  tail_router args = record args {
    yaml_path =
        resolve_yaml_path
          (if is_block args.parallel_type then codes "BaseReduceRouter" else codes "BaseRouter");
    port_in = random 2;
    port_ctrl = random 3;
    socket_in = pull_bind;
    num_part = if is_block args.parallel_type then some args.num_parallel else args.num_part;
  }

  -- A copy of the service, with its control port.
  unfoldable pub worker : ServiceArgs → ℕ → ServiceArgs
  unfolding is_push
  worker args k = record args {
    port_in = random 1;
    port_out = random 2;
    port_ctrl = random k;
    socket_out = push_connect;
    socket_in = if is_push args.parallel_type then pull_connect else sub_connect;
  }

  -- The loop over the copies, from the random port `k` on.
  unfoldable pub workers : ServiceArgs → ℕ → ℕ → List ServiceArgs
  unfolding worker
  workers args zero k = []
  workers args (suc n) k = worker args k ∷ workers args n (k + 1)

  -- `ServiceManager.services`
  unfoldable pub services_of : ServiceArgs → List Running
  unfolding head_router tail_router workers own_services
  services_of args =
      if ltb 1 args.num_parallel
      then router_service (head_router args)
        ∷ router_service (tail_router args)
        ∷ own_services (workers args args.num_parallel 4)
      else own_service args ∷ []
