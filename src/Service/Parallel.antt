-- ===== src/Service/Parallel.antt =====
-- gnes/service/base.py: the copies that `ServiceManager` runs reach its two routers.
use gnes.Prelude.{ℕ, zero, suc, ◌+◌, ◌<◌, ◌≡◌, refl, List, ◌∷◌, Str, length, arith, Each}
use gnes.Service.Socket.{paired}
use gnes.Service.Manager.{
  ServiceArgs, Running, router_service, head_router, tail_router, worker, workers, own_services,
  services_of,
}

-- One service sends to another: on its port, and the other's socket is the counterpart.
pub record Reaches (s t : ServiceArgs) : Type 0 where
  pub port : t.port_in ≡ s.port_out
  pub socket : t.socket_in ≡ paired s.socket_out

-- A copy of the service hears the head and reaches the tail.
abbrev IsBetween : ServiceArgs → ServiceArgs → ServiceArgs → Type 0
IsBetween h t w = Reaches h w × Reaches w t

-- The services of a manager: a head that listens where the service would, a tail that sends where
-- the service would, and `n` copies between them.
pub record IsParallel (args : ServiceArgs) (n : ℕ) (l : List Running) : Type 0 where
  pub head : ServiceArgs
  pub tail : ServiceArgs
  pub copies : List ServiceArgs
  pub all : l ≡ router_service head ∷ router_service tail ∷ own_services copies
  pub number : length copies ≡ n
  pub between : Each (IsBetween head tail) copies
  pub entry : (head.port_in ≡ args.port_in) × (head.socket_in ≡ args.socket_in)
  pub exit : (tail.port_out ≡ args.port_out) × (tail.socket_out ≡ args.socket_out)

module _ (resolve_yaml_path : Str → Str) (random : ℕ → ℕ) (args : ServiceArgs) where
  worker-IsBetween :
      (k : ℕ)
      → IsBetween
          (head_router resolve_yaml_path random args)
          (tail_router resolve_yaml_path random args)
          (worker resolve_yaml_path random args k)
  unfolding worker head_router tail_router paired
  worker-IsBetween k =
      (record { port = refl; socket = ground arith }, record { port = refl; socket = refl })

  workers-IsBetween :
      (n k : ℕ)
      → Each
          (IsBetween
            (head_router resolve_yaml_path random args)
            (tail_router resolve_yaml_path random args))
          (workers resolve_yaml_path random args n k)
  unfolding Each workers
  workers-IsBetween zero k = tt
  workers-IsBetween (suc n) k = (worker-IsBetween k, workers-IsBetween n (k + 1))

  length-workers : (n k : ℕ) → length (workers resolve_yaml_path random args n k) ≡ n
  unfolding workers
  length-workers zero k = refl
  length-workers (suc n) k = omega (arith, length-workers n (k + 1))

  -- A manager of more than one copy runs a head router that listens where the service would, a
  -- tail router that sends where it would, and all the copies between them: each hears the head
  -- and reaches the tail, on the port of the one and the other and with the counterparts of their
  -- sockets.
  pub services_of-IsParallel :
      1 < args.num_parallel
      → IsParallel args args.num_parallel (services_of resolve_yaml_path random args)
  unfolding services_of head_router tail_router
  services_of-IsParallel h = record {
    head = head_router resolve_yaml_path random args;
    tail = tail_router resolve_yaml_path random args;
    copies = workers resolve_yaml_path random args args.num_parallel 4;
    all = ground arith;
    number = length-workers args.num_parallel 4;
    between = workers-IsBetween args.num_parallel 4;
    entry = (refl, refl);
    exit = (refl, refl);
  }
