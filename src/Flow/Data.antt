-- ===== src/Flow/Data.antt =====
-- gnes/flow/__init__.py and gnes/flow/helper.py: the state of a `Flow`, its errors and build levels.
use gnes.Prelude.{ℕ, refl, Bool, true, false, Option, List, Str, codes, Dict, Eq, err, Exec, leb}
use gnes.Service.Socket.{SocketType}

-- `Service`
pub data Service : Type 0 where
  frontend encoder router indexer preprocessor : Service

unfoldable pub Service-discrete : Discrete Service
Service-discrete frontend frontend = yes refl
Service-discrete encoder encoder = yes refl
Service-discrete router router = yes refl
Service-discrete indexer indexer = yes refl
Service-discrete preprocessor preprocessor = yes refl
Service-discrete frontend encoder = no (λ p. cc)
Service-discrete frontend router = no (λ p. cc)
Service-discrete frontend indexer = no (λ p. cc)
Service-discrete frontend preprocessor = no (λ p. cc)
Service-discrete encoder frontend = no (λ p. cc)
Service-discrete encoder router = no (λ p. cc)
Service-discrete encoder indexer = no (λ p. cc)
Service-discrete encoder preprocessor = no (λ p. cc)
Service-discrete router frontend = no (λ p. cc)
Service-discrete router encoder = no (λ p. cc)
Service-discrete router indexer = no (λ p. cc)
Service-discrete router preprocessor = no (λ p. cc)
Service-discrete indexer frontend = no (λ p. cc)
Service-discrete indexer encoder = no (λ p. cc)
Service-discrete indexer router = no (λ p. cc)
Service-discrete indexer preprocessor = no (λ p. cc)
Service-discrete preprocessor frontend = no (λ p. cc)
Service-discrete preprocessor encoder = no (λ p. cc)
Service-discrete preprocessor router = no (λ p. cc)
Service-discrete preprocessor indexer = no (λ p. cc)

instance unfoldable pub service_eq : Eq Service
unfolding Service-discrete
service_eq = record { dec = Service-discrete }

-- `str(service)`, which is the member's name.
unfoldable pub service_name : Service → Str
service_name frontend = codes "Frontend"
service_name encoder = codes "Encoder"
service_name router = codes "Router"
service_name indexer = codes "Indexer"
service_name preprocessor = codes "Preprocessor"

-- `BuildLevel`
pub data BuildLevel : Type 0 where
  empty graph runtime : BuildLevel

abbrev pub level_value : BuildLevel → ℕ
level_value empty = 0
level_value graph = 1
level_value runtime = 2

-- The exceptions that a flow raises.
pub data FlowError : Type 0 where
  incomplete topology missing_node build_level_mismatch : FlowError
  value_error not_implemented key_error : FlowError

-- A value among the keyword arguments: a Boolean, or any other by its `str`.
pub data KwValue : Type 0 where
  flag : Bool → KwValue
  text : Str → KwValue

abbrev pub Kwargs : Type 0
Kwargs = Dict Str KwValue

-- The fields of a service's parsed arguments that a flow reads or writes.
pub record ParsedArgs : Type 0 where
  pub socket_in : SocketType
  pub socket_out : SocketType
  pub host_in : Str
  pub host_out : Str
  pub port_in : ℕ
  pub port_out : ℕ
  pub parallel_backend : Str

-- A value of `_service_nodes`. `incomes` and `outgoings` are sets.
pub record Node : Type 0 where
  pub service : Service
  pub parsed_args : ParsedArgs
  pub args : List Str
  pub incomes : List Str
  pub outgoings : List Str
  pub kwargs : Kwargs
  pub unk_args : List Str

-- A value of `_service_edges`: the empty string, 'PUB-sub', 'push-PULL' or 'PUSH-pull'.
pub data EdgeType : Type 0 where
  unset pub_sub push_pull_bind push_bind_pull : EdgeType

pub record Flow : Type 0 where
  pub service_nodes : Dict Str Node
  pub service_edges : Dict Str EdgeType
  pub service_name_counter : Dict Service ℕ
  pub service_contexts : List (Service × ParsedArgs)
  pub last_changed_service : List Str
  pub common_kwargs : Kwargs
  pub frontend_name : Option Str
  pub build_level : BuildLevel
  pub init_with_frontend : Bool
  pub is_trained : Bool

abbrev pub Method : Type 0 → Type 0
Method A = Exec Flow FlowError A

-- `build_required(level)`: the guard before a method.
unfoldable pub build_required : {A : Type 0} → BuildLevel → Method A → Method A
build_required level method f = elim (leb (level_value level) (level_value f.build_level)) [
  | true ↦ method f
  | false ↦ (err build_level_mismatch, f)
]
