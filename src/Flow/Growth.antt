-- ===== src/Flow/Growth.antt =====
-- `add` of gnes/flow/__init__.py as the insertion of a node and its edges into a graph.
use gnes.Prelude.{
  ◌≡◌, refl, inl, inr, Bool, true, false, ◌&&◌, ◌||◌, Option, none, some, List, [], ◌∷◌, ◌++◌, Str,
  ◌==◌, str_eq, contains, arith, if◌then◌else◌, Bool-cases, contains-append, contains-to_set,
  Returns, Result, ok, err,
}
use gnes.Flow.Data.{Service, frontend, Flow, FlowError, empty}
use gnes.Flow.Endpoints.{
  last_of, with_first, check_endpoints, check_resolved, to_endpoint_set, last_changed, is_last,
  set_last_service,
}
use gnes.Flow.Edit.{claim_frontend, is_some}
use gnes.Flow.View.{known, edge_in, edge_out}

-- Names that `_parse_service_endpoints` accepts for the service `cur`.
pub record AreEndpoints (cur : Str) (f : Flow) (l : List Str) : Type 0 where
  pub are_known : (a : Str) → contains l a ≡ true → known f a ≡ true
  pub not_self : contains l cur ≡ false

abbrev pub OkHas : (List Str → Type 0) → Result FlowError (List Str) → Type 0
OkHas P (ok l) = P l
OkHas P (err e) = Unit

with_first-AreEndpoints :
    (cur s : Str) (f : Flow) (r : Result FlowError (List Str))
    → (s == cur) ≡ false
    → known f s ≡ true
    → OkHas (AreEndpoints cur f) r
    → OkHas (AreEndpoints cur f) (with_first s r)
with_first-AreEndpoints cur s f (ok l) other k h = record {
  are_known = λ a m. ground (arith, h.are_known a);
  not_self = ground (arith, h.not_self);
}
with_first-AreEndpoints cur s f (err e) other k h = tt

check_endpoints-AreEndpoints :
    (cur : Str) (names : List (Option Str)) (f : Flow)
    → OkHas (AreEndpoints cur f) (check_endpoints cur names f)
unfolding check_endpoints
check_endpoints-AreEndpoints cur [] f = record { are_known = λ a h. cc; not_self = refl }
check_endpoints-AreEndpoints cur (none ∷ names) f = tt
check_endpoints-AreEndpoints cur (some s ∷ names) f =
    let rest = check_endpoints-AreEndpoints cur names f in
    elim (Bool-cases (s == cur)) [
      | inl same ↦ rw same tt
      | inr other ↦ elim (Bool-cases (known f s)) [
        | inl k ↦ rw (other, k) (with_first-AreEndpoints cur s f _ other k rest)
        | inr n ↦ rw (other, n) tt
      ]
    ]

to_set-AreEndpoints :
    (cur : Str) (f : Flow) (r : Result FlowError (List Str))
    → OkHas (AreEndpoints cur f) r
    → OkHas (AreEndpoints cur f) (to_endpoint_set r)
unfolding to_endpoint_set
to_set-AreEndpoints cur f (ok l) h = record {
  are_known = λ a m. h.are_known a (rw contains-to_set at m);
  not_self = rw contains-to_set h.not_self;
}
to_set-AreEndpoints cur f (err e) h = tt

pub check_resolved-AreEndpoints :
    (cur : Str) (r : Result FlowError (List (Option Str))) (f : Flow)
    → OkHas (AreEndpoints cur f) (check_resolved cur r f)
unfolding check_resolved
check_resolved-AreEndpoints cur (ok names) f =
    to_set-AreEndpoints cur f _ (check_endpoints-AreEndpoints cur names f)
check_resolved-AreEndpoints cur (err e) f = tt

-- `b` is the frontend, where a flow has one.
unfoldable pub frontend_is : Option Str → Str → Bool
frontend_is none b = false
frontend_is (some []) b = false
frontend_is (some (c ∷ s)) b = b == c ∷ s

-- `g` is `f` with one more service, which the `incomes` send to and which sends to the `outgoings`.
pub record Added (f g : Flow) (name : Str) (incomes outgoings : List Str) : Type 0 where
  pub from : AreEndpoints name f incomes
  pub to : AreEndpoints name f outgoings
  pub knows : (a : Str) → known g a ≡ (a == name || known f a)
  pub ins_eq :
      (a b : Str)
      → edge_in g a b ≡ (
          if b == name
          then contains incomes a
          else edge_in f a b || contains outgoings b && a == name)
  pub outs_eq :
      (a b : Str)
      → edge_out g a b ≡ (
          if a == name
          then contains outgoings b
          else edge_out f a b || contains incomes a && b == name)
  pub last_mem :
      (a : Str)
      → contains g.last_changed_service a ≡ (contains f.last_changed_service a || a == name)
  pub last_eq : last_changed g ≡ some name
  pub frontend_same :
      (b : Str)
      → (b == name) ≡ false
      → frontend_is g.frontend_name b ≡ frontend_is f.frontend_name b
  pub level : g.build_level ≡ empty

contains-last_of :
    (l : List Str) (name : Str) → is_last name (last_of l) ≡ true → contains l name ≡ true
unfolding is_last
contains-last_of [] name h = cc
contains-last_of (s ∷ []) name h = ground arith
contains-last_of (s ∷ t ∷ l) name h = ground (arith, contains-last_of (t ∷ l) name h)

is_last-eq : (o : Option Str) (name : Str) → is_last name o ≡ true → o ≡ some name
unfolding is_last
is_last-eq none name h = cc
is_last-eq (some s) name h = ground arith

last_of-snoc : (l : List Str) (name : Str) → last_of (l ++ name ∷ []) ≡ some name
last_of-snoc [] name = refl
last_of-snoc (s ∷ []) name = refl
last_of-snoc (s ∷ t ∷ l) name = last_of-snoc (t ∷ l) name

-- What `set_last_service` does where it returns.
pub record LastSet (f g : Flow) (name : Str) : Type 0 where
  pub nodes : g.service_nodes ≡ f.service_nodes
  pub last_mem :
      (a : Str)
      → contains g.last_changed_service a ≡ (contains f.last_changed_service a || a == name)
  pub last_eq : last_changed g ≡ some name
  pub frontend_eq : g.frontend_name ≡ f.frontend_name
  pub level : g.build_level ≡ empty

pub set_last_service-LastSet :
    (name : Str) (f : Flow) → Returns (λ _ g. LastSet f g name) (set_last_service name f)
unfolding set_last_service last_changed
set_last_service-LastSet name f = elim (Bool-cases (known f name)) [
  | inr h ↦ rw h tt
  | inl h ↦ elim (Bool-cases (is_last name (last_changed f))) [
    | inl same ↦
        rw (h, same)
          (record {
            nodes = refl;
            last_mem = λ a. ground (arith, contains-last_of f.last_changed_service name);
            last_eq = is_last-eq _ name same;
            frontend_eq = refl;
            level = refl;
          })
    | inr other ↦
        rw (h, other)
          (record {
            nodes = refl;
            last_mem = λ a. ground (arith, contains-append a f.last_changed_service (name ∷ []));
            last_eq = last_of-snoc f.last_changed_service name;
            frontend_eq = refl;
            level = refl;
          })
  ]
]

-- What the claim of the frontend leaves alone.
pub record Claimed (f g : Flow) (name : Str) : Type 0 where
  pub nodes : g.service_nodes ≡ f.service_nodes
  pub last : g.last_changed_service ≡ f.last_changed_service
  pub frontend_same :
      (b : Str)
      → (b == name) ≡ false
      → frontend_is g.frontend_name b ≡ frontend_is f.frontend_name b

frontend_is-claim :
    (o : Option Str) (name b : Str)
    → is_some o ≡ false
    → (b == name) ≡ false
    → frontend_is (some name) b ≡ frontend_is o b
unfolding frontend_is is_some
frontend_is-claim none [] b h n = refl
frontend_is-claim none (c ∷ s) b h n = n
frontend_is-claim (some []) [] b h n = refl
frontend_is-claim (some []) (c ∷ s) b h n = n
frontend_is-claim (some (c ∷ s)) name b h n = cc

pub claim_frontend-Claimed :
    (service : Service) (name : Str) (f : Flow)
    → Returns (λ _ g. Claimed f g name) (claim_frontend service name f)
unfolding claim_frontend
claim_frontend-Claimed frontend name f = elim (Bool-cases (is_some f.frontend_name)) [
  | inl h ↦ rw h tt
  | inr h ↦ rw h (record {
    nodes = refl;
    last = refl;
    frontend_same = λ b. frontend_is-claim f.frontend_name name b h;
  })
]
claim_frontend-Claimed _ name f = record { nodes = refl; last = refl; frontend_same = λ b n. refl }
