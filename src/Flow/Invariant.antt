-- ===== src/Flow/Invariant.antt =====
-- The well-formedness of a flow's graph, and that `add` and `remove` keep it.
use gnes.Prelude.{
  ◌≡◌, refl, Bool, true, false, ◌&&◌, Option, none, some, List, [], ◌∷◌, Str, str_eq, contains,
  arith, lookup-not_key, Returns, Returns-then, Returns-mono, Bool-cases, inl, inr, lift_option,
}
use gnes.Flow.Data.{Service, Kwargs, Flow, FlowError, value_error}
use gnes.Flow.Args.{Parser}
use gnes.Flow.Endpoints.{Endpoint}
use gnes.Flow.Edit.{
  ServiceArg, service_of, is_used, choose_name, choose_auto, auto_name, is_identifier, add_named,
  add,
}
use gnes.Flow.View.{known, edge_in, edge_out, in_of, out_of}
use gnes.Flow.Growth.{Added, frontend_is}
use gnes.Flow.Addition.{add_named-Added}

-- Every edge joins two known services, no service sends to itself, the two ends of an edge agree
-- (but, where `built` is set, at the frontend, whose incomes a build replaces), and the services changed last are
-- the known ones.
pub record IsWellFormed (built : Bool) (f : Flow) : Type 0 where
  pub ins_known : (a b : Str) → edge_in f a b ≡ true → known f a ≡ true
  pub outs_known : (a b : Str) → edge_out f a b ≡ true → known f b ≡ true
  pub agree :
      (a b : Str)
      → (built && frontend_is f.frontend_name b) ≡ false
      → edge_in f a b ≡ edge_out f a b
  pub no_loop : (a : Str) → edge_out f a a ≡ false
  pub last_known : (a : Str) → contains f.last_changed_service a ≡ known f a

module _ (f : Flow) where
  pub edge_in_unknown : (a b : Str) → known f b ≡ false → edge_in f a b ≡ false
  unfolding edge_in in_of
  edge_in_unknown a b h = rw (lookup-not_key b f.service_nodes h)

  pub edge_out_unknown : (a b : Str) → known f a ≡ false → edge_out f a b ≡ false
  unfolding edge_out out_of
  edge_out_unknown a b h = rw (lookup-not_key a f.service_nodes h)

module _ {built : Bool} (f g : Flow) (name : Str) (incomes outgoings : List Str)
    (w : IsWellFormed built f) (fresh : known f name ≡ false)
    (added : Added f g name incomes outgoings) where
  added-agree :
      (a b : Str)
      → (built && frontend_is g.frontend_name b) ≡ false
      → edge_in g a b ≡ edge_out g a b
  added-agree a b h = ground (
    arith,
    w.agree a b,
    added.ins_eq a b,
    added.outs_eq a b,
    added.frontend_same b,
    edge_in_unknown f name b,
    edge_in_unknown f a name fresh,
    edge_out_unknown f a b,
    w.outs_known a name,
    w.ins_known a b,
    added.from.not_self,
    added.to.not_self,
  )

  pub Added-IsWellFormed : IsWellFormed built g
  Added-IsWellFormed = record {
    ins_known = λ a b h.
        ground (arith, w.ins_known a b, added.ins_eq a b, added.knows a, added.from.are_known a);
    outs_known = λ a b h.
        ground (arith, w.outs_known a b, added.outs_eq a b, added.knows b, added.to.are_known b);
    agree = added-agree;
    no_loop = λ a. ground (arith, w.no_loop a, added.outs_eq a a, added.to.not_self);
    last_known = λ a. ground (arith, w.last_known a, added.last_mem a, added.knows a);
  }

-- A change of the flow that leaves its graph alone keeps the invariant.
pub IsWellFormed-of_nodes :
    {built : Bool} (f g : Flow)
    → g.service_nodes ≡ f.service_nodes
    → g.frontend_name ≡ f.frontend_name
    → g.last_changed_service ≡ f.last_changed_service
    → IsWellFormed built f
    → IsWellFormed built g
unfolding edge_in edge_out
IsWellFormed-of_nodes f g n e l w = record {
  ins_known = λ a b. rw n (w.ins_known a b);
  outs_known = λ a b. rw n (w.outs_known a b);
  agree = λ a b. rw (n, e) (w.agree a b);
  no_loop = λ a. rw n (w.no_loop a);
  last_known = λ a. rw (n, l) (w.last_known a);
}

-- The name that `add` settles on is new to the flow.
record Chosen (built : Bool) (f g : Flow) (name : Str) : Type 0 where
  well_formed : IsWellFormed built g
  fresh : known g name ≡ false

module _ {built : Bool} (f : Flow) (w : IsWellFormed built f)
    (auto_free : (s : Service) → known f (auto_name s f) ≡ false) where
  choose_auto-Chosen : (s : Service) → Returns (λ n g. Chosen built f g n) (choose_auto s f)
  unfolding choose_auto
  choose_auto-Chosen s = record {
    well_formed = IsWellFormed-of_nodes f _ refl refl refl w;
    fresh = auto_free s;
  }

  choose_name-Chosen :
      (s : Service) (name : Option Str)
      → is_used name f ≡ false
      → Returns (λ n g. Chosen built f g n) (choose_name s name f)
  unfolding choose_name is_used
  choose_name-Chosen s none h = choose_auto-Chosen s
  choose_name-Chosen s (some []) h = choose_auto-Chosen s
  choose_name-Chosen s (some (c ∷ n)) h = record { well_formed = w; fresh = h }

-- `add` keeps the graph well formed where the next automatic names are not taken.
pub add-IsWellFormed :
    {built : Bool} (parser : Parser) (arg : ServiceArg) (name : Option Str)
    (recv_from send_to : Endpoint) (kwargs : Kwargs) (f : Flow)
    → IsWellFormed built f
    → ((s : Service) → known f (auto_name s f) ≡ false)
    → Returns (λ _ g. IsWellFormed built g) (add parser arg name recv_from send_to kwargs f)
unfolding add
add-IsWellFormed parser arg name recv_from send_to kwargs f w auto_free =
    Returns-then (λ _ g. g ≡ f) _ (lift_option value_error (service_of arg) f) _
      (lifted (service_of arg))
      λ service f1 e. rw e (elim (Bool-cases (is_used name f)) [
        | inl used ↦ rw used tt
        | inr new ↦ rw new (
            Returns-then _ _ (choose_name service name f) _
              (choose_name-Chosen f w auto_free service name new)
              λ chosen g c. elim (Bool-cases (is_identifier chosen)) [
                | inr bad ↦ rw bad tt
                | inl good ↦ rw good (
                    Returns-mono _ _ (add_named parser service chosen recv_from send_to kwargs g)
                      (λ _ z r.
                        Added-IsWellFormed g z chosen r.incomes r.outgoings c.well_formed c.fresh
                          r.added)
                      (add_named-Added parser service chosen recv_from send_to kwargs g))
              ])
      ])
  where
    lifted :
        (o : Option Service) → Returns (λ _ g. g ≡ f) (lift_option {E = FlowError} value_error o f)
    lifted none = tt
    lifted (some s) = refl
