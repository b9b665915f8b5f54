-- ===== src/Flow/Addition.antt =====
-- `add` of gnes/flow/__init__.py inserts one node and its edges into the graph.
use mathlib.Core.Path.{ap₂}
use gnes.Prelude.{
  ◌≡◌, refl, true, false, ◌&&◌, ◌||◌, Option, none, some, List, Str, ◌==◌, str_eq, has_key,
  contains, arith, if◌then◌else◌, lookup-insert, has_key-insert, ap, sym, ◌∙◌, subst, Returns,
  Returns-then, lift_option, for_each,
}
use gnes.Flow.Data.{Service, ParsedArgs, value_error, Kwargs, Node, Flow, FlowError}
use gnes.Flow.Args.{Parser, get_parsed_args, render_all, update}
use gnes.Flow.Endpoints.{last_of, Endpoint, parse_endpoints, last_changed, set_last_service}
use gnes.Flow.Edit.{link_out, link_in, put_node, claim_frontend, add_named, reset_build_level}
use gnes.Flow.View.{
  known, edge_in, edge_out, in_of, out_of, OutsWith, InsWith, for_each-link_out, for_each-link_in,
}
use gnes.Flow.Growth.{
  AreEndpoints, Added, LastSet, set_last_service-LastSet, Claimed, claim_frontend-Claimed,
}
use gnes.Flow.Asking.{asks_for, parse_endpoints-AreAsked}

put_node-SameBut-ins :
    (name : Str) (node : Node) (f : Flow) (a b : Str)
    → edge_in (put_node name node f).1 a b
      ≡ (if b == name then contains node.incomes a else edge_in f a b)
unfolding put_node edge_in in_of
put_node-SameBut-ins name node f a b = ground (arith, lookup-insert b name node f.service_nodes)

put_node-outs :
    (name : Str) (node : Node) (f : Flow) (a b : Str)
    → edge_out (put_node name node f).1 a b
      ≡ (if a == name then contains node.outgoings b else edge_out f a b)
unfolding put_node edge_out out_of
put_node-outs name node f a b = ground (arith, lookup-insert a name node f.service_nodes)

put_node-knows :
    (name : Str) (node : Node) (f : Flow) (a : Str)
    → known (put_node name node f).1 a ≡ (a == name || known f a)
unfolding put_node
put_node-knows name node f a = has_key-insert a name node f.service_nodes

-- Two flows with the same services hold the same edges.
pub edge_in_of_nodes :
    (f g : Flow) (a b : Str) → g.service_nodes ≡ f.service_nodes → edge_in g a b ≡ edge_in f a b
unfolding edge_in
edge_in_of_nodes f g a b h = rw h

pub edge_out_of_nodes :
    (f g : Flow) (a b : Str) → g.service_nodes ≡ f.service_nodes → edge_out g a b ≡ edge_out f a b
unfolding edge_out
edge_out_of_nodes f g a b h = rw h

-- The steps of `add` from the flow `f` to `z`, as far as the graph goes.
module _ (name : Str) (f c o i z : Flow) (node : Node) (claimed : Claimed f c name)
    (from : AreEndpoints name c node.incomes) (to : AreEndpoints name c node.outgoings)
    (outs : OutsWith name node.incomes (put_node name node c).1 tt o)
    (ins : InsWith name node.outgoings o tt i) (last : LastSet i z name) where
  steps-knows : (a : Str) → known z a ≡ (a == name || known f a)
  steps-knows a = ground (
    arith,
    ap (has_key a) last.nodes,
    ins.knows a,
    outs.knows a,
    put_node-knows name node c a,
    ap (has_key a) claimed.nodes,
  )

  steps-ins :
      (a b : Str)
      → edge_in z a b ≡ (
          if b == name
          then contains node.incomes a
          else edge_in f a b || contains node.outgoings b && a == name)
  steps-ins a b = ground (
    arith,
    to.not_self,
    edge_in_of_nodes i z a b last.nodes,
    ins.ins_eq a b,
    outs.ins_eq a b,
    put_node-SameBut-ins name node c a b,
    edge_in_of_nodes f c a b claimed.nodes,
  )

  steps-outs :
      (a b : Str)
      → edge_out z a b ≡ (
          if a == name
          then contains node.outgoings b
          else edge_out f a b || contains node.incomes a && b == name)
  steps-outs a b = ground (
    arith,
    from.not_self,
    edge_out_of_nodes i z a b last.nodes,
    ins.outs_eq a b,
    outs.outs_eq a b,
    put_node-outs name node c a b,
    edge_out_of_nodes f c a b claimed.nodes,
  )

  -- The frontend is then the one that the endpoints were read with.
  steps-frontend : {w : Flow} → w ≡ reset_build_level z → w.frontend_name ≡ c.frontend_name
  unfolding reset_build_level put_node
  steps-frontend e = rw e (last.frontend_eq ∙ ins.frontend_eq ∙ outs.frontend_eq)

  steps-Added : {w : Flow} → w ≡ reset_build_level z → Added f w name node.incomes node.outgoings
  unfolding reset_build_level edge_in edge_out last_changed put_node
  steps-Added e = rw e (record {
    from = record {
      are_known = λ a m. ground (arith, from.are_known a m, ap (has_key a) claimed.nodes);
      not_self = from.not_self;
    };
    to = record {
      are_known = λ a m. ground (arith, to.are_known a m, ap (has_key a) claimed.nodes);
      not_self = to.not_self;
    };
    knows = steps-knows;
    ins_eq = steps-ins;
    outs_eq = steps-outs;
    last_mem = λ a. ground (
      arith,
      last.last_mem a,
      ap (λ l. contains l a) ins.last_eq,
      ap (λ l. contains l a) outs.last_eq,
      ap (λ l. contains l a) claimed.last,
    );
    last_eq = last.last_eq;
    frontend_same =
        λ b n. cc (claimed.frontend_same b n, last.frontend_eq, ins.frontend_eq, outs.frontend_eq);
    level = refl;
  })

pub get_parsed_args_frame :
    (parser : Parser) (service : Service) (kwargs : Kwargs) (f : Flow)
    → Returns (λ _ g. g ≡ f) (get_parsed_args parser service kwargs f)
unfolding get_parsed_args
get_parsed_args_frame parser service kwargs f =
    Returns-then (λ _ g. g ≡ f) _
      (lift_option value_error (parser service (render_all (update kwargs f.common_kwargs))) f) _
      (lifted (parser service (render_all (update kwargs f.common_kwargs)))) (λ _ _ e. e)
  where
    lifted :
        (r : Option (ParsedArgs × List Str))
        → Returns (λ _ g. g ≡ f) (lift_option {E = FlowError} value_error r f)
    lifted none = tt
    lifted (some p) = refl

-- `g` is `f` with one more service, whose incomes and outgoings are those that the endpoints ask for.
pub record AddedAs (recv_from send_to : Endpoint) (f g : Flow) (name : Str) : Type 0 where
  pub incomes : List Str
  pub outgoings : List Str
  pub asked_from :
      (a : Str) → contains incomes a ≡ asks_for true recv_from (last_changed f) g.frontend_name a
  pub asked_to :
      (a : Str) → contains outgoings a ≡ asks_for false send_to (last_changed f) g.frontend_name a
  pub added : Added f g name incomes outgoings

-- Where `add` returns, behind the choice of the name, the new service is there with exactly the
-- edges that its endpoints ask for: from the given services, the frontend, or by default the service
-- changed last, and to the given services or the frontend; all other edges and services are as they
-- were, and the new service is the one changed last.
pub add_named-Added :
    (parser : Parser) (service : Service) (name : Str) (recv_from send_to : Endpoint)
    (kwargs : Kwargs) (f : Flow)
    → Returns
        (λ _ g. AddedAs recv_from send_to f g name)
        (add_named parser service name recv_from send_to kwargs f)
unfolding add_named last_changed
add_named-Added parser service name recv_from send_to kwargs f =
    Returns-then _ _ (claim_frontend service name f) _ (claim_frontend-Claimed service name f)
      λ _ c claimed.
        Returns-then _ _ (parse_endpoints name recv_from true c) _
          (parse_endpoints-AreAsked name recv_from true c)
          λ incomes c1 from.
            Returns-then _ _ (parse_endpoints name send_to false c1) _
              (parse_endpoints-AreAsked name send_to false c1)
              λ outgoings c2 to.
                Returns-then _ _ (get_parsed_args parser service kwargs c2) _
                  (get_parsed_args_frame parser service kwargs c2)
                  λ parsed c3 same.
                    let node : Node = record {
                      service = service;
                      parsed_args = parsed.p_args;
                      args = parsed.args;
                      incomes = incomes;
                      outgoings = outgoings;
                      kwargs = parsed.kwargs;
                      unk_args = parsed.unk_args;
                    } in
                    let p = (put_node name node c3).1 in
                    Returns-then _ _ (for_each (link_out name) incomes p) _
                      (for_each-link_out name incomes p)
                      λ _ o outs.
                        Returns-then _ _ (for_each (link_in name) outgoings o) _
                          (for_each-link_in name outgoings o)
                          λ _ i ins.
                            Returns-then _ _ (set_last_service name i) _
                              (set_last_service-LastSet name i)
                              λ _ z last.
                                let e = sym (same ∙ to.0 ∙ from.0) in
                                let e1 = sym (same ∙ to.0) in
                                let claims = subst (λ x. Claimed f x name) e claimed in
                                let from_c =
                                  subst (λ x. AreEndpoints name x incomes) e from.1.endpoints in
                                let to_c =
                                  subst (λ x. AreEndpoints name x outgoings) e1 to.1.endpoints in
                                let added =
                                  steps-Added name f c3 o i z node claims from_c to_c outs ins last
                                    refl in
                                let front =
                                  steps-frontend name f c3 o i z node claims from_c to_c outs ins
                                    last refl in
                                record {
                                  incomes = incomes;
                                  outgoings = outgoings;
                                  asked_from = λ a.
                                      from.1.asked a
                                      ∙ ap₂ (λ l o. asks_for true recv_from l o a)
                                          (ap last_changed e ∙ ap last_of claims.last)
                                          (ap (λ x. x.frontend_name) e ∙ sym front);
                                  asked_to = λ a.
                                      to.1.asked a
                                      ∙ ap₂ (λ l o. asks_for false send_to l o a)
                                          (ap last_changed e1 ∙ ap last_of claims.last)
                                          (ap (λ x. x.frontend_name) e1 ∙ sym front);
                                  added = added;
                                }
