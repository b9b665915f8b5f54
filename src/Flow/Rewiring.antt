-- ===== src/Flow/Rewiring.antt =====
-- `set` of gnes/flow/__init__.py: what its two endpoint arguments do to the edges.
use mathlib.Core.Option
use gnes.Prelude.{
  ◌≡◌, refl, ◌≢◌, Bool, true, false, ◌&&◌, ◌||◌, Option, none, some, List, Str, ◌==◌, str_eq, not,
  lookup, contains, arith, if◌then◌else◌, map_values, contains-union, contains-discard,
  lookup-adjust, lookup-map_values, has_key-adjust, has_key-map_values, has_key_iff, ap, Returns,
  Returns-then, Returns-mono, for_each, subst, sym,
}
use gnes.Flow.Data.{Node, Flow}
use gnes.Flow.Endpoints.{Endpoint, last_changed, is_given, parse_endpoints}
use gnes.Flow.Edit.{
  forget_in, forget_out, new_incomes, new_outgoings, change_incomes, change_outgoings,
  set_recv_from, set_send_to, link_out, link_in,
}
use gnes.Flow.View.{
  known, edge_in, edge_out, in_of, out_of, SameBut, for_each-link_out, for_each-link_in,
}
use gnes.Flow.Growth.{AreEndpoints, frontend_is}
use gnes.Flow.Asking.{asks_for, parse_endpoints-AreAsked}
use gnes.Flow.Invariant.{IsWellFormed}

module _ (clear : Bool) (name : Str) (names : List Str) where
  in_of-new_incomes :
      (a : Str) (o : Option Node)
      → o ≢ none
      → contains (in_of (Option.map (new_incomes clear names) o)) a
        ≡ (contains names a || not clear && contains (in_of o) a)
  unfolding in_of new_incomes
  in_of-new_incomes a none h = absurd (h refl)
  in_of-new_incomes a (some n) h = ground (arith, contains-union a n.incomes names)

  out_of-new_incomes :
      (o : Option Node) → out_of (Option.map (new_incomes clear names) o) ≡ out_of o
  unfolding out_of new_incomes
  out_of-new_incomes none = refl
  out_of-new_incomes (some n) = refl

  out_of-forget_out :
      (b : Str) (o : Option Node)
      → contains (out_of (Option.map (forget_out name) o)) b
        ≡ (not (b == name) && contains (out_of o) b)
  unfolding out_of forget_out
  out_of-forget_out b none = ground arith
  out_of-forget_out b (some n) = contains-discard b name n.outgoings

  in_of-forget_out : (o : Option Node) → in_of (Option.map (forget_out name) o) ≡ in_of o
  unfolding in_of forget_out
  in_of-forget_out none = refl
  in_of-forget_out (some n) = refl

  map-ne-none : (f : Node → Node) (o : Option Node) → o ≢ none → Option.map f o ≢ none
  map-ne-none f none h = absurd (h refl)
  map-ne-none f (some n) h = λ p. cc

  -- The incomes are replaced or added to; the old edges into the service are cut when clearing.
  change_incomes-SameBut :
      (f : Flow)
      → known f name ≡ true
      → SameBut f
          (change_incomes clear name names f)
          (λ a b.
            if b == name then contains names a || not clear && edge_in f a b else edge_in f a b)
          (λ a b. not (clear && b == name) && edge_out f a b)
  unfolding change_incomes edge_in edge_out
  change_incomes-SameBut f h =
      let d = if clear then map_values (forget_out name) f.service_nodes else f.service_nodes in
      record {
        knows = λ a. ground (
          arith,
          has_key-adjust a name (new_incomes clear names) d,
          has_key-map_values a (forget_out name) f.service_nodes,
        );
        ins_eq = λ a b. ground (
          arith,
          lookup-adjust b name (new_incomes clear names) d,
          lookup-map_values b (forget_out name) f.service_nodes,
          in_of-new_incomes a (lookup b f.service_nodes),
          in_of-new_incomes a (Option.map (forget_out name) (lookup b f.service_nodes)),
          in_of-forget_out (lookup b f.service_nodes),
          map-ne-none (forget_out name) (lookup b f.service_nodes),
          (has_key_iff name f.service_nodes).0 h,
        );
        outs_eq = λ a b. ground (
          arith,
          lookup-adjust a name (new_incomes clear names) d,
          lookup-map_values a (forget_out name) f.service_nodes,
          out_of-new_incomes (lookup a f.service_nodes),
          out_of-new_incomes (Option.map (forget_out name) (lookup a f.service_nodes)),
          out_of-forget_out b (lookup a f.service_nodes),
        );
        last_eq = refl;
        frontend_eq = refl;
      }

  out_of-new_outgoings :
      (a : Str) (o : Option Node)
      → o ≢ none
      → contains (out_of (Option.map (new_outgoings clear names) o)) a
        ≡ (contains names a || not clear && contains (out_of o) a)
  unfolding out_of new_outgoings
  out_of-new_outgoings a none h = absurd (h refl)
  out_of-new_outgoings a (some n) h = ground (arith, contains-union a n.outgoings names)

  in_of-new_outgoings :
      (o : Option Node) → in_of (Option.map (new_outgoings clear names) o) ≡ in_of o
  unfolding in_of new_outgoings
  in_of-new_outgoings none = refl
  in_of-new_outgoings (some n) = refl

  in_of-forget_in :
      (b : Str) (o : Option Node)
      → contains (in_of (Option.map (forget_in name) o)) b
        ≡ (not (b == name) && contains (in_of o) b)
  unfolding in_of forget_in
  in_of-forget_in b none = ground arith
  in_of-forget_in b (some n) = contains-discard b name n.incomes

  out_of-forget_in : (o : Option Node) → out_of (Option.map (forget_in name) o) ≡ out_of o
  unfolding out_of forget_in
  out_of-forget_in none = refl
  out_of-forget_in (some n) = refl

  -- The outgoings are replaced or added to; the old edges out of the service are cut when clearing.
  change_outgoings-SameBut :
      (f : Flow)
      → known f name ≡ true
      → SameBut f
          (change_outgoings clear name names f)
          (λ a b. not (clear && a == name) && edge_in f a b)
          (λ a b.
            if a == name then contains names b || not clear && edge_out f a b else edge_out f a b)
  unfolding change_outgoings edge_out edge_in
  change_outgoings-SameBut f h =
      let d = if clear then map_values (forget_in name) f.service_nodes else f.service_nodes in
      record {
        knows = λ a. ground (
          arith,
          has_key-adjust a name (new_outgoings clear names) d,
          has_key-map_values a (forget_in name) f.service_nodes,
        );
        ins_eq = λ a b. ground (
          arith,
          lookup-adjust b name (new_outgoings clear names) d,
          lookup-map_values b (forget_in name) f.service_nodes,
          in_of-new_outgoings (lookup b f.service_nodes),
          in_of-new_outgoings (Option.map (forget_in name) (lookup b f.service_nodes)),
          in_of-forget_in a (lookup b f.service_nodes),
        );
        outs_eq = λ a b. ground (
          arith,
          lookup-adjust a name (new_outgoings clear names) d,
          lookup-map_values a (forget_in name) f.service_nodes,
          out_of-new_outgoings b (lookup a f.service_nodes),
          out_of-new_outgoings b (Option.map (forget_in name) (lookup a f.service_nodes)),
          out_of-forget_in (lookup a f.service_nodes),
          map-ne-none (forget_in name) (lookup a f.service_nodes),
          (has_key_iff name f.service_nodes).0 h,
        );
        last_eq = refl;
        frontend_eq = refl;
      }

-- `g` is `f` with new incomes of the service `name`.
pub record Received (clear : Bool) (name : Str) (f g : Flow) (names : List Str) : Type 0 where
  pub from : AreEndpoints name f names
  pub knows : (a : Str) → known g a ≡ known f a
  pub ins_eq :
      (a b : Str)
      → edge_in g a b
        ≡ (if b == name then contains names a || not clear && edge_in f a b else edge_in f a b)
  pub outs_eq :
      (a b : Str)
      → edge_out g a b
        ≡ (if b == name then contains names a || not clear && edge_out f a b else edge_out f a b)
  pub last_eq : g.last_changed_service ≡ f.last_changed_service
  pub frontend_eq : g.frontend_name ≡ f.frontend_name

-- `g` is `f` with new outgoings of the service `name`.
pub record Sent (clear : Bool) (name : Str) (f g : Flow) (names : List Str) : Type 0 where
  pub to : AreEndpoints name f names
  pub knows : (a : Str) → known g a ≡ known f a
  pub ins_eq :
      (a b : Str)
      → edge_in g a b
        ≡ (if a == name then contains names b || not clear && edge_in f a b else edge_in f a b)
  pub outs_eq :
      (a b : Str)
      → edge_out g a b
        ≡ (if a == name then contains names b || not clear && edge_out f a b else edge_out f a b)
  pub last_eq : g.last_changed_service ≡ f.last_changed_service
  pub frontend_eq : g.frontend_name ≡ f.frontend_name

-- The names are those that the endpoint asks for.
pub record ReceivedAs (clear : Bool) (name : Str) (e : Endpoint) (f g : Flow) : Type 0 where
  pub names : List Str
  pub asked : (a : Str) → contains names a ≡ asks_for true e (last_changed f) f.frontend_name a
  pub by : Received clear name f g names

-- The names are those that the endpoint asks for.
pub record SentAs (clear : Bool) (name : Str) (e : Endpoint) (f g : Flow) : Type 0 where
  pub names : List Str
  pub asked : (a : Str) → contains names a ≡ asks_for false e (last_changed f) f.frontend_name a
  pub by : Sent clear name f g names

module _ (clear : Bool) (name : Str) (f : Flow) (h : known f name ≡ true) where
  -- Where `set` returns from a given `recv_from`, the incomes of the service are exactly those that
  -- it names, the given services or the frontend, joined with the old ones unless they are cleared,
  -- the other ends agree, and no other edge changes.
  pub set_recv_from-Received :
      (e : Endpoint)
      → is_given e ≡ true
      → Returns (λ _ g. ReceivedAs clear name e f g) (set_recv_from clear name e f)
  unfolding set_recv_from
  set_recv_from-Received e given = rw given (
      Returns-then _ _ (parse_endpoints name e true f) _ (parse_endpoints-AreAsked name e true f)
        λ names f1 from.
          let g = change_incomes clear name names f1 in
          let h1 = subst (λ x. known x name ≡ true) (sym from.0) h in
          let changed = change_incomes-SameBut clear name names f1 h1 in
          Returns-mono _ _ (for_each (link_out name) names g)
            (λ _ z outs. record {
              names = names;
              asked = from.1.asked;
              by = record {
                from = from.1.endpoints;
                knows =
                    λ a. ground (arith, outs.knows a, changed.knows a, ap (λ x. known x a) from.0);
                ins_eq = λ a b.
                    ground
                      (arith, outs.ins_eq a b, changed.ins_eq a b, ap (λ x. edge_in x a b) from.0);
                outs_eq = λ a b.
                    ground (
                      arith,
                      outs.outs_eq a b,
                      changed.outs_eq a b,
                      ap (λ x. edge_out x a b) from.0,
                    );
                last_eq = cc (outs.last_eq, changed.last_eq, from.0);
                frontend_eq = cc (outs.frontend_eq, changed.frontend_eq, from.0);
              };
            })
            (for_each-link_out name names g))

  -- Where `set` returns from a given `send_to`, the outgoings of the service are exactly those that
  -- it names, the given services or the frontend, joined with the old ones unless they are cleared,
  -- the other ends agree, and no other edge changes.
  pub set_send_to-Sent :
      (e : Endpoint)
      → is_given e ≡ true
      → Returns (λ _ g. SentAs clear name e f g) (set_send_to clear name e f)
  unfolding set_send_to
  set_send_to-Sent e given = rw given (
      Returns-then _ _ (parse_endpoints name e false f) _ (parse_endpoints-AreAsked name e false f)
        λ names f1 to.
          let g = change_outgoings clear name names f1 in
          let h1 = subst (λ x. known x name ≡ true) (sym to.0) h in
          let changed = change_outgoings-SameBut clear name names f1 h1 in
          Returns-mono _ _ (for_each (link_in name) names g)
            (λ _ z ins. record {
              names = names;
              asked = to.1.asked;
              by = record {
                to = to.1.endpoints;
                knows = λ a. ground (arith, ins.knows a, changed.knows a, ap (λ x. known x a) to.0);
                ins_eq = λ a b.
                    ground
                      (arith, ins.ins_eq a b, changed.ins_eq a b, ap (λ x. edge_in x a b) to.0);
                outs_eq = λ a b.
                    ground
                      (arith, ins.outs_eq a b, changed.outs_eq a b, ap (λ x. edge_out x a b) to.0);
                last_eq = cc (ins.last_eq, changed.last_eq, to.0);
                frontend_eq = cc (ins.frontend_eq, changed.frontend_eq, to.0);
              };
            })
            (for_each-link_in name names g))

  pub Received-IsWellFormed :
      {built : Bool} (g : Flow) (names : List Str)
      → IsWellFormed built f
      → Received clear name f g names
      → IsWellFormed built g
  Received-IsWellFormed g names w r = record {
    ins_known =
        λ a b k. ground (arith, w.ins_known a b, r.ins_eq a b, r.knows a, r.from.are_known a);
    outs_known = λ a b k. ground (arith, w.outs_known a b, r.outs_eq a b, r.knows b);
    agree = λ a b n.
        ground (
          arith,
          ap (λ o. frontend_is o b) r.frontend_eq,
          r.ins_eq a b,
          r.outs_eq a b,
          w.agree a b,
        );
    no_loop = λ a. ground (arith, r.outs_eq a a, w.no_loop a, r.from.not_self);
    last_known = λ a. ground (arith, ap (λ l. contains l a) r.last_eq, r.knows a, w.last_known a);
  }

  pub Sent-IsWellFormed :
      {built : Bool} (g : Flow) (names : List Str)
      → IsWellFormed built f
      → Sent clear name f g names
      → IsWellFormed built g
  Sent-IsWellFormed g names w r = record {
    ins_known = λ a b k. ground (arith, w.ins_known a b, r.ins_eq a b, r.knows a);
    outs_known =
        λ a b k. ground (arith, w.outs_known a b, r.outs_eq a b, r.knows b, r.to.are_known b);
    agree = λ a b n.
        ground (
          arith,
          ap (λ o. frontend_is o b) r.frontend_eq,
          r.ins_eq a b,
          r.outs_eq a b,
          w.agree a b,
        );
    no_loop = λ a. ground (arith, r.outs_eq a a, w.no_loop a, r.to.not_self);
    last_known = λ a. ground (arith, ap (λ l. contains l a) r.last_eq, r.knows a, w.last_known a);
  }
