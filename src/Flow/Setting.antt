-- ===== src/Flow/Setting.antt =====
-- `set` and `set_last_service` of gnes/flow/__init__.py keep the graph well formed.
use mathlib.Core.Option
use gnes.Prelude.{
  ◌≡◌, refl, Bool, true, false, Option, none, some, [], ◌∷◌, Str, str_eq, lookup, has_key, arith,
  if◌then◌else◌, adjust, lookup-adjust, has_key-adjust, has_key_iff, ap, Result, Returns,
  Returns-then, Returns-mono, Bool-cases, inl, inr, pure, subst, sym, Option-cases,
}
use gnes.Flow.Data.{Node, Flow, FlowError, Kwargs}
use gnes.Flow.Args.{Parser, Parsed, get_parsed_args, update}
use gnes.Flow.Endpoints.{Endpoint, is_given, set_last_service}
use gnes.Flow.Edit.{
  set_recv_from, set_send_to, with_kwargs, with_parsed, merge_kwargs, store_parsed, set_kwargs, set,
  reset_build_level,
}
use gnes.Flow.View.{known, edge_in, edge_out, in_of, out_of}
use gnes.Flow.Growth.{frontend_is, LastSet, set_last_service-LastSet}
use gnes.Flow.Addition.{edge_in_of_nodes, edge_out_of_nodes, get_parsed_args_frame}
use gnes.Flow.Invariant.{IsWellFormed, IsWellFormed-of_nodes}
use gnes.Flow.Rewiring.{
  set_recv_from-Received, set_send_to-Sent, Received-IsWellFormed, Sent-IsWellFormed,
}

-- The invariant together with a service that stays known.
abbrev Holds : Bool → Str → Flow → Type 0
Holds built name f = IsWellFormed built f × (known f name ≡ true)

set_recv_from-Holds :
    {built : Bool} (clear : Bool) (name : Str) (e : Endpoint) (f : Flow)
    → Holds built name f
    → Returns (λ _ g. Holds built name g) (set_recv_from clear name e f)
unfolding set_recv_from
set_recv_from-Holds clear name e f (w, h) = elim (Bool-cases (is_given e)) [
  | inl given ↦
      Returns-mono _ _ (set_recv_from clear name e f)
        (λ _ g r. (Received-IsWellFormed clear name f h g r.names w r.by, rw r.by.knows h))
        (set_recv_from-Received clear name f h e given)
  | inr absent ↦ rw absent (w, h)
]

set_send_to-Holds :
    {built : Bool} (clear : Bool) (name : Str) (e : Endpoint) (f : Flow)
    → Holds built name f
    → Returns (λ _ g. Holds built name g) (set_send_to clear name e f)
unfolding set_send_to
set_send_to-Holds clear name e f (w, h) = elim (Bool-cases (is_given e)) [
  | inl given ↦
      Returns-mono _ _ (set_send_to clear name e f)
        (λ _ g r. (Sent-IsWellFormed clear name f h g r.names w r.by, rw r.by.knows h))
        (set_send_to-Sent clear name f h e given)
  | inr absent ↦ rw absent (w, h)
]

-- A change of a node that leaves its two sets of names alone.
record Neutral (c : Node → Node) : Type 0 where
  incomes : (n : Node) → (c n).incomes ≡ n.incomes
  outgoings : (n : Node) → (c n).outgoings ≡ n.outgoings

module _ (c : Node → Node) (n : Neutral c) (name : Str) (f : Flow) where
  abbrev changed : Flow
  changed = record f { service_nodes = adjust name c f.service_nodes }

  in_of-neutral : (o : Option Node) → in_of (Option.map c o) ≡ in_of o
  unfolding in_of
  in_of-neutral none = refl
  in_of-neutral (some m) = n.incomes m

  out_of-neutral : (o : Option Node) → out_of (Option.map c o) ≡ out_of o
  unfolding out_of
  out_of-neutral none = refl
  out_of-neutral (some m) = n.outgoings m

  edge_in-neutral : (a b : Str) → edge_in changed a b ≡ edge_in f a b
  unfolding edge_in
  edge_in-neutral a b =
      ground
        (arith, lookup-adjust b name c f.service_nodes, in_of-neutral (lookup b f.service_nodes))

  edge_out-neutral : (a b : Str) → edge_out changed a b ≡ edge_out f a b
  unfolding edge_out
  edge_out-neutral a b =
      ground
        (arith, lookup-adjust a name c f.service_nodes, out_of-neutral (lookup a f.service_nodes))

  Holds-neutral : {built : Bool} (s : Str) → Holds built s f → Holds built s changed
  Holds-neutral s (w, h) = (
    record {
      ins_known = λ a b.
          rw (edge_in-neutral a b, has_key-adjust a name c f.service_nodes) (w.ins_known a b);
      outs_known = λ a b.
          rw (edge_out-neutral a b, has_key-adjust b name c f.service_nodes) (w.outs_known a b);
      agree = λ a b. rw (edge_in-neutral a b, edge_out-neutral a b) (w.agree a b);
      no_loop = λ a. rw (edge_out-neutral a a) (w.no_loop a);
      last_known = λ a. rw (has_key-adjust a name c f.service_nodes) (w.last_known a);
    },
    rw (has_key-adjust s name c f.service_nodes) h,
  )

merge_kwargs-Holds :
    {built : Bool} (clear : Bool) (name s : Str) (given : Kwargs) (f : Flow)
    → Holds built s f
    → Holds built s (merge_kwargs clear name given f)
unfolding merge_kwargs with_kwargs
merge_kwargs-Holds true name s given f h = h
merge_kwargs-Holds false name s given f h =
    Holds-neutral (with_kwargs (update given f.common_kwargs))
      (record { incomes = λ n. refl; outgoings = λ n. refl }) name f s h

store_parsed-Holds :
    {built : Bool} (name s : Str) (parsed : Parsed) (f : Flow)
    → Holds built s f
    → Holds built s (store_parsed name parsed f)
unfolding store_parsed with_parsed
store_parsed-Holds name s parsed f h =
    Holds-neutral (with_parsed parsed) (record { incomes = λ n. refl; outgoings = λ n. refl }) name
      f s h

set_kwargs-Holds :
    {built : Bool} (parser : Parser) (clear : Bool) (name : Str) (node : Node) (kwargs : Kwargs)
    (f : Flow)
    → Holds built name f
    → Returns (λ _ g. Holds built name g) (set_kwargs parser clear name node kwargs f)
unfolding set_kwargs
set_kwargs-Holds parser clear name node [] f h = h
set_kwargs-Holds {built = built} parser clear name node (kw ∷ kwargs) f h =
    let given = if clear then kw ∷ kwargs else update node.kwargs (kw ∷ kwargs) in
    let g = merge_kwargs clear name given f in
    let hg = merge_kwargs-Holds clear name name given f h in
    Returns-then _ _ (get_parsed_args parser node.service given g) _
      (get_parsed_args_frame parser node.service given g)
      λ parsed g1 same.
        store_parsed-Holds name name parsed g1 (subst (Holds built name) (sym same) hg)

LastSet-IsWellFormed :
    {built : Bool} (name : Str) (f g : Flow)
    → Holds built name f
    → LastSet f g name
    → IsWellFormed built g
LastSet-IsWellFormed name f g (w, h) l = record {
  ins_known = λ a b k.
      ground (arith, edge_in_of_nodes f g a b l.nodes, ap (has_key a) l.nodes, w.ins_known a b);
  outs_known = λ a b k.
      ground (arith, edge_out_of_nodes f g a b l.nodes, ap (has_key b) l.nodes, w.outs_known a b);
  agree = λ a b n. ground (
    arith,
    edge_in_of_nodes f g a b l.nodes,
    edge_out_of_nodes f g a b l.nodes,
    ap (λ o. frontend_is o b) l.frontend_eq,
    w.agree a b,
  );
  no_loop = λ a. ground (arith, edge_out_of_nodes f g a a l.nodes, w.no_loop a);
  last_known = λ a. ground (arith, l.last_mem a, ap (has_key a) l.nodes, w.last_known a);
}

lookup-known :
    (name : Str) (f : Flow) {n : Node} → lookup name f.service_nodes ≡ some n → known f name ≡ true
lookup-known name f e = (has_key_iff name f.service_nodes).1 (λ p. cc)

reset-IsWellFormed :
    {built : Bool} (f : Flow) → IsWellFormed built f → IsWellFormed built (reset_build_level f)
unfolding reset_build_level
reset-IsWellFormed f w = IsWellFormed-of_nodes f _ refl refl refl w

-- `set` keeps the graph well formed, whatever it changes.
pub set-IsWellFormed :
    {built : Bool} (parser : Parser) (name : Str) (recv_from send_to : Endpoint)
    (clear as_last : Bool) (kwargs : Kwargs) (f : Flow)
    → IsWellFormed built f
    → Returns
        (λ _ g. IsWellFormed built g)
        (set parser name recv_from send_to clear as_last kwargs f)
unfolding set
set-IsWellFormed {built = built} parser name recv_from send_to clear as_last kwargs f w =
    elim (Option-cases (lookup name f.service_nodes)) [
      | inl missing ↦ rw missing tt
      | inr (node, found) ↦ rw found (
          Returns-then _ _ (set_recv_from clear name recv_from f) _
            (set_recv_from-Holds clear name recv_from f (w, lookup-known name f found))
            λ _ f1 h1.
              Returns-then _ _ (set_send_to clear name send_to f1) _
                (set_send_to-Holds clear name send_to f1 h1)
                λ _ f2 h2.
                  Returns-then _ _ (set_kwargs parser clear name node kwargs f2) _
                    (set_kwargs-Holds parser clear name node kwargs f2 h2)
                    λ _ f3 h3.
                      Returns-then (λ _ g. IsWellFormed built g) _ (last_step as_last f3) _
                        (last_step-holds as_last f3 h3) λ _ z wz. reset-IsWellFormed z wz)
    ]
  where
    last_step : Bool → Flow → Result FlowError (Unit {0}) × Flow
    last_step b g = (if b then set_last_service name else pure tt) g

    last_step-holds :
        (b : Bool) (g : Flow)
        → Holds built name g
        → Returns (λ _ z. IsWellFormed built z) (last_step b g)
    last_step-holds true g h =
        Returns-mono _ _ (set_last_service name g) (λ _ z l. LastSet-IsWellFormed name g z h l)
          (set_last_service-LastSet name g)
    last_step-holds false g h = h.0
