-- ===== src/Flow/Removal.antt =====
-- `remove` of gnes/flow/__init__.py takes a node and all of its edges out of the graph.
use mathlib.Core.Option
use gnes.Prelude.{
  Bool, ◌≡◌, refl, true, false, ◌&&◌, ◌||◌, Option, none, some, List, [], ◌∷◌, Str, ◌==◌, str_eq,
  not, lookup, has_key, contains, arith, erase, Dict, contains-discard, lookup-erase,
  lookup-map_values, has_key-erase, has_key-map_values, ap, Returns, Returns-intro, Returns-err, ok,
  err, Bool-cases, inl, inr,
}
use gnes.Flow.Data.{Node, Flow, missing_node, empty}
use gnes.Flow.Edit.{remove, forget_in, forget_out, last_without}
use gnes.Flow.View.{known, edge_in, edge_out, in_of, out_of}
use gnes.Flow.Invariant.{IsWellFormed}
use gnes.Flow.Growth.{frontend_is}

-- `g` is `f` without the service `name` and its edges.
pub record Removed (f g : Flow) (name : Str) : Type 0 where
  pub knows : (a : Str) → known g a ≡ (not (a == name) && known f a)
  pub ins_eq : (a b : Str) → edge_in g a b ≡ (not (a == name || b == name) && edge_in f a b)
  pub outs_eq : (a b : Str) → edge_out g a b ≡ (not (a == name || b == name) && edge_out f a b)
  pub last_mem :
      (a : Str)
      → known g a ≡ true
      → contains g.last_changed_service a ≡ contains f.last_changed_service a
  pub last_gone : contains g.last_changed_service name ≡ false
  pub last_kept :
      (a : Str)
      → contains g.last_changed_service a ≡ true
      → contains f.last_changed_service a ≡ true
  pub frontend_eq : g.frontend_name ≡ f.frontend_name
  pub level : g.build_level ≡ empty

module _ (name : Str) where
  forget : Node → Node
  forget n = forget_in name (forget_out name n)

  in_of-forget :
      (a : Str) (o : Option Node)
      → contains (in_of (Option.map forget o)) a ≡ (not (a == name) && contains (in_of o) a)
  unfolding in_of forget forget_in forget_out
  in_of-forget a none = ground arith
  in_of-forget a (some n) = contains-discard a name n.incomes

  out_of-forget :
      (b : Str) (o : Option Node)
      → contains (out_of (Option.map forget o)) b ≡ (not (b == name) && contains (out_of o) b)
  unfolding out_of forget forget_in forget_out
  out_of-forget b none = ground arith
  out_of-forget b (some n) = contains-discard b name n.outgoings

  last_without-gone :
      (rest : Dict Str Node) (l : List Str) → contains (last_without name rest l) name ≡ false
  unfolding last_without
  last_without-gone [] l = refl
  last_without-gone (_ ∷ _) l = ground (arith, contains-discard name name l)

  last_without-kept :
      (rest : Dict Str Node) (l : List Str) (a : Str)
      → contains (last_without name rest l) a ≡ true
      → contains l a ≡ true
  unfolding last_without
  last_without-kept [] l a h = cc
  last_without-kept (_ ∷ _) l a h = ground (arith, contains-discard a name l)

  last_without-mem :
      (rest : Dict Str Node) (l : List Str) (a : Str)
      → has_key a rest ≡ true
      → (a == name) ≡ false
      → contains (last_without name rest l) a ≡ contains l a
  unfolding last_without has_key
  last_without-mem [] l a h n = cc
  last_without-mem (_ ∷ _) l a h n = ground (arith, contains-discard a name l)

  -- `remove` of a known service returns, and takes it out of every set of names.
  pub remove-Removed :
      (f : Flow)
      → known f name ≡ true
      → ((remove name f).0 ≡ ok tt) × Removed f (remove name f).1 name
  unfolding remove edge_in edge_out forget
  remove-Removed f h = rw h (
    refl,
    record {
      knows = λ a. ground (
        arith,
        has_key-map_values a forget (erase name f.service_nodes),
        has_key-erase a name f.service_nodes,
      );
      ins_eq = λ a b. ground (
        arith,
        lookup-map_values b forget (erase name f.service_nodes),
        lookup-erase b name f.service_nodes,
        in_of-forget a (lookup b f.service_nodes),
      );
      outs_eq = λ a b. ground (
        arith,
        lookup-map_values a forget (erase name f.service_nodes),
        lookup-erase a name f.service_nodes,
        out_of-forget b (lookup a f.service_nodes),
      );
      last_mem = λ a k. last_without-mem _ f.last_changed_service a k (
          ground (
            arith,
            has_key-map_values a forget (erase name f.service_nodes),
            has_key-erase a name f.service_nodes,
          ));
      last_gone = last_without-gone _ f.last_changed_service;
      last_kept = last_without-kept _ f.last_changed_service;
      frontend_eq = refl;
      level = refl;
    },
  )

remove_err : (name : Str) (f : Flow) → known f name ≡ false → (remove name f).0 ≡ err missing_node
unfolding remove
remove_err name f h = rw h

Removed-IsWellFormed :
    {built : Bool} (name : Str) (f g : Flow)
    → IsWellFormed built f
    → Removed f g name
    → IsWellFormed built g
Removed-IsWellFormed name f g w r = record {
  ins_known = λ a b h. ground (arith, r.ins_eq a b, r.knows a, w.ins_known a b);
  outs_known = λ a b h. ground (arith, r.outs_eq a b, r.knows b, w.outs_known a b);
  agree = λ a b h.
      ground
        (arith, ap (λ o. frontend_is o b) r.frontend_eq, r.ins_eq a b, r.outs_eq a b, w.agree a b);
  no_loop = λ a. ground (arith, r.outs_eq a a, w.no_loop a);
  last_known =
      λ a. ground (arith, r.last_mem a, r.last_gone, r.last_kept a, r.knows a, w.last_known a);
}

-- `remove` keeps the graph well formed.
pub remove-IsWellFormed :
    {built : Bool} (name : Str) (f : Flow)
    → IsWellFormed built f
    → Returns (λ _ g. IsWellFormed built g) (remove name f)
remove-IsWellFormed name f w = elim (Bool-cases (known f name)) [
  | inl h ↦
      let (done, r) = remove-Removed name f h in
      Returns-intro _ (remove name f) (λ _. Removed-IsWellFormed name f _ w r)
  | inr h ↦ Returns-err _ (remove name f) missing_node (remove_err name f h)
]
