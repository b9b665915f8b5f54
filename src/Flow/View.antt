-- ===== src/Flow/View.antt =====
-- What a flow says of its graph: which services it knows, and which edges their sets of names hold.
use mathlib.Core.Option
use gnes.Prelude.{
  ◌≢◌, has_key_iff, Bool-cases, inl, inr, ◌≡◌, refl, Bool, true, false, ◌&&◌, ◌||◌, Option, none,
  some, List, [], ◌∷◌, Str, ◌==◌, str_eq, lookup, has_key, contains, arith, add_to, lookup-adjust,
  has_key-adjust, contains-add_to, Returns, Returns-mono, for_each, ok, err,
}
use gnes.Flow.Data.{Node, Flow, key_error}
use gnes.Flow.Edit.{link_out, link_in}

abbrev pub known : Flow → Str → Bool
known f a = has_key a f.service_nodes

unfoldable pub in_of : Option Node → List Str
in_of none = []
in_of (some n) = n.incomes

unfoldable pub out_of : Option Node → List Str
out_of none = []
out_of (some n) = n.outgoings

-- `a` is among the incomes of `b`.
unfoldable pub edge_in : Flow → Str → Str → Bool
unfolding in_of
edge_in f a b = contains (in_of (lookup b f.service_nodes)) a

-- `b` is among the outgoings of `a`.
unfoldable pub edge_out : Flow → Str → Str → Bool
unfolding out_of
edge_out f a b = contains (out_of (lookup a f.service_nodes)) b

-- `g` is `f` but for the edges, which are given as functions.
pub record SameBut (f g : Flow) (ins outs : Str → Str → Bool) : Type 0 where
  pub knows : (a : Str) → known g a ≡ known f a
  pub ins_eq : (a b : Str) → edge_in g a b ≡ ins a b
  pub outs_eq : (a b : Str) → edge_out g a b ≡ outs a b
  pub last_eq : g.last_changed_service ≡ f.last_changed_service
  pub frontend_eq : g.frontend_name ≡ f.frontend_name

module _ (name : Str) where
  more_out : Node → Node
  more_out n = record n { outgoings = add_to name n.outgoings }

  more_in : Node → Node
  more_in n = record n { incomes = add_to name n.incomes }

  out_of-more_out :
      (b : Str) (o : Option Node)
      → o ≢ none
      → contains (out_of (Option.map more_out o)) b ≡ (contains (out_of o) b || b == name)
  unfolding out_of more_out
  out_of-more_out b none h = absurd (h refl)
  out_of-more_out b (some n) h = ground (arith, contains-add_to b name n.outgoings)

  in_of-more_in :
      (b : Str) (o : Option Node)
      → o ≢ none
      → contains (in_of (Option.map more_in o)) b ≡ (contains (in_of o) b || b == name)
  unfolding in_of more_in
  in_of-more_in b none h = absurd (h refl)
  in_of-more_in b (some n) h = ground (arith, contains-add_to b name n.incomes)

  out_of-more_in : (o : Option Node) → out_of (Option.map more_in o) ≡ out_of o
  unfolding out_of more_in
  out_of-more_in none = refl
  out_of-more_in (some n) = refl

  in_of-more_out : (o : Option Node) → in_of (Option.map more_out o) ≡ in_of o
  unfolding in_of more_out
  in_of-more_out none = refl
  in_of-more_out (some n) = refl

  link_out-SameBut :
      (s : Str) (f : Flow)
      → known f s ≡ true
      → SameBut f (link_out name s f).1 (edge_in f) (λ a b. edge_out f a b || a == s && b == name)
  unfolding link_out edge_out edge_in more_out
  link_out-SameBut s f h = rw h (record {
    knows = λ a. has_key-adjust a s (more_out) f.service_nodes;
    ins_eq = λ a b. ground (
      arith,
      lookup-adjust b s more_out f.service_nodes,
      in_of-more_out (lookup b f.service_nodes),
    );
    outs_eq = λ a b. ground (
      arith,
      lookup-adjust a s more_out f.service_nodes,
      out_of-more_out b (lookup a f.service_nodes),
      (has_key_iff s f.service_nodes).0 h,
    );
    last_eq = refl;
    frontend_eq = refl;
  })

  link_in-SameBut :
      (s : Str) (f : Flow)
      → known f s ≡ true
      → SameBut f (link_in name s f).1 (λ a b. edge_in f a b || b == s && a == name) (edge_out f)
  unfolding link_in edge_out edge_in more_in
  link_in-SameBut s f h = rw h (record {
    knows = λ a. has_key-adjust a s (more_in) f.service_nodes;
    ins_eq = λ a b. ground (
      arith,
      lookup-adjust b s more_in f.service_nodes,
      in_of-more_in a (lookup b f.service_nodes),
      (has_key_iff s f.service_nodes).0 h,
    );
    outs_eq = λ a b. ground (
      arith,
      lookup-adjust a s more_in f.service_nodes,
      out_of-more_in (lookup a f.service_nodes),
    );
    last_eq = refl;
    frontend_eq = refl;
  })

  link_out_err : (s : Str) (f : Flow) → known f s ≡ false → link_out name s f ≡ (err key_error, f)
  unfolding link_out
  link_out_err s f h = rw h

  link_out_ok : (s : Str) (f : Flow) → known f s ≡ true → (link_out name s f).0 ≡ ok tt
  unfolding link_out
  link_out_ok s f h = rw h

  abbrev pub OutsWith : List Str → Flow → Unit {0} → Flow → Type 0
  OutsWith l f _ g = SameBut f g (edge_in f) (λ a b. edge_out f a b || contains l a && b == name)

  OutsWith-cons :
      (s : Str) (l : List Str) (f g h : Flow)
      → SameBut f g (edge_in f) (λ a b. edge_out f a b || a == s && b == name)
      → OutsWith l g tt h
      → OutsWith (s ∷ l) f tt h
  OutsWith-cons s l f g h one rest = record {
    knows = λ a. cc (one.knows a, rest.knows a);
    ins_eq = λ a b. cc (one.ins_eq a b, rest.ins_eq a b);
    outs_eq = λ a b. ground (arith, one.outs_eq a b, rest.outs_eq a b);
    last_eq = cc (one.last_eq, rest.last_eq);
    frontend_eq = cc (one.frontend_eq, rest.frontend_eq);
  }

  pub for_each-link_out :
      (l : List Str) (f : Flow) → Returns (OutsWith l f) (for_each (link_out name) l f)
  for_each-link_out [] f = record {
    knows = λ a. refl;
    ins_eq = λ a b. refl;
    outs_eq = λ a b. ground arith;
    last_eq = refl;
    frontend_eq = refl;
  }
  for_each-link_out (s ∷ l) f = elim (Bool-cases (known f s)) [
    | inl h ↦
        let g = (link_out name s f).1 in
        rw (link_out_ok s f h) (
          Returns-mono (OutsWith l g) (OutsWith (s ∷ l) f) (for_each (link_out name) l g)
            (λ _ k. OutsWith-cons s l f g k (link_out-SameBut s f h)) (for_each-link_out l g))
    | inr h ↦ rw (link_out_err s f h) tt
  ]

  link_in_err : (s : Str) (f : Flow) → known f s ≡ false → link_in name s f ≡ (err key_error, f)
  unfolding link_in
  link_in_err s f h = rw h

  link_in_ok : (s : Str) (f : Flow) → known f s ≡ true → (link_in name s f).0 ≡ ok tt
  unfolding link_in
  link_in_ok s f h = rw h

  abbrev pub InsWith : List Str → Flow → Unit {0} → Flow → Type 0
  InsWith l f _ g = SameBut f g (λ a b. edge_in f a b || contains l b && a == name) (edge_out f)

  InsWith-cons :
      (s : Str) (l : List Str) (f g h : Flow)
      → SameBut f g (λ a b. edge_in f a b || b == s && a == name) (edge_out f)
      → InsWith l g tt h
      → InsWith (s ∷ l) f tt h
  InsWith-cons s l f g h one rest = record {
    knows = λ a. cc (one.knows a, rest.knows a);
    ins_eq = λ a b. ground (arith, one.ins_eq a b, rest.ins_eq a b);
    outs_eq = λ a b. cc (one.outs_eq a b, rest.outs_eq a b);
    last_eq = cc (one.last_eq, rest.last_eq);
    frontend_eq = cc (one.frontend_eq, rest.frontend_eq);
  }

  pub for_each-link_in :
      (l : List Str) (f : Flow) → Returns (InsWith l f) (for_each (link_in name) l f)
  for_each-link_in [] f = record {
    knows = λ a. refl;
    ins_eq = λ a b. ground arith;
    outs_eq = λ a b. refl;
    last_eq = refl;
    frontend_eq = refl;
  }
  for_each-link_in (s ∷ l) f = elim (Bool-cases (known f s)) [
    | inl h ↦
        let g = (link_in name s f).1 in
        rw (link_in_ok s f h) (
          Returns-mono (InsWith l g) (InsWith (s ∷ l) f) (for_each (link_in name) l g)
            (λ _ k. InsWith-cons s l f g k (link_in-SameBut s f h)) (for_each-link_in l g))
    | inr h ↦ rw (link_in_err s f h) tt
  ]
