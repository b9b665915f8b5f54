-- ===== src/Flow/Session.antt =====
-- gnes/flow/__init__.py: a flow built up by calls of `add`, `set` and `remove`, each on a copy, as
-- `copy_flow` has it by default.
use gnes.Prelude.{
  ◌≡◌, refl, Bool, true, false, Option, none, some, List, [], ◌∷◌, Str, ◌∷◌, ℕ, Result, ok, err,
  Returns, Returns-then, Returns-mono, lift_option, Bool-cases, inl, inr, lookup, has_key, str_eq,
}
use gnes.Flow.Data.{Service, Kwargs, Flow, FlowError, Method, value_error}
use gnes.Flow.Args.{Parser}
use gnes.Flow.Endpoints.{Endpoint, with_copy}
use gnes.Flow.Edit.{
  ServiceArg, service_of, is_used, choose_name, is_identifier, add_named, add, remove, set, blank,
}
use gnes.Flow.View.{edge_in, edge_out, in_of, out_of}
use gnes.Flow.Addition.{add_named-Added}
use gnes.Flow.Invariant.{IsWellFormed, Added-IsWellFormed}
use gnes.Flow.Removal.{remove-IsWellFormed}
use gnes.Flow.Setting.{set-IsWellFormed}

-- A call. A service that is added has a name, `start` with `rest` behind it.
pub data Edit : Type 0 where
  adding : ServiceArg → (start : ℕ) → (rest : Str) → (recv_from send_to : Endpoint) → Kwargs → Edit
  setting : Str → (recv_from send_to : Endpoint) → (clear as_last : Bool) → Kwargs → Edit
  removing : Str → Edit

unfoldable pub edit : Parser → Edit → Method Unit
unfolding add set remove
edit parser (adding arg c s recv_from send_to kwargs) =
    add parser arg (some (c ∷ s)) recv_from send_to kwargs
edit parser (setting name recv_from send_to clear as_last kwargs) =
    set parser name recv_from send_to clear as_last kwargs
edit parser (removing name) = remove name

-- The flow in hand after a call: the new one, or the old one where the call raised.
unfoldable pub kept : Flow → Result FlowError Flow → Flow
kept f (ok g) = g
kept f (err e) = f

unfoldable pub session : Parser → List Edit → Flow → Flow
unfolding edit kept with_copy
session parser [] f = f
session parser (e ∷ edits) f = session parser edits (kept f (with_copy true (edit parser e) f).0)

blank-IsWellFormed :
    (is_trained : Bool) (kwargs : Kwargs) → IsWellFormed false (blank is_trained kwargs)
unfolding blank edge_in edge_out in_of out_of lookup has_key
blank-IsWellFormed is_trained kwargs = record {
  ins_known = λ a b h. cc;
  outs_known = λ a b h. cc;
  agree = λ a b h. refl;
  no_loop = λ a. refl;
  last_known = λ a. refl;
}

-- With a name given, nothing need be known of the automatic ones.
add_given-IsWellFormed :
    {built : Bool} (parser : Parser) (arg : ServiceArg) (c : ℕ) (s : Str)
    (recv_from send_to : Endpoint) (kwargs : Kwargs) (f : Flow)
    → IsWellFormed built f
    → Returns
        (λ _ g. IsWellFormed built g)
        (add parser arg (some (c ∷ s)) recv_from send_to kwargs f)
unfolding add choose_name is_used
add_given-IsWellFormed parser arg c s recv_from send_to kwargs f w =
    Returns-then (λ _ g. g ≡ f) _ (lift_option value_error (service_of arg) f) _
      (lifted (service_of arg))
      λ service f1 e. rw e (elim (Bool-cases (has_key (c ∷ s) f.service_nodes)) [
        | inl used ↦ rw used tt
        | inr new ↦ rw new (elim (Bool-cases (is_identifier (c ∷ s))) [
          | inr bad ↦ rw bad tt
          | inl good ↦ rw good (
              Returns-mono _ _ (add_named parser service (c ∷ s) recv_from send_to kwargs f)
                (λ _ z r. Added-IsWellFormed f z (c ∷ s) r.incomes r.outgoings w new r.added)
                (add_named-Added parser service (c ∷ s) recv_from send_to kwargs f))
        ])
      ])
  where
    lifted :
        (o : Option Service) → Returns (λ _ g. g ≡ f) (lift_option {E = FlowError} value_error o f)
    lifted none = tt
    lifted (some x) = refl

edit-IsWellFormed :
    {built : Bool} (parser : Parser) (e : Edit) (f : Flow)
    → IsWellFormed built f
    → Returns (λ _ g. IsWellFormed built g) (edit parser e f)
unfolding edit
edit-IsWellFormed parser (adding arg c s r t k) f w =
    add_given-IsWellFormed parser arg c s r t k f w
edit-IsWellFormed parser (setting n r t c l k) f w = set-IsWellFormed parser n r t c l k f w
edit-IsWellFormed parser (removing n) f w = remove-IsWellFormed n f w

kept-IsWellFormed :
    {built : Bool} (f : Flow) (r : Result FlowError Unit × Flow)
    → IsWellFormed built f
    → Returns (λ _ g. IsWellFormed built g) r
    → IsWellFormed built (kept f (with_copy true (λ _. r) f).0)
unfolding kept with_copy
kept-IsWellFormed f (ok _, g) w h = h
kept-IsWellFormed f (err _, g) w h = w

session_from-IsWellFormed :
    {built : Bool} (parser : Parser) (edits : List Edit) (f : Flow)
    → IsWellFormed built f
    → IsWellFormed built (session parser edits f)
unfolding session with_copy
session_from-IsWellFormed parser [] f w = w
session_from-IsWellFormed parser (e ∷ edits) f w =
    session_from-IsWellFormed parser edits _
      (kept-IsWellFormed f (edit parser e f) w (edit-IsWellFormed parser e f w))

-- Whatever of add, set and remove is called, and whatever raises, the flow in hand is well formed,
-- with the two ends of every edge agreeing, at the frontend too, where every service that is added
-- has a name given.
pub session-IsWellFormed :
    (parser : Parser) (is_trained : Bool) (kwargs : Kwargs) (edits : List Edit)
    → IsWellFormed false (session parser edits (blank is_trained kwargs))
session-IsWellFormed parser is_trained kwargs edits =
    session_from-IsWellFormed parser edits (blank is_trained kwargs)
      (blank-IsWellFormed is_trained kwargs)
