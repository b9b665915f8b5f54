-- ===== src/Flow/Asking.antt =====
-- gnes/flow/__init__.py: which services `_parse_service_endpoints` returns.
use gnes.Prelude.{
  ◌≡◌, refl, inl, inr, Bool, true, false, ◌&&◌, ◌||◌, Option, none, some, List, [], ◌∷◌, Str, ◌==◌,
  str_eq, contains, arith, Bool-cases, contains-to_set, Returns, Result, ok, err, ◌∙◌,
}
use gnes.Flow.Data.{Flow, FlowError}
use gnes.Flow.Endpoints.{
  Endpoint, nothing, one, frontend, many, other, default_endpoints, some_each, with_first,
  check_endpoints, check_resolved, to_endpoint_set, resolve, parse_endpoints, last_changed, is_last,
}
use gnes.Flow.View.{known}
use gnes.Flow.Growth.{AreEndpoints, OkHas, check_resolved-AreEndpoints}

-- Whether `a` is one of the services that an endpoint asks for: the given ones, the frontend, or by
-- default the service changed last, where `connect` is set.
unfoldable pub asks_for : Bool → Endpoint → Option Str → Option Str → Str → Bool
asks_for connect nothing last front a = connect && is_last a last
asks_for connect (one s) last front a = a == s
asks_for connect frontend last front a = is_last a front
asks_for connect (many []) last front a = connect && is_last a last
asks_for connect (many (s ∷ names)) last front a = a == s || contains names a
asks_for connect other last front a = false

-- The names that are asked for, each of them accepted.
pub record AreAsked (cur : Str) (connect : Bool) (e : Endpoint) (f : Flow) (l : List Str)
    : Type 0 where
  pub endpoints : AreEndpoints cur f l
  pub asked : (a : Str) → contains l a ≡ asks_for connect e (last_changed f) f.frontend_name a

abbrev has_name : List (Option Str) → Str → Bool
has_name [] a = false
has_name (o ∷ names) a = is_last a o || has_name names a

with_first-names :
    (s : Str) (names : List (Option Str)) (r : Result FlowError (List Str))
    → OkHas (λ l. (a : Str) → contains l a ≡ has_name names a) r
    → OkHas (λ l. (a : Str) → contains l a ≡ has_name (some s ∷ names) a) (with_first s r)
unfolding is_last
with_first-names s names (ok l) h = λ a. ground (arith, h a)
with_first-names s names (err e) h = tt

check_endpoints-names :
    (cur : Str) (names : List (Option Str)) (f : Flow)
    → OkHas (λ l. (a : Str) → contains l a ≡ has_name names a) (check_endpoints cur names f)
unfolding check_endpoints
check_endpoints-names cur [] f = λ a. refl
check_endpoints-names cur (none ∷ names) f = tt
check_endpoints-names cur (some s ∷ names) f =
    let rest = check_endpoints-names cur names f in
    elim (Bool-cases (s == cur)) [
      | inl same ↦ rw same tt
      | inr differs ↦ elim (Bool-cases (known f s)) [
        | inl k ↦ rw (differs, k) (with_first-names s names _ rest)
        | inr n ↦ rw (differs, n) tt
      ]
    ]

check_resolved-names :
    (cur : Str) (names : List (Option Str)) (f : Flow)
    → OkHas (λ l. (a : Str) → contains l a ≡ has_name names a) (check_resolved cur (ok names) f)
unfolding check_resolved to_endpoint_set
check_resolved-names cur names f =
    go (check_endpoints cur names f) (check_endpoints-names cur names f)
  where
    go :
        (r : Result FlowError (List Str))
        → OkHas (λ l. (a : Str) → contains l a ≡ has_name names a) r
        → OkHas (λ l. (a : Str) → contains l a ≡ has_name names a) (to_endpoint_set r)
    go (ok l) h = λ a. contains-to_set a l ∙ h a
    go (err e) h = tt

default_names :
    (connect : Bool) (o : Option Str) (a : Str)
    → has_name (default_endpoints connect o) a ≡ (connect && is_last a o)
unfolding default_endpoints is_last
default_names true (some s) a = ground arith
default_names true none a = refl
default_names false o a = refl

some_each_names : (names : List Str) (a : Str) → has_name (some_each names) a ≡ contains names a
unfolding some_each is_last
some_each_names [] a = refl
some_each_names (s ∷ names) a = ground (arith, some_each_names names a)

OkHas-names :
    (r : Result FlowError (List Str)) (p q : Str → Bool)
    → ((a : Str) → p a ≡ q a)
    → OkHas (λ l. (a : Str) → contains l a ≡ p a) r
    → OkHas (λ l. (a : Str) → contains l a ≡ q a) r
OkHas-names (ok l) p q e h = λ a. h a ∙ e a
OkHas-names (err x) p q e h = tt

resolved-asked :
    (cur : Str) (connect : Bool) (e : Endpoint) (f : Flow)
    → OkHas
        (λ l. (a : Str) → contains l a ≡ asks_for connect e (last_changed f) f.frontend_name a)
        (check_resolved cur (resolve connect e f) f)
unfolding resolve asks_for check_resolved is_last
resolved-asked cur connect nothing f =
    OkHas-names _ _ _ (default_names connect (last_changed f))
      (check_resolved-names cur (default_endpoints connect (last_changed f)) f)
resolved-asked cur connect (one s) f =
    OkHas-names _ _ _ (λ a. ground arith) (check_resolved-names cur (some s ∷ []) f)
resolved-asked cur connect frontend f =
    OkHas-names _ _ _ (λ a. ground arith) (check_resolved-names cur (f.frontend_name ∷ []) f)
resolved-asked cur connect (many []) f =
    OkHas-names _ _ _ (default_names connect (last_changed f))
      (check_resolved-names cur (default_endpoints connect (last_changed f)) f)
resolved-asked cur connect (many (s ∷ names)) f =
    OkHas-names _ _ _ (λ a. ground (arith, some_each_names names a))
      (check_resolved-names cur (some s ∷ some_each names) f)
resolved-asked cur connect other f = tt

-- `_parse_service_endpoints` returns the names that are asked for, which are known and other than the
-- service, and changes nothing.
pub parse_endpoints-AreAsked :
    (cur : Str) (endpoint : Endpoint) (connect : Bool) (f : Flow)
    → Returns
        (λ l g. (g ≡ f) × AreAsked cur connect endpoint f l)
        (parse_endpoints cur endpoint connect f)
unfolding parse_endpoints
parse_endpoints-AreAsked cur endpoint connect f =
    go (check_resolved cur (resolve connect endpoint f) f)
      (check_resolved-AreEndpoints cur (resolve connect endpoint f) f)
      (resolved-asked cur connect endpoint f)
  where
    go :
        (r : Result FlowError (List Str))
        → OkHas (AreEndpoints cur f) r
        → OkHas
            (λ l.
              (a : Str)
              → contains l a ≡ asks_for connect endpoint (last_changed f) f.frontend_name a)
            r
        → Returns {E = FlowError} (λ l g. (g ≡ f) × AreAsked cur connect endpoint f l) (r, f)
    go (ok l) h n = (refl, record { endpoints = h; asked = n })
    go (err e) h n = tt
