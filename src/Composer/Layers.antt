-- ===== src/Composer/Layers.antt =====
-- gnes/composer/base.py: the components of a YAML file and the layers they stand in.
use gnes.Prelude.{
  ℕ, Bool, true, ◌&&◌, not, Option, none, some, List, [], ◌∷◌, Str, codes, nat_eq, str_eq, ◌==◌,
  contains, if◌then◌else◌, Result, ok, err, length,
}
use gnes.Service.Socket.{SocketType}

-- A service as the YAML file gives it: a key that it does not set is `none`.
pub record Entry : Type 0 where
  pub name : Option Str
  pub yaml_path : Option Str
  pub py_path : Option Str
  pub image : Option Str
  pub replicas : Option ℕ
  pub income : Option Str

-- A component with the keys of `default_values` filled in, and those that the wiring sets.
pub record Component : Type 0 where
  pub name : Str
  pub yaml_path : Option Str
  pub py_path : Option Str
  pub image : Option Str
  pub replicas : ℕ
  pub income : Str
  pub socket_in : Option SocketType
  pub socket_out : Option SocketType
  pub port_in : Option Str
  pub port_out : Option Str

pub data ComposerError : Type 0 where
  no_name : ComposerError
  bad_name : Str → ComposerError
  bad_income : Str → ComposerError
  bad_frontend : ComposerError

-- The keys of `comp2file`
abbrev pub comp2file : List Str
comp2file =
    codes "Encoder"
    ∷ codes "Router"
    ∷ codes "Indexer"
    ∷ codes "Frontend"
    ∷ codes "Preprocessor"
    ∷ []

-- `get_value` with the default of `default_values`
unfoldable pub value_or : {A : Type 0} → Option A → A → A
value_or none a = a
value_or (some b) a = b

-- The entry with its defaults.
unfoldable pub fill_defaults : Str → Entry → Component
unfolding value_or
fill_defaults n e = record {
  name = n;
  yaml_path = e.yaml_path;
  py_path = e.py_path;
  image = e.image;
  replicas = value_or e.replicas 1;
  income = value_or e.income (codes "pull");
  socket_in = none;
  socket_out = none;
  port_in = none;
  port_out = none;
}

-- `check_fields`
unfoldable pub check_fields : Entry → Result {0, 0} ComposerError Component
unfolding fill_defaults str_eq
check_fields e = elim e.name [
  | none ↦ err no_name
  | some n ↦ if contains comp2file n then ok (fill_defaults n e) else err (bad_name n)
]

pub record Layer : Type 0 where
  pub layer_id : ℕ
  pub components : List Component

-- `is_homogenous`
unfoldable pub is_homogenous : Layer → Bool
unfolding nat_eq
is_homogenous l = length l.components == 1

-- `all(self.get_value(c, 'replicas') == 1 for c in ...)`
unfoldable pub are_single : List Component → Bool
unfolding nat_eq
are_single [] = true
are_single (c ∷ cs) = c.replicas == 1 && are_single cs

-- `is_single_component`: the first component is the only one when the first test holds.
unfoldable pub is_single_component : Layer → Bool
unfolding is_homogenous are_single
is_single_component l = is_homogenous l && are_single l.components

-- `is_homo_multi_component`
unfoldable pub is_homo_multi_component : Layer → Bool
unfolding is_homogenous is_single_component
is_homo_multi_component l = is_homogenous l && not (is_single_component l)

-- `is_heto_single_component`
unfoldable pub is_heto_single_component : Layer → Bool
unfolding is_homogenous are_single
is_heto_single_component l = not (is_homogenous l) && are_single l.components
