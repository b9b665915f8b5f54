-- ===== src/Flow/Args.antt =====
-- gnes/flow/__init__.py: `_get_parsed_args`, and the yes/no action of gnes/cli/parser.py.
use gnes.Prelude.{
  Bool, true, false, ◌||◌, Option, List, [], ◌∷◌, ◌++◌, Str, codes, insert, starts_with, drop,
  if◌then◌else◌, str_eq, ◌>>=◌, lift_option, pure,
}
use gnes.Flow.Data.{Service, KwValue, flag, text, Kwargs, ParsedArgs, value_error, Method}

-- What argparse makes of a list of arguments with the parser of a service: the parsed and the
-- unknown arguments, or `none` for a `SystemExit`.
abbrev pub Parser : Type 0
Parser = Service → List Str → Option (ParsedArgs × List Str)

unfoldable pub is_negated : Str → Bool
unfolding starts_with
is_negated k = starts_with (codes "no_") k || starts_with (codes "no-") k

-- The arguments for one keyword.
unfoldable pub render : Str → KwValue → List Str
unfolding is_negated
render k (flag true) = (codes "--" ++ (if is_negated k then drop 3 k else k)) ∷ []
render k (flag false) = (if is_negated k then codes "--" ++ k else codes "--no_" ++ k) ∷ []
render k (text v) = (codes "--" ++ k) ∷ v ∷ []

unfoldable pub render_all : Kwargs → List Str
unfolding render
render_all [] = []
render_all ((k, v) ∷ kwargs) = render k v ++ render_all kwargs

-- `kwargs.update(other)`
unfoldable pub update : Kwargs → Kwargs → Kwargs
unfolding insert
update kwargs [] = kwargs
update kwargs ((k, v) ∷ other) = update (insert k v kwargs) other

pub record Parsed : Type 0 where
  pub args : List Str
  pub p_args : ParsedArgs
  pub unk_args : List Str
  pub kwargs : Kwargs

-- `_get_parsed_args`. The update of the caller's `kwargs` is part of the result.
unfoldable pub get_parsed_args : Parser → Service → Kwargs → Method Parsed
unfolding render_all update
get_parsed_args parser service kwargs f =
    let all = update kwargs f.common_kwargs in
    let args = render_all all in
    (do
      (p, unk) ← lift_option value_error (parser service args)
      pure (record { args = args; p_args = p; unk_args = unk; kwargs = all }))
      f

-- `ActionNoYes.__call__`: the value that an option string stores.
unfoldable pub action_no_yes : Str → Bool
unfolding starts_with
action_no_yes option =
    if starts_with (codes "--no-") option || starts_with (codes "--no_") option then false else true
