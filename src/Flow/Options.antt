-- ===== src/Flow/Options.antt =====
-- gnes/flow/__init__.py: the Boolean keywords of `_get_parsed_args`, read back by the yes/no action.
use gnes.Prelude.{
  ◌≡◌, Bool, true, false, [], ◌∷◌, ◌++◌, Str, codes, map, starts_with, nat_eq, arith,
}
use gnes.Flow.Data.{flag}
use gnes.Flow.Args.{is_negated, render, action_no_yes}

-- A Boolean keyword whose name is not negated is one option, and the parser stores its value.
pub action_no_yes-render :
    (k : Str) (b : Bool) → is_negated k ≡ false → map action_no_yes (render k (flag b)) ≡ b ∷ []
unfolding render action_no_yes is_negated starts_with nat_eq
action_no_yes-render k true h = ground arith
action_no_yes-render k false h = ground arith

-- A keyword that is negated once gives the option of the plain keyword with the same value: the
-- negation is lost, so `no_x=True` stores that `x` is true.
pub render-negated :
    (k : Str) (b : Bool)
    → is_negated k ≡ false
    → render (codes "no_" ++ k) (flag b) ≡ render k (flag b)
unfolding render is_negated starts_with nat_eq
render-negated k true h = rw h
render-negated k false h = rw h
