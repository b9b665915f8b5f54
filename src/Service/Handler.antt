-- ===== src/Service/Handler.antt =====
-- gnes/service/base.py: `MessageHandler`, the table of the handlers and hooks of a service.
use gnes.Prelude.{
  Bool, ◌&&◌, ◌||◌, not, Option, none, some, List, [], ◌∷◌, ◌++◌, Str, Str-discrete, Eq, Dict,
  lookup, insert, if◌then◌else◌, Result, ok, err, to_set,
}

-- The types that a handler is registered for: the protobuf types of a message, of its halves and
-- of their bodies, and `NotImplementedError` for the default.
pub data MsgType : Type 0 where
  message request response : MsgType
  train_request index_request query_request control_request : MsgType
  train_response index_response query_response control_response : MsgType
  not_implemented : MsgType

unfoldable pub MsgType-discrete : Discrete MsgType
MsgType-discrete = hlevel

instance unfoldable pub msg_type_eq : Eq MsgType
unfolding MsgType-discrete
msg_type_eq = record { dec = MsgType-discrete }

-- `msg.WhichOneof('body')`, and that of the half it names; the inner one may be missing.
pub data Body : Type 0 where
  nothing : Body
  in_request in_response : Option MsgType → Body

pub data HookName : Type 0 where
  pre post : HookName
  unknown : Str → HookName

unfoldable pub HookName-discrete : Discrete HookName
unfolding Str-discrete
HookName-discrete = hlevel Str-discrete

instance unfoldable pub hook_name_eq : Eq HookName
unfolding HookName-discrete
hook_name_eq = record { dec = HookName-discrete }

-- A hook type is a string or a list or tuple of them.
pub data HookType : Type 0 where
  one : HookName → HookType
  many : List HookName → HookType

-- The routes and hooks by the names of the methods; a hook may be for a verbose service only.
pub record MessageHandler : Type 0 where
  pub routes : Dict MsgType Str
  pub pre_hooks : List (Str × Bool)
  pub post_hooks : List (Str × Bool)

pub data HandlerError : Type 0 where
  no_default bad_hook bad_hook_type : HandlerError

-- `MessageHandler()`
abbrev pub new_handler : MessageHandler
new_handler = record { routes = []; pre_hooks = []; post_hooks = [] }

-- `register(msg_type)`, a single type as a list of one.
unfoldable pub register : List MsgType → Str → MessageHandler → MessageHandler
unfolding msg_type_eq
register [] f mh = mh
register (m ∷ types) f mh = register types f (record mh { routes = insert m f mh.routes })

unfoldable pub add_hook :
    HookName → Str × Bool → MessageHandler → Result {0, 0} HandlerError MessageHandler
add_hook pre h mh = ok (record mh { pre_hooks = mh.pre_hooks ++ h ∷ [] })
add_hook post h mh = ok (record mh { post_hooks = mh.post_hooks ++ h ∷ [] })
add_hook (unknown s) h mh = err bad_hook

unfoldable pub add_hooks :
    List HookName → Str × Bool → MessageHandler → Result {0, 0} HandlerError MessageHandler
unfolding add_hook
add_hooks [] h mh = ok mh
add_hooks (n ∷ names) h mh = elim (add_hook n h mh) [
  | err e ↦ err e
  | ok mh' ↦ add_hooks names h mh'
]

-- `register_hook(hook_type, only_when_verbose)`
unfoldable pub register_hook :
    HookType → Bool → Str → MessageHandler → Result {0, 0} HandlerError MessageHandler
unfolding add_hook add_hooks to_set hook_name_eq
register_hook (one pre) v f mh = add_hook pre (f, v) mh
register_hook (one post) v f mh = add_hook post (f, v) mh
register_hook (one (unknown s)) v f mh = err bad_hook_type
register_hook (many names) v f mh = add_hooks (to_set names) (f, v) mh

unfoldable pub hooks_of :
    List HookName → MessageHandler → Result {0, 0} HandlerError (List (Str × Bool))
hooks_of [] mh = ok []
hooks_of (pre ∷ names) mh = elim (hooks_of names mh) [
  | err e ↦ err e
  | ok l ↦ ok (mh.pre_hooks ++ l)
]
hooks_of (post ∷ names) mh = elim (hooks_of names mh) [
  | err e ↦ err e
  | ok l ↦ ok (mh.post_hooks ++ l)
]
hooks_of (unknown s ∷ names) mh = err bad_hook

unfoldable pub select_hooks :
    HookType → MessageHandler → Result {0, 0} HandlerError (List (Str × Bool))
unfolding hooks_of to_set hook_name_eq
select_hooks (one pre) mh = ok mh.pre_hooks
select_hooks (one post) mh = ok mh.post_hooks
select_hooks (one (unknown s)) mh = err bad_hook_type
select_hooks (many names) mh = hooks_of (to_set names) mh

-- `get_default_fn(m_type)`. The default is looked up first, whether it is used or not.
unfoldable pub get_default_fn : MessageHandler → MsgType → Result {0, 0} HandlerError Str
unfolding msg_type_eq
get_default_fn mh t = elim (lookup not_implemented mh.routes) [
  | none ↦ err no_default
  | some d ↦ elim (lookup t mh.routes) [ none ↦ ok d | some f ↦ ok f ]
]

unfoldable pub route_of_type : MessageHandler → MsgType → Result {0, 0} HandlerError Str
unfolding get_default_fn msg_type_eq
route_of_type mh t = elim (lookup t mh.routes) [ none ↦ get_default_fn mh t | some f ↦ ok f ]

-- The choice of the handler in `call_routes`.
unfoldable pub find_route : MessageHandler → Body → Result {0, 0} HandlerError Str
unfolding get_default_fn route_of_type
find_route mh nothing = get_default_fn mh message
find_route mh (in_request none) = get_default_fn mh request
find_route mh (in_response none) = get_default_fn mh response
find_route mh (in_request (some t)) = route_of_type mh t
find_route mh (in_response (some t)) = route_of_type mh t

-- What a handler does: it returns `None` or a generator or another value, or it raises. A message
-- that a generator yields is made from the message in hand when its turn comes.
pub data Handled (M : Type 0) : Type 0 where
  returns : Handled M
  yields : List (M → M) → Handled M
  other_value block_message event_loop_end service_error raises : Handled M

-- How the loop goes on after a message.
pub data After : Type 0 where
  carries_on loop_ends crashes : After

module _ {M S : Type 0} (hook : Str → M → S → M × S) where
  -- The loop of `call_hooks`. What a hook raises is caught, so `hook` says what it leaves behind.
  unfoldable pub run_hooks : Bool → List (Str × Bool) → M → S → M × S
  run_hooks verbose [] msg s = (msg, s)
  run_hooks verbose ((fn, only_verbose) ∷ hooks) msg s =
      let (m, t) =
        if only_verbose && verbose || not only_verbose then hook fn msg s else (msg, s) in
      run_hooks verbose hooks m t

  -- The branch of `call_routes_send_back` for a generator: the hooks get the incoming message.
  unfoldable pub send_yielded : Bool → List (Str × Bool) → List (M → M) → M → S → List M × M × S
  unfolding run_hooks
  send_yielded verbose hooks [] msg s = ([], msg, s)
  send_yielded verbose hooks (y ∷ ys) msg s =
      let (m, t) = run_hooks verbose hooks msg s in
      let (out, m', t') = send_yielded verbose hooks ys m t in (y msg ∷ out, m', t')

  -- `call_routes_send_back`, from what the handler did: the messages that are sent.
  unfoldable pub send_back : Bool → List (Str × Bool) → Handled M → M → S → After × List M × S
  unfolding run_hooks send_yielded
  send_back verbose hooks returns msg s =
      let (m, t) = run_hooks verbose hooks msg s in (carries_on, m ∷ [], t)
  send_back verbose hooks (yields ys) msg s =
      let (out, m, t) = send_yielded verbose hooks ys msg s in (carries_on, out, t)
  send_back verbose hooks other_value msg s = (carries_on, [], s)
  send_back verbose hooks block_message msg s = (carries_on, [], s)
  send_back verbose hooks event_loop_end msg s = (loop_ends, msg ∷ [], s)
  send_back verbose hooks service_error msg s = (carries_on, [], s)
  send_back verbose hooks raises msg s = (crashes, [], s)
