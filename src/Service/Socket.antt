-- ===== src/Service/Socket.antt =====
-- gnes/service/base.py: the socket types and how they pair up.
use gnes.Prelude.{Bool, true, false}

-- `SocketType`
pub data SocketType : Type 0 where
  pull_bind pull_connect push_bind push_connect sub_bind sub_connect : SocketType
  pub_bind pub_connect pair_bind pair_connect : SocketType

-- The property `is_bind`: the even values of the enumeration.
unfoldable pub is_bind : SocketType → Bool
is_bind pull_bind = true
is_bind push_bind = true
is_bind sub_bind = true
is_bind pub_bind = true
is_bind pair_bind = true
is_bind _ = false

-- The property `paired`
unfoldable pub paired : SocketType → SocketType
paired pull_bind = push_connect
paired pull_connect = push_bind
paired sub_bind = pub_connect
paired sub_connect = pub_bind
paired pair_bind = pair_connect
paired push_connect = pull_bind
paired push_bind = pull_connect
paired pub_connect = sub_bind
paired pub_bind = sub_connect
paired pair_connect = pair_bind

unfoldable pub SocketType-discrete : Discrete SocketType
SocketType-discrete = hlevel
