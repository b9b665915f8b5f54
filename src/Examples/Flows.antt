-- ===== src/Examples/Flows.antt =====
-- A flow with an encoder `e` and an indexer `i` that receives from the encoder.
use gnes.Prelude.{
  ◌≡◌, refl, true, false, none, some, List, [], ◌∷◌, codes, ok, Returns-ok, lookup, has_key, insert,
  keys, union, add_to, adjust, map_values, str_eq, nat_eq,
}
use gnes.Service.Socket.{pull_bind, push_bind}
use gnes.Flow.Data.{
  Service, service_eq, frontend, encoder, router, indexer, preprocessor, Flow, ParsedArgs, flag,
}
use gnes.Flow.Args.{Parser}
use gnes.Flow.Endpoints.{nothing, one}
use gnes.Flow.Edit.{
  member, auto_name, add, add_named, remove, set, set_recv_from, set_send_to, blank,
}
use gnes.Flow.View.{known}
use gnes.Flow.Addition.{AddedAs, add_named-Added}
use gnes.Flow.Invariant.{IsWellFormed, add-IsWellFormed}
use gnes.Flow.Removal.{Removed, remove-Removed}
use gnes.Flow.Rewiring.{ReceivedAs, SentAs, set_recv_from-Received, set_send_to-Sent}
use gnes.Flow.Setting.{set-IsWellFormed}
use gnes.Flow.Session.{Edit, adding, session, session-IsWellFormed}

abbrev sample_args : ParsedArgs
sample_args = record {
  socket_in = pull_bind;
  socket_out = push_bind;
  host_in = [];
  host_out = [];
  port_in = 5310;
  port_out = 5311;
  parallel_backend = [];
}

abbrev pub sample_parser : Parser
sample_parser s args = some (sample_args, [])

abbrev building : List Edit
building =
    adding (member encoder) b'e' [] nothing nothing ((codes "x", flag true) ∷ [])
    ∷ adding (member indexer) b'i' [] (one (codes "e")) nothing []
    ∷ []

abbrev sample : Flow
sample = session sample_parser building (blank true [])

sample_keys : keys sample.service_nodes ≡ codes "e" ∷ codes "i" ∷ []
unfolding session blank has_key union str_eq add_to adjust
sample_keys = refl

session-IsWellFormed_example : IsWellFormed false sample
session-IsWellFormed_example = session-IsWellFormed sample_parser true [] building

free_names : (s : Service) → known sample (auto_name s sample) ≡ false
unfolding session blank auto_name has_key union str_eq add_to adjust
free_names frontend = refl
free_names encoder = refl
free_names router = refl
free_names indexer = refl
free_names preprocessor = refl

add-IsWellFormed_example :
    IsWellFormed false
      (add sample_parser (member router) none (one (codes "e")) nothing [] sample).1
unfolding session blank add lookup service_eq insert has_key union str_eq add_to adjust
add-IsWellFormed_example =
    Returns-ok (λ _ g. IsWellFormed false g)
      (add sample_parser (member router) none (one (codes "e")) nothing [] sample) tt
      (add-IsWellFormed sample_parser (member router) none (one (codes "e")) nothing [] sample
        session-IsWellFormed_example free_names)
      refl

add_named-Added_example :
    AddedAs
      (one (codes "e"))
      nothing
      sample
      (add_named sample_parser router (codes "r") (one (codes "e")) nothing [] sample).1
      (codes "r")
unfolding session blank add_named lookup insert has_key union str_eq add_to adjust
add_named-Added_example =
    Returns-ok (λ _ g. AddedAs (one (codes "e")) nothing sample g (codes "r"))
      (add_named sample_parser router (codes "r") (one (codes "e")) nothing [] sample) tt
      (add_named-Added sample_parser router (codes "r") (one (codes "e")) nothing [] sample) refl

remove-Removed_example :
    ((remove (codes "e") sample).0 ≡ ok tt)
    × Removed sample (remove (codes "e") sample).1 (codes "e")
unfolding session blank has_key union str_eq add_to adjust
remove-Removed_example = remove-Removed (codes "e") sample refl

set_recv_from-Received_example :
    ReceivedAs true
      (codes "e")
      (one (codes "i"))
      sample
      (set_recv_from true (codes "e") (one (codes "i")) sample).1
unfolding session blank set_recv_from lookup insert map_values has_key union str_eq add_to adjust
set_recv_from-Received_example =
    Returns-ok (λ _ g. ReceivedAs true (codes "e") (one (codes "i")) sample g)
      (set_recv_from true (codes "e") (one (codes "i")) sample) tt
      (set_recv_from-Received true (codes "e") sample refl (one (codes "i")) refl) refl

set_send_to-Sent_example :
    SentAs false
      (codes "i")
      (one (codes "e"))
      sample
      (set_send_to false (codes "i") (one (codes "e")) sample).1
unfolding session blank set_send_to lookup insert has_key union str_eq add_to adjust
set_send_to-Sent_example =
    Returns-ok (λ _ g. SentAs false (codes "i") (one (codes "e")) sample g)
      (set_send_to false (codes "i") (one (codes "e")) sample) tt
      (set_send_to-Sent false (codes "i") sample refl (one (codes "e")) refl) refl

set-IsWellFormed_example :
    IsWellFormed false
      (set sample_parser
        (codes "i")
        (one (codes "e"))
        nothing
        true
        true
        ((codes "x", flag true) ∷ [])
        sample).1
unfolding session blank set lookup insert map_values has_key union str_eq add_to adjust
set-IsWellFormed_example =
    Returns-ok (λ _ g. IsWellFormed false g)
      (set sample_parser (codes "i") (one (codes "e")) nothing true true
        ((codes "x", flag true) ∷ []) sample)
      tt
      (set-IsWellFormed sample_parser (codes "i") (one (codes "e")) nothing true true
        ((codes "x", flag true) ∷ []) sample session-IsWellFormed_example)
      refl
