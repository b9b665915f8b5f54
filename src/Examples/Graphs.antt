-- ===== src/Examples/Graphs.antt =====
-- A flow that is built: a frontend `f`, an encoder `e` and an indexer `i` in a ring.
use gnes.Prelude.{
  ◌≡◌, refl, true, [], ◌∷◌, codes, lookup, str_eq, insert, has_key, union, add_to, adjust,
}
use gnes.Service.Socket.{is_bind}
use gnes.Flow.Data.{frontend, encoder, indexer, Flow, push_bind_pull, push_pull_bind}
use gnes.Flow.Endpoints.{nothing}
use gnes.Flow.Edit.{member, blank}
use gnes.Flow.Session.{adding, session}
use gnes.Flow.Graph.{build_graph}
use gnes.Examples.Flows.{sample_parser}

abbrev ring : Flow
ring =
    session sample_parser
      (adding (member frontend) b'f' [] nothing nothing []
        ∷ adding (member encoder) b'e' [] nothing nothing []
        ∷ adding (member indexer) b'i' [] nothing nothing []
        ∷ [])
      (blank true [])

ring_edges :
    (build_graph ring).1.service_edges
    ≡ (codes "i-f", push_pull_bind)
      ∷ (codes "f-e", push_bind_pull)
      ∷ (codes "e-i", push_bind_pull)
      ∷ []
unfolding session blank build_graph lookup insert has_key union str_eq add_to adjust is_bind
ring_edges = refl
