-- ===== src/Node/Streams/Examples.antt =====
-- A node that has accepted 21 streams.
use go_norn.Prelude.{◌≡◌, refl, true, false, none, [], ◌∷◌, length, replicate}
use go_norn.Node.Streams.{PeerTable, incoming, handle_stream, run, step, add_peer}

abbrev fresh : PeerTable
fresh = record {
  id = 9 ∷ [];
  tried_peers = λ k. none;
  peer_set = [];
  peers = [];
  stopped = λ p. false;
  created = 0;
}

-- 21 streams from one node, and the loss of the first two peers.
abbrev accepted : PeerTable
accepted = run fresh (replicate 21 (incoming (1 ∷ []) true))

accepted-length : length accepted.peer_set ≡ 21
unfolding run step handle_stream add_peer
accepted-length = refl
