-- ===== src/Node/Streams/Discovery.antt =====
-- node/manager.go: the loop of Discover, which tries each peer that the search of the network finds.
use go_norn.Prelude.{
  ℕ, ◌+◌, ◌≤◌, arith, Option, none, some, List, [], ◌∷◌, length, leb, Bool-cases, inl, inr,
  leb_false→lt,
}
use go_norn.Node.Streams.{
  PeerId, PeerTable, Attempt, put_peer, add_peer, check_and_create_stream, stream_limit,
}

-- A peer that was found, with the time and what the network does when the node tries it.
pub record Found : Type 0 where
  pub remote : PeerId
  pub now : ℕ
  pub attempt : Attempt

unfoldable pub try_all : PeerTable → List Found → PeerTable
unfolding check_and_create_stream
try_all pm [] = pm
try_all pm (f ∷ fs) = try_all (check_and_create_stream pm f.remote f.now f.attempt) fs

-- One tick of Discover: the search fails, or finds peers.
unfoldable pub discover_tick : PeerTable → Option (List Found) → PeerTable
unfolding try_all
discover_tick pm none = pm
discover_tick pm (some found) = try_all pm found

put_peer_grows :
    (es : List (PeerId × ℕ)) (id : PeerId) (p : ℕ) → length (put_peer es id p) ≤ length es + 1
unfolding put_peer
put_peer_grows [] id p = omega arith
put_peer_grows (e ∷ es) id p = grind (arith, put_peer_grows es id p)

check_and_create_stream-bounded :
    (pm : PeerTable) (f : Found)
    → length pm.peers ≤ stream_limit
    → length (check_and_create_stream pm f.remote f.now f.attempt).peers ≤ stream_limit
unfolding check_and_create_stream add_peer
check_and_create_stream-bounded pm f h = elim (Bool-cases (leb stream_limit (length pm.peers))) [
  | inl full ↦ rw full h
  | inr room ↦
      let grown = put_peer_grows pm.peers f.remote pm.created in
      grind (arith, h, leb_false→lt _ _ room, grown)
]

-- However many peers are found, the node does not open streams to more than 20 peers.
pub try_all-bounded :
    (pm : PeerTable) (fs : List Found)
    → length pm.peers ≤ stream_limit
    → length (try_all pm fs).peers ≤ stream_limit
unfolding try_all
try_all-bounded pm [] h = h
try_all-bounded pm (f ∷ fs) h =
    try_all-bounded (check_and_create_stream pm f.remote f.now f.attempt) fs
      (check_and_create_stream-bounded pm f h)
