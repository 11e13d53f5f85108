-- ===== src/Node/Streams.antt =====
-- node/manager.go: the peers that a node is connected to, HandleStream for a stream that another node opens and
-- CheckAndCreateStream for one that the node opens itself. Whether a peer has stopped is part of the state.
pub mod Discovery
mod Examples
use go_norn.Prelude.{
  ℕ, zero, suc, ◌+◌, ◌-◌, ◌≤◌, ◌<◌, ◌≡◌, refl, sym, ap, ◌∙◌, arith, Bool, true, false, not, ◌&&◌,
  ◌||◌, Option, none, some, List, [], ◌∷◌, ◌++◌, ltb, leb, ◌==◌, if◌then◌else◌, length, get_elem?,
  take, drop, map, length-append, Bool-cases, inl, inr, ltb→lt,
}
use go_norn.Prelude.Bytes.{Bytes, bytes_eq}
use go_norn.Prelude.Outcome.{Outcome, done, panicked}

abbrev pub PeerId : Type 0
PeerId = Bytes

abbrev pub stream_limit : ℕ
stream_limit = 20

-- Ten minutes, in milliseconds.
abbrev pub retry_interval : ℕ
retry_interval = 600000

-- The part of P2PManager that knows the peers. A peer object has a number; `stopped` tells which have stopped.
pub record PeerTable : Type 0 where
  pub id : PeerId
  pub tried_peers : PeerId → Option ℕ
  pub peer_set : List (PeerId × ℕ)
  pub peers : List (PeerId × ℕ)
  pub stopped : ℕ → Bool
  pub created : ℕ

-- pm.peers[id] = p
pub put_peer : List (PeerId × ℕ) → PeerId → ℕ → List (PeerId × ℕ)
put_peer [] id p = (id, p) ∷ []
put_peer (e ∷ es) id p =
    let rest = put_peer es id p in if bytes_eq e.0 id then (id, p) ∷ es else e ∷ rest

pub find_peer : List (PeerId × ℕ) → PeerId → Option ℕ
find_peer [] id = none
find_peer (e ∷ es) id = let rest = find_peer es id in if bytes_eq e.0 id then some e.1 else rest

-- P2PManager.NewPeer, if the peer can be created.
unfoldable pub add_peer : PeerTable → PeerId → PeerTable
unfolding put_peer
add_peer pm id = record pm {
  peer_set = pm.peer_set ++ (id, pm.created) ∷ [];
  peers = put_peer pm.peers id pm.created;
  created = suc pm.created;
}

-- HandleStream for a stream of the peer `remote`.
unfoldable pub handle_stream : PeerTable → PeerId → Bool → PeerTable
unfolding add_peer
handle_stream pm remote creates =
    if ltb stream_limit (length pm.peer_set) then pm else if creates then add_peer pm remote else pm

abbrev pub tried_lately : ℕ → Option ℕ → Bool
tried_lately now none = false
tried_lately now (some at) = ltb (now - at) retry_interval

abbrev pub is_alive : (ℕ → Bool) → Option ℕ → Bool
is_alive stopped none = false
is_alive stopped (some p) = not (stopped p)

-- What the network does: whether the node is connected or can dial, whether a stream can be opened, and whether the peer
-- can be created.
pub record Attempt : Type 0 where
  pub connects : Bool
  pub streams : Bool
  pub creates : Bool

-- CheckAndCreateStream at the time `now`.
pub check_and_create_stream : PeerTable → PeerId → ℕ → Attempt → PeerTable
unfolding add_peer find_peer
check_and_create_stream pm remote now a =
    if leb stream_limit (length pm.peers) || bytes_eq remote pm.id
    then pm
    else if tried_lately now (pm.tried_peers remote)
    then pm
    else if is_alive pm.stopped (find_peer pm.peers remote)
    then pm
    else if not a.connects
    then pm
    else if not a.streams
    then record pm { tried_peers = λ k. if bytes_eq remote k then some now else pm.tried_peers k }
    else if a.creates
    then add_peer pm remote
    else pm

-- A peer stops when a write to it fails.
pub stop : PeerTable → ℕ → PeerTable
stop pm p = record pm { stopped = λ k. if p == k then true else pm.stopped k }

-- delete(pm.peers, id)
unfoldable pub delete_peer : List (PeerId × ℕ) → PeerId → List (PeerId × ℕ)
delete_peer [] id = []
delete_peer (e ∷ es) id = let rest = delete_peer es id in if bytes_eq e.0 id then rest else e ∷ rest

remove_found : PeerTable → ℕ → Option (PeerId × ℕ) → Outcome (PeerTable × Bool)
unfolding delete_peer
remove_found pm idx none = panicked
remove_found pm idx (some p) =
    let rest = take idx pm.peer_set ++ drop (suc idx) pm.peer_set in
    if pm.stopped p.1
    then done (record pm { peer_set = rest; peers = delete_peer pm.peers p.0 }, true)
    else done (pm, false)

-- removePeerIfStopped, which nothing calls: an index out of range panics.
unfoldable pub remove_peer_if_stopped : PeerTable → ℕ → Outcome (PeerTable × Bool)
unfolding remove_found
remove_peer_if_stopped pm idx = remove_found pm idx (get_elem? pm.peer_set idx)

-- GetConnectNodeInfo, with the text of an identifier.
abbrev pub get_connect_node_info : (PeerId → Bytes) → PeerTable → Bytes × List Bytes
get_connect_node_info text pm = (text pm.id, map (λ e. text e.0) pm.peer_set)

pub data Event : Type 0 where
  incoming : PeerId → Bool → Event
  discovered : PeerId → ℕ → Attempt → Event
  lost : ℕ → Event

unfoldable pub step : PeerTable → Event → PeerTable
unfolding handle_stream check_and_create_stream stop
step pm (incoming remote creates) = handle_stream pm remote creates
step pm (discovered remote now a) = check_and_create_stream pm remote now a
step pm (lost p) = stop pm p

unfoldable pub run : PeerTable → List Event → PeerTable
unfolding step
run pm [] = pm
run pm (e ∷ es) = run (step pm e) es

add_peer_grows :
    (pm : PeerTable) (remote : PeerId)
    → length (add_peer pm remote).peer_set ≡ length pm.peer_set + 1
unfolding add_peer
add_peer_grows pm remote = length-append pm.peer_set ((remote, pm.created) ∷ [])

-- No step takes a peer out.
step_grows : (pm : PeerTable) (e : Event) → length pm.peer_set ≤ length (step pm e).peer_set
unfolding step handle_stream check_and_create_stream stop
step_grows pm (incoming remote creates) = grind (arith, add_peer_grows pm remote)
step_grows pm (discovered remote now a) = grind (arith, add_peer_grows pm remote)
step_grows pm (lost p) = omega arith

run_grows : (pm : PeerTable) (es : List Event) → length pm.peer_set ≤ length (run pm es).peer_set
unfolding run
run_grows pm [] = omega arith
run_grows pm (e ∷ es) = omega (arith, step_grows pm e, run_grows (step pm e) es)

-- Once 21 peers have been accepted, HandleStream accepts no stream any more, whatever happens in between and however many
-- of the peers have stopped.
pub handle_stream-full :
    (pm : PeerTable) (es : List Event) (remote : PeerId) (creates : Bool)
    → stream_limit < length pm.peer_set
    → handle_stream (run pm es) remote creates ≡ run pm es
unfolding handle_stream
handle_stream-full pm es remote creates h =
    let full : ltb stream_limit (length (run pm es).peer_set) ≡ true =
      ground (arith, h, run_grows pm es) in
    rw full refl
