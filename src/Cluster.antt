-- ===== src/Cluster.antt =====
-- Cluster/cluster.go and the services JoinCluster and BroadcastNode of GRPC/service.go: the nodes of the
-- cluster, in memory and in the cluster file. The file's encoding and encryption are not modelled; it
-- holds a cluster or is not there.
pub mod Joining
pub mod Repeats
mod Tests
use alg_bc_db.Prelude.{
  ℕ, zero, suc, ◌+◌, ◌-◌, ◌*◌, ◌^◌, ◌≤◌, Bool, true, false, ◌&&◌, ◌||◌, Option, none, some, List,
  [], ◌∷◌, ◌++◌, Bytes, equal, length, take, drop, get_elem?, ltb, leb, ◌==◌, if◌then◌else◌,
}
use alg_bc_db.Prelude.Int.{ℤ, pos, negsuc, ltb_ℤ}
use alg_bc_db.Consensus.Messages.{itoa}

pub record Node : Type 0 where
  pub ip : Bytes
  pub port : ℤ
  pub account : Bool

pub record Cluster : Type 0 where
  pub nodes : List Node
  pub key : Bytes

-- The cluster file, and `LocalNode`.
pub record ClusterState : Type 0 where
  pub file : Option Cluster
  pub local_node : Cluster

-- `strconv.Itoa`.
abbrev pub itoa_int : ℤ → Bytes
itoa_int (pos n) = itoa n
itoa_int (negsuc n) = 45 ∷ itoa (n + 1)

-- `strconv.Atoi`: a sign, and at least one digit; `none` is its error.
unfoldable pub digits_value : ℕ → Bytes → Option ℕ
digits_value acc [] = some acc
digits_value acc (b ∷ bs) =
    let rest = digits_value (acc * 10 + (b - 48)) bs in if leb 48 b && leb b 57 then rest else none

abbrev pub unsigned : Bytes → Option ℕ
unsigned [] = none
unsigned (b ∷ bs) = digits_value 0 (b ∷ bs)

abbrev pub positive : Option ℕ → Option ℤ
positive none = none
positive (some n) = if ltb n (2 ^ 63) then some (pos n) else none

abbrev pub negative : Option ℕ → Option ℤ
negative none = none
negative (some zero) = some (pos 0)
negative (some (suc n)) = if ltb n (2 ^ 63) then some (negsuc n) else none

unfoldable pub atoi : Bytes → Option ℤ
atoi [] = none
atoi (b ∷ bs) =
    if b == 45
    then negative (unsigned bs)
    else if b == 43
    then positive (unsigned bs)
    else positive (unsigned (b ∷ bs))

-- `Init`, with the hash of the key.
unfoldable pub init_cluster : (Bytes → Bytes) → Bytes → Bytes → Cluster
init_cluster sha256 local_ip key = record {
  nodes = record { ip = local_ip; port = pos 3301; account = false } ∷ [];
  key = sha256 key;
}

-- `AddNodeToClusterFile`, which saves.
unfoldable pub add_node_to_cluster_file : Cluster → Node → ClusterState
add_node_to_cluster_file clu node =
    let longer = record clu { nodes = clu.nodes ++ node ∷ [] } in
    record { file = some longer; local_node = longer }

pub record ReqJoin : Type 0 where
  pub local_ip : Bytes
  pub local_port : Bytes
  pub join_key : Bytes

-- The answers of the two services, by their status and text.
pub data Reply : Type 0 where
  joined : Reply
  no_file : Reply
  is_member : Reply
  wrong_key : Reply
  sent : Reply
  wrong_port : Reply

-- The loop of `JoinCluster`: it compares the address of a node with the port of the request.
unfoldable pub in_cluster : ReqJoin → List Node → Bool
in_cluster req [] = false
in_cluster req (node ∷ nodes) =
    (equal node.ip req.local_port && equal (itoa_int node.port) req.local_port)
    || in_cluster req nodes

abbrev pub new_cluster_node : Bytes → ℤ → Node
new_cluster_node ip port = record { ip = ip; port = port; account = false }

abbrev pub add_at_port : Cluster → Bytes → Option ℤ → Option (ClusterState × Reply)
add_at_port clu ip none = none
add_at_port clu ip (some port) =
    some (add_node_to_cluster_file clu (new_cluster_node ip port), joined)

abbrev pub join_loaded : ReqJoin → Cluster → Option (ClusterState × Reply)
join_loaded req clu =
    let loaded : ClusterState = record { file = some clu; local_node = clu } in
    if in_cluster req clu.nodes
    then some (loaded, is_member)
    else if equal req.join_key clu.key
    then add_at_port clu req.local_ip (atoi req.local_port)
    else some (loaded, wrong_key)

-- `LoadClusterFile` and the rest of `JoinCluster`; `none` is the panic on a port that is no number.
abbrev pub join_file : ClusterState → ReqJoin → Option Cluster → Option (ClusterState × Reply)
join_file st req none = some (st, no_file)
join_file st req (some clu) = join_loaded req clu

unfoldable pub join_cluster : ClusterState → ReqJoin → Option (ClusterState × Reply)
join_cluster st req = join_file st req st.file

abbrev pub broadcast_at : ClusterState → Bytes → Option ℤ → ClusterState × Reply
broadcast_at st ip none = (st, wrong_port)
broadcast_at st ip (some port) =
    (add_node_to_cluster_file st.local_node (new_cluster_node ip port), sent)

-- `BroadcastNode`.
unfoldable pub broadcast_node : ClusterState → Bytes → Bytes → ClusterState × Reply
broadcast_node st ip port = broadcast_at st ip (atoi port)

abbrev pub equal_int : ℤ → ℤ → Bool
equal_int (pos a) (pos b) = a == b
equal_int (negsuc a) (negsuc b) = a == b
equal_int (pos a) (negsuc b) = false
equal_int (negsuc a) (pos b) = false

abbrev pub same_node : Node → Node → Node → Bool
same_node before node after =
    (equal node.ip after.ip && equal_int node.port after.port)
    || (equal node.ip before.ip && equal_int node.port after.port)

-- The test of `delRepeatElem` at index `i`, which has neighbours on both sides; both halves look at the
-- port of the node after.
abbrev pub repeated : Option Node → Option Node → Option Node → Bool
repeated none here after = false
repeated (some before) none after = false
repeated (some before) (some here) none = false
repeated (some before) (some here) (some after) = same_node before here after

-- `append(nodes[:i], nodes[i+1:]...)` on the first `m` cells of the array: it moves the later cells
-- down in place, so the last of them stays where it was.
abbrev pub shift_down : ℕ → ℕ → List Node → List Node
shift_down m i cells = take i cells ++ (drop (suc i) (take m cells) ++ drop (m - 1) cells)

-- The loop of `delRepeatElem`, over the array that the cluster holds and the length of the slice.
unfoldable pub del_repeat_loop : ℕ → ℕ → ℕ → List Node → Option (List Node × ℕ)
del_repeat_loop zero m i cells = none
del_repeat_loop (suc fuel) m i cells =
    let without = del_repeat_loop fuel (m - 1) i (shift_down m i cells) in
    let onward = del_repeat_loop fuel m (suc i) cells in
    if ltb (suc i) m
    then (if repeated (get_elem? cells (i - 1)) (get_elem? cells i) (get_elem? cells (suc i))
        then without
        else onward)
    else some (cells, m)

unfoldable pub del_repeat_elem : List Node → Option (List Node × ℕ)
del_repeat_elem nodes = del_repeat_loop (suc (length nodes)) (length nodes) 1 nodes

-- One round of `UpdateClusterFile`: the cluster it runs on, with its array changed in place, and what it
-- writes.
abbrev pub updated : Cluster → Option (List Node × ℕ) → Option (Cluster × ClusterState)
updated clu none = none
updated clu (some (cells, m)) =
    let fewer : Cluster = record { nodes = take m cells; key = [] } in
    some (record clu { nodes = cells }, record { file = some fewer; local_node = fewer })

unfoldable pub update_cluster_file : Cluster → Option (Cluster × ClusterState)
update_cluster_file clu = updated clu (del_repeat_elem clu.nodes)
