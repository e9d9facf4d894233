-- ===== src/Cluster/Joining.antt =====
-- `JoinCluster` of GRPC/service.go.
use alg_bc_db.Prelude.{
  ◌≡◌, ◌≢◌, refl, true, false, some, List, [], ◌∷◌, equal, equal_iff, take, All, arith,
}
use alg_bc_db.Prelude.Int.{ℤ}
use alg_bc_db.Cluster.{
  Node, Cluster, ClusterState, ReqJoin, joined, wrong_key, atoi, in_cluster, new_cluster_node,
  add_node_to_cluster_file, join_cluster, update_cluster_file,
}
use alg_bc_db.Cluster.Repeats.{del_repeat_elem-ends}

-- No address of a node is the port of the request, as no network address is a number.
in_cluster-apart :
    (req : ReqJoin) (nodes : List Node)
    → All (λ n. n.ip ≢ req.local_port) nodes
    → in_cluster req nodes ≡ false
unfolding in_cluster
in_cluster-apart req [] h = refl
in_cluster-apart req (n ∷ ns) h =
    let other : equal n.ip req.local_port ≡ false = ground (arith, equal_iff n.ip req.local_port) in
    rw (other, in_cluster-apart req ns h.1) refl

-- `JoinCluster` with a cluster file in which no address of a node is the port asked for, and with a
-- port that is a number: whether the node is a member already or not, it is added once more if the
-- key is the cluster's, and refused for its key if it is not.
pub join_cluster-joined :
    (st : ClusterState) (clu : Cluster) (req : ReqJoin) (port : ℤ)
    → st.file ≡ some clu
    → All (λ n. n.ip ≢ req.local_port) clu.nodes
    → atoi req.local_port ≡ some port
    → (req.join_key ≡ clu.key
        → join_cluster st req
          ≡ some (add_node_to_cluster_file clu (new_cluster_node req.local_ip port), joined))
      × (req.join_key ≢ clu.key
          → join_cluster st req ≡ some (record { file = some clu; local_node = clu }, wrong_key))
unfolding join_cluster
join_cluster-joined st clu req port e apart p =
    let no = in_cluster-apart req clu.nodes apart in
    (
      (λ same.
          let right : equal req.join_key clu.key ≡ true =
            ground (arith, equal_iff req.join_key clu.key) in
          rw (e, no, right, p) refl),
      (λ differs.
          let wrong : equal req.join_key clu.key ≡ false =
            ground (arith, equal_iff req.join_key clu.key) in
          rw (e, no, wrong) refl),
    )

-- A round of `UpdateClusterFile` comes to an end and forgets the cluster's key. After it, a request
-- whose port is a number and no address of a node is accepted if it brings the empty key, and
-- refused for its key if it brings any other, the cluster's own included.
pub update_cluster_file-join_cluster :
    (clu : Cluster)
    → (clu' : Cluster) × (st : ClusterState) × (update_cluster_file clu ≡ some (clu', st))
      × ((req : ReqJoin) (port : ℤ)
          → All (λ n. n.ip ≢ req.local_port) st.local_node.nodes
          → atoi req.local_port ≡ some port
          → (req.join_key ≡ []
              → join_cluster st req
                ≡ some (
                  add_node_to_cluster_file st.local_node (new_cluster_node req.local_ip port),
                  joined,
                ))
            × (req.join_key ≢ [] → join_cluster st req ≡ some (st, wrong_key)))
unfolding update_cluster_file
update_cluster_file-join_cluster clu =
    let (cells, m, e, _, _) = del_repeat_elem-ends clu.nodes in
    let fewer : Cluster = record { nodes = take m cells; key = [] } in
    let st : ClusterState = record { file = some fewer; local_node = fewer } in
    (
      record clu { nodes = cells },
      st,
      rw e refl,
      λ req port apart p. join_cluster-joined st fewer req port refl apart p,
    )
