-- ===== src/Cluster/Tests.antt =====
-- Cluster/cluster.go with three entries for two nodes.
use alg_bc_db.Prelude.{◌≡◌, ◌≢◌, refl, some, [], ◌∷◌, codes, equal, All}
use alg_bc_db.Prelude.Int.{ℤ, pos}
use alg_bc_db.Cluster.{
  Node, Cluster, ClusterState, ReqJoin, new_cluster_node, atoi, digits_value, joined, wrong_key,
  add_node_to_cluster_file, join_cluster, update_cluster_file, del_repeat_elem, del_repeat_loop,
}
use alg_bc_db.Cluster.Joining.{update_cluster_file-join_cluster}

abbrev first_node : Node
first_node = new_cluster_node (codes "10.0.0.1") (pos 3301)

abbrev second_node : Node
second_node = new_cluster_node (codes "10.0.0.2") (pos 3301)

abbrev sample_cluster : Cluster
sample_cluster = record { nodes = first_node ∷ second_node ∷ second_node ∷ []; key = 9 ∷ [] }

-- A repetition at the end goes.
repetition_removed :
    del_repeat_elem sample_cluster.nodes ≡ some (first_node ∷ second_node ∷ second_node ∷ [], 2)
unfolding del_repeat_elem del_repeat_loop equal
repetition_removed = refl

-- Of two nodes none is looked at.
two_stay : del_repeat_elem (first_node ∷ first_node ∷ []) ≡ some (first_node ∷ first_node ∷ [], 2)
unfolding del_repeat_elem del_repeat_loop equal
two_stay = refl

port_read : atoi (codes "3301") ≡ some (pos 3301)
unfolding atoi digits_value
port_read = refl

update_cluster_file-join_cluster_example :
    (clu' : Cluster) × (st : ClusterState) × (update_cluster_file sample_cluster ≡ some (clu', st))
    × ((req : ReqJoin) (port : ℤ)
        → All (λ n. n.ip ≢ req.local_port) st.local_node.nodes
        → atoi req.local_port ≡ some port
        → (req.join_key ≡ []
            → join_cluster st req
              ≡ some (
                add_node_to_cluster_file st.local_node (new_cluster_node req.local_ip port),
                joined,
              ))
          × (req.join_key ≢ [] → join_cluster st req ≡ some (st, wrong_key)))
update_cluster_file-join_cluster_example = update_cluster_file-join_cluster sample_cluster
