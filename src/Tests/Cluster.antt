-- ===== src/Tests/Cluster.antt =====
-- Verifications, pings, attempts to join and replies at concrete data.
use ngbigcache.Base.Int.{pos}
use ngbigcache.Base.{ℕ, ◌≤◌, ◌≡◌, ◌⊎◌, refl, eq_bytes, true, false, none, [], ◌∷◌, ok, value}
use ngbigcache.Base.Dict as dict
use ngbigcache.Utils.SliceList as slice_list
use ngbigcache.Message.Json.{VerifyMessage}
use ngbigcache.Cluster.Types.{RemoteNode, Cluster}
use ngbigcache.Cluster.Verify.{verify_node, tear_down}
use ngbigcache.Cluster.Verify.Admission.{
  Admitted, Refused, BothPassive, verify_node_lem, refused-forgets,
}
use ngbigcache.Cluster.Handlers.{reply}
use ngbigcache.Cluster.Membership.{again, gave_up}
use ngbigcache.Cluster.Membership.Retry.{attempts, attempts-gave_up}
use ngbigcache.Base.Assoc as assoc
use ngbigcache.Message.Json.{ProposedPeer}
use ngbigcache.Cluster.Client.{get_finish, timed_out}
use ngbigcache.Cluster.Client.Replies.{get_finish-reply}
use ngbigcache.Base.{error}
use ngbigcache.Tests.Cache.{key_bytes, value_bytes}
use ngbigcache.Tests.Nodes.{platform, first, third, node}

-- A verification of a remote node that is in the list.
abbrev known : VerifyMessage
known = record { id = 1 ∷ []; version = []; service_port = 57 ∷ []; mode = 5 }

abbrev unknown : VerifyMessage
unknown = record known { id = 3 ∷ [] }

is_known : slice_list.contains node.remote_nodes known.id ≡ true
unfolding slice_list.contains dict.load eq_bytes
is_known = refl

verify_node_lem_example :
    ((BothPassive node unknown ⊎ (slice_list.contains node.remote_nodes unknown.id ≡ true))
      × Refused node 2 third unknown (verify_node node 2 third unknown))
    ⊎ (¬ (BothPassive node unknown)
        × (slice_list.contains node.remote_nodes unknown.id ≡ false)
        × Admitted node 2 third unknown (verify_node node 2 third unknown))
verify_node_lem_example = verify_node_lem node 2 third unknown refl

refused-forgets_example :
    ((verify_node node 2 third known).1 ≡ false)
    × ((left : Cluster platform) × (tear_down (verify_node node 2 third known).0 2 ≡ ok left)
        × (slice_list.contains left.remote_nodes known.id ≡ false))
refused-forgets_example = refused-forgets node 2 third known refl refl is_known

-- Its ping timeout is greater than its ping interval.
abbrev patient : RemoteNode
patient = record first { config = record first.config { ping_timeout = pos 9 } }

attempts-gave_up_example :
    ((n : ℕ) → n ≤ 1 → attempts n node 0 0 ≡ ok (node, again n))
    × ((left : Cluster platform) × (attempts 2 node 0 0 ≡ ok (left, gave_up))
        × (dict.load left.pending_conn first.config.id ≡ none))
attempts-gave_up_example = attempts-gave_up node 0 1 first refl refl

-- A node with a call of `Get` that waits.
abbrev asking : Cluster platform
asking = record node { waiting = 4 ∷ [] }

nothing_yet : assoc.get asking.replies 4 ≡ none
unfolding assoc.get
nothing_yet = refl

get_finish-reply_example :
    (reply (reply asking 4 key_bytes) 4 value_bytes ≡ reply asking 4 key_bytes)
    × ((get_finish (reply asking 4 key_bytes) 4).1 ≡ value key_bytes)
    × ((get_finish asking 4).1 ≡ error timed_out)
    × (reply (get_finish asking 4).0 4 value_bytes ≡ (get_finish asking 4).0)
get_finish-reply_example = get_finish-reply asking 4 key_bytes value_bytes refl nothing_yet

abbrev proposal : ProposedPeer
proposal = record { id = 1 ∷ []; ip_address = 49 ∷ [] }
