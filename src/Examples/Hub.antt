-- ===== src/Examples/Hub.antt =====
-- Two peers of hcand.
use hcan.Prelude.{◌≤◌, ◌≡◌, refl, [], ◌∷◌, List, arith}
use hcan.Hub.Table.{Address, Event, alarm, packet, handle_packet, init_peers, run}
use hcan.Hub.Deliver.{count, occurs, due, each_other_peer_once}
use hcan.Hub.Expiry.{alarms, peer_expires}

abbrev kitchen : Address
kitchen = record { ip = 0x0a000001; port = 4000 }

abbrev cellar : Address
cellar = record { ip = 0x0a000002; port = 4000 }

abbrev history : List Event
history = packet kitchen 0 ∷ packet cellar 0 ∷ alarm ∷ packet kitchen 5 ∷ []

each_other_peer_once_example :
    (occurs cellar (handle_packet kitchen 7 (run history init_peers)).1
      ≡ due kitchen cellar 7
          (run history init_peers)
          (handle_packet kitchen 7 (run history init_peers)).0)
    × (count cellar (run history init_peers) ≤ 1)
each_other_peer_once_example =
    each_other_peer_once history kitchen cellar 7
      ((λ z. omega arith), ((λ z. omega arith), (tt, ((λ z. omega arith), tt)))) (λ z. omega arith)

peer_expires_example : count kitchen (alarms 61 (handle_packet kitchen 0 (run [] init_peers)).0) ≡ 0
unfolding count handle_packet run init_peers
peer_expires_example = peer_expires [] kitchen 0 61 tt (λ z. omega arith) refl
