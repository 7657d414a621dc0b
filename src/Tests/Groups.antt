-- ===== src/Tests/Groups.antt =====
-- The theorems on a group, on a master and one slave.
use group_share_filesystem.Group.{Focus, carry_all}
use group_share_filesystem.Group.Wires.{post_each, events_of, packet_of, carry_all-posted}
use group_share_filesystem.TcpMessager.Master.Ordering.{posted}
use group_share_filesystem.TcpManager.{Resolved}
use group_share_filesystem.TcpManager.Roles.{initialized}
use group_share_filesystem.TcpMessager.Master.{Event}
use group_share_filesystem.UserFs.{Effect, write_to_peer, write_all}
use group_share_filesystem.Base.{List, map, false}
use group_share_filesystem.DirTree.Node.{set_host_id, set_host_children}
use group_share_filesystem.DirTree.Names.{name_ltb}
use group_share_filesystem.DirTree.NodeSet.{insert_all, insert}
use group_share_filesystem.DirTree.{has_conflict, common_names, set_tree_host, merge, merge_from}
use group_share_filesystem.UserFs.{new_connection, accept_slave}
use group_share_filesystem.Packet.{string_of}
use group_share_filesystem.BytesOrder.{network_to_host_64, host_to_network_64}
use group_share_filesystem.Protocol.{
  parse_for_master, take_number, take_sections, take_string, recognition_message, update_message,
}
use group_share_filesystem.BytesOrder.{host_to_network_64}
use group_share_filesystem.Hosts.{push}
use group_share_filesystem.DirTree.Names.{name_eq, name_ltb}
use group_share_filesystem.DirTree.Node.{set_host_children}
use group_share_filesystem.UserFs.Start.{add_trailing_slash}
use group_share_filesystem.DirTree.NodeSet.{insert, insert_all}
use group_share_filesystem.Scan.{traverse_directory}
use group_share_filesystem.UserFs.{send_update_of}
use group_share_filesystem.Base.{◌^◌, ◌<◌, ◌≡◌, refl, true, length, Bytes, [], ◌∷◌, some, ok, arith}
use group_share_filesystem.DirTree.Node.{regular, TreeNode, node, nil, attributes}
use group_share_filesystem.DirTree.NodeSet.{lookup}
use group_share_filesystem.DirTree.Merging.{rooted}
use group_share_filesystem.Hosts.{Host, host_at}
use group_share_filesystem.Protocol.{hello_message}
use group_share_filesystem.TcpMessager.Receiving.{received}
use group_share_filesystem.TcpManager.{read_from_slave}
use group_share_filesystem.TcpManager.Replication.{SeesSame}
use group_share_filesystem.UserFs.{UserFs, Reply, write_all}
use group_share_filesystem.UserFs.Start.{serving, waiting, start_master, start_slave}
use group_share_filesystem.UserFs.Starting.{scanned_root, own_host}
use group_share_filesystem.UserFs.Membership.{admitted}
use group_share_filesystem.Group.{
  Peer, Group, Fits, newcomer, joins, hears, Reach, start, later, read_all, after_reply,
}
use group_share_filesystem.Group.Peers.{HasOwner}
use group_share_filesystem.Group.Answers.{Reach-answers}
use group_share_filesystem.DirTree.{slash, find as tree_find, find_loop, find_step}
use group_share_filesystem.UserFs.{find}
use group_share_filesystem.Group.Ownership.{find-HasOwner}
use group_share_filesystem.FuseInterface.{getattr, readdir, open_file}
use group_share_filesystem.Group.Consistency.{Reach-SeesSame}
use group_share_filesystem.Tests.Codec.{codec, codec-IsLossless}
use group_share_filesystem.Tests.Samples.{os, shared, address}

abbrev alone : UserFs
alone = record {
  main_thread_is_waiting = true;
  slave_wait_sem = 0;
  host_id = 1;
  working_dir = b'/' ∷ b's' ∷ b'/' ∷ [];
  max_host_id = 2;
  dir_tree = rooted (scanned_root os 1 2 (shared 1));
  hosts = record { hosts = own_host os 1 address 80 22 ∷ own_host os 1 address 80 22 ∷ [] };
}

abbrev unknown_slave : UserFs
unknown_slave = record alone {
  host_id = 0;
  dir_tree = rooted (scanned_root os 0 2 (shared 0));
  hosts = record { hosts = own_host os 0 address 80 22 ∷ [] };
}

abbrev hello : Bytes
hello =
    hello_message (codec.save_tree (rooted (scanned_root os 0 2 (shared 0))))
      (codec.save_host (own_host os 0 address 80 22))

abbrev arriving : Peer
arriving = record { slave_id = 0; node = unknown_slave; outbox = hello ∷ []; inbox = [] }

master_starts : start_master codec os address 80 22 ≡ ok (serving alone)
unfolding start_master traverse_directory insert
master_starts = refl

slave_starts :
    start_slave codec os address 80 22 ≡ ok (waiting unknown_slave (write_all hello ∷ []))
unfolding start_slave traverse_directory insert
slave_starts = refl

abbrev reply : Reply
reply =
    admitted codec address alone (scanned_root os 0 2 (shared 0)) (scanned_root os 1 2 (shared 1))
      (own_host os 0 address 80 22)

abbrev group : Group
group = after_reply [] (some (record arriving { slave_id = reply.slave_id; outbox = [] })) [] reply

heard : read_from_slave codec (received hello) address 0 alone ≡ ok reply
unfolding read_from_slave parse_for_master take_number network_to_host_64 hello_message
    host_to_network_64 codec add_trailing_slash take_sections take_string string_of new_connection
    has_conflict common_names accept_slave set_tree_host merge insert_all insert name_ltb
    set_host_children set_host_id merge_from push recognition_message update_message send_update_of
heard = refl

alone-Fits : Fits codec alone
unfolding codec add_trailing_slash
alone-Fits = record { tree_fits = omega arith; hosts_fit = omega arith; id_fits = omega arith }

reply-Fits : Fits codec reply.fs
unfolding codec insert_all set_host_children insert name_ltb push add_trailing_slash
reply-Fits = record { tree_fits = omega arith; hosts_fit = omega arith; id_fits = omega arith }

hello_fits : length hello < 2 ^ 48
unfolding codec hello_message host_to_network_64 add_trailing_slash
hello_fits = omega arith

group-Reach : Reach codec group
group-Reach =
    later
      (later (start os address 80 22 master_starts alone-Fits)
        (joins arriving (newcomer os address 80 22 hello slave_starts hello_fits refl refl refl)
          refl)
        alone-Fits)
      (hears [] [] arriving address hello [] reply refl refl heard refl) reply-Fits

-- The slave's connection once it has been taken in.
abbrev taken_in : Peer
taken_in = elim group.peers [ [] ↦ arriving | p ∷ ps ↦ p ]

Reach-SeesSame_example :
    (after : UserFs) × (read_all codec taken_in.inbox taken_in.node ≡ ok after)
    × SeesSame after group.master
unfolding send_update_of
Reach-SeesSame_example =
    Reach-SeesSame codec codec-IsLossless [] [] taken_in group-Reach refl (omega arith)

abbrev key : Bytes
key = b'd' ∷ []

the_file : TreeNode
the_file =
    node (record os.memory { type = regular; size = 5; mtime = 9; host_id = 1; num_links = 1 }) key
      nil

found : find group.master (slash ∷ key ∷ []) ≡ ok (some the_file)
unfolding find tree_find find_loop find_step lookup the_file insert_all set_host_children insert
    name_ltb name_eq
found = refl

Reach-answers_example :
    (after : UserFs) × (read_all codec taken_in.inbox taken_in.node ≡ ok after)
    × (getattr after (slash ∷ key ∷ []) ≡ getattr group.master (slash ∷ key ∷ []))
    × (readdir after (slash ∷ key ∷ []) ≡ readdir group.master (slash ∷ key ∷ []))
    × (open_file after (slash ∷ key ∷ []) 0 ≡ open_file group.master (slash ∷ key ∷ []) 0)
unfolding send_update_of name_eq name_ltb
Reach-answers_example =
    Reach-answers codec codec-IsLossless [] [] taken_in key [] 0 group-Reach refl (omega arith)
      (refl, refl, tt)

find-HasOwner_example :
    HasOwner group.peers the_file
    × ((host : Host) × (host_at group.master.hosts (attributes the_file).host_id ≡ ok host)
        × (host.id ≡ (attributes the_file).host_id))
unfolding name_eq name_ltb
find-HasOwner_example =
    find-HasOwner codec codec-IsLossless key [] the_file group-Reach (refl, refl, tt) found

abbrev one_endpoint : Resolved
one_endpoint = record { endpoints = hello ∷ []; failed = false }

abbrev two_effects : List Effect
two_effects = write_to_peer key ∷ write_all hello ∷ []

abbrev two_connections : Focus
two_connections = record { before = arriving ∷ []; here = some arriving; behind = [] }

carry_all-posted_example :
    (events : List Event) × (events_of (initialized true one_endpoint) 0 two_effects ≡ ok events)
    × ((carry_all two_effects two_connections).before
        ≡ map (post_each (hello ∷ [])) (arriving ∷ []))
    × ((carry_all two_effects two_connections).behind ≡ [])
    × (posted 1 2 events ≡ packet_of hello ∷ [])
    × ((carry_all two_effects two_connections).here ≡ some (post_each (key ∷ hello ∷ []) arriving))
    × (posted 0 2 events ≡ packet_of key ∷ packet_of hello ∷ [])
carry_all-posted_example =
    carry_all-posted one_endpoint 0 1 2 two_effects two_connections (omega arith) (omega arith)
      (omega arith)
