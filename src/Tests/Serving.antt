-- ===== src/Tests/Serving.antt =====
-- osnet/epollserver.c with the callbacks of src/ep_app.c, on a small server.
use tmsxx_tc.Prelude.{◌≡◌, ◌⊎◌, refl, true, false, none, some, [], ◌∷◌, replicate, inl, inr, arith}
use tmsxx_tc.Prelude.Words.{add32, sle}
use tmsxx_tc.Database.{minus}
use tmsxx_tc.Devices.{blank}
use tmsxx_tc.Managers.{init_managers}
use tmsxx_tc.Epoll.{
  EpCon, Server, ep_interface, change_node, ep_add_client, ep_add_event, init_socket_struct,
  ep_accept, ep_close, ep_recv, ep_listen, ep_stop_server, econnreset,
}
use tmsxx_tc.Epoll.Nodes.{IsNode, IsOpen}
use tmsxx_tc.Epoll.Reachable.{Reachable, IsSound-Reachable}
use tmsxx_tc.Epoll.Sound.{IsSound}
use tmsxx_tc.Epoll.Steps.{ends}
use tmsxx_tc.Epoll.Closing.{HasGone, ep_close_lem, ep_recv_lem}

abbrev listener : EpCon
listener = record {
  addr = 1000;
  sockfd = 4;
  this_addr = 1000;
  loc_addr = 6000;
  rem_addr = 0;
  has_app = false;
  events = 1;
}

abbrev peer : EpCon
peer = record {
  addr = 2000;
  sockfd = 5;
  this_addr = 2000;
  loc_addr = 6000;
  rem_addr = 77;
  has_app = true;
  events = 1;
}

abbrev idle : Server
idle = record {
  ep = record { listen = some 1000; cs = 1; node_cnt = 1; node_head = listener ∷ [] };
  managers = init_managers;
  devnet = replicate 272 blank;
  apps = 0;
}

abbrev serving : Server
serving = record {
  ep = record { listen = some 1000; cs = 1; node_cnt = 2; node_head = listener ∷ peer ∷ [] };
  managers = init_managers;
  devnet = replicate 272 blank;
  apps = 1;
}

abbrev initial : Server
initial = record idle { ep = ep_interface }

listens : ep_listen ep_interface 0 true 0 4 1000 true 6000 ≡ some (idle.ep, 0)
unfolding ep_listen ep_add_client ep_add_event change_node add32
listens = refl

accepts : ep_accept idle (some 5) 2000 true true 6000 77 ≡ some (serving, 0)
unfolding ep_accept ep_add_client ep_add_event init_socket_struct change_node add32 sle
accepts = refl

initial-Reachable : Reachable 0 [] initial
initial-Reachable = Reachable.starting idle.devnet

serving-Reachable : Reachable 1 [] serving
serving-Reachable =
    Reachable.accepting idle serving 5 2000 6000 77 0 true
      (Reachable.listening initial idle.ep 0 0 4 1000 6000 0 true initial-Reachable (omega arith) tt
        (λ e. omega (arith, e)) listens)
      ((λ e. omega (arith, e)), tt) (λ e. omega (arith, e)) accepts

serving-IsSound : IsSound 1 [] serving.ep serving.managers
serving-IsSound = IsSound-Reachable serving serving-Reachable

-- The same server, stopped: its two nodes are dropped.
abbrev halted : Server
halted = record serving { ep = ep_stop_server serving.ep }

ep_close_lem_example :
    ((n : EpCon) × (t : Server) × (ep_close serving none 5 ≡ some (t, 0))
      × IsNode n serving.ep.node_head
      × (n.sockfd ≡ 5)
      × (n.has_app ≡ true)
      × HasGone serving n t
      × (t.apps ≡ 1))
    ⊎ (((n : EpCon) × (ep_close serving none 5 ≡ none)
          × IsNode n serving.ep.node_head
          × (n.sockfd ≡ 5)
          × (n.has_app ≡ false))
        ⊎ ((IsOpen 5 serving.ep.node_head → ⊥)
            × (ep_close serving none 5 ≡ some (serving, minus 1))))
ep_close_lem_example = ep_close_lem serving 5 serving-IsSound

ep_recv_lem_example :
    ((ep_recv serving peer (minus 1) econnreset).1 ≡ minus 1)
    × (((ends (minus 1) econnreset ≡ true)
          × HasGone serving peer (ep_recv serving peer (minus 1) econnreset).0
          × ((ep_recv serving peer (minus 1) econnreset).0.apps ≡ 0))
        ⊎ ((ends (minus 1) econnreset ≡ false)
            × ((ep_recv serving peer (minus 1) econnreset).0 ≡ serving)))
ep_recv_lem_example = ep_recv_lem serving peer (minus 1) econnreset serving-IsSound (inr (inl refl))
