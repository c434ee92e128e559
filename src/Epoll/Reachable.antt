-- ===== src/Epoll/Reachable.antt =====
-- The states that a server comes to, and what holds in all of them.
use tmsxx_tc.Prelude.{
  ℕ, suc, [], ◌++◌, ◌<◌, ◌^◌, ◌≡◌, ◌≢◌, refl, sym, ◌∙◌, Bool, true, Option, none, some, List,
}
use tmsxx_tc.Devices.{DevBase}
use tmsxx_tc.Managers.{init_managers}
use tmsxx_tc.Epoll.{
  EpCon, Ep, Server, ep_interface, ep_accept, ep_connect, ep_recv, ep_close, ep_listen,
  ep_run_server, ep_stop_server, serve_manage,
}
use tmsxx_tc.Epoll.Nodes.{IsFresh, IsNode, IsOpen}
use tmsxx_tc.Epoll.Admitting.{accepted, ep_accept-admitted, ep_connect-admitted}
use tmsxx_tc.Epoll.Sound.{IsSound, IsSound-none}
use tmsxx_tc.Epoll.Starting.{IsSound-listening, IsSound-run, IsSound-stopped}
use tmsxx_tc.Epoll.Steps.{IsSound-admitted, IsSound-closed, IsSound-received, IsSound-managed}

-- The states that a server comes to from its start, after `lines` calls of `ep_Listen` (`server run`), and with
-- the nodes that `ep_StopServer` (`server stop`) dropped. The address that `malloc` gives is not in use, and a
-- descriptor that `accept` or `socket` gives is not 0, which is the standard input. The frames of a connection
-- change the table of devices, and make the connection a manager.
pub data Reachable : ℕ → List EpCon → Server → Type 0 where
  starting :
      (net : List DevBase)
      → Reachable 0 []
          (record { ep = ep_interface; managers = init_managers; devnet = net; apps = 0 })
  listening :
      {lines : ℕ} {dropped : List EpCon} (s : Server) (t : Ep) (bound errno fd a loc ret : ℕ)
      (listens : Bool)
      → Reachable lines dropped s
      → suc lines < 2 ^ 30
      → IsFresh a s.ep.node_head
      → fd ≢ 0
      → ep_listen s.ep bound listens errno fd a true loc ≡ some (t, ret)
      → Reachable (suc lines) dropped (record s { ep = t })
  running :
      {lines : ℕ} {dropped : List EpCon} (s : Server) (a : ℕ)
      → Reachable lines dropped s
      → Reachable lines dropped (record s { ep = ep_run_server s.ep a })
  stopping :
      {lines : ℕ} {dropped : List EpCon} (s : Server)
      → Reachable lines dropped s
      → Reachable lines (s.ep.node_head ++ dropped) (record s { ep = ep_stop_server s.ep })
  accepting :
      {lines : ℕ} {dropped : List EpCon} (s t : Server) (fd a loc rem ret : ℕ) (got : Bool)
      → Reachable lines dropped s
      → IsFresh a s.ep.node_head
      → fd ≢ 0
      → ep_accept s (some fd) a true got loc rem ≡ some (t, ret)
      → Reachable lines dropped t
  connecting :
      {lines : ℕ} {dropped : List EpCon} (s t : Server) (fd a loc rem ret : ℕ) (got : Bool)
      → Reachable lines dropped s
      → IsFresh a s.ep.node_head
      → fd ≢ 0
      → ep_connect s true fd a true got loc rem ≡ some (t, ret)
      → Reachable lines dropped t
  receiving :
      {lines : ℕ} {dropped : List EpCon} (s : Server) (n : EpCon) (ret errno : ℕ)
      → Reachable lines dropped s
      → IsNode n s.ep.node_head
      → Reachable lines dropped (ep_recv s n ret errno).0
  closing :
      {lines : ℕ} {dropped : List EpCon} (s t : Server) (fd ret : ℕ)
      → Reachable lines dropped s
      → ep_close s none fd ≡ some (t, ret)
      → Reachable lines dropped t
  managing :
      {lines : ℕ} {dropped : List EpCon} (s t : Server) (src : Option ℕ) (fd kind ret : ℕ)
      → Reachable lines dropped s
      → IsOpen fd s.ep.node_head
      → serve_manage s src fd kind ≡ some (t, ret)
      → Reachable lines dropped t
  registering :
      {lines : ℕ} {dropped : List EpCon} (s : Server) (net : List DevBase)
      → Reachable lines dropped s
      → Reachable lines dropped (record s { devnet = net })

pub IsSound-Reachable :
    {lines : ℕ} {dropped : List EpCon} (s : Server)
    → Reachable lines dropped s
    → IsSound lines dropped s.ep s.managers
IsSound-Reachable s (Reachable.starting net) = IsSound-none ep_interface refl refl
IsSound-Reachable s (Reachable.listening r t bound errno fd a loc ret listens p f h z e) =
    IsSound-listening r.ep t r.managers bound errno fd a loc ret listens (IsSound-Reachable r p) f h
      z e
IsSound-Reachable s (Reachable.running r a p) =
    IsSound-run r.ep r.managers a (IsSound-Reachable r p)
IsSound-Reachable s (Reachable.stopping r p) = IsSound-stopped r (IsSound-Reachable r p)
IsSound-Reachable s (Reachable.accepting r t fd a loc rem ret got p h z e) =
    IsSound-admitted r t (accepted a fd got loc rem) ret (IsSound-Reachable r p) h z
      (sym (ep_accept-admitted r fd a got loc rem h) ∙ e)
IsSound-Reachable s (Reachable.connecting r t fd a loc rem ret got p h z e) =
    IsSound-admitted r t (accepted a fd got loc rem) ret (IsSound-Reachable r p) h z
      (sym (ep_connect-admitted r fd a got loc rem h) ∙ e)
IsSound-Reachable s (Reachable.receiving r n ret errno p h) =
    IsSound-received r n ret errno (IsSound-Reachable r p) h
IsSound-Reachable s (Reachable.closing r t fd ret p e) =
    IsSound-closed r t fd ret (IsSound-Reachable r p) e
IsSound-Reachable s (Reachable.managing r t src fd kind ret p o e) =
    IsSound-managed r t src fd kind ret (IsSound-Reachable r p) o e
IsSound-Reachable s (Reachable.registering r net p) = IsSound-Reachable r p
