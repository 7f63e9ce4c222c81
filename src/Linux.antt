-- ===== src/Linux.antt =====
-- pkg/plumbing/plumbing_linux.go: what the OVS attacher asks of the node. The calls of netlink,
-- netns, os/exec, net and the DHCP listener are the operations of `Kernel`, over a host state.
pub mod Kept
pub mod Trace
pub mod Links
pub mod Configure
pub mod Ovs
pub mod Servers
pub mod Bridge
pub mod Plumber
use kube_ovn_dra_driver.Prelude.{
  ℕ, zero, suc, String, ◌==◌, Bool, true, false, Option, none, some, List, [], ◌∷◌, Error, Result,
  ok, err, nat_eq, ltb,
}
use kube_ovn_dra_driver.Exec.{Exec}
use kube_ovn_dra_driver.Exec.Sealed.{◌>>=◌, ◌>>◌, wrapping, deferring}
use kube_ovn_dra_driver.Attach.Routes.{Ip, IpNet}
use kube_ovn_dra_driver.Dhcp.{Handler}

-- netlink.Link, with the attributes that the code reads.
pub record Link : Type 0 where
  pub name : String
  pub index : ℕ
  pub kind : String
  pub mac : List ℕ
  pub mtu : ℕ

-- netlink.Addr as ParseAddr gives it, and whether IFA_F_NODAD is set.
pub record Addr : Type 0 where
  pub ip : Ip
  pub ones : ℕ
  pub no_dad : Bool

-- A socket that works in the netns of the calling thread, or a netlink.Handle.
pub data Scope : Type 0 where
  thread : Scope
  handle : ℕ → Scope

-- A change that rtnetlink, or the tun device, is asked for.
-- `add_tap` has the mode TAP and the flags NO_PI, VNET_HDR and ONE_QUEUE, an owner and a group.
pub data Request : Type 0 where
  add_veth : String → String → Option ℕ → Request
  add_bridge : String → Request
  add_tap : String → ℕ → ℕ → Request
  delete set_up set_down : Link → Request
  set_mtu : Link → ℕ → Request
  set_name : Link → String → Request
  set_netns : Link → ℕ → Request
  set_mac : Link → List ℕ → Request
  set_master : Link → Link → Request
  set_learning : Link → Bool → Request
  add_addr : Link → Addr → Request
  add_route : Link → IpNet → Option Ip → Request

-- dhcpconn.NewServeIf: a packet connection, and the interface that it is limited to.
pub record Listener : Type 0 where
  pub iface : ℕ
  pub conn : ℕ

pub record Kernel (W : Type 0) : Type 0 where
  -- netns.GetFromPath, netns.Get, netns.Set and Close of an NsHandle
  pub open_netns : String → Exec W ℕ
  pub current_netns : Exec W ℕ
  pub enter_netns : ℕ → Exec W (Unit {0})
  pub close_netns : ℕ → W → W
  -- netlink.NewHandleAt and Close of a Handle
  pub open_handle : ℕ → Exec W ℕ
  pub close_handle : ℕ → W → W
  pub link_by_name : Scope → String → Exec W Link
  pub request : Scope → Request → Exec W (Unit {0})
  -- CombinedOutput of a command
  pub run : String → List String → W → (String × Option Error) × W
  -- net.InterfaceByName, ListenPacket with SO_REUSEADDR, SetControlMessage, Close
  pub interface_by_name : String → Exec W ℕ
  pub listen_packet : String → Exec W ℕ
  pub set_control_message : ℕ → Exec W (Unit {0})
  pub close_conn : ℕ → W → W
  pub close_listener : Listener → Exec W (Unit {0})
  -- go dhcp.Serve
  pub serve : Listener → Handler → W → W

-- What the code takes of the packages net, netlink and strings.
pub record Texts : Type 0 where
  pub parse_mac : String → Result (List ℕ)
  pub format_mac : List ℕ → String
  pub parse_addr : String → Result Addr
  pub parse_cidr : String → Result (Ip × List ℕ)
  pub error_text : Error → String
  pub to_lower : String → String
  pub has_text : String → String → Bool
  pub trim_space : String → String
  pub fields : String → List String

-- isExists: EEXIST, by its text.
unfoldable pub is_exists : Texts → Error → Bool
is_exists t e = t.has_text (t.to_lower (t.error_text e)) "file exists"

-- The deferred `_ = netns.Set(origNs); origNs.Close()`.
unfoldable pub leave : {W : Type 0} → Kernel W → ℕ → W → W
leave k orig w = k.close_netns orig (k.enter_netns orig w).1

module _ {W : Type 0} (k : Kernel W) {A : Type 0} where
  opened : (ℕ → W → W) → (Error → Exec W A) → (ℕ → Exec W A) → Result ℕ × W → Result A × W
  opened close failed body (err e, w) = failed e w
  opened close failed body (ok n, w) = deferring (close n) (body n) w

  -- ns, err := netns.GetFromPath(path); if err != nil { return failed }; defer ns.Close()
  unfoldable pub with_netns : String → (Error → Exec W A) → (ℕ → Exec W A) → Exec W A
  unfolding opened
  with_netns path failed body w = opened k.close_netns failed body (k.open_netns path w)

  -- h, err := netlink.NewHandleAt(ns); if err != nil { return failed }; defer h.Close()
  unfoldable pub with_handle : ℕ → (Error → Exec W A) → (ℕ → Exec W A) → Exec W A
  unfolding opened
  with_handle ns failed body w = opened k.close_handle failed body (k.open_handle ns w)

  -- Switch the locked thread into `ns`, and back when the function returns.
  unfoldable pub switched_to : ℕ → Exec W A → Exec W A
  unfolding leave
  switched_to ns body = wrapping "get current netns" [] k.current_netns >>= λ orig.
      deferring (leave k orig) (wrapping "switch to target netns" [] (k.enter_netns ns) >> body)
