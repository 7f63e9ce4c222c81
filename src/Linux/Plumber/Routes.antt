-- ===== src/Linux/Plumber/Routes.antt =====
-- No default route: what the OVS attacher asks of the node, for any answers of the node.
use mathlib.Core.List.{append-nil}
use kube_ovn_dra_driver.Prelude.{List, [], sym}
use kube_ovn_dra_driver.Store.{Spec}
use kube_ovn_dra_driver.Attach.{ShortHash, attach, detach}
use kube_ovn_dra_driver.Attach.Kept.{DatapathKept, attach_kept, detach_kept}
use kube_ovn_dra_driver.Attach.Routes.{NetParsers}
use kube_ovn_dra_driver.Linux.{Texts}
use kube_ovn_dra_driver.Linux.Servers.{Node, Servers, node_kernel}
use kube_ovn_dra_driver.Linux.Trace.{Call, Oracle, recorder, recorder-Kept, SafeCalls}
use kube_ovn_dra_driver.Linux.Plumber.{plumber}
use kube_ovn_dra_driver.Linux.Plumber.Frames.{plumber-Kept}

table_is_unseen : (s : Node (List Call)) (m : Servers) → SafeCalls s (record s { servers = m })
table_is_unseen s m = record { calls = []; added = sym (append-nil s.host); each = tt }

module _ (o : Oracle) (t : Texts) (net : NetParsers) (hash : ShortHash) where
  kept : DatapathKept SafeCalls (plumber (node_kernel (recorder o)) t net hash)
  kept = plumber-Kept (recorder-Kept o) table_is_unseen t net hash

  -- Whatever the node answers to each call, and whether it succeeds or fails on the way, an attach
  -- only adds calls to those made before, and none of them adds a route whose mask has no ones: the
  -- default route of the pod stays that of its primary interface. The same holds of a detach.
  pub attach_adds_no_default_route :
      (spec : Spec) (s : Node (List Call))
      → let d = plumber (node_kernel (recorder o)) t net hash in
        SafeCalls s (attach hash d spec s).1 × SafeCalls s (detach hash d spec s).1
  attach_adds_no_default_route spec s = (attach_kept hash kept spec s, detach_kept hash kept spec s)
