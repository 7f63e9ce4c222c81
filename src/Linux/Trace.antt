-- ===== src/Linux/Trace.antt =====
-- A kernel that records its calls and answers each from the calls made so far, whatever they are.
pub mod Runs
use mathlib.Core.List.{append_assoc, append-nil}
use kube_ovn_dra_driver.Prelude.{
  ℕ, String, Option, none, some, List, [], ◌∷◌, ◌++◌, ◌≡◌, refl, sym, ◌∙◌, Error, Result, ok, err,
  All,
}
use kube_ovn_dra_driver.Exec.{Exec}
use kube_ovn_dra_driver.Exec.Frames.{IsPreorder, Frames}
use kube_ovn_dra_driver.Dhcp.{Handler}
use kube_ovn_dra_driver.Linux.{
  Kernel, Link, Scope, Request, Listener, with_netns, with_handle, switched_to, opened, leave,
}
use kube_ovn_dra_driver.Linux.Kept.{
  Kept, NotDefault, with_netns-Frames, with_handle-Frames, switched_to-Frames,
}
use kube_ovn_dra_driver.Linux.Servers.{Node, Servers, node_kernel, on_host}

pub data Call : Type 0 where
  opens_netns : String → Call
  asks_netns : Call
  enters closes_netns opens_handle closes_handle : ℕ → Call
  looks_up : Scope → String → Call
  requests : Scope → Request → Call
  runs : String → List String → Call
  finds_interface listens : String → Call
  controls closes_conn : ℕ → Call
  closes_listener : Listener → Call
  serves : Listener → Handler → Call

-- The answers: an id, a link, success or an error, the output of a command.
pub record Oracle : Type 0 where
  pub id : List Call → Call → Result ℕ
  pub link : List Call → Call → Result Link
  pub done : List Call → Call → Result (Unit {0})
  pub output : List Call → Call → String × Option Error

abbrev noting : {A : Type 0} → (List Call → Call → Result A) → Call → Exec (List Call) A
noting answer c w = (answer w c, w ++ c ∷ [])

abbrev pub recorder : Oracle → Kernel (List Call)
recorder o = record {
  open_netns = λ path. noting o.id (opens_netns path);
  current_netns = noting o.id asks_netns;
  enter_netns = λ ns. noting o.done (enters ns);
  close_netns = λ ns w. w ++ closes_netns ns ∷ [];
  open_handle = λ ns. noting o.id (opens_handle ns);
  close_handle = λ h w. w ++ closes_handle h ∷ [];
  link_by_name = λ s name. noting o.link (looks_up s name);
  request = λ s r. noting o.done (requests s r);
  run = λ name argv w. (o.output w (runs name argv), w ++ runs name argv ∷ []);
  interface_by_name = λ name. noting o.id (finds_interface name);
  listen_packet = λ laddr. noting o.id (listens laddr);
  set_control_message = λ conn. noting o.done (controls conn);
  close_conn = λ conn w. w ++ closes_conn conn ∷ [];
  close_listener = λ l. noting o.done (closes_listener l);
  serve = λ l h w. w ++ serves l h ∷ [];
}

-- The calls made between two states satisfy a predicate.
pub record Adds (P : Call → Type 0) (s s' : Node (List Call)) : Type 0 where
  pub calls : List Call
  pub added : s'.host ≡ s.host ++ calls
  pub each : All P calls

All-append : (P : Call → Type 0) (xs ys : List Call) → All P xs → All P ys → All P (xs ++ ys)
All-append P [] ys h k = k
All-append P (x ∷ xs) ys h k = (h.0, All-append P xs ys h.1 k)

pub Adds-IsPreorder : (P : Call → Type 0) → IsPreorder (Adds P)
Adds-IsPreorder P = record {
  refl_at = λ s. record { calls = []; added = sym (append-nil s.host); each = tt };
  trans_at = λ s t u a b. record {
    calls = a.calls ++ b.calls;
    added = rw (b.added, a.added) (append_assoc s.host a.calls b.calls);
    each = All-append P a.calls b.calls a.each b.each;
  };
}

-- No call asks for a default route.
abbrev pub NoDefaultRoute : Call → Type 0
NoDefaultRoute (requests s r) = NotDefault r
NoDefaultRoute _ = Unit {0}

abbrev pub SafeCalls : Node (List Call) → Node (List Call) → Type 0
SafeCalls = Adds NoDefaultRoute

module _ (o : Oracle) where
  -- Every call but a request for a route is safe.
  unfoldable pub one :
      (s : Node (List Call)) (c : Call)
      → NoDefaultRoute c
      → SafeCalls s (record s { host = s.host ++ c ∷ [] })
  one s c p = record { calls = c ∷ []; added = refl; each = (p, tt) }

  pub recorder-Kept : Kept SafeCalls (node_kernel (recorder o))
  unfolding on_host
  recorder-Kept = record {
    pre = p;
    plain = record {
      link = λ s name. record { at = λ n. one n (looks_up s name) tt };
      request = λ s r h. record { at = λ n. one n (requests s r) h };
      runs = λ name argv n. one n (runs name argv) tt;
      interface = λ name. record { at = λ n. one n (finds_interface name) tt };
      listened = λ laddr. record { at = λ n. one n (listens laddr) tt };
      controlled = λ conn. record { at = λ n. one n (controls conn) tt };
      conn_closed = λ conn n. one n (closes_conn conn) tt;
      listener_closed = λ l. record { at = λ n. one n (closes_listener l) tt };
      served = λ l h n. one n (serves l h) tt;
    };
    netns = with_netns-Frames p k (λ path. record { at = λ n. one n (opens_netns path) tt }) close;
    handled =
        with_handle-Frames p k (λ ns. record { at = λ n. one n (opens_handle ns) tt })
          (λ h n. one n (closes_handle h) tt);
    switched =
        switched_to-Frames p k (record { at = λ n. one n asks_netns tt })
          (λ ns. record { at = λ n. one n (enters ns) tt }) close;
  }
    where
      p : IsPreorder SafeCalls
      p = Adds-IsPreorder NoDefaultRoute

      k : Kernel (Node (List Call))
      k = node_kernel (recorder o)

      close : (ns : ℕ) (n : Node (List Call)) → SafeCalls n (k.close_netns ns n)
      close ns n = one n (closes_netns ns) tt
