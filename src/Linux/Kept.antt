-- ===== src/Linux/Kept.antt =====
-- What each call of the kernel leaves as it was, as the parameter of the frame lemmas: a preorder on
-- states that every call keeps, the calls that open something taken with their closing.
use kube_ovn_dra_driver.Prelude.{ℕ, String, ◌≢◌, Error, List, Result, ok, err}
use kube_ovn_dra_driver.Exec.{Exec}
use kube_ovn_dra_driver.Exec.Frames.{IsPreorder, Frames}
use kube_ovn_dra_driver.Exec.Sealed.{deferring, Frames-bind, Frames-wrapping}
use kube_ovn_dra_driver.Dhcp.{Handler}
use kube_ovn_dra_driver.Linux.{
  Kernel, Scope, Request, Listener, add_route, with_netns, with_handle, switched_to, opened, leave,
}

-- A request that adds no default route.
abbrev pub NotDefault : Request → Type 0
NotDefault (add_route link dst gw) = dst.ones ≢ 0
NotDefault _ = Unit {0}

-- What the calls that open nothing keep.
pub record Plain {W : Type 0} (R : W → W → Type 0) (k : Kernel W) : Type 0 where
  pub link : (s : Scope) (name : String) → Frames R (k.link_by_name s name)
  pub request : (s : Scope) (r : Request) → NotDefault r → Frames R (k.request s r)
  pub runs : (name : String) (argv : List String) (w : W) → R w (k.run name argv w).1
  pub interface : (name : String) → Frames R (k.interface_by_name name)
  pub listened : (laddr : String) → Frames R (k.listen_packet laddr)
  pub controlled : (conn : ℕ) → Frames R (k.set_control_message conn)
  pub conn_closed : (conn : ℕ) (w : W) → R w (k.close_conn conn w)
  pub listener_closed : (l : Listener) → Frames R (k.close_listener l)
  pub served : (l : Listener) (h : Handler) (w : W) → R w (k.serve l h w)

pub record Kept {W : Type 0} (R : W → W → Type 0) (k : Kernel W) : Type 1 where
  pub pre : IsPreorder R
  pub plain : Plain R k
  pub netns :
      {A : Type 0} (path : String) (failed : Error → Exec W A) (body : ℕ → Exec W A)
      → ((e : Error) → Frames R (failed e))
      → ((n : ℕ) → Frames R (body n))
      → Frames R (with_netns k path failed body)
  pub handled :
      {A : Type 0} (ns : ℕ) (failed : Error → Exec W A) (body : ℕ → Exec W A)
      → ((e : Error) → Frames R (failed e))
      → ((n : ℕ) → Frames R (body n))
      → Frames R (with_handle k ns failed body)
  pub switched : {A : Type 0} (ns : ℕ) (m : Exec W A) → Frames R m → Frames R (switched_to k ns m)

-- Where each call by itself keeps the relation, so do the brackets.
module _ {W : Type 0} {R : W → W → Type 0} (p : IsPreorder R) {A : Type 0} where
  pub deferring-Frames :
      (undo : W → W) (m : Exec W A)
      → ((w : W) → R w (undo w))
      → Frames R m
      → Frames R (deferring undo m)
  unfolding deferring
  deferring-Frames undo m u km = record { at = λ w. p.trans_at w _ _ (km.at w) (u (m w).1) }

  opened_kept :
      (k : Kernel W) (close : ℕ → W → W) (failed : Error → Exec W A) (body : ℕ → Exec W A) (w : W)
      (r : Result ℕ × W)
      → R w r.1
      → ((n : ℕ) (v : W) → R v (close n v))
      → ((e : Error) → Frames R (failed e))
      → ((n : ℕ) → Frames R (body n))
      → R w (opened k close failed body r).1
  unfolding opened
  opened_kept k close failed body w (err e, v) h c kf kb = p.trans_at w v _ h ((kf e).at v)
  opened_kept k close failed body w (ok n, v) h c kf kb =
      p.trans_at w v _ h ((deferring-Frames (close n) (body n) (c n) (kb n)).at v)

  module _ (k : Kernel W) where
    pub with_netns-Frames :
        ((path : String) → Frames R (k.open_netns path))
        → ((n : ℕ) (w : W) → R w (k.close_netns n w))
        → (path : String) (failed : Error → Exec W A) (body : ℕ → Exec W A)
        → ((e : Error) → Frames R (failed e))
        → ((n : ℕ) → Frames R (body n))
        → Frames R (with_netns k path failed body)
    unfolding with_netns
    with_netns-Frames opening closing path failed body kf kb = record {
      at = λ w. opened_kept k k.close_netns failed body w _ ((opening path).at w) closing kf kb;
    }

    pub with_handle-Frames :
        ((ns : ℕ) → Frames R (k.open_handle ns))
        → ((h : ℕ) (w : W) → R w (k.close_handle h w))
        → (ns : ℕ) (failed : Error → Exec W A) (body : ℕ → Exec W A)
        → ((e : Error) → Frames R (failed e))
        → ((n : ℕ) → Frames R (body n))
        → Frames R (with_handle k ns failed body)
    unfolding with_handle
    with_handle-Frames opening closing ns failed body kf kb = record {
      at = λ w. opened_kept k k.close_handle failed body w _ ((opening ns).at w) closing kf kb;
    }

    pub switched_to-Frames :
        Frames R k.current_netns
        → ((ns : ℕ) → Frames R (k.enter_netns ns))
        → ((n : ℕ) (w : W) → R w (k.close_netns n w))
        → (ns : ℕ) (m : Exec W A) → Frames R m
        → Frames R (switched_to k ns m)
    unfolding switched_to leave
    switched_to-Frames asked entered closing ns m km =
        Frames-bind p _ _ (Frames-wrapping _ _ _ asked) λ orig.
          deferring-Frames (leave k orig) _
            (λ w. p.trans_at w _ _ ((entered orig).at w) (closing orig _))
            (Frames-bind p _ _ (Frames-wrapping _ _ _ (entered ns)) (λ _. km))
