-- ===== src/Linux/Plumber/Laws.antt =====
-- What pkg/plumbing/plumbing_linux.go relies on of the packages netns and netlink: the netns of the
-- calling thread and the open handles.
use kube_ovn_dra_driver.Prelude.{ℕ, ◌+◌, ◌-◌, String, ◌≡◌, ◌≢◌, Option, none, some, Result, ok, err}
use kube_ovn_dra_driver.Linux.{Kernel}
use kube_ovn_dra_driver.Linux.Kept.{Plain}

-- A call that succeeds has opened one handle more.
abbrev pub Opens : Result ℕ → ℕ → ℕ → Type 0
Opens (ok n) before after = after ≡ before + 1
Opens (err e) before after = after ≡ before

-- A call that succeeds with an open handle has moved the thread to its netns.
abbrev pub Moves : Result (Unit {0}) → Option ℕ → ℕ → ℕ → Type 0
Moves (ok u) (some ns) before after = after ≡ ns
Moves (ok u) none before after = Unit {0}
Moves (err e) o before after = after ≡ before

-- The handle that a call returns, if it succeeds, is one that `names` gives `o`.
abbrev pub Names : (ℕ → Option ℕ) → Result ℕ → Option ℕ → Type 0
Names names (ok n) o = names n ≡ o
Names names (err e) o = Unit {0}

-- Every handle that was open is open on the same netns.
abbrev pub KeepsOpen : (ℕ → Option ℕ) → (ℕ → Option ℕ) → Type 0
KeepsOpen before after = (n ns : ℕ) → before n ≡ some ns → after n ≡ some ns

-- What netns and netlink document: `thread` is the netns of the calling thread, `held` the number
-- of open netns and netlink handles, `names` the netns that an open netns handle refers to, none for
-- a number that is not open. A call that opens a netns gives a number that was not open, and the
-- thread may always go back to `home` by a handle that refers to it.
pub record HostLaws {W : Type 0} (k : Kernel W) (thread held : W → ℕ) (names : W → ℕ → Option ℕ)
    (home : ℕ) : Type 0 where
  pub open_netns :
      (p : String) (w : W)
      → let (r, v) = k.open_netns p w in
        Opens r (held w) (held v)
        × (thread v ≡ thread w)
        × KeepsOpen (names w) (names v)
        × Names (names w) r none
  pub current_netns :
      (w : W)
      → let (r, v) = k.current_netns w in
        Opens r (held w) (held v)
        × (thread v ≡ thread w)
        × KeepsOpen (names w) (names v)
        × Names (names w) r none
        × Names (names v) r (some (thread w))
  pub enter_netns :
      (n : ℕ) (w : W)
      → let (r, v) = k.enter_netns n w in
        Moves r (names w n) (thread w) (thread v)
        × (held v ≡ held w)
        × KeepsOpen (names w) (names v)
  pub go_home : (n : ℕ) (w : W) → names w n ≡ some home → (k.enter_netns n w).0 ≡ ok tt
  pub close_netns :
      (n : ℕ) (w : W)
      → let v = k.close_netns n w in
        (held v ≡ held w - 1) × (thread v ≡ thread w) × ((m : ℕ) → m ≢ n → names v m ≡ names w m)
  pub open_handle :
      (n : ℕ) (w : W)
      → let (r, v) = k.open_handle n w in
        Opens r (held w) (held v) × (thread v ≡ thread w) × KeepsOpen (names w) (names v)
  pub close_handle :
      (n : ℕ) (w : W)
      → let v = k.close_handle n w in
        (held v ≡ held w - 1) × (thread v ≡ thread w) × ((m : ℕ) → names v m ≡ names w m)
  pub plain :
      Plain (λ w v. (thread v ≡ thread w) × (held v ≡ held w) × KeepsOpen (names w) (names v)) k
