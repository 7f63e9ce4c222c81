-- ===== src/Linux/Trace/Runs.antt =====
-- Which changes an action asks for, in order: all of a list, or a first part of it and then an error.
use mathlib.Core.List.{append_assoc, append-nil}
use kube_ovn_dra_driver.Prelude.{
  ℕ, String, Bool, true, false, List, [], ◌∷◌, ◌++◌, ◌≡◌, refl, sym, ap, ◌∙◌, Error, Result, ok,
  err, keep, keep-append,
}
use kube_ovn_dra_driver.Exec.{Exec}
use kube_ovn_dra_driver.Exec.Sealed.{◌>>=◌, pure, lift, wrapping, tolerating, deferring}
use kube_ovn_dra_driver.Linux.{Texts, Scope, Request, switched_to, leave}
use kube_ovn_dra_driver.Linux.Ovs.{command}
use kube_ovn_dra_driver.Linux.Trace.{
  Call, asks_netns, enters, closes_netns, requests, runs, Oracle, recorder,
}

-- The calls that change links, addresses or routes, and the commands.
abbrev pub is_change : Call → Bool
is_change (requests s r) = true
is_change (runs name argv) = true
is_change _ = false

abbrev pub changes : List Call → List Call
changes w = keep is_change w

-- A success has made every change.
abbrev pub Finished : {A : Type 0} → Result A → List Call → Type 0
Finished (ok a) rest = rest ≡ []
Finished (err e) rest = Unit {0}

pub record RunsTo {A : Type 0} (plan : List Call) (w : List Call) (r : Result A) (w' : List Call)
    : Type 0 where
  pub made : List Call
  pub rest : List Call
  pub planned : plan ≡ made ++ rest
  pub changed : changes w' ≡ changes w ++ made
  pub finished : Finished r rest

pub record Runs {A : Type 0} (m : Exec (List Call) A) (plan : List Call) : Type 0 where
  pub at : (w : List Call) → RunsTo plan w (m w).0 (m w).1

module _ {A : Type 0} where
  still : (w w' : List Call) (r : Result A) → changes w' ≡ changes w → RunsTo [] w r w'
  still w w' (ok a) e = record {
    made = [];
    rest = [];
    planned = refl;
    changed = e ∙ sym (append-nil (changes w));
    finished = refl;
  }
  still w w' (err x) e = record {
    made = [];
    rest = [];
    planned = refl;
    changed = e ∙ sym (append-nil (changes w));
    finished = tt;
  }

  pub Runs-pure : (a : A) → Runs (pure a) []
  unfolding pure
  Runs-pure a = record { at = λ w. still w w (ok a) refl }

  pub Runs-lift : (r : Result A) → Runs (lift r) []
  unfolding lift
  Runs-lift r = record { at = λ w. still w w r refl }

  -- An error before any change.
  stopped :
      (plan w w' : List Call) (e : Error)
      → changes w' ≡ changes w
      → RunsTo {A = A} plan w (err e) w'
  stopped plan w w' e c = record {
    made = [];
    rest = plan;
    planned = refl;
    changed = c ∙ sym (append-nil (changes w));
    finished = tt;
  }

  wrapped :
      (f : String) (args : List String) (plan w w' : List Call) (r : Result A)
      → RunsTo plan w r w'
      → RunsTo plan w (wrapping f args (lift {S = Unit {0}} r) tt).0 w'
  unfolding wrapping lift
  wrapped f args plan w w' (ok a) h = record {
    made = h.made;
    rest = h.rest;
    planned = h.planned;
    changed = h.changed;
    finished = h.finished;
  }
  wrapped f args plan w w' (err e) h = record {
    made = h.made;
    rest = h.rest;
    planned = h.planned;
    changed = h.changed;
    finished = tt;
  }

  pub Runs-wrapping :
      (f : String) (args : List String) (m : Exec (List Call) A) (plan : List Call)
      → Runs m plan
      → Runs (wrapping f args m) plan
  unfolding wrapping lift
  Runs-wrapping f args m plan k = record { at = λ w. wrapped f args plan w _ _ (k.at w) }

-- One change.
asked :
    {A : Type 0} (c : Call) (w : List Call) (r : Result A)
    → is_change c ≡ true
    → RunsTo (c ∷ []) w r (w ++ c ∷ [])
asked c w (ok a) h = record {
  made = c ∷ [];
  rest = [];
  planned = refl;
  changed = keep-append is_change w (c ∷ []) ∙ rw h refl;
  finished = refl;
}
asked c w (err e) h = record {
  made = c ∷ [];
  rest = [];
  planned = refl;
  changed = keep-append is_change w (c ∷ []) ∙ rw h refl;
  finished = tt;
}

pub unchanged : (c : Call) (w : List Call) → is_change c ≡ false → changes (w ++ c ∷ []) ≡ changes w
unchanged c w h = keep-append is_change w (c ∷ []) ∙ (rw h (append-nil (changes w)))

made_all :
    {A : Type 0} (plan w w' : List Call) (r : Result A) (a : A)
    → RunsTo plan w r w'
    → r ≡ ok a
    → changes w' ≡ changes w ++ plan
made_all plan w w' (ok b) a h e =
    h.changed
    ∙ ap (λ l. changes w ++ l)
        (sym (h.planned ∙ ap (λ l. h.made ++ l) h.finished ∙ append-nil h.made))
made_all plan w w' (err x) a h e = cc e

module _ {A B : Type 0} where
  -- The rest of the function, behind the part that succeeded.
  continued :
      (plan later w w' : List Call) (r : Result A) (f : A → Exec (List Call) B)
      → RunsTo plan w r w'
      → ((a : A) → r ≡ ok a → RunsTo later w' (f a w').0 (f a w').1)
      → let (r', w'') = (lift r >>= f) w' in RunsTo (plan ++ later) w r' w''
  unfolding lift ◌>>=◌
  continued plan later w w' (err e) f h k = record {
    made = h.made;
    rest = h.rest ++ later;
    planned = rw h.planned (append_assoc h.made h.rest later);
    changed = h.changed;
    finished = tt;
  }
  continued plan later w w' (ok a) f h k =
      let l = k a refl in
      record {
        made = h.made ++ l.made;
        rest = l.rest;
        planned =
            rw (h.planned, h.finished, append-nil, l.planned)
              (sym (append_assoc h.made l.made l.rest));
        changed = l.changed ∙ (rw h.changed (append_assoc (changes w) h.made l.made));
        finished = l.finished;
      }

  pub Runs-bind :
      (m : Exec (List Call) A) (f : A → Exec (List Call) B) (plan later : List Call)
      → Runs m plan
      → ((a : A) → Runs (f a) later)
      → Runs (m >>= f) (plan ++ later)
  unfolding lift ◌>>=◌
  Runs-bind m f plan later km kf = record {
    at = λ w. continued plan later w _ _ f (km.at w) (λ a e. (kf a).at (m w).1);
  }

  -- A step that changes nothing, whose result the rest may use.
  pub Runs-after :
      (m : Exec (List Call) A) (f : A → Exec (List Call) B) (later : List Call)
      → ((w : List Call) → changes (m w).1 ≡ changes w)
      → ((w : List Call) (a : A) → (m w).0 ≡ ok a → Runs (f a) later)
      → Runs (m >>= f) later
  unfolding lift ◌>>=◌
  Runs-after m f later same kf = record {
    at = λ w. continued [] later w _ _ f (still w _ _ (same w)) (λ a e. (kf w a e).at (m w).1);
  }

  -- The rest of the function, which is told that the changes so far end with those of the part.
  pub Runs-then :
      (m : Exec (List Call) A) (f : A → Exec (List Call) B) (plan later : List Call)
      → Runs m plan
      → ((a : A) (before w : List Call)
          → changes w ≡ before ++ plan
          → RunsTo later w (f a w).0 (f a w).1)
      → Runs (m >>= f) (plan ++ later)
  unfolding lift ◌>>=◌
  Runs-then m f plan later km kf = record {
    at = λ w.
        continued plan later w _ _ f (km.at w)
          (λ a e. kf a (changes w) (m w).1 (made_all plan w (m w).1 (m w).0 a (km.at w) e));
  }

  -- A step that changes nothing, in one state.
  pub after_at :
      (m : Exec (List Call) A) (f : A → Exec (List Call) B) (later w : List Call)
      → changes (m w).1 ≡ changes w
      → ((a : A) → (m w).0 ≡ ok a → Runs (f a) later)
      → let (r, w') = (m >>= f) w in RunsTo later w r w'
  unfolding lift ◌>>=◌
  after_at m f later w same kf =
      continued [] later w _ _ f (still w _ _ same) (λ a e. (kf a e).at (m w).1)

module _ (o : Oracle) where
  pub Runs-request : (s : Scope) (r : Request) → Runs ((recorder o).request s r) (requests s r ∷ [])
  Runs-request s r = record { at = λ w. asked (requests s r) w _ refl }

  -- A change whose object may exist already.
  pub Runs-tolerating :
      (test : Error → Bool) (s : Scope) (r : Request)
      → Runs (tolerating test ((recorder o).request s r)) (requests s r ∷ [])
  unfolding tolerating
  Runs-tolerating test s r = record { at = λ w. asked (requests s r) w _ refl }

  Runs-deferring :
      {A : Type 0} (undo : List Call → List Call) (m : Exec (List Call) A) (plan : List Call)
      → ((w : List Call) → changes (undo w) ≡ changes w)
      → Runs m plan
      → Runs (deferring undo m) plan
  unfolding deferring
  Runs-deferring undo m plan same km = record {
    at = λ w.
        let h = km.at w in
        record {
          made = h.made;
          rest = h.rest;
          planned = h.planned;
          changed = same (m w).1 ∙ h.changed;
          finished = h.finished;
        };
  }

  -- The thread's switch to another netns and back is no change.
  pub Runs-switched_to :
      {A : Type 0} (ns : ℕ) (m : Exec (List Call) A) (plan : List Call)
      → Runs m plan
      → Runs (switched_to (recorder o) ns m) plan
  unfolding switched_to leave wrapping
  Runs-switched_to ns m plan km =
      Runs-after _ _ plan (λ w. unchanged asks_netns w refl)
        λ w orig e.
          Runs-deferring (leave (recorder o) orig) _ plan
            (λ w'.
              unchanged (closes_netns orig) (w' ++ enters orig ∷ []) refl
              ∙ unchanged (enters orig) w' refl)
            (Runs-after _ _ plan (λ w'. unchanged (enters ns) w' refl) (λ w' u e'. km))

  -- A command is one change.
  pub Runs-command :
      (t : Texts) (f : String) (args : List String) (name : String) (argv : List String)
      → Runs (command (recorder o) t f args name argv) (runs name argv ∷ [])
  unfolding command
  Runs-command t f args name argv = record { at = λ w. asked (runs name argv) w _ refl }
