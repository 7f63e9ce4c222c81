-- ===== src/Plugin/Owners.antt =====
-- podOwners of cmd/kube-ovn-dra-kubeletplugin/publisher.go: the names that the address of a pod's NIC
-- can carry, with a cache. Times are counted in seconds.
use Prim.Native.Char.{code}
use mathlib.Core.Path.{subst}
use text.Mathlib.TextLemmas.{nil-append, cons-append}
use kube_ovn_dra_driver.NicPrepare.{has_char, cut_before}
use kube_ovn_dra_driver.Prelude.{
  nat_eq, ℕ, ◌+◌, ◌<◌, ◌≢◌, ◌⊎◌, String, ◌==◌, ◌<>◌, false, Option, none, some, List, [], ◌∷◌, ◌≡◌,
  inl, inr, refl, sym, ap, ◌∙◌, arith, Map, update, ltb, eq_iff, if◌then◌else◌, Bool-cases,
  Option-cases,
}

pub record Entry : Type 0 where
  pub names : List String
  pub expires : ℕ

-- What the API server answers: the label of the VM of the pod, "" for none; NotFound; another error.
pub data PodAnswer : Type 0 where
  found : String → PodAnswer
  not_found failed : PodAnswer

abbrev pod_owners_ttl : ℕ
pod_owners_ttl = 60

pub cache_key : String → String → String
cache_key namespace pod = namespace <> ("/" <> pod)

-- The names without the cache: the pod, and its VM.
unfoldable pub owner_names : String → PodAnswer → List String
owner_names pod (found vm) = if vm == "" then pod ∷ [] else pod ∷ vm ∷ []
owner_names pod not_found = pod ∷ []
owner_names pod failed = pod ∷ []

-- A failure is not cached.
unfoldable pub remember : String → String → PodAnswer → ℕ → Map Entry → Map Entry
unfolding owner_names cache_key
remember namespace pod failed later cache = cache
remember namespace pod answer later cache =
    update cache (cache_key namespace pod)
      (some (record { names = owner_names pod answer; expires = later + pod_owners_ttl }))

-- The entry that is there and has not expired.
unfoldable pub current : ℕ → Option Entry → Option (List String)
current now none = none
current now (some e) = if ltb now e.expires then some e.names else none

-- The part behind the first slash.
rest_of : String → String
rest_of String.[] = ""
rest_of (String.◌∷◌ c s) = let rest = rest_of s in if nat_eq (code c) b'/' then s else rest

slash-append : (pod : String) → "/" <> pod ≡ String.◌∷◌ "/" pod
slash-append pod = cons-append "/" "" pod ∙ ap (λ (s : String). String.◌∷◌ "/" s) (nil-append pod)

rest-cache_key :
    (namespace pod : String)
    → has_char b'/' namespace ≡ false
    → rest_of (cache_key namespace pod) ≡ pod
unfolding rest_of has_char cache_key
rest-cache_key String.[] pod h = rw (nil-append, slash-append) refl
rest-cache_key (String.◌∷◌ c s) pod h = rw cons-append (ground (arith, h, rest-cache_key s pod))

cut_before-cache_key :
    (namespace pod : String)
    → has_char b'/' namespace ≡ false
    → cut_before b'/' (cache_key namespace pod) ≡ namespace
unfolding cut_before has_char cache_key
cut_before-cache_key String.[] pod h = rw (nil-append, slash-append) refl
cut_before-cache_key (String.◌∷◌ c s) pod h =
    rw cons-append (ground (arith, h, cut_before-cache_key s pod))

module _ (answer : String → String → PodAnswer) where
  -- `now` is the time of the test for expiry, `later` that of the new entry.
  unfoldable pub owners : ℕ → ℕ → String → String → Map Entry → List String × Map Entry
  unfolding current remember cache_key
  owners now later namespace pod cache = elim (current now (cache (cache_key namespace pod))) [
    | some names ↦ (names, cache)
    | none ↦ (
      owner_names pod (answer namespace pod),
      remember namespace pod (answer namespace pod) later cache,
    )
  ]

-- A call that reached the API server: the pod, the time of a new entry, and the answer.
pub record Read : Type 0 where
  pub namespace : String
  pub pod : String
  pub time : ℕ
  pub answer : PodAnswer

abbrev pub IsAmong : Read → List Read → Type 0
IsAmong r [] = ⊥
IsAmong r (x ∷ xs) = (r ≡ x) ⊎ IsAmong r xs

-- The entry comes from a read of the pod that did not fail, and expires a minute after it.
abbrev pub ComesFrom : List Read → String → String → Entry → Type 0
ComesFrom reads namespace pod e =
    (r : Read) × IsAmong r reads
    × (r.namespace ≡ namespace)
    × (r.pod ≡ pod)
    × (r.answer ≢ failed)
    × (e.expires ≡ r.time + pod_owners_ttl)
    × (e.names ≡ owner_names pod r.answer)

-- Each entry for a namespace without a slash comes from a read of its pod.
pub record IsSound (reads : List Read) (cache : Map Entry) : Type 0 where
  pub at_key :
      (namespace pod : String) (e : Entry)
      → has_char b'/' namespace ≡ false
      → cache (cache_key namespace pod) ≡ some e
      → ComesFrom reads namespace pod e

-- The key of a pod is that of no other pod.
cache_key-injective :
    (n p n' p' : String)
    → has_char b'/' n ≡ false
    → has_char b'/' n' ≡ false
    → cache_key n p ≡ cache_key n' p'
    → (n ≡ n') × (p ≡ p')
cache_key-injective n p n' p' h h' e = (
  sym (cut_before-cache_key n p h) ∙ ap (cut_before b'/') e ∙ cut_before-cache_key n' p' h',
  sym (rest-cache_key n p h) ∙ ap rest_of e ∙ rest-cache_key n' p' h',
)

one_more :
    (r : Read) (reads : List Read) (cache : Map Entry)
    → IsSound reads cache
    → IsSound (r ∷ reads) cache
one_more r reads cache sound = record {
  at_key = λ n p e h there.
      let (q, among, n_is, p_is, good, expires, from) = sound.at_key n p e h there in
      (q, inr among, n_is, p_is, good, expires, from);
}

module _ (namespace pod : String) (plain : has_char b'/' namespace ≡ false) where
  abbrev read_at : ℕ → PodAnswer → Read
  read_at time a = record { namespace = namespace; pod = pod; time = time; answer = a }

  pub update-IsSound :
      (a : PodAnswer) (later : ℕ) (reads : List Read) (cache : Map Entry)
      → a ≢ failed
      → IsSound reads cache
      → IsSound (read_at later a ∷ reads) (
          update cache
            (cache_key namespace pod)
            (some (record { names = owner_names pod a; expires = later + pod_owners_ttl })))
  update-IsSound a later reads cache good sound = record {
    at_key = λ n p x h there. elim (Bool-cases (cache_key namespace pod == cache_key n p)) [
      | inl e ↦
          let entry : Entry = record {
            names = owner_names pod a;
            expires = later + pod_owners_ttl;
          } in
          let put : some entry ≡ some x = rw e at there in
          let same : entry ≡ x = cc put in
          let (n_is, p_is) = cache_key-injective namespace pod n p plain h ((eq_iff _ _).0 e) in
          (
            read_at later a,
            inl refl,
            n_is,
            p_is,
            good,
            ap (λ (y : Entry). y.expires) (sym same),
            ap (λ (y : Entry). y.names) (sym same) ∙ ap (λ q. owner_names q a) p_is,
          )
      | inr e ↦ (one_more (read_at later a) reads cache sound).at_key n p x h (rw e at there)
    ];
  }

  remember-IsSound :
      (a : PodAnswer) (later : ℕ) (reads : List Read) (cache : Map Entry)
      → IsSound reads cache
      → IsSound (read_at later a ∷ reads) (remember namespace pod a later cache)
  unfolding remember
  remember-IsSound failed later reads cache sound = one_more _ reads cache sound
  remember-IsSound (found vm) later reads cache sound =
      update-IsSound (found vm) later reads cache (λ e. cc e) sound
  remember-IsSound not_found later reads cache sound =
      update-IsSound not_found later reads cache (λ e. cc e) sound

  unexpired :
      (now : ℕ) (o : Option Entry) (names : List String)
      → current now o ≡ some names
      → (e : Entry) × (o ≡ some e) × (now < e.expires) × (names ≡ e.names)
  unfolding current
  unexpired now none names e = cc e
  unexpired now (some x) names e = (x, refl, ground (arith, e), ground (arith, e))

  module _ (answer : String → String → PodAnswer) where
    -- The names are never older than a minute, and a failure is not remembered, however the answers
    -- of the API server change. Let each entry of the cache come from one of the reads made so far, of
    -- its pod, that did not fail. For a namespace without a slash, a call then either returns the
    -- names that follow from such a read of this pod, made less than a minute ago, and leaves the
    -- cache, or it returns those that follow from the answer that the API server gives now, and each
    -- entry comes from one of the reads again, this one counted.
    pub owners_cached :
        (now later : ℕ) (reads : List Read) (cache : Map Entry)
        → IsSound reads cache
        → let (names, cache') = owners answer now later namespace pod cache in
          ((r : Read) × IsAmong r reads
            × (r.namespace ≡ namespace)
            × (r.pod ≡ pod)
            × (r.answer ≢ failed)
            × (now < r.time + 60)
            × (names ≡ owner_names pod r.answer)
            × (cache' ≡ cache))
          ⊎ ((names ≡ owner_names pod (answer namespace pod))
              × IsSound (read_at later (answer namespace pod) ∷ reads) cache')
    unfolding owners
    owners_cached now later reads cache sound =
        elim (Option-cases (current now (cache (cache_key namespace pod)))) [
          | inl e ↦
              rw (e, owners)
                (inr (refl, remember-IsSound (answer namespace pod) later reads cache sound))
          | inr (names, e) ↦
              let (x, there, fresh, is) = unexpired now _ names e in
              let (r, among, n_is, p_is, good, expires, from) =
                sound.at_key namespace pod x plain there in
              rw (e, owners)
                (inl
                  (r, among, n_is, p_is, good, subst (λ k. now < k) expires fresh, is ∙ from, refl))
        ]
