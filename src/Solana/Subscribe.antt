-- ===== src/Solana/Subscribe.antt =====
-- walletsolana/subscribe.go: what runConn subscribes to, and the address that the watcher dials.
use mosey.Base.{ℕ, suc, ◌+◌, Bool, true, false, List, [], ◌∷◌, ◌++◌, Bytes, codes, bytes_eq}
use mosey.Base.{bytes_eq_self, drop, ◌||◌, if◌then◌else◌, Result, ok, err, ok_same, ◌>>=◌, step-ok}
use mosey.Base.{◌≡◌, refl, ap, subst, arith, Bool-cases, inl, inr, map}
use mathlib.Core.List.{Memᴰ}
use mosey.Wallet.Text.{has_prefix}

-- deriveWSEndpoint
unfoldable pub derive_ws_endpoint : Bytes → Bytes
derive_ws_endpoint rpc =
    if has_prefix (codes "https://") rpc
    then codes "wss://" ++ drop 8 rpc
    else if has_prefix (codes "http://") rpc
    then codes "ws://" ++ drop 7 rpc
    else []

-- The state of runConn: the map of those subscribed, the last id, and the requests sent, the latest first.
pub record Subscriptions : Type 0 where
  pub subscribed : List Bytes
  pub last_id : ℕ
  pub requests : List (ℕ × Bytes)

pub data SubscribeError : Type 0 where
  write_failed : SubscribeError

unfoldable pub is_subscribed : Bytes → List Bytes → Bool
is_subscribed addr [] = false
is_subscribed addr (a ∷ more) = bytes_eq a addr || is_subscribed addr more

abbrev pub subscribe : Subscriptions → Bytes → Subscriptions
subscribe st addr = record {
  subscribed = addr ∷ st.subscribed;
  last_id = st.last_id + 1;
  requests = (st.last_id + 1, addr) ∷ st.requests;
}

-- reconcile, of runConn; `writes` says which addresses WriteJSON takes.
unfoldable pub reconcile :
    (Subscriptions → Bytes → Bool)
    → Subscriptions
    → List Bytes
    → Result SubscribeError Subscriptions
reconcile writes st [] = ok st
reconcile writes st (addr ∷ rest) =
    let known = reconcile writes st rest in
    let next = reconcile writes (subscribe st addr) rest in
    if is_subscribed addr st.subscribed
    then known
    else if writes st addr
    then next
    else err write_failed

-- The rounds of one connection, each with the targets of the latest refresh.
unfoldable pub reconciles :
    (Subscriptions → Bytes → Bool)
    → Subscriptions
    → List (List Bytes)
    → Result SubscribeError Subscriptions
reconciles writes st [] = ok st
reconciles writes st (targets ∷ rounds) =
    reconcile writes st targets >>= λ next. reconciles writes next rounds

abbrev pub at_first : Subscriptions
at_first = record { subscribed = []; last_id = 0; requests = [] }

-- The requests are numbered down to 1, and no address is asked for twice.
unfoldable pub Numbered : ℕ → List (ℕ × Bytes) → Type 0
Numbered n [] = n ≡ 0
Numbered n ((id, addr) ∷ rest) =
    (id ≡ n)
    × (is_subscribed addr (map (λ r. r.1) rest) ≡ false)
    × ((m : ℕ) × (n ≡ suc m) × Numbered m rest)

abbrev pub Once : Subscriptions → Type 0
Once st = (st.subscribed ≡ map (λ r. r.1) st.requests) × Numbered st.last_id st.requests

Once-subscribe :
    (st : Subscriptions) (addr : Bytes)
    → is_subscribed addr st.subscribed ≡ false
    → Once st
    → Once (subscribe st addr)
unfolding Numbered
Once-subscribe st addr new (same, numbered) =
    (ap (λ x. addr ∷ x) same, (refl, rw⁻¹ same new, (st.last_id, omega arith, numbered)))

is_subscribed-more :
    (a addr : Bytes) (known : List Bytes)
    → is_subscribed addr known ≡ true
    → is_subscribed addr (a ∷ known) ≡ true
unfolding is_subscribed
is_subscribed-more a addr known h = elim (Bool-cases (bytes_eq a addr)) [
  | inl same ↦ rw same refl
  | inr other ↦ rw (other, h) refl
]

is_subscribed-head : (addr : Bytes) (known : List Bytes) → is_subscribed addr (addr ∷ known) ≡ true
unfolding is_subscribed
is_subscribed-head addr known = rw (bytes_eq_self addr) refl

-- What a reconcile leaves: still once each, with all that was subscribed and all of the targets.
abbrev pub Covers : Subscriptions → List Bytes → Subscriptions → Type 0
Covers st targets t =
    Once t
    × ((a : Bytes) → is_subscribed a st.subscribed ≡ true → is_subscribed a t.subscribed ≡ true)
    × ((a : Bytes) → Memᴰ a targets → is_subscribed a t.subscribed ≡ true)

Covers-cons :
    (st mid t : Subscriptions) (addr : Bytes) (rest : List Bytes)
    → ((a : Bytes) → is_subscribed a st.subscribed ≡ true → is_subscribed a mid.subscribed ≡ true)
    → is_subscribed addr mid.subscribed ≡ true
    → Covers mid rest t
    → Covers st (addr ∷ rest) t
Covers-cons st mid t addr rest grows here (once, keeps, all) = (
  once,
  λ a h. keeps a (grows a h),
  λ a m. elim m [ Memᴰ.head e ↦ rw e (keeps addr here) | Memᴰ.tail n ↦ all a n ],
)

-- A reconcile of runConn that ends well subscribes to every target, keeps the earlier subscriptions, and
-- over all its requests, numbered from 1 without a gap, asks for no address twice.
reconcile-Covers :
    (writes : Subscriptions → Bytes → Bool) (st t : Subscriptions) (targets : List Bytes)
    → Once st
    → reconcile writes st targets ≡ ok t
    → Covers st targets t
unfolding reconcile
reconcile-Covers writes st t [] once h = (
  subst Once (ok_same h) once,
  λ a k. subst (λ x. is_subscribed a x.subscribed ≡ true) (ok_same h) k,
  λ a m. elim m [ ],
)
reconcile-Covers writes st t (addr ∷ rest) once h =
    elim (Bool-cases (is_subscribed addr st.subscribed)) [
      | inl known ↦
          let h1 : reconcile writes st rest ≡ ok t = rw known at h in
          Covers-cons st st t addr rest (λ a k. k) known (reconcile-Covers writes st t rest once h1)
      | inr new ↦ elim (Bool-cases (writes st addr)) [
        | inl written ↦
            let h1 : reconcile writes (subscribe st addr) rest ≡ ok t = rw (new, written) at h in
            Covers-cons st (subscribe st addr) t addr rest
              (λ a k. is_subscribed-more addr a st.subscribed k)
              (is_subscribed-head addr st.subscribed)
              (reconcile-Covers writes (subscribe st addr) t rest (Once-subscribe st addr new once)
                h1)
        | inr failed ↦ (let h1 : err write_failed ≡ ok t = rw (new, failed) at h in absurd (cc))
      ]
    ]

-- What is kept and what the rounds ask for.
rounds_cover :
    (writes : Subscriptions → Bytes → Bool) (st t : Subscriptions) (rounds : List (List Bytes))
    → Once st
    → reconciles writes st rounds ≡ ok t
    → Once t
      × ((a : Bytes) → is_subscribed a st.subscribed ≡ true → is_subscribed a t.subscribed ≡ true)
      × ((targets : List Bytes) (a : Bytes)
          → Memᴰ targets rounds
          → Memᴰ a targets
          → is_subscribed a t.subscribed ≡ true)
unfolding reconciles
rounds_cover writes st t [] once h = (
  subst Once (ok_same h) once,
  λ a k. subst (λ x. is_subscribed a x.subscribed ≡ true) (ok_same h) k,
  λ targets a m. elim m [ ],
)
rounds_cover writes st t (targets ∷ rounds) once h =
    let (mid, first, k) =
      step-ok (reconcile writes st targets) (λ next. reconciles writes next rounds) h in
    let (once_mid, grows, all) = reconcile-Covers writes st mid targets once first in
    let (once_t, keeps, later) = rounds_cover writes mid t rounds once_mid k in
    (
      once_t,
      λ a known. keeps a (grows a known),
      λ ts a m n. elim m [
        | Memᴰ.head e ↦ keeps a (all a (subst (λ x. Memᴰ a x) e n))
        | Memᴰ.tail more ↦ later ts a more n
      ],
    )

-- As long as its writes succeed, a connection that starts with no subscription has after its reconciles
-- subscribed to every target of every round, with requests numbered from 1 without a gap that ask for no
-- address twice.
pub reconciles_cover_targets :
    (writes : Subscriptions → Bytes → Bool) (t : Subscriptions) (rounds : List (List Bytes))
    → reconciles writes at_first rounds ≡ ok t
    → Once t
      × ((targets : List Bytes) (a : Bytes)
          → Memᴰ targets rounds
          → Memᴰ a targets
          → is_subscribed a t.subscribed ≡ true)
unfolding Numbered
reconciles_cover_targets writes t rounds h =
    let (once, _, all) = rounds_cover writes at_first t rounds (refl, refl) h in (once, all)
