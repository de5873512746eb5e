-- ===== src/Relay/Sharing.antt =====
-- webshare.go: which links open, what a revocation takes away, and what a device is shown.
use beacon_desk.Prelude.{
  ℕ, ◌+◌, ◌≤◌, ◌≡◌, ◌≢◌, ◌↔◌, ◌⊎◌, refl, ap, ◌∙◌, String, Bool, true, false, not, ◌&&◌, Option,
  none, some, List, [], ◌∷◌, map, ◌==◌, eq_iff, eq_refl, arith, if◌then◌else◌, is_some, All,
  option_rule, if_rule,
}
use beacon_desk.Prelude.Int.{ltb_ℤ}
use beacon_desk.Maps.{
  Map, lookup, delete, keep_unless, lookup-delete_where_self, IsUnique, lookup-delete,
}
use beacon_desk.Protocol.Payloads.{WebSharePayload, WebShareRevokePayload}
use beacon_desk.Relay.State.{WebShare, Server, Env, Error, Outcome}
use beacon_desk.Relay.WebShare.{
  active, inactive, get_active_web_share, is_over, is_revocable, find_revocable, revoke_web_share,
  shares_of, sort_shares, insert_share, list_web_shares, web_share_payload,
}

active_inj : {x y : WebShare} → active x ≡ active y → x ≡ y
active_inj {x} e = ap (λ a. elim a [ active z ↦ z | inactive _ ↦ x ]) e

active≢inactive : {x : WebShare} {e : Error} → inactive e ≢ active x
active≢inactive h = cc

-- A link opens exactly when its token names a share that is not revoked and whose time has not
-- passed, and whose device is online.
pub get_active_web_share_iff :
    (s : Server) (env : Env) (token : String) (share : WebShare)
    → ((get_active_web_share s env token).1 ≡ active share) ↔ (
        (token ≢ "")
        × (lookup token s.shares ≡ some share)
        × (share.revoked ≡ false)
        × (env.now ≤ share.expires_at)
        × (is_some (lookup share.controlled_id s.clients) ≡ true))
unfolding get_active_web_share
get_active_web_share_iff s env token share = (
  λ h. opened (lookup token s.shares) refl h,
  λ (named, found, kept, live, online). ground (arith, eq_iff token ""),
)
  where
    Opens : Type 0
    Opens =
        (token ≢ "")
        × (lookup token s.shares ≡ some share)
        × (share.revoked ≡ false)
        × (env.now ≤ share.expires_at)
        × (is_some (lookup share.controlled_id s.clients) ≡ true)

    opened :
        (o : Option WebShare)
        → lookup token s.shares ≡ o
        → (get_active_web_share s env token).1 ≡ active share
        → Opens
    opened none e h = absurd (ground (arith))
    opened (some x) e h =
        let same : x ≡ share = active_inj (ground (arith)) in
        (
          ground (arith, eq_iff token ""),
          e ∙ ap some same,
          ground (arith),
          ground (arith),
          ground arith,
        )

find_revocable_sound :
    (device : String) (payload : WebShareRevokePayload) (token : String) (share : WebShare)
    (m : Map WebShare)
    → IsUnique m
    → find_revocable device payload m ≡ some (token, share)
    → (lookup token m ≡ some share) × (is_revocable device payload share ≡ true)
unfolding find_revocable lookup
find_revocable_sound device payload token share [] u h = cc
find_revocable_sound device payload token share ((k, x) ∷ m) u h =
    ground (arith, eq_iff k token, find_revocable_sound device payload token share m)

-- What the list is sorted by.
abbrev pub IsNewestFirst : List WebSharePayload → Type 0
IsNewestFirst [] = Unit
IsNewestFirst (a ∷ rest) =
    All (λ b. ltb_ℤ a.created_at b.created_at ≡ false) rest × IsNewestFirst rest

-- How many elements pass a test.
abbrev pub count {ℓ} : {A : Type ℓ} → (A → Bool) → List A → ℕ
count p [] = 0
count p (x ∷ xs) = if p x then 1 + count p xs else count p xs

insert_share-count :
    (p : WebSharePayload → Bool) (a : WebSharePayload) (l : List WebSharePayload)
    → count p (insert_share a l) ≡ count p (a ∷ l)
unfolding insert_share
insert_share-count p a [] = refl
insert_share-count p a (b ∷ l) = ground (arith, insert_share-count p a l)

sort_shares-count :
    (p : WebSharePayload → Bool) (l : List WebSharePayload) → count p (sort_shares l) ≡ count p l
unfolding sort_shares
sort_shares-count p [] = refl
sort_shares-count p (a ∷ l) =
    ground (arith, sort_shares-count p l, insert_share-count p a (sort_shares l))

insert_share-All :
    (P : WebSharePayload → Type 0) (a : WebSharePayload) (l : List WebSharePayload)
    → P a
    → All P l
    → All P (insert_share a l)
unfolding insert_share
insert_share-All P a [] h k = (h, tt)
insert_share-All P a (b ∷ l) h k =
    if_rule (All P) (ltb_ℤ a.created_at b.created_at) _ _ (λ _. (k.0, insert_share-All P a l h k.1))
      (λ _. (h, k))

All-weaken {ℓ κ μ} :
    {A : Type ℓ} (P : A → Type κ) (Q : A → Type μ) (l : List A)
    → ((x : A) → P x → Q x)
    → All P l
    → All Q l
All-weaken P Q [] f h = tt
All-weaken P Q (x ∷ l) f h = (f x h.0, All-weaken P Q l f h.1)

abbrev NotOlder : WebSharePayload → WebSharePayload → Type 0
NotOlder a b = ltb_ℤ a.created_at b.created_at ≡ false

NotOlder-trans : (a b c : WebSharePayload) → NotOlder a b → NotOlder b c → NotOlder a c
NotOlder-trans a b c h k = ground arith

insert_share-IsNewestFirst :
    (a : WebSharePayload) (l : List WebSharePayload)
    → IsNewestFirst l
    → IsNewestFirst (insert_share a l)
unfolding insert_share
insert_share-IsNewestFirst a [] h = (tt, tt)
insert_share-IsNewestFirst a (b ∷ l) h =
    if_rule IsNewestFirst (ltb_ℤ a.created_at b.created_at) _ _
      (λ older.
        (insert_share-All (NotOlder b) a l (ground arith) h.0, insert_share-IsNewestFirst a l h.1))
      (λ newer.
        ((newer, All-weaken (NotOlder b) (NotOlder a) l (λ c. NotOlder-trans a b c newer) h.0), h))

sort_shares-IsNewestFirst : (l : List WebSharePayload) → IsNewestFirst (sort_shares l)
unfolding sort_shares
sort_shares-IsNewestFirst [] = tt
sort_shares-IsNewestFirst (a ∷ l) =
    insert_share-IsNewestFirst a (sort_shares l) (sort_shares-IsNewestFirst l)

-- Does this entry of the map stand for a link that the device is to be shown, and pass the test `p`?
abbrev pub is_shown : String → ℕ → (WebShare → Bool) → String × WebShare → Bool
is_shown device now p entry =
    not (is_over now entry.1) && (entry.1.controlled_id == device && p entry.1)

shares_of-count :
    (f : WebShare → WebSharePayload) (p : WebSharePayload → Bool) (device : String) (now : ℕ)
    (m : Map WebShare)
    → count p (map f (shares_of device now m)) ≡ count (is_shown device now (λ x. p (f x))) m
unfolding shares_of
shares_of-count f p device now [] = refl
shares_of-count f p device now ((k, x) ∷ m) = ground (arith, shares_of-count f p device now m)

-- A device is shown its links newest first; whatever test counts them, it counts exactly the shares
-- of the map that are the device's and are neither revoked nor past their time; and from the map go
-- exactly the shares, of any device, that are revoked or past their time. The map has no key twice.
pub list_web_shares_lem :
    (share_url : String → String) (s : Server) (env : Env) (device : String)
    → IsUnique s.shares
    → IsNewestFirst (list_web_shares share_url s env device).1
      × ((p : WebSharePayload → Bool)
          → count p (list_web_shares share_url s env device).1
            ≡ count (is_shown device env.now (λ x. p (web_share_payload share_url x))) s.shares)
      × ((k : String)
          → lookup k (list_web_shares share_url s env device).0.shares
            ≡ keep_unless (is_over env.now) (lookup k s.shares))
unfolding list_web_shares
list_web_shares_lem share_url s env device u =
    let shown = map (web_share_payload share_url) (shares_of device env.now s.shares) in
    (
      sort_shares-IsNewestFirst shown,
      λ p.
          sort_shares-count p shown
          ∙ shares_of-count (web_share_payload share_url) p device env.now s.shares,
      λ k. lookup-delete_where_self (is_over env.now) k s.shares u,
    )

-- A link that is in no map does not open.
missing-closed :
    (s : Server) (env : Env) (token : String) (x : WebShare)
    → lookup token s.shares ≡ none
    → (get_active_web_share s env token).1 ≢ active x
missing-closed s env token x gone h =
    let (named, found, kept, live, online) = (get_active_web_share_iff s env token x).0 h in cc

-- What a revocation that succeeds has done.
abbrev pub Revoked : Server → Server → String → WebShareRevokePayload → Type 0
Revoked s t device payload =
    (token : String) × (share : WebShare) × (lookup token s.shares ≡ some share)
    × (share.controlled_id ≡ device)
    × ((share.id ≡ payload.id) ⊎ (share.token ≡ payload.token))
    × ((later : Env) (x : WebShare) → (get_active_web_share t later token).1 ≢ active x)
    × ((k : String) → lookup k t.shares ≡ (if token == k then none else lookup k s.shares))

-- The same from the changed map.
Revoked-intro :
    (s t : Server) (device : String) (payload : WebShareRevokePayload) (token : String)
    (share : WebShare)
    → IsUnique s.shares
    → find_revocable device payload s.shares ≡ some (token, share)
    → t.shares ≡ delete token s.shares
    → Revoked s t device payload
Revoked-intro s t device payload token share u found changed =
    let (there, fits) = find_revocable_sound device payload token share s.shares u found in
    (
      token,
      share,
      there,
      ground (arith, eq_iff share.controlled_id device),
      ground (arith, eq_iff share.id payload.id, eq_iff share.token payload.token),
      λ later x. missing-closed t later token x (
          ap (lookup token) changed
          ∙ lookup-delete token token s.shares
          ∙ ground (arith, eq_refl token)),
      λ k. ap (lookup k) changed ∙ lookup-delete token k s.shares,
    )

-- A revocation that succeeds has found a share of the device that asks for it, named by its id or
-- its token; its link is gone, so that it opens no more, and all other links are as before. The map
-- has no key twice.
pub revoke_web_share-revokes :
    (s : Server) (env : Env) (c : ℕ) (payload : WebShareRevokePayload)
    → IsUnique s.shares
    → (revoke_web_share s env c payload).1 ≡ none
    → Revoked s (revoke_web_share s env c payload).0 (s.client_at c).device_id payload
unfolding revoke_web_share
revoke_web_share-revokes s env c payload u =
    let device = (s.client_at c).device_id in
    let Passed : Outcome → Type 0 = λ o. o.1 ≡ none → Revoked s o.0 device payload in
    if_rule Passed (payload.id == "" && payload.token == "") _ _ (λ _ h. absurd (ground arith))
      (λ _.
        option_rule Passed (find_revocable device payload s.shares) _ _
          (λ _ h. absurd (ground arith))
          (λ (token, share) found h.
            Revoked-intro s _ device payload token share u found (ground arith)))
