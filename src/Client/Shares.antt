-- ===== src/Client/Shares.antt =====
-- The web shares that a client shows: client.go, `upsertWebShare`.
use beacon_desk.Prelude.{
  ◌≡◌, ◌≢◌, refl, ap, ◌⊎◌, inl, inr, true, false, ◌&&◌, none, some, List, [], ◌∷◌, ◌++◌, ◌==◌,
  if_rule, option_rule, Bool-cases, Option-cases, subst, All, arith, eq_iff,
}
use beacon_desk.Protocol.Payloads.{WebSharePayload}
use beacon_desk.Client.Basics.{same_share, replace_share, upsert_web_share}

-- A shown share has the id or the token of another, which is not empty.
pub Names : WebSharePayload → WebSharePayload → Type 0
Names share x =
    ((share.id ≢ "") × (x.id ≡ share.id)) ⊎ ((share.token ≢ "") × (x.token ≡ share.token))

same_share_iff :
    (share x : WebSharePayload)
    → ((same_share share.id share.token x ≡ true) → Names share x)
      × ((same_share share.id share.token x ≡ false) → ¬ Names share x)
unfolding Names
same_share_iff share x = (
  λ h. ground (
    arith,
    eq_iff share.id "",
    eq_iff share.token "",
    eq_iff x.id share.id,
    eq_iff x.token share.token,
  ),
  λ h n. ground (
    arith,
    eq_iff share.id "",
    eq_iff share.token "",
    eq_iff x.id share.id,
    eq_iff x.token share.token,
  ),
)

-- The first share that is named is the one that is replaced.
pub record FirstReplaced (share : WebSharePayload) (links after : List WebSharePayload)
    : Type 0 where
  pub before : List WebSharePayload
  pub old : WebSharePayload
  pub later : List WebSharePayload
  pub split : links ≡ before ++ old ∷ later
  pub others : All (λ x. ¬ Names share x) before
  pub named : Names share old
  pub result : after ≡ before ++ share ∷ later

later_replaced :
    (share x : WebSharePayload) {links after : List WebSharePayload}
    → ¬ Names share x
    → FirstReplaced share links after
    → FirstReplaced share (x ∷ links) (x ∷ after)
later_replaced share x n r = record {
  before = x ∷ r.before;
  old = r.old;
  later = r.later;
  split = ap (λ l. x ∷ l) r.split;
  others = (n, r.others);
  named = r.named;
  result = ap (λ l. x ∷ l) r.result;
}

replace_share-none :
    (share : WebSharePayload) (links : List WebSharePayload)
    → replace_share share links ≡ none
    → All (λ x. ¬ Names share x) links
unfolding replace_share
replace_share-none share [] h = tt
replace_share-none share (x ∷ links) h = elim (Bool-cases (same_share share.id share.token x)) [
  | inl e ↦ ground arith
  | inr e ↦ ((same_share_iff share x).1 e, replace_share-none share links (ground arith))
]

replace_share-some :
    (share : WebSharePayload) (links after : List WebSharePayload)
    → replace_share share links ≡ some after
    → FirstReplaced share links after
unfolding replace_share
replace_share-some share [] after h = ground arith
replace_share-some share (x ∷ links) after h =
    elim (Bool-cases (same_share share.id share.token x)) [
      | inl e ↦ record {
        before = [];
        old = x;
        later = links;
        split = refl;
        others = tt;
        named = (same_share_iff share x).0 e;
        result = ground arith;
      }
      | inr e ↦ elim (Option-cases (replace_share share links)) [
        | inl e' ↦ ground arith
        | inr (ys, e') ↦ subst (FirstReplaced share (x ∷ links)) (ground arith) (
            later_replaced share x ((same_share_iff share x).1 e)
              (replace_share-some share links ys e'))
      ]
    ]

-- Putting a share into the list does one of three things. A share with neither an id nor a token
-- changes nothing. A share that has one, but that names no share of the list, is put in front.
-- Else the first share of the list that it names is replaced by it, and all others stay.
pub upsert_web_share_lem :
    (share : WebSharePayload) (links : List WebSharePayload)
    → ((share.id ≡ "") × (share.token ≡ "") × (upsert_web_share share links ≡ links))
      ⊎ (((share.id ≢ "") ⊎ (share.token ≢ ""))
          × All (λ x. ¬ Names share x) links
          × (upsert_web_share share links ≡ share ∷ links))
      ⊎ FirstReplaced share links (upsert_web_share share links)
unfolding upsert_web_share
upsert_web_share_lem share links =
    if_rule Put (share.id == "" && share.token == "") _ _
      (λ blank.
        inl (ground (arith, eq_iff share.id ""), ground (arith, eq_iff share.token ""), refl))
      (λ named.
        option_rule Put (replace_share share links) _ _
          (λ h. inr (
            inl (
              ground (arith, eq_iff share.id "", eq_iff share.token ""),
              replace_share-none share links h,
              refl,
            )))
          (λ replaced h. inr (inr (replace_share-some share links replaced h))))
  where
    Put : List WebSharePayload → Type 0
    Put l =
        ((share.id ≡ "") × (share.token ≡ "") × (l ≡ links))
        ⊎ (((share.id ≢ "") ⊎ (share.token ≢ ""))
            × All (λ x. ¬ Names share x) links
            × (l ≡ share ∷ links))
        ⊎ FirstReplaced share links l
