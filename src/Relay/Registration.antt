-- ===== src/Relay/Registration.antt =====
-- hub.go and server.go: what a registration does to the map of clients.
use beacon_desk.Prelude.{
  ℕ, ◌≤◌, ◌<◌, ◌≡◌, ◌≢◌, ◌⊎◌, inl, inr, Option-cases, Bool-cases, string_test, ◌∙◌, true, ◌&&◌,
  none, some, eq_refl, arith, ltb, leb, length,
}
use beacon_desk.Prelude.Int.{pos_part}
use beacon_desk.Maps.{lookup, insert, lookup-insert}
use beacon_desk.Relay.Purge.{unregister-keeps}
use beacon_desk.Relay.State.{set_client, Server, Env}
use beacon_desk.Relay.Hub.{register, close_client}

-- A registration is refused, and changes nothing, for a client without a name, or where the number
-- of clients is limited and that many are registered, even if one of them has this name; in all
-- other cases it succeeds.
pub register-refuses :
    (s : Server) (env : Env) (c : ℕ)
    → ((((s.client_at c).device_id ≡ "")
          ⊎ ((0 < pos_part s.cfg.max_clients) × (pos_part s.cfg.max_clients ≤ length s.clients)))
        × ((register s env c).1 ≢ none)
        × ((register s env c).0 ≡ s))
      ⊎ (((s.client_at c).device_id ≢ "")
          × ((pos_part s.cfg.max_clients ≡ 0) ⊎ (length s.clients < pos_part s.cfg.max_clients))
          × ((register s env c).1 ≡ none))
unfolding register
register-refuses s env c =
    let device = (s.client_at c).device_id in
    let limit = pos_part s.cfg.max_clients in
    elim (string_test device "") [
      | inl (e, t) ↦ inl (inl e, ground arith, ground arith)
      | inr (n, t) ↦ elim (Bool-cases (ltb 0 limit && leb limit (length s.clients))) [
        | inl full ↦ inl (inr (ground arith, ground arith), ground arith, ground arith)
        | inr room ↦ inr (n, ground arith, ground arith)
      ]
    ]

-- A registration that succeeds makes the client the one that its name leads to, whichever client
-- had the name before and although that one is closed.
pub register-lookup :
    (s : Server) (env : Env) (c : ℕ)
    → (register s env c).1 ≡ none
    → lookup (s.client_at c).device_id (register s env c).0.clients ≡ some c
unfolding register close_client
register-lookup s env c h =
    let device = (s.client_at c).device_id in
    let s' = record s { clients = insert device c s.clients } in
    let found : lookup device s'.clients ≡ some c =
      lookup-insert device device c s.clients ∙ ground (arith, eq_refl device) in
    elim (Option-cases (lookup device s.clients)) [
      | inl e ↦ ground arith
      | inr (old, e) ↦
          let x = s'.client_at old in
          let s'' = set_client s' old (record x { closed = true; conn_closed = true }) in
          ground (arith, unregister-keeps s'' env old c device found)
    ]
