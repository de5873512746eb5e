-- ===== src/Relay/Stable/Web.antt =====
-- The handlers of webshare.go and webpeer.go keep every stable property.
use beacon_desk.Prelude.{
  ℕ, ◌*◌, ◌≤◌, ◌≡◌, ◌≢◌, refl, String, false, not, Option, none, some, arith, if_rule, option_rule,
  ◌==◌, eq_iff, is_some, ◌&&◌,
}
use beacon_desk.Prelude.Int.{ℤ, pos_part, neg_part}
use beacon_desk.Config.{minute, hour}
use beacon_desk.Maps.{
  lookup, delete, Entries-insert, Entries-delete, Entries-delete_where, insert-IsUnique,
  delete-IsUnique, delete_where-IsUnique,
}
use beacon_desk.Protocol.Types.{
  normalize_session_mode-IsMode, type_input_mouse, type_input_keyboard, type_stream_control,
  type_session_close, type_heartbeat_ping,
}
use beacon_desk.Protocol.Message.{Envelope}
use beacon_desk.Protocol.Payloads.{
  WebShareCreatePayload, decode_web_share_create, decode_web_share_revoke, decode_heartbeat,
}
use beacon_desk.Relay.State.{WebShare, Session, Server, Env, Error, Outcome}
use beacon_desk.Relay.Client.{get_client}
use beacon_desk.Relay.Hub.{get_session}
use beacon_desk.Relay.WebShare.{
  normalize_web_share_ttl, new_web_share, add_web_share, handle_web_share_create, is_over,
  list_web_shares, handle_web_share_list, find_revocable, revoke_web_share, handle_web_share_revoke,
  Active, active, inactive, get_active_web_share,
}
use beacon_desk.Relay.WebPeer.{
  request_controlled_approval, deliver_web, forward_web_input_message,
  forward_web_stream_control_message, handle_web_session_close, handle_web_ping, handle_web_message,
  start_web_peer, read_web_peer,
}
use beacon_desk.Relay.Kept.{Kept, Kept-pair, Kept-if, Kept-option}
use beacon_desk.Relay.Stable.{Stable, ShareOk}
use beacon_desk.Relay.Stable.Hub.{
  conn_write-Stable, send_or_error-Stable, send_web_or_error-Stable, send_peer-Stable,
  store_pending_request-Stable, touch_session-Stable, close_web_peer-Stable,
}
use beacon_desk.Relay.Stable.Handlers.{close_session-Stable}

-- Whatever lifetime is asked for, a share lives from a minute to a week.
pub normalize_web_share_ttl_bounds :
    (ttl : ℤ)
    → (minute ≤ pos_part (normalize_web_share_ttl ttl))
      × (pos_part (normalize_web_share_ttl ttl) ≤ 7 * 24 * hour)
      × (neg_part (normalize_web_share_ttl ttl) ≡ 0)
unfolding normalize_web_share_ttl
normalize_web_share_ttl_bounds ttl = ground arith

new_web_share-ShareOk :
    (s : Server) (env : Env) (c : ℕ) (payload : WebShareCreatePayload)
    → (s.client_at c).device_id ≢ ""
    → ShareOk (new_web_share s env c payload).token (new_web_share s env c payload)
unfolding new_web_share
new_web_share-ShareOk s env c payload named = (
  refl,
  normalize_session_mode-IsMode payload.mode,
  named,
  omega (arith, normalize_web_share_ttl_bounds),
  omega (arith, normalize_web_share_ttl_bounds),
)

module _ {ℓ} {P : Server → Type ℓ} {May : Session → Type 0} (S : Stable P May) where
  pub handle_web_share_create-Stable :
      (share_url : String → String) {s : Server} (env : Env) (c : ℕ) (msg : Envelope)
      → P s
      → Kept P (handle_web_share_create share_url s env c msg)
  unfolding handle_web_share_create add_web_share
  handle_web_share_create-Stable share_url {s} env c msg v =
      Kept-if ((s.client_at c).device_id == "") _ _ (λ _. Kept-pair _ v)
        (λ named.
          Kept-option (decode_web_share_create msg.payload) _ _ (λ _. Kept-pair _ v)
            (λ payload _. conn_write-Stable S c _ (
              S.on_shares _
                (Entries-insert ShareOk _ _ s.shares
                  (new_web_share-ShareOk s env c payload (not_empty named)))
                (insert-IsUnique _ _ s.shares) v)))
    where
      not_empty : ((s.client_at c).device_id == "") ≡ false → (s.client_at c).device_id ≢ ""
      not_empty h e = ground (arith, (eq_iff (s.client_at c).device_id "").1 e)

  delete_share-Stable :
      {s : Server} (k : String) → P s → P (record s { shares = delete k s.shares })
  delete_share-Stable {s} k v =
      S.on_shares _ (Entries-delete ShareOk k s.shares) (delete-IsUnique k s.shares) v

  pub handle_web_share_list-Stable :
      (share_url : String → String) {s : Server} (env : Env) (c : ℕ)
      → P s
      → Kept P (handle_web_share_list share_url s env c)
  unfolding handle_web_share_list list_web_shares
  handle_web_share_list-Stable share_url {s} env c v =
      Kept-if ((s.client_at c).device_id == "") _ _ (λ _. Kept-pair _ v)
        (λ _. conn_write-Stable S c _ (
          S.on_shares _ (Entries-delete_where ShareOk (is_over env.now) s.shares s.shares)
            (delete_where-IsUnique (is_over env.now) s.shares s.shares) v))

  pub handle_web_share_revoke-Stable :
      {s : Server} (env : Env) (c : ℕ) (msg : Envelope)
      → P s
      → Kept P (handle_web_share_revoke s env c msg)
  unfolding handle_web_share_revoke revoke_web_share
  handle_web_share_revoke-Stable {s} env c msg v =
      Kept-if ((s.client_at c).device_id == "") _ _ (λ _. Kept-pair _ v)
        (λ _.
          Kept-option (decode_web_share_revoke msg.payload) _ _ (λ _. Kept-pair _ v)
            (λ payload _.
              Kept-if (payload.id == "" && payload.token == "") _ _ (λ _. Kept-pair _ v)
                (λ _.
                  Kept-option (find_revocable (s.client_at c).device_id payload s.shares) _ _
                    (λ _. Kept-pair _ v)
                    (λ found _. conn_write-Stable S c _ (delete_share-Stable found.0 v)))))

  pub get_active_web_share-Stable :
      {s : Server} (env : Env) (token : String) → P s → P (get_active_web_share s env token).0
  unfolding get_active_web_share
  get_active_web_share-Stable {s} env token v =
      if_rule Left (token == "") _ _ (λ _. v)
        (λ _.
          option_rule Left (lookup token s.shares) _ _ (λ _. v)
            (λ share _.
              if_rule Left (is_over env.now share) _ _ (λ _. delete_share-Stable token v)
                (λ _.
                  if_rule Left (not (is_some (lookup share.controlled_id s.clients))) _ _ (λ _. v)
                    (λ _. v))))
    where
      Left : Server × Active → Type ℓ
      Left r = P r.0

  Kept-active :
      (r : Active) (f : Error → Outcome) (g : WebShare → Outcome)
      → ((e : Error) → Kept P (f e))
      → ((x : WebShare) → Kept P (g x))
      → Kept P (elim r [ inactive e ↦ f e | active x ↦ g x ])
  Kept-active (active x) f g kf kg = kg x
  Kept-active (inactive e) f g kf kg = kf e

  pub request_controlled_approval-Stable :
      {s : Server} (env : Env) (p : ℕ) → P s → Kept P (request_controlled_approval s env p)
  unfolding request_controlled_approval
  request_controlled_approval-Stable {s} env p v =
      let token = (s.peer_at p).share_token in
      let w : P (get_active_web_share s env token).0 = get_active_web_share-Stable env token v in
      Kept-active (get_active_web_share s env token).1 _ _ (λ e. Kept-pair _ w)
        (λ share.
          Kept-option (get_client (get_active_web_share s env token).0 (s.peer_at p).controlled) _ _
            (λ _. Kept-pair _ w)
            (λ target _.
              send_or_error-Stable S target _
                (store_pending_request-Stable S env _ _ _ (S.on_web_peers _ w))))

  deliver_web-Stable :
      {s : Server} (env : Env) (p : ℕ) (session : Session) (msg : Envelope)
      → P s
      → Kept P (deliver_web s env p session msg)
  unfolding deliver_web
  deliver_web-Stable {s} env p session msg v =
      Kept-option (get_client s session.controlled_id) _ _ (λ _. Kept-pair _ v)
        (λ target _. send_or_error-Stable S target _ (touch_session-Stable S env session.id v))

  forward_web_input_message-Stable :
      {s : Server} (env : Env) (p : ℕ) (msg : Envelope)
      → P s
      → Kept P (forward_web_input_message s env p msg)
  unfolding forward_web_input_message
  forward_web_input_message-Stable {s} env p msg v =
      Kept-option (get_session s msg.session_id) _ _ (λ _. Kept-pair _ v)
        (λ session _.
          Kept-if (not session.input_allowed) _ _ (λ _. Kept-pair _ v)
            (λ _.
              Kept-if (not ((s.peer_at p).id == session.controller_id)) _ _ (λ _. Kept-pair _ v)
                (λ _. deliver_web-Stable env p session msg v)))

  forward_web_stream_control_message-Stable :
      {s : Server} (env : Env) (p : ℕ) (msg : Envelope)
      → P s
      → Kept P (forward_web_stream_control_message s env p msg)
  unfolding forward_web_stream_control_message
  forward_web_stream_control_message-Stable {s} env p msg v =
      Kept-option (get_session s msg.session_id) _ _ (λ _. Kept-pair _ v)
        (λ session _.
          Kept-if (not ((s.peer_at p).id == session.controller_id)) _ _ (λ _. Kept-pair _ v)
            (λ _. deliver_web-Stable env p session msg v))

  pub handle_web_message-Stable :
      {s : Server} (env : Env) (p : ℕ) (msg : Envelope)
      → P s
      → Kept P (handle_web_message s env p msg)
  unfolding handle_web_message handle_web_session_close handle_web_ping
  handle_web_message-Stable {s} env p msg v =
      let input : Kept P (forward_web_input_message s env p msg) =
        forward_web_input_message-Stable env p msg v in
      Kept-if (msg.type == type_input_mouse) _ _ (λ _. input)
        (λ _.
          Kept-if (msg.type == type_input_keyboard) _ _ (λ _. input)
            (λ _.
              Kept-if (msg.type == type_stream_control) _ _
                (λ _. forward_web_stream_control_message-Stable env p msg v)
                (λ _.
                  Kept-if (msg.type == type_session_close) _ _
                    (λ _. close_session-Stable S env msg.session_id "closed by web peer" v)
                    (λ _.
                      Kept-if (msg.type == type_heartbeat_ping) _ _
                        (λ _.
                          Kept-option (decode_heartbeat msg.payload) _ _ (λ _. Kept-pair _ v)
                            (λ payload _. send_web_or_error-Stable S p _ v))
                        (λ _. Kept-pair _ v)))))

  pub start_web_peer-Stable :
      (render : Error → String) {s : Server} (env : Env) (p : ℕ)
      → P s
      → P (start_web_peer render s env p)
  unfolding start_web_peer
  start_web_peer-Stable render {s} env p v =
      let asked : P (request_controlled_approval s env p).0 =
        (request_controlled_approval-Stable env p v).at in
      option_rule P (request_controlled_approval s env p).1 _ _ (λ _. send_peer-Stable S p _ asked)
        (λ e _. close_web_peer-Stable S env p (send_peer-Stable S p _ asked))

  pub read_web_peer-Stable :
      (render : Error → String) {s : Server} (env : Env) (p : ℕ) (msg : Option Envelope)
      → P s
      → P (read_web_peer render s env p msg)
  unfolding read_web_peer
  read_web_peer-Stable render env p none v = close_web_peer-Stable S env p v
  read_web_peer-Stable render {s} env p (some msg) v =
      let handled : P (handle_web_message s env p msg).0 =
        (handle_web_message-Stable env p msg v).at in
      option_rule P (handle_web_message s env p msg).1 _ _ (λ _. handled)
        (λ e _. send_peer-Stable S p _ handled)
