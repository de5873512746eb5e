-- ===== src/Protocol/Payloads/Shares.antt =====
-- message.go: web shares.
use beacon_desk.Prelude.{String, Bool, Option, some, List, [], ◌∷◌, ◌>>=◌}
use beacon_desk.Prelude.Int.{ℤ}
use beacon_desk.Protocol.Json.{
  Json, Items, int, text, array, object, nil, item, end, field, string_field, int_field, raw_fields,
  omit_empty, omit_false,
}

pub record WebShareCreatePayload : Type 0 where
  pub ttl_millis : ℤ
  pub mode : String
  pub label : String

unfoldable pub decode_web_share_create : Option Json → Option WebShareCreatePayload
decode_web_share_create raw = do
  fields ← raw_fields raw
  ttl_millis ← int_field "ttl_ms" fields
  mode ← string_field "mode" fields
  label ← string_field "label" fields
  some (record { ttl_millis = ttl_millis; mode = mode; label = label })

pub record WebSharePayload : Type 0 where
  pub id : String
  pub token : String
  pub url : String
  pub controlled_id : String
  pub controlled_name : String
  pub mode : String
  pub label : String
  pub created_at : ℤ
  pub expires_at : ℤ
  pub revoked : Bool

unfoldable pub encode_web_share : WebSharePayload → Json
encode_web_share p = object (
    field "id" (text p.id) (
      omit_empty "token" p.token (
        omit_empty "url" p.url (
          field "controlled_id" (text p.controlled_id) (
            omit_empty "controlled_name" p.controlled_name (
              field "mode" (text p.mode) (
                omit_empty "label" p.label (
                  field "created_at" (int p.created_at) (
                    field "expires_at" (int p.expires_at)
                      (omit_false "revoked" p.revoked end))))))))))

pub record WebShareCreatedPayload : Type 0 where
  pub share : WebSharePayload
  pub message : String

unfoldable pub encode_web_share_created : WebShareCreatedPayload → Json
encode_web_share_created p =
    object (field "share" (encode_web_share p.share) (field "message" (text p.message) end))

pub record WebShareListResultPayload : Type 0 where
  pub shares : List WebSharePayload

encode_shares : List WebSharePayload → Items
encode_shares [] = nil
encode_shares (p ∷ ps) = item (encode_web_share p) (encode_shares ps)

unfoldable pub encode_web_share_list_result : WebShareListResultPayload → Json
unfolding encode_shares
encode_web_share_list_result p = object (field "shares" (array (encode_shares p.shares)) end)

pub record WebShareRevokePayload : Type 0 where
  pub id : String
  pub token : String

unfoldable pub decode_web_share_revoke : Option Json → Option WebShareRevokePayload
decode_web_share_revoke raw = do
  fields ← raw_fields raw
  id ← string_field "id" fields
  token ← string_field "token" fields
  some (record { id = id; token = token })

pub record WebShareRevokedPayload : Type 0 where
  pub id : String
  pub token : String
  pub message : String

unfoldable pub encode_web_share_revoked : WebShareRevokedPayload → Json
encode_web_share_revoked p =
    object
      (omit_empty "id" p.id (omit_empty "token" p.token (field "message" (text p.message) end)))

pub record WebShareStatusPayload : Type 0 where
  pub id : String
  pub token : String
  pub status : String
  pub message : String

unfoldable pub encode_web_share_status : WebShareStatusPayload → Json
encode_web_share_status p = object (
    omit_empty "id" p.id (
      omit_empty "token" p.token
        (field "status" (text p.status) (omit_empty "message" p.message end))))
