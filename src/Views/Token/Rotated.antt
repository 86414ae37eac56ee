-- ===== src/Views/Token/Rotated.antt =====
-- src/oauthclientbridge/views.py, `token`: the token request after a refresh that works.
use oauthclientbridge.Base.{some}
use oauthclientbridge.Base.Json.{Json, Object}
use oauthclientbridge.App.{App, World, Row}
use oauthclientbridge.Client.{ClientCredentials}
use oauthclientbridge.Db.{TokenRecord}
use oauthclientbridge.Views.Token.{modified_by}

-- The record that a lookup makes of a row after a refresh.
abbrev pub record_after : World → ClientCredentials → Object → Object → App → Row → TokenRecord
record_after w c old answer a row = record {
  client_id = c.client_id;
  encrypted_token =
      some (w.encrypt a.encryptions c.client_secret (w.json_dumps (modified_by old answer)));
  created_at = row.created_at;
  last_updated_at = some (w.utcnow a.statements);
}
