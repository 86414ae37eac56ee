-- ===== src/Views/Flow.antt =====
-- src/oauthclientbridge/views.py: the three routes in turn, from a user who authorises to a client that
-- gets the token.
use oauthclientbridge.App.{App}
