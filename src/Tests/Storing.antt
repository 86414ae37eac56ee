-- ===== src/Tests/Storing.antt =====
-- src/oauthclientbridge/db.py: the operations on a table of one row.
use oauthclientbridge.Base.{◌+◌, ◌≡◌, refl, none, some, List, [], ◌∷◌}
use oauthclientbridge.App.{App, Row}
use oauthclientbridge.Db.{find, count_states}
use oauthclientbridge.Db.Table.{IsKeyed, count_states_total}
use oauthclientbridge.Db.Refinement.{
  Command, insert_token, lookup_token, update_token, Rows, perform_all, serve_all, Represents,
  perform_all-serve_all,
}
use oauthclientbridge.Tests.{world, app, row, no_session, uuid}

abbrev one : List Row
one = row (some "t") ∷ []

abbrev held : App
held = app one no_session

count_states_total_example : (count_states one).present + (count_states one).revoked ≡ 1
count_states_total_example = count_states_total one

-- A duplicate, a revocation, a lookup and an unknown identifier.
abbrev script : List Command
script =
    insert_token uuid "t"
    ∷ insert_token "b" "u"
    ∷ update_token uuid none
    ∷ lookup_token uuid
    ∷ update_token "c" none
    ∷ []

abbrev view : Rows
view id = find id one

perform_all-serve_all_example :
    ((perform_all world script held).0 ≡ (serve_all world 0 script view).0)
    × Represents (perform_all world script held).1.tokens (serve_all world 0 script view).1
    × IsKeyed (perform_all world script held).1.tokens
perform_all-serve_all_example =
    perform_all-serve_all world script held view (unfold find in refl, tt) (λ id. refl)
