-- ===== src/Http/Examples.antt =====
-- The theorems about tickets and limits at concrete calls.
use opendeploy.Common.{◌+◌, ◌*◌, ◌≡◌, ◌≤◌, false, some, List, [], ◌∷◌, ltb, arith}
use opendeploy.Http.Tickets.{TicketStore, WebsocketTicket, websocket_ticket_ttl, issue, consume}
use opendeploy.Http.OneUse.{
  Call, issue_call, consume_call, perform_all, consume_once, consume-issue,
}
use opendeploy.Http.Limiter.{ClientLimiter, minute, new_client_limiter}
use opendeploy.Http.Credit.{Event, wait, request, tidy, granted, waited, granted_bounded}

abbrev ticket : WebsocketTicket
ticket = record { user_id = "u1"; server_id = "srv"; expires_at = 50 }

abbrev store : TicketStore
store = ("tok", ticket) ∷ []

abbrev between : List Call
between = issue_call (some "other") "u2" "srv2" 11 ∷ consume_call "other" 12 ∷ []

consume_once_example :
    (consume "tok" 13 (perform_all between (consume "tok" 10 store).1)).0 ≡ ("", false)
consume_once_example = consume_once "tok" 10 13 between store ((λ e. cc), (tt, tt))

consume-issue_example :
    (consume "new" 20 (issue (some "new") "u1" "local" 10 store).1).0
    ≡ ("local", ltb 20 (10 + websocket_ticket_ttl))
consume-issue_example = consume-issue "new" "u1" "local" 10 20 store

abbrev run : List Event
run = request "a" ∷ request "a" ∷ request "b" ∷ request "a" ∷ wait minute ∷ tidy ∷ request "a" ∷ []

granted_bounded_example :
    granted "a" run 0 (new_client_limiter 2) * minute ≤ 2 * (minute + waited run)
granted_bounded_example = granted_bounded 2 "a" run 0 (omega arith)

abbrev limiter : ClientLimiter
limiter = record { buckets = ("a", record { tokens = 0; last_seen = 0 }) ∷ []; limit = 5 }
