-- ===== src/Http/OneUse.antt =====
-- A ticket opens one WebSocket, the one it was issued for, and for thirty seconds.
use opendeploy.Common.{
  ℕ, ◌+◌, ◌≡◌, refl, ◌≢◌, Bool, true, false, Option, none, some, List, [], ◌∷◌, String, str_eq,
  str_eq_iff, str_eq_refl, ltb, if◌then◌else◌, All, arith, ◌∙◌,
}
use opendeploy.Common.Keyed.{lookup, remove, lookup-remove, lookup-insert}
use opendeploy.Http.Tickets.{
  WebsocketTicket, TicketStore, websocket_ticket_ttl, sweep_tickets, issue, consume,
}

pub data Call : Type 0 where
  issue_call : Option String → String → String → ℕ → Call
  consume_call : String → ℕ → Call

abbrev pub perform : Call → TicketStore → TicketStore
perform (issue_call token user server now) s = (issue token user server now s).1
perform (consume_call token now) s = (consume token now s).1

abbrev pub perform_all : List Call → TicketStore → TicketStore
perform_all [] s = s
perform_all (c ∷ cs) s = perform_all cs (perform c s)

-- the call does not draw this token
abbrev pub Spares : String → Call → Type 0
Spares token (issue_call t user server now) = t ≢ some token
Spares token (consume_call t now) = Unit

sweep_absent :
    (token : String) (now : ℕ) (s : TicketStore)
    → lookup token s ≡ none
    → lookup token (sweep_tickets now s) ≡ none
unfolding sweep_tickets lookup
sweep_absent token now [] h = refl
sweep_absent token now ((k, t) ∷ s) h = ground (arith, sweep_absent token now s)

perform_absent :
    (token : String) (c : Call) (s : TicketStore)
    → Spares token c
    → lookup token s ≡ none
    → lookup token (perform c s) ≡ none
unfolding issue consume
perform_absent token (issue_call none user server now) s spared h = h
perform_absent token (issue_call (some t) user server now) s spared h =
    lookup-insert t token _ (sweep_tickets now s) ∙ go _ (str_eq t token) refl
  where
    go :
        (x : WebsocketTicket) (b : Bool)
        → str_eq t token ≡ b
        → (if b then some x else lookup token (sweep_tickets now s)) ≡ none
    go x true e = absurd (spared (ground (arith, str_eq_iff t token)))
    go x false e = sweep_absent token now s h
perform_absent token (consume_call t now) s spared h = lookup-remove t token s ∙ ground arith

absent_after :
    (token : String) (cs : List Call) (s : TicketStore)
    → All (Spares token) cs
    → lookup token s ≡ none
    → lookup token (perform_all cs s) ≡ none
absent_after token [] s spared h = h
absent_after token (c ∷ cs) s spared h =
    absent_after token cs (perform c s) spared.1 (perform_absent token c s spared.0 h)

-- A ticket that was consumed, live or not, is refused at every later time, whatever was issued and
-- consumed in between, unless its token was drawn again.
pub consume_once :
    (token : String) (now later : ℕ) (cs : List Call) (s : TicketStore)
    → All (Spares token) cs
    → (consume token later (perform_all cs (consume token now s).1)).0 ≡ ("", false)
unfolding consume
consume_once token now later cs s spared = rw (
    absent_after token cs (remove token s) spared
      (lookup-remove token token s ∙ rw (str_eq_refl token)))

-- A ticket that was issued is accepted exactly until thirty seconds have passed, and names the server that
-- it was issued for, whatever tickets there were before.
pub consume-issue :
    (token user server : String) (now later : ℕ) (s : TicketStore)
    → (consume token later (issue (some token) user server now s).1).0
      ≡ (server, ltb later (now + websocket_ticket_ttl))
unfolding consume issue
consume-issue token user server now later s = rw (
  lookup-insert token token
      (record { user_id = user; server_id = server; expires_at = now + websocket_ticket_ttl })
      (sweep_tickets now s),
  str_eq_refl token,
)
